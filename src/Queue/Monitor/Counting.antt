-- ===== src/Queue/Monitor/Counting.antt =====
-- The dead-letter alerts of one consumer, counted.
use vox_streaming.Base.{
  ℕ, suc, ◌+◌, ◌*◌, ◌-◌, ◌^◌, ◌<◌, ◌≡◌, List, [], ◌∷◌, Option, none, some, arith, if_ind, length,
  ap, ◌∙◌, subst,
}
use vox_streaming.Base.Int.{ℤ, pos, leb_ℤ, ◌+ℤ◌, wrap64, wrap64_fits}
use vox_streaming.Base.Clock.{Time}
use vox_streaming.Base.Eq.{eq_refl}
use vox_streaming.Base.Store.{lookup, insert, lookup-insert}
use vox_streaming.Queue.Monitor.Defs.{
  ConsumerKey, eq_consumer_key, AlertConfig, Monitor, next_count, count_of, record_dlq, dlq_alert,
}

-- The dead letters of one consumer, at the times of a list.
unfoldable pub record_dlqs : List Time → ConsumerKey → Monitor → Monitor
unfolding record_dlq
record_dlqs [] key m = m
record_dlqs (now ∷ ts) key m = record_dlqs ts key (record_dlq now key m)

-- The letters so far, as whole batches that were alerted and a rest that was not.
record Accounts (key : ConsumerKey) (threshold : ℕ) (n : ℕ) (m : Monitor) : Type 0 where
  rest : ℕ
  counted : count_of (lookup key m.dlq_count) ≡ pos rest
  below : rest < threshold
  total : length m.fired * threshold + rest ≡ n

add_one : (a : ℤ) (k : ℕ) → a ≡ pos k → a +ℤ pos 1 ≡ pos (suc k)
unfolding ◌+ℤ◌
add_one a k e = ground arith

next_of : (n : Option ℤ) (k : ℕ) → count_of n ≡ pos k → k < 2 ^ 63 - 1 → next_count n ≡ pos (suc k)
next_of n k e h = ap wrap64 (add_one (count_of n) k e) ∙ wrap64_fits (suc k) (omega arith)

dlq_alert-Accounts :
    (now : Time) (key : ConsumerKey) (cfg : AlertConfig) (threshold n rest : ℕ) (m : Monitor)
    → cfg.dlq_threshold ≡ pos threshold
    → rest < threshold
    → length m.fired * threshold + rest ≡ n
    → lookup key m.dlq_count ≡ some (pos (suc rest))
    → Accounts key threshold (suc n) (dlq_alert now key (pos (suc rest)) cfg m)
unfolding dlq_alert
dlq_alert-Accounts now key cfg threshold n rest m et below total stored =
    if_ind (Accounts key threshold (suc n)) (leb_ℤ cfg.dlq_threshold (pos (suc rest)))
      (λ reached.
        let full : suc rest ≡ threshold = ground arith in
        record {
          rest = 0;
          counted = rw (lookup-insert key key (pos 0) m.dlq_count, eq_refl key);
          below = omega arith;
          total = omega arith;
        })
      (λ short. record {
        rest = suc rest;
        counted = rw stored;
        below = ground arith;
        total = omega arith;
      })

record_dlq-Accounts :
    (now : Time) (key : ConsumerKey) (cfg : AlertConfig) (threshold n : ℕ) (m : Monitor)
    → cfg.dlq_threshold ≡ pos threshold
    → threshold < 2 ^ 63
    → lookup key m.alert_configs ≡ some cfg
    → Accounts key threshold n m
    → Accounts key threshold (suc n) (record_dlq now key m)
unfolding record_dlq
record_dlq-Accounts now key cfg threshold n m et small ec v =
    let e = next_of (lookup key m.dlq_count) v.rest v.counted (omega (arith, v.below)) in
    rw (e, ec)
      (dlq_alert-Accounts now key cfg threshold n v.rest
        (record m { dlq_count = insert key (pos (suc v.rest)) m.dlq_count }) et v.below v.total
        (rw (lookup-insert key key (pos (suc v.rest)) m.dlq_count, eq_refl key)))

record_dlq-configs :
    (now : Time) (key : ConsumerKey) (m : Monitor)
    → (record_dlq now key m).alert_configs ≡ m.alert_configs
unfolding record_dlq dlq_alert
record_dlq-configs now key m = ground arith

dlqs-Accounts :
    (ts : List Time) (key : ConsumerKey) (cfg : AlertConfig) (threshold n : ℕ) (m : Monitor)
    → cfg.dlq_threshold ≡ pos threshold
    → threshold < 2 ^ 63
    → lookup key m.alert_configs ≡ some cfg
    → Accounts key threshold n m
    → Accounts key threshold (n + length ts) (record_dlqs ts key m)
unfolding record_dlqs
dlqs-Accounts [] key cfg threshold n m et small ec v =
    subst (λ (k : ℕ). Accounts key threshold k m) (omega arith) v
dlqs-Accounts (now ∷ ts) key cfg threshold n m et small ec v =
    subst (λ (k : ℕ). Accounts key threshold k (record_dlqs ts key (record_dlq now key m)))
      (omega arith)
      (dlqs-Accounts ts key cfg threshold (suc n) (record_dlq now key m) et small
        (ap (lookup key) (record_dlq-configs now key m) ∙ ec)
        (record_dlq-Accounts now key cfg threshold n m et small ec v))

-- From a monitor that has fired nothing and counted nothing, n dead letters of a configured consumer
-- fire one alert for each full batch of the threshold, and leave the rest counted.
pub dead_letter_alerts :
    (ts : List Time) (key : ConsumerKey) (cfg : AlertConfig) (threshold : ℕ) (m : Monitor)
    → cfg.dlq_threshold ≡ pos threshold
    → 0 < threshold
    → threshold < 2 ^ 63
    → lookup key m.alert_configs ≡ some cfg
    → lookup key m.dlq_count ≡ none
    → m.fired ≡ []
    → (rest : ℕ) × (count_of (lookup key (record_dlqs ts key m).dlq_count) ≡ pos rest)
      × (rest < threshold)
      × (length (record_dlqs ts key m).fired * threshold + rest ≡ length ts)
dead_letter_alerts ts key cfg threshold m et positive small ec fresh quiet =
    let v =
      dlqs-Accounts ts key cfg threshold 0 m et small ec (record {
        rest = 0;
        counted = rw fresh;
        below = positive;
        total = rw quiet (omega arith);
      }) in
    (v.rest, v.counted, v.below, omega (arith, v.total))
