-- ===== src/Queue/Monitor/Spacing.antt =====
-- The lag alerts of one consumer over a series of checks.
use vox_streaming.Base.{
  ℕ, ◌+◌, ◌≤◌, ◌<◌, ◌≡◌, refl, true, List, [], ◌∷◌, Option, none, some, arith, if_ind,
}
use vox_streaming.Base.Int.{ℤ, pos, ltb_ℤ, saturate64}
use vox_streaming.Base.Clock.{Time, sub}
use vox_streaming.Base.Eq.{eq_refl}
use vox_streaming.Base.Store.{lookup, lookup-insert, lookup-remove}
use vox_streaming.Queue.Monitor.Defs.{
  ConsumerKey, eq_consumer_key, AlertConfig, Alert, Monitor, lag_alert, lag_exceeded,
  check_lag_alert,
}

-- The checks of one consumer, a time and a lag each.
unfoldable pub run_checks : ConsumerKey → AlertConfig → List (Time × ℤ) → Monitor → Monitor
unfolding check_lag_alert
run_checks key cfg [] m = m
run_checks key cfg ((now, lag) ∷ cs) m = run_checks key cfg cs (check_lag_alert now key lag cfg m)

abbrev pub InOrder : Time → List (Time × ℤ) → Type 0
InOrder t [] = Unit
InOrder t ((now, lag) ∷ cs) = (t ≤ now) × InOrder now cs

-- An alert and the ones before it: more than `d` apart, and each for a lag above the threshold.
abbrev pub Spaced : ℕ → ℤ → List Alert → Type 0
Spaced d limit [] = Unit
Spaced d limit (a ∷ []) = ltb_ℤ limit a.value ≡ true
Spaced d limit (a ∷ b ∷ old) =
    (ltb_ℤ limit a.value ≡ true) × (b.fired_at + d < a.fired_at) × Spaced d limit (b ∷ old)

-- The newest alert is no later than a time.
abbrev NewestBy : Time → List Alert → Type 0
NewestBy t [] = Unit
NewestBy t (a ∷ old) = a.fired_at ≤ t

abbrev SinceFits : List Alert → Time → Option Time → Type 0
SinceFits old t none = Unit
SinceFits old t (some since) = NewestBy since old × (since ≤ t)

record Fits (key : ConsumerKey) (d : ℕ) (limit : ℤ) (t : Time) (m : Monitor) : Type 0 where
  spaced : Spaced d limit m.fired
  newest : NewestBy t m.fired
  since : SinceFits m.fired t (lookup key m.lag_exceeded_since)

NewestBy-mono : (t u : Time) (old : List Alert) → t ≤ u → NewestBy t old → NewestBy u old
NewestBy-mono t u [] h k = tt
NewestBy-mono t u (a ∷ old) h k = omega arith

sub_above : (d t u : ℕ) → ltb_ℤ (pos d) (sub t u) ≡ true → u + d < t
unfolding sub saturate64
sub_above d t u h = ground arith

fire-Spaced :
    (d since now : ℕ) (limit : ℤ) (a : Alert) (old : List Alert)
    → a.fired_at ≡ now
    → ltb_ℤ limit a.value ≡ true
    → since + d < now
    → NewestBy since old
    → Spaced d limit old
    → Spaced d limit (a ∷ old)
fire-Spaced d since now limit a [] e v h n s = v
fire-Spaced d since now limit a (b ∷ bs) e v h n s = (v, omega arith, s)

check-Fits :
    (key : ConsumerKey) (cfg : AlertConfig) (d t now : ℕ) (lag : ℤ) (m : Monitor)
    → cfg.lag_duration ≡ pos d
    → t ≤ now
    → Fits key d cfg.lag_threshold t m
    → Fits key d cfg.lag_threshold now (check_lag_alert now key lag cfg m)
unfolding check_lag_alert lag_exceeded
check-Fits key cfg d t now lag m ed le v =
    if_ind (Fits key d cfg.lag_threshold now) (ltb_ℤ cfg.lag_threshold lag)
      (λ above. go above (lookup key m.lag_exceeded_since) refl v.since)
      (λ _. record {
        spaced = v.spaced;
        newest = NewestBy-mono t now m.fired le v.newest;
        since = rw (lookup-remove key key m.lag_exceeded_since, eq_refl key) tt;
      })
  where
    newest_now : NewestBy now m.fired
    newest_now = NewestBy-mono t now m.fired le v.newest

    go :
        ltb_ℤ cfg.lag_threshold lag ≡ true
        → (o : Option Time) → lookup key m.lag_exceeded_since ≡ o
        → SinceFits m.fired t o
        → Fits key d cfg.lag_threshold now (lag_exceeded o now key lag cfg m)
    go above none e s = record {
      spaced = v.spaced;
      newest = newest_now;
      since =
          rw (lookup-insert key key now m.lag_exceeded_since, eq_refl key)
            (newest_now, omega arith);
    }
    go above (some since) e s =
        if_ind (Fits key d cfg.lag_threshold now) (ltb_ℤ cfg.lag_duration (sub now since))
          (λ long.
            let gap : since + d < now = sub_above d now since (rw ed at long) in
            record {
              spaced =
                  fire-Spaced d since now cfg.lag_threshold (lag_alert now key lag cfg) m.fired refl
                    above gap s.0 v.spaced;
              newest = omega arith;
              since =
                  rw (lookup-insert key key now m.lag_exceeded_since, eq_refl key)
                    (omega arith, omega arith);
            })
          (λ _. record { spaced = v.spaced; newest = newest_now; since = rw e (s.0, omega arith) })

run-Fits :
    (key : ConsumerKey) (cfg : AlertConfig) (d : ℕ) (cs : List (Time × ℤ)) (t : Time) (m : Monitor)
    → cfg.lag_duration ≡ pos d
    → InOrder t cs
    → Fits key d cfg.lag_threshold t m
    → Spaced d cfg.lag_threshold (run_checks key cfg cs m).fired
unfolding run_checks
run-Fits key cfg d [] t m e o v = v.spaced
run-Fits key cfg d ((now, lag) ∷ cs) t m e o v =
    run-Fits key cfg d cs now (check_lag_alert now key lag cfg m) e o.1
      (check-Fits key cfg d t now lag m e o.0 v)

-- From a monitor that has fired nothing, the lag alerts of a consumer are each for a lag above its
-- threshold, and any two of them are more than its lag duration apart, whatever the checks see.
pub lag_alerts-Spaced :
    (key : ConsumerKey) (cfg : AlertConfig) (d : ℕ) (cs : List (Time × ℤ)) (m : Monitor)
    → cfg.lag_duration ≡ pos d
    → InOrder 0 cs
    → m.fired ≡ []
    → lookup key m.lag_exceeded_since ≡ none
    → Spaced d cfg.lag_threshold (run_checks key cfg cs m).fired
lag_alerts-Spaced key cfg d cs m e o quiet fresh =
    run-Fits key cfg d cs 0 m e o
      (record { spaced = rw quiet tt; newest = rw quiet tt; since = rw fresh tt })
