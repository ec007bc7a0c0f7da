-- ===== src/Queue/Consumer/Commits.antt =====
-- What a committed offset says of its message, over every run of the loop.
use vox_streaming.Base.{
  ℕ, zero, suc, ◌≤◌, ◌≡◌, refl, ◌≢◌, ◌⊎◌, inl, inr, Bool, true, false, not, ◌&&◌, ◌||◌, List, [],
  ◌∷◌, Option, none, some, arith, ltb, leb, ◌==◌, if◌then◌else◌, if_ind, Option-cases, Elem, sym,
}
use vox_streaming.Base.Failure.{Error, Fault}
use vox_streaming.Queue.Monitor.{Monitor}
use vox_streaming.Queue.Consumer.Defs.{
  Message, Delivery, handle_with_retry, Consumer, Processed, count_dlq_failure, poison_pill,
  after_dead_letter, process_handled, process_message, Turn, fetched, fetch_failed, Loop, Next,
  goes_on, returns, commit, after_processing, turn, run,
}
use vox_streaming.Queue.Consumer.Retrying.{handle_with_retry-Accounted}

-- A consumer that never gives a message up: it has a dead-letter topic, no limit that commits past
-- one, and does not commit when a dead letter is lost.
abbrev pub Careful : Consumer → Type 0
Careful c = (c.has_dlq ≡ true) × (c.commit_on_dlq_failure ≡ false) × (c.max_dlq_fails ≡ 0)

-- The turn delivered the message at an offset: an attempt of the handler succeeded, or the message
-- was written to the dead-letter topic.
abbrev pub Delivered : Turn → ℕ → Type 0
Delivered (fetched msg w fault ended) o =
    (o ≡ msg.offset) × (((j : ℕ) × (1 ≤ j) × (w.handler j ≡ none)) ⊎ (w.dlq_send ≡ none))
Delivered (fetch_failed now ended ended_in_pause) o = ⊥

abbrev pub DeliveredIn : List Turn → ℕ → Type 0
DeliveredIn [] o = ⊥
DeliveredIn (t ∷ ts) o = Delivered t o ⊎ DeliveredIn ts o

-- What a turn may do: stay careful, and commit only what it delivered.
abbrev Kept : Turn → Loop → Next → Type 0
Kept t l (goes_on l') =
    Careful l'.consumer × ((o : ℕ) → Elem o l'.committed → Elem o l.committed ⊎ Delivered t o)
Kept t l (returns l') =
    Careful l'.consumer × ((o : ℕ) → Elem o l'.committed → Elem o l.committed ⊎ Delivered t o)

abbrev Safe : Delivery → Processed → Type 0
Safe w p =
    Careful p.consumer
    × (p.safe_to_commit ≡ true → ((j : ℕ) × (1 ≤ j) × (w.handler j ≡ none)) ⊎ (w.dlq_send ≡ none))

count_dlq_failure-Careful : (o : ℕ) (c : Consumer) → Careful c → Careful (count_dlq_failure o c)
unfolding count_dlq_failure
count_dlq_failure-Careful o c h =
    if_ind (λ (x : Consumer). Careful x) (not (o == c.last_fail_offset)) (λ _. h) (λ _. h)

poison_pill-Safe :
    (w : Delivery) (c : Consumer) (m : Option Monitor) → Careful c → Safe w (poison_pill c m)
unfolding poison_pill
poison_pill-Safe w c m h =
    if_ind (λ (p : Processed). Safe w p)
      (ltb 0 c.max_dlq_fails && leb c.max_dlq_fails c.dlq_fail_count)
      (λ e. (h, λ _. absurd (ground (arith, h.2)))) (λ _. (h, λ s. cc))

process_handled-Safe :
    (e : Fault) (w : Delivery) (msg : Message) (c : Consumer) (m : Option Monitor) (max : ℕ)
    → e ≡ (handle_with_retry w max).error
    → Careful c
    → Safe w (process_handled e w msg c m)
unfolding process_handled after_dead_letter
process_handled-Safe none w msg c m max he h =
    let a = handle_with_retry-Accounted w max in
    (h, λ _. inl ((handle_with_retry w max).attempts, a.0, from a.3))
  where
    from :
        ((((handle_with_retry w max).error ≡ none)
            × (w.handler (handle_with_retry w max).attempts ≡ none))
          ⊎ (((handle_with_retry w max).error ≢ none)
              × ((w.handler (handle_with_retry w max).attempts ≢ none)
                  ⊎ (w.cancelled (handle_with_retry w max).attempts ≢ none))))
        → w.handler (handle_with_retry w max).attempts ≡ none
    from (inl p) = p.1
    from (inr p) = absurd (p.0 (sym he))
process_handled-Safe (some e) w msg c m max he h =
    if_ind (λ (p : Processed). Safe w p) c.has_dlq (λ _. sent w.dlq_send refl) (λ n. cc)
  where
    sent : (f : Fault) → w.dlq_send ≡ f → Safe w (after_dead_letter f w msg.offset c m)
    sent none eq = (h, λ _. inr eq)
    sent (some x) eq =
        poison_pill-Safe w (count_dlq_failure msg.offset c) m
          (count_dlq_failure-Careful msg.offset c h)

turn-Kept : (t : Turn) (l : Loop) → Careful l.consumer → Kept t l (turn t l)
unfolding turn process_message commit after_processing
turn-Kept (fetched msg w fault ended) l h =
    processed (process_message w msg l.consumer l.monitor) (safe refl)
  where
    safe :
        (handle_with_retry w l.consumer.max_retries).error
          ≡ (handle_with_retry w l.consumer.max_retries).error
        → Safe w (process_message w msg l.consumer l.monitor)
    safe e = process_handled-Safe _ w msg l.consumer l.monitor l.consumer.max_retries e h

    committed_now :
        (p : Processed)
        → Safe w p
        → p.safe_to_commit ≡ true
        → (f : Fault)
        → Kept (fetched msg w fault ended) l (
            commit f ended msg.offset
              (record { consumer = p.consumer; monitor = p.monitor; committed = l.committed }))
    committed_now p s e none = (s.0, go)
      where
        go :
            (o : ℕ)
            → Elem o (msg.offset ∷ l.committed)
            → Elem o l.committed ⊎ Delivered (fetched msg w fault ended) o
        go o (inl q) = inr (q, s.1 e)
        go o (inr q) = inl q
    committed_now p s e (some x) =
        if_ind (λ (n : Next). Kept (fetched msg w fault ended) l n) ended (λ _. (s.0, λ o q. inl q))
          (λ _. (s.0, λ o q. inl q))

    processed :
        (p : Processed)
        → Safe w p
        → Kept (fetched msg w fault ended) l (after_processing fault ended msg.offset p l.committed)
    processed p s =
        if_ind (λ (n : Next). Kept (fetched msg w fault ended) l n)
          (p.safe_to_commit || p.consumer.commit_on_dlq_failure)
          (λ e. committed_now p s (ground (arith, s.0.1)) fault) (λ _. (s.0, λ o q. inl q))
turn-Kept (fetch_failed now ended ended_in_pause) l h =
    if_ind (λ (n : Next). Kept (fetch_failed now ended ended_in_pause) l n) ended
      (λ _. (h, λ o q. inl q))
      (λ _.
        if_ind (λ (n : Next). Kept (fetch_failed now ended ended_in_pause) l n) ended_in_pause
          (λ _. (h, λ o q. inl q)) (λ _. (h, λ o q. inl q)))

-- A consumer with a dead-letter topic that neither commits on a lost dead letter nor has a limit of
-- them commits only what was committed before and the offsets of messages that some attempt of the
-- handler handled or that the dead-letter topic took, in every run.
pub run-delivers :
    (ts : List Turn) (l : Loop)
    → Careful l.consumer
    → (o : ℕ) → Elem o (run ts l).0.committed
    → Elem o l.committed ⊎ DeliveredIn ts o
unfolding run
run-delivers [] l h o q = inl q
run-delivers (t ∷ ts) l h o q = go (turn t l) (turn-Kept t l h) q (λ l' h'. run-delivers ts l' h' o)
  where
    moved : Elem o l.committed ⊎ Delivered t o → Elem o l.committed ⊎ DeliveredIn (t ∷ ts) o
    moved (inl a) = inl a
    moved (inr a) = inr (inl a)

    later :
        (l' : Loop)
        → (Elem o l'.committed → Elem o l.committed ⊎ Delivered t o)
        → (Elem o l'.committed ⊎ DeliveredIn ts o)
        → Elem o l.committed ⊎ DeliveredIn (t ∷ ts) o
    later l' k (inl a) = moved (k a)
    later l' k (inr a) = inr (inr a)

    go :
        (n : Next)
        → Kept t l n
        → Elem o
            (elim n as (λ (x : Next). Loop × Bool) [
              | returns l' ↦ (l', true)
              | goes_on l' ↦ run ts l'
            ]).0.committed
        → ((l' : Loop)
            → Careful l'.consumer
            → Elem o (run ts l').0.committed
            → Elem o l'.committed ⊎ DeliveredIn ts o)
        → Elem o l.committed ⊎ DeliveredIn (t ∷ ts) o
    go (goes_on l') k q ih = later l' (k.1 o) (ih l' k.0 q)
    go (returns l') k q ih = moved (k.1 o q)

-- Turns of a message whose handler and whose dead letter fail every time.
unfoldable pub stuck : ℕ → Message → Delivery → List Turn
stuck zero msg w = []
stuck (suc n) msg w = fetched msg w none false ∷ stuck n msg w

-- The dead letters that are counted against an offset.
unfoldable pub failures_at : ℕ → Consumer → ℕ
failures_at o c = if o == c.last_fail_offset then c.dlq_fail_count else 0

abbrev pub HasLimit : ℕ → Consumer → Type 0
HasLimit max c = (c.has_dlq ≡ true) × (c.commit_on_dlq_failure ≡ false) × (c.max_dlq_fails ≡ max)

-- The next state of a turn of a stuck message.
unfoldable pub after_stuck : ℕ → Consumer → Loop → Loop
after_stuck o c l =
    if ltb 0 c.max_dlq_fails && leb c.max_dlq_fails c.dlq_fail_count
    then record l { consumer = record c { dlq_fail_count = 0 }; committed = o ∷ l.committed }
    else record l { consumer = c }

error_of_stuck :
    (w : Delivery) (max : ℕ)
    → ((j : ℕ) → w.handler j ≢ none)
    → (e : Error) × ((handle_with_retry w max).error ≡ some e)
error_of_stuck w max fails = elim (Option-cases (handle_with_retry w max).error) [
  | inl n ↦ absurd (go (handle_with_retry-Accounted w max).3 n)
  | inr e ↦ e
]
  where
    go :
        ((((handle_with_retry w max).error ≡ none)
            × (w.handler (handle_with_retry w max).attempts ≡ none))
          ⊎ (((handle_with_retry w max).error ≢ none)
              × ((w.handler (handle_with_retry w max).attempts ≢ none)
                  ⊎ (w.cancelled (handle_with_retry w max).attempts ≢ none))))
        → (handle_with_retry w max).error ≡ none
        → ⊥
    go (inl p) n = fails _ p.1
    go (inr p) n = p.0 n

pub turn-stuck :
    (msg : Message) (w : Delivery) (max : ℕ) (l : Loop)
    → ((j : ℕ) → w.handler j ≢ none)
    → w.dlq_send ≢ none
    → HasLimit max l.consumer
    → turn (fetched msg w none false) l
      ≡ goes_on (after_stuck msg.offset (count_dlq_failure msg.offset l.consumer) l)
unfolding turn process_message process_handled after_dead_letter poison_pill after_processing commit
    after_stuck count_dlq_failure
turn-stuck msg w max l fails lost h = elim (Option-cases w.dlq_send) [
  | inl n ↦ absurd (lost n)
  | inr (x, sent) ↦
      let e = error_of_stuck w l.consumer.max_retries fails in
      rw (e.1, h.0, sent) (ground (arith, h))
]
