-- ===== src/Queue/Consumer/PoisonPill.antt =====
-- A message that can neither be handled nor written to the dead-letter topic.
use vox_streaming.Base.{ℕ, zero, suc, ◌+◌, ◌<◌, ◌≡◌, refl, ◌≢◌, ◌⊎◌, inr, ◌∷◌, none, arith, ap, ◌∙◌}
use vox_streaming.Queue.Consumer.Defs.{Message, Delivery, count_dlq_failure, Loop, run}
use vox_streaming.Queue.Consumer.Commits.{stuck, failures_at, HasLimit, after_stuck, turn-stuck}

-- The turn below the limit: one more failure is counted, and nothing is committed.
below :
    (o max : ℕ) (l : Loop)
    → HasLimit max l.consumer
    → (max ≡ 0) ⊎ (failures_at o l.consumer + 1 < max)
    → ((after_stuck o (count_dlq_failure o l.consumer) l).committed ≡ l.committed)
      × HasLimit max (after_stuck o (count_dlq_failure o l.consumer) l).consumer
      × (failures_at o (after_stuck o (count_dlq_failure o l.consumer) l).consumer
          ≡ failures_at o l.consumer + 1)
unfolding after_stuck count_dlq_failure failures_at
below o max l h b = ground (arith, h, b)

-- The turn that reaches the limit commits the message, and counts anew.
reached :
    (o max : ℕ) (l : Loop)
    → HasLimit max l.consumer
    → failures_at o l.consumer + 1 ≡ max
    → ((after_stuck o (count_dlq_failure o l.consumer) l).committed ≡ o ∷ l.committed)
      × (failures_at o (after_stuck o (count_dlq_failure o l.consumer) l).consumer ≡ 0)
unfolding after_stuck count_dlq_failure failures_at
reached o max l h b = ground (arith, h, b)

module _ (msg : Message) (w : Delivery) (max : ℕ) (fails : (j : ℕ) → w.handler j ≢ none)
    (lost : w.dlq_send ≢ none) where
  next : Loop → Loop
  next l = after_stuck msg.offset (count_dlq_failure msg.offset l.consumer) l

  run-stuck-suc :
      (n : ℕ) (l : Loop)
      → HasLimit max l.consumer
      → run (stuck (suc n) msg w) l ≡ run (stuck n msg w) (next l)
  unfolding run stuck next
  run-stuck-suc n l h = rw (run, stuck, turn-stuck msg w max l fails lost h)

  -- Without a limit, and below it, a stuck message is never committed.
  pub run-stuck_below :
      (n : ℕ) (l : Loop)
      → HasLimit max l.consumer
      → (max ≡ 0) ⊎ (failures_at msg.offset l.consumer + n < max)
      → (run (stuck n msg w) l).0.committed ≡ l.committed
  unfolding stuck run next
  run-stuck_below zero l h b = refl
  run-stuck_below (suc n) l h b =
      let s = below msg.offset max l h (ground (arith, b)) in
      ap (λ x. x.0.committed) (run-stuck-suc n l h)
      ∙ (run-stuck_below n (next l) s.1 (ground (arith, b, s.2)) ∙ s.0)

  -- The failure that reaches the limit of them commits the message, so that the partition goes on,
  -- and no failure before it does.
  pub run-stuck_reached :
      (n : ℕ) (l : Loop)
      → HasLimit max l.consumer
      → failures_at msg.offset l.consumer + suc n ≡ max
      → ((run (stuck (suc n) msg w) l).0.committed ≡ msg.offset ∷ l.committed)
        × ((run (stuck n msg w) l).0.committed ≡ l.committed)
  unfolding next stuck run
  run-stuck_reached n l h b = (last n l h b, run-stuck_below n l h (inr (omega (arith, b))))
    where
      last :
          (n : ℕ) (l : Loop)
          → HasLimit max l.consumer
          → failures_at msg.offset l.consumer + suc n ≡ max
          → (run (stuck (suc n) msg w) l).0.committed ≡ msg.offset ∷ l.committed
      last zero l h b =
          ap (λ x. x.0.committed) (run-stuck-suc 0 l h) ∙ (reached msg.offset max l h b).0
      last (suc n) l h b =
          let s = below msg.offset max l h (inr (omega (arith, b))) in
          ap (λ x. x.0.committed) (run-stuck-suc (suc n) l h)
          ∙ (last n (next l) s.1 (omega (arith, b, s.2)) ∙ ap (λ x. msg.offset ∷ x) s.0)
