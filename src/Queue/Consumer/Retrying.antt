-- ===== src/Queue/Consumer/Retrying.antt =====
-- When a message is tried again, when it is committed, and when the loop ends.
use vox_streaming.Base.{
  ℕ, zero, suc, ◌+◌, ◌≤◌, ◌<◌, ◌≡◌, refl, ◌≢◌, ◌⊎◌, inl, inr, none, some, arith, ltb, ◌==◌,
  if◌then◌else◌, Bool-cases, sym, ◌∙◌,
}
use vox_streaming.Base.Failure.{Error, Fault}
use vox_streaming.Queue.Consumer.Defs.{Delivery, Handled, retry_from, handle_with_retry}

-- The attempts that were made, all but the last, failed.
abbrev pub FailedBefore : Delivery → ℕ → Type 0
FailedBefore w k = (j : ℕ) → 1 ≤ j → j < k → w.handler j ≢ none

-- What the outcome of a retried message says of the attempts: at least one and at most one more than
-- the retries, every one before the last failed, and the message is handled exactly if the last one
-- succeeded; otherwise the last failed too, or the context ended before it.
abbrev pub Accounted : Delivery → ℕ → Handled → Type 0
Accounted w max_retries h =
    (1 ≤ h.attempts)
    × (h.attempts ≤ max_retries + 1)
    × FailedBefore w h.attempts
    × (((h.error ≡ none) × (w.handler h.attempts ≡ none))
        ⊎ ((h.error ≢ none) × ((w.handler h.attempts ≢ none) ⊎ (w.cancelled h.attempts ≢ none))))

FailedBefore-suc :
    (w : Delivery) (k : ℕ) → FailedBefore w k → w.handler k ≢ none → FailedBefore w (k + 1)
FailedBefore-suc w k f h j low high = elim (Bool-cases (j == k)) [
  | inl e ↦ λ s. h (ground arith)
  | inr e ↦ f j low (ground arith)
]

some-ne-none {ℓ} : {A : Type ℓ} (a : A) → some a ≢ none
some-ne-none a e = cc

pause_before : Delivery → ℕ → Fault
pause_before w attempt = if ltb 1 attempt then w.cancelled attempt else none

pause_fault :
    (w : Delivery) (attempt : ℕ) (e : Error)
    → pause_before w attempt ≡ some e
    → w.cancelled attempt ≢ none
unfolding pause_before
pause_fault w attempt e h k = ground arith

retry_from-Accounted :
    (w : Delivery) (left attempt max : ℕ) (last : Fault)
    → attempt + left ≡ max + 2
    → 1 ≤ attempt
    → (left ≡ 0 → 2 ≤ attempt)
    → FailedBefore w attempt
    → Accounted w max (retry_from w left attempt max last)
unfolding retry_from pause_before
retry_from-Accounted w zero attempt max last total low two f = (
  omega arith,
  omega arith,
  λ j a b. f j a (omega arith),
  inr (some-ne-none _, inl (f (max + 1) (omega arith) (omega arith))),
)
retry_from-Accounted w (suc left) attempt max last total low two f =
    go (pause_before w attempt) refl (w.handler attempt) refl (λ e g.
      retry_from-Accounted w left (attempt + 1) max (some e) (omega arith) (omega arith)
        (λ _. omega arith) g)
  where
    go :
        (p : Fault)
        → pause_before w attempt ≡ p
        → (r : Fault) → w.handler attempt ≡ r
        → ((e : Error)
            → FailedBefore w (attempt + 1)
            → Accounted w max (retry_from w left (attempt + 1) max (some e)))
        → Accounted w max (retry_from w (suc left) attempt max last)
    go (some e) ep r er ih =
        rw (ep, retry_from)
          (low, omega arith, f, inr (some-ne-none e, inr (pause_fault w attempt e ep)))
    go none ep none er ih = rw (ep, er, retry_from) (low, omega arith, f, inl (refl, er))
    go none ep (some e) er ih =
        rw (ep, er, retry_from)
          (ih e (FailedBefore-suc w attempt f (λ s. some-ne-none e (sym er ∙ s))))

-- Retrying a message is accounted for, whatever the handler and the context do.
pub handle_with_retry-Accounted :
    (w : Delivery) (max_retries : ℕ) → Accounted w max_retries (handle_with_retry w max_retries)
unfolding handle_with_retry
handle_with_retry-Accounted w max =
    retry_from-Accounted w (max + 1) 1 max none (omega arith) (omega arith)
      (λ e. absurd (omega arith)) (λ j a b. absurd (omega arith))
