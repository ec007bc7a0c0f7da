-- ===== src/Queue/Replay/Settled.antt =====
-- What a replay commits, and what comes back of a dead letter.
use vox_streaming.Base.{
  ℕ, ◌+◌, ◌≡◌, refl, ◌⊎◌, inl, inr, Bool, false, List, [], ◌∷◌, none, some, String, arith, if_ind,
  length, Elem, subst,
}
use vox_streaming.Base.Redis.{doc, garbage}
use vox_streaming.Base.Failure.{Fault}
use vox_streaming.Queue.Replay.Defs.{
  DlqMessage, Fetch, got, cancelled, fetch_error, Replayed, nothing_replayed, skip, republish,
  replay,
}

-- Every committed message is counted once, as replayed or as skipped, and the replayed ones are those
-- that were published.
abbrev pub IsCounted : Replayed → Type 0
IsCounted s = (s.replayed ≡ length s.published) × (s.replayed + s.skipped ≡ length s.committed)

-- Why an offset was committed: its message does not decode, or was not wanted, or was published.
abbrev pub Settled : (DlqMessage → Bool) → Replayed → ℕ → Fetch → Type 0
Settled accepts s o (got offset garbage answer) = o ≡ offset
Settled accepts s o (got offset (doc m) answer) =
    (o ≡ offset)
    × ((accepts m ≡ false)
        ⊎ Elem (m.original_topic, m.original_key, m.original_payload) s.published)
Settled accepts s o cancelled = ⊥
Settled accepts s o (fetch_error e) = ⊥

abbrev pub SettledIn : (DlqMessage → Bool) → Replayed → ℕ → List Fetch → Type 0
SettledIn accepts s o [] = ⊥
SettledIn accepts s o (f ∷ fs) = Settled accepts s o f ⊎ SettledIn accepts s o fs

-- What a replay from a state adds to it.
abbrev Extends : (DlqMessage → Bool) → List Fetch → Replayed → Replayed → Type 0
Extends accepts fs s t =
    (IsCounted s → IsCounted t)
    × ((p : String × List ℕ × List ℕ) → Elem p s.published → Elem p t.published)
    × ((o : ℕ) → Elem o t.committed → Elem o s.committed ⊎ SettledIn accepts t o fs)

same-Extends :
    (accepts : DlqMessage → Bool) (fs : List Fetch) (s : Replayed) → Extends accepts fs s s
same-Extends accepts fs s = ((λ c. c), (λ p e. e), (λ o e. inl e))

-- One message, which moves the state on to `s'`, and the rest of the replay.
then-Extends :
    (accepts : DlqMessage → Bool) (f : Fetch) (fs : List Fetch) (offset : ℕ) (s s' t : Replayed)
    → (IsCounted s → IsCounted s')
    → ((p : String × List ℕ × List ℕ) → Elem p s.published → Elem p s'.published)
    → s'.committed ≡ offset ∷ s.committed
    → ((o : ℕ) → o ≡ offset → Settled accepts t o f)
    → Extends accepts fs s' t
    → Extends accepts (f ∷ fs) s t
then-Extends accepts f fs offset s s' t count keep moved k e =
    (λ c. e.0 (count c), λ p x. e.1 p (keep p x), λ o x. place o (e.2 o x))
  where
    old :
        (o : ℕ)
        → Elem o (offset ∷ s.committed)
        → Elem o s.committed ⊎ SettledIn accepts t o (f ∷ fs)
    old o (inl q) = inr (inl (k o q))
    old o (inr q) = inl q

    place :
        (o : ℕ)
        → (Elem o s'.committed ⊎ SettledIn accepts t o fs)
        → Elem o s.committed ⊎ SettledIn accepts t o (f ∷ fs)
    place o (inl q) = old o (subst (λ l. Elem o l) moved q)
    place o (inr q) = inr (inr q)

skip-count : (offset : ℕ) (s : Replayed) → IsCounted s → IsCounted (skip offset s)
skip-count offset s c = (c.0, omega (arith, c.1))

republish-count :
    (offset : ℕ) (m : DlqMessage) (s : Replayed) → IsCounted s → IsCounted (republish offset m s)
republish-count offset m s c = (omega (arith, c.0), omega (arith, c.1))

replay-Extends :
    (accepts : DlqMessage → Bool) (fs : List Fetch) (s : Replayed)
    → Extends accepts fs s (replay accepts fs s).0
unfolding replay
replay-Extends accepts [] s = same-Extends accepts [] s
replay-Extends accepts (cancelled ∷ fs) s = same-Extends accepts (cancelled ∷ fs) s
replay-Extends accepts (fetch_error e ∷ fs) s = same-Extends accepts (fetch_error e ∷ fs) s
replay-Extends accepts (got offset garbage answer ∷ fs) s =
    then-Extends accepts (got offset garbage answer) fs offset s (skip offset s)
      (replay accepts fs (skip offset s)).0 (skip-count offset s) (λ p x. x) refl (λ o q. q)
      (replay-Extends accepts fs (skip offset s))
replay-Extends accepts (got offset (doc m) none ∷ fs) s =
    if_ind (λ (r : Replayed × Fault). Extends accepts (got offset (doc m) none ∷ fs) s r.0)
      (accepts m) {x = replay accepts fs (republish offset m s)}
      {y = replay accepts fs (skip offset s)}
      (λ _.
        let ih = replay-Extends accepts fs (republish offset m s) in
        then-Extends accepts (got offset (doc m) none) fs offset s (republish offset m s)
          (replay accepts fs (republish offset m s)).0 (republish-count offset m s) (λ p x. inr x)
          refl
          (λ o q. (q, inr (ih.1 (m.original_topic, m.original_key, m.original_payload) (inl refl))))
          ih)
      (λ no.
        then-Extends accepts (got offset (doc m) none) fs offset s (skip offset s)
          (replay accepts fs (skip offset s)).0 (skip-count offset s) (λ p x. x) refl
          (λ o q. (q, inl no)) (replay-Extends accepts fs (skip offset s)))
replay-Extends accepts (got offset (doc m) (some e) ∷ fs) s =
    if_ind (λ (r : Replayed × Fault). Extends accepts (got offset (doc m) (some e) ∷ fs) s r.0)
      (accepts m) {x = (s, some e)} {y = replay accepts fs (skip offset s)}
      (λ _. same-Extends accepts (got offset (doc m) (some e) ∷ fs) s)
      (λ no.
        then-Extends accepts (got offset (doc m) (some e)) fs offset s (skip offset s)
          (replay accepts fs (skip offset s)).0 (skip-count offset s) (λ p x. x) refl
          (λ o q. (q, inl no)) (replay-Extends accepts fs (skip offset s)))

-- A replay loses no message that the filter wants: it commits only messages that do not decode, that
-- the filter refuses, or that it has published to their original topic with their key and payload, and
-- its two counts are the messages published and the messages committed otherwise.
pub replay_loses_nothing :
    (accepts : DlqMessage → Bool) (fs : List Fetch)
    → IsCounted (replay accepts fs nothing_replayed).0
      × ((o : ℕ)
          → Elem o (replay accepts fs nothing_replayed).0.committed
          → SettledIn accepts (replay accepts fs nothing_replayed).0 o fs)
replay_loses_nothing accepts fs =
    let e = replay-Extends accepts fs nothing_replayed in
    (e.0 (refl, refl), λ o x. settled o (e.2 o x))
  where
    settled :
        (o : ℕ)
        → (Elem o (nothing_replayed.committed)
            ⊎ SettledIn accepts (replay accepts fs nothing_replayed).0 o fs)
        → SettledIn accepts (replay accepts fs nothing_replayed).0 o fs
    settled o (inl q) = absurd q
    settled o (inr q) = q
