-- ===== src/Recorder/Frames/Reorder/Drain.antt =====
-- What the draining loop hands on, and what it leaves.
use vox_streaming.Base.{
  ℕ, zero, suc, ◌+◌, ◌%◌, ◌^◌, ◌<◌, ◌≤◌, ◌≡◌, refl, ◌≢◌, ◌⊎◌, inl, inr, List, [], ◌∷◌, none, some,
  arith, length, Elem, Option-cases, Bool-cases,
}
use vox_streaming.Base.Eq.{eq_ℕ, eq}
use vox_streaming.Base.Store.{Store, lookup, remove, lookup-remove}
use vox_streaming.Recorder.Frames.Rtp.{Packet, inc16, sub16}
use vox_streaming.Recorder.Frames.Reorder.Defs.{Drained, drain}

-- Every held packet stands under its own number, less than half the circle ahead of `next`.
abbrev pub Fits : ℕ → Store ℕ Packet → Type 0
Fits next m =
    (k : ℕ) (p : Packet)
    → lookup k m ≡ some p
    → (p.sequence_number ≡ k) × (k < 2 ^ 16) × (sub16 k next < 2 ^ 15)

-- The packets are numbered on from `next` without a gap.
abbrev pub Consecutive : ℕ → List Packet → Type 0
Consecutive next [] = Unit
Consecutive next (p ∷ ps) = (p.sequence_number ≡ next) × Consecutive (inc16 next) ps

length-remove_le : (k : ℕ) (m : Store ℕ Packet) → length (remove k m) ≤ length m
unfolding remove
length-remove_le k [] = omega arith
length-remove_le k ((j, w) ∷ m) = ground (arith, length-remove_le k m)

length-remove :
    (k : ℕ) (p : Packet) (m : Store ℕ Packet) → lookup k m ≡ some p → length (remove k m) < length m
unfolding lookup remove
length-remove k p [] h = cc
length-remove k p ((j, w) ∷ m) h = ground (arith, length-remove k p m, length-remove_le k m)

remove-Fits :
    (next : ℕ) (m : Store ℕ Packet)
    → next < 2 ^ 16
    → Fits next m
    → Fits (inc16 next) (remove next m)
remove-Fits next m b f k p h = ground (arith, f k p s.1, s.0)
  where
    s : (next ≢ k) × (lookup k m ≡ some p)
    s = ground (arith, lookup-remove next k m)

-- What a call of the loop with enough fuel does, from `next` and the held packets `m`.
pub record Drains (next : ℕ) (m : Store ℕ Packet) (d : Drained) : Type 0 where
  pub fits : Fits d.next d.left
  pub in_range : d.next < 2 ^ 16
  pub in_order : Consecutive next d.out
  pub counted : d.next ≡ (next + length d.out) % 2 ^ 16
  pub ended : lookup d.next d.left ≡ none
  pub keeps : (k : ℕ) (p : Packet) → lookup k m ≡ some p → (lookup k d.left ≡ some p) ⊎ Elem p d.out

done :
    (next : ℕ) (m : Store ℕ Packet)
    → next < 2 ^ 16
    → Fits next m
    → lookup next m ≡ none
    → Drains next m (record { left = m; next = next; out = [] })
done next m b f e = record {
  fits = f;
  in_range = b;
  in_order = tt;
  counted = omega arith;
  ended = e;
  keeps = λ k p h. inl h;
}

taken :
    (next : ℕ) (p : Packet) (m : Store ℕ Packet) (d : Drained)
    → ((k : ℕ) (q : Packet)
        → lookup k (remove next m) ≡ some q
        → (lookup k d.left ≡ some q) ⊎ Elem q d.out)
    → lookup next m ≡ some p
    → (k : ℕ) (q : Packet) → lookup k m ≡ some q
    → (lookup k d.left ≡ some q) ⊎ Elem q (p ∷ d.out)
taken next p m d keeps e k q h = elim (Bool-cases (eq next k)) [
  | inl same ↦ inr (inl (ground (arith, same, e, h)))
  | inr other ↦ elim (keeps k q (ground (arith, lookup-remove next k m, other, h))) [
    | inl left ↦ inl left
    | inr out ↦ inr (inr out)
  ]
]

pub drain-Drains :
    (fuel next : ℕ) (m : Store ℕ Packet)
    → length m ≤ fuel
    → next < 2 ^ 16
    → Fits next m
    → Drains next m (drain fuel m next)
unfolding drain lookup
drain-Drains zero next (e ∷ m) l b f = elim l [ ]
drain-Drains zero next [] l b f = done next [] b f refl
drain-Drains (suc fuel) next m l b f = elim (Option-cases (lookup next m)) [
  | inl e ↦ rw (e, drain) (done next m b f e)
  | inr (p, e) ↦
      let r =
        drain-Drains fuel (inc16 next) (remove next m) (omega (arith, length-remove next p m e))
          (omega arith) (remove-Fits next m b f) in
      rw (e, drain)
        (record {
          fits = r.fits;
          in_range = r.in_range;
          in_order = ((f next p e).0, r.in_order);
          counted = omega (arith, r.counted);
          ended = r.ended;
          keeps = taken next p m (drain fuel (remove next m) (inc16 next)) r.keeps e;
        })
]
