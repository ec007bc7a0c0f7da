-- ===== src/Recorder/PortAllocator/Size.antt =====
-- How many streams a range of ports is enough for.
use vox_streaming.Base.{
  ℕ, zero, suc, ◌+◌, ◌-◌, ◌≤◌, ◌<◌, ◌≡◌, ◌⊎◌, inl, inr, false, List, [], ◌∷◌, arith, leb,
  if◌then◌else◌, if_ind, length, leb→le, ◌/◌, Bool-cases,
}
use vox_streaming.Recorder.PortAllocator.Defs.{
  ports_per_stream, PortAllocator, done, refused, invalid_range, range_too_small, fill,
  new_port_allocator, or_too_small,
}

-- The loop that lays out the range has fuel to spare: it makes as many groups as fit.
length-fill :
    (fuel p hi : ℕ) (free : List ℕ)
    → hi + 1 - p ≤ fuel
    → length (fill fuel p hi free) ≡ length free + (hi + 1 - p) / 4
unfolding fill
length-fill zero p hi free h = omega arith
length-fill (suc fuel) p hi free h =
    if_ind (λ ps. length ps ≡ length free + (hi + 1 - p) / 4) (leb (p + ports_per_stream - 1) hi)
      {x = fill fuel (p + ports_per_stream) hi (p ∷ free)} {y = free}
      (λ e.
        let fits = leb→le (p + ports_per_stream - 1) hi e in
        omega (arith, length-fill fuel (p + ports_per_stream) hi (p ∷ free) (omega arith)))
      (λ e. ground arith)

-- A new allocator has as many groups as fit into its range, and is refused only for a range that is
-- empty or holds none.
pub length-new_port_allocator :
    (lo hi : ℕ)
    → ((a : PortAllocator) × (new_port_allocator lo hi ≡ done a)
        × (length a.free ≡ (hi + 1 - lo) / 4)
        × (lo < hi)
        × (4 ≤ hi + 1 - lo))
      ⊎ ((new_port_allocator lo hi ≡ refused invalid_range) × (hi ≤ lo))
      ⊎ ((new_port_allocator lo hi ≡ refused range_too_small) × (hi + 1 - lo < 4))
unfolding new_port_allocator
length-new_port_allocator lo hi = elim (Bool-cases (leb hi lo)) [
  | inl e ↦ inr (inl (rw e, leb→le hi lo e))
  | inr e ↦ go (fill (hi + 1 - lo) lo hi []) (length-fill (hi + 1 - lo) lo hi [] (omega arith)) e
]
  where
    go :
        (ps : List ℕ)
        → length ps ≡ 0 + (hi + 1 - lo) / 4
        → leb hi lo ≡ false
        → ((a : PortAllocator) × ((if leb hi lo then refused invalid_range else or_too_small ps)
              ≡ done a)
            × (length a.free ≡ (hi + 1 - lo) / 4)
            × (lo < hi)
            × (4 ≤ hi + 1 - lo))
          ⊎ (((if leb hi lo then refused invalid_range else or_too_small ps)
                ≡ refused invalid_range)
              × (hi ≤ lo))
          ⊎ (((if leb hi lo then refused invalid_range else or_too_small ps)
                ≡ refused range_too_small)
              × (hi + 1 - lo < 4))
    go [] h e = inr (inr (rw e, omega arith))
    go (p ∷ ps) h e = inl (record { free = p ∷ ps }, rw e, omega arith, ground arith, omega arith)
