-- ===== src/Recorder/PortAllocator/Exclusive.antt =====
-- No port is ever handed to two streams at once, and every port lies in the configured range.
use vox_streaming.Base.{
  ℕ, zero, suc, ◌+◌, ◌-◌, ◌≤◌, ◌≡◌, ◌⊎◌, inl, inr, Bool, List, [], ◌∷◌, arith, leb, if◌then◌else◌,
  if_ind, All, map, subst, sym,
}
use vox_streaming.Recorder.PortAllocator.Defs.{
  ports_per_stream, AllocatedPorts, PortAllocator, done, refused, invalid_range, fill,
  new_port_allocator, or_too_small, ports_at, allocate, allocate_from, release,
}

-- Two groups of ports, by their first ports, that share none.
abbrev pub Apart : ℕ → ℕ → Type 0
Apart p q = (p + ports_per_stream ≤ q) ⊎ (q + ports_per_stream ≤ p)

abbrev pub AllApart : List ℕ → Type 0
AllApart [] = Unit
AllApart (p ∷ ps) = All (Apart p) ps × AllApart ps

abbrev pub InRange : ℕ → ℕ → ℕ → Type 0
InRange lo hi p = (lo ≤ p) × (p + ports_per_stream ≤ hi + 1)

All-weaken :
    {A : Type 0} (P Q : A → Type 0) → ((a : A) → P a → Q a) → (xs : List A) → All P xs → All Q xs
All-weaken P Q f [] h = tt
All-weaken P Q f (x ∷ xs) h = (f x h.0, All-weaken P Q f xs h.1)

-- Groups that were filled below `p`.
abbrev Below : ℕ → ℕ → List ℕ → Type 0
Below lo p ps = All (λ q. (lo ≤ q) × (q + ports_per_stream ≤ p)) ps

fill_lem :
    (fuel lo p hi : ℕ) (free : List ℕ)
    → lo ≤ p
    → Below lo p free
    → AllApart free
    → All (InRange lo hi) free
    → AllApart (fill fuel p hi free) × All (InRange lo hi) (fill fuel p hi free)
unfolding fill
fill_lem zero lo p hi free le b a i = (a, i)
fill_lem (suc fuel) lo p hi free le b a i =
    if_ind (λ ps. AllApart ps × All (InRange lo hi) ps) (leb (p + ports_per_stream - 1) hi)
      (λ e.
        let fits : p + ports_per_stream ≤ hi + 1 = ground arith in
        fill_lem fuel lo (p + ports_per_stream) hi (p ∷ free) (omega arith)
          ((le, omega arith), All-weaken _ _ (λ q k. (k.0, omega arith)) free b)
          (All-weaken _ _ (λ q k. inr k.1) free b, a) ((le, fits), i))
      (λ e. (a, i))

-- A stream's ports, as the four of one group.
abbrev pub IsGroup : AllocatedPorts → Type 0
IsGroup p = p ≡ ports_at p.video_rtp

-- The allocator and the groups that streams hold.
pub record Pool : Type 0 where
  pub allocator : PortAllocator
  pub held : List AllocatedPorts

-- Taking one element out of a list.
pub data Removes (a : AllocatedPorts) : List AllocatedPorts → List AllocatedPorts → Type 0 where
  first : (xs : List AllocatedPorts) → Removes a (a ∷ xs) xs
  later :
      (x : AllocatedPorts) {xs ys : List AllocatedPorts}
      → Removes a xs ys
      → Removes a (x ∷ xs) (x ∷ ys)

-- A stream starts and is given ports, or one that holds ports ends and gives them back.
pub data Step : Pool → Pool → Type 0 where
  starts :
      (s : Pool) (p : AllocatedPorts) (a : PortAllocator)
      → allocate s.allocator ≡ done (p, a)
      → Step s (record { allocator = a; held = p ∷ s.held })
  ends :
      (s : Pool) (p : AllocatedPorts) (rest : List AllocatedPorts)
      → Removes p s.held rest
      → Step s (record { allocator = release p s.allocator; held = rest })

pub data Reach (s : Pool) : Pool → Type 0 where
  here : Reach s s
  next : {t u : Pool} → Reach s t → Step t u → Reach s u

abbrev pub bases : List AllocatedPorts → List ℕ
bases ps = map (λ p. p.video_rtp) ps

pub record IsExclusive (lo hi : ℕ) (s : Pool) : Type 0 where
  pub free_apart : AllApart s.allocator.free
  pub held_apart : AllApart (bases s.held)
  pub between : All (λ p. All (Apart p) s.allocator.free) (bases s.held)
  pub free_range : All (InRange lo hi) s.allocator.free
  pub held_range : All (InRange lo hi) (bases s.held)
  pub groups : All IsGroup s.held

Apart-sym : (p q : ℕ) → Apart p q → Apart q p
Apart-sym p q (inl h) = inr h
Apart-sym p q (inr h) = inl h

All-both : (P Q : ℕ → Type 0) (xs : List ℕ) → All P xs → All Q xs → All (λ x. P x × Q x) xs
All-both P Q [] h k = tt
All-both P Q (x ∷ xs) h k = ((h.0, k.0), All-both P Q xs h.1 k.1)

Removes-All :
    (Q : ℕ → Type 0) {p : AllocatedPorts} {xs ys : List AllocatedPorts}
    → Removes p xs ys
    → All Q (bases xs)
    → Q p.video_rtp × All Q (bases ys)
Removes-All Q (first xs) h = (h.0, h.1)
Removes-All Q (later x r) h = let k = Removes-All Q r h.1 in (k.0, (h.0, k.1))

Removes-AllApart :
    {p : AllocatedPorts} {xs ys : List AllocatedPorts}
    → Removes p xs ys
    → AllApart (bases xs)
    → All (Apart p.video_rtp) (bases ys) × AllApart (bases ys)
Removes-AllApart (first xs) h = (h.0, h.1)
Removes-AllApart (later x r) h =
    let k = Removes-AllApart r h.1 in
    let m = Removes-All (Apart x.video_rtp) r h.0 in ((Apart-sym _ _ m.0, k.0), (m.1, k.1))

Removes-groups :
    {p : AllocatedPorts} {xs ys : List AllocatedPorts}
    → Removes p xs ys
    → All IsGroup xs
    → All IsGroup ys
Removes-groups (first xs) h = h.1
Removes-groups (later x r) h = (h.0, Removes-groups r h.1)

-- What an allocation takes: the top of the stack.
allocate-free :
    (xs : List ℕ) {p : AllocatedPorts} {a : PortAllocator}
    → allocate_from xs ≡ done (p, a)
    → (xs ≡ p.video_rtp ∷ a.free) × IsGroup p
unfolding allocate_from
allocate-free [] h = cc
allocate-free (b ∷ bs) h = ground arith

starts-IsExclusive :
    (lo hi : ℕ) (s : Pool) (p : AllocatedPorts) (a : PortAllocator)
    → s.allocator.free ≡ p.video_rtp ∷ a.free
    → IsGroup p
    → IsExclusive lo hi s
    → IsExclusive lo hi (record { allocator = a; held = p ∷ s.held })
starts-IsExclusive lo hi s p a e g v =
    let fa : AllApart (p.video_rtp ∷ a.free) = subst AllApart e v.free_apart in
    let fr : All (InRange lo hi) (p.video_rtp ∷ a.free) =
      subst (All (InRange lo hi)) e v.free_range in
    let bt : All (λ h. All (Apart h) (p.video_rtp ∷ a.free)) (bases s.held) =
      subst (λ (fs : List ℕ). All (λ h. All (Apart h) fs) (bases s.held)) e v.between in
    record {
      free_apart = fa.1;
      held_apart = (
        All-weaken _ (Apart p.video_rtp) (λ h k. Apart-sym _ _ k.0) (bases s.held) bt,
        v.held_apart,
      );
      between = (fa.0, All-weaken _ _ (λ h k. k.1) (bases s.held) bt);
      free_range = fr.1;
      held_range = (fr.0, v.held_range);
      groups = (g, v.groups);
    }

ends-IsExclusive :
    (lo hi : ℕ) (s : Pool) (p : AllocatedPorts) (rest : List AllocatedPorts)
    → Removes p s.held rest
    → IsExclusive lo hi s
    → IsExclusive lo hi (record { allocator = release p s.allocator; held = rest })
unfolding release
ends-IsExclusive lo hi s p rest r v =
    let apart = Removes-AllApart r v.held_apart in
    let free = Removes-All (λ h. All (Apart h) s.allocator.free) r v.between in
    let range = Removes-All (InRange lo hi) r v.held_range in
    record {
      free_apart = (free.0, v.free_apart);
      held_apart = apart.1;
      between =
          All-weaken _ _ (λ h k. (Apart-sym _ _ k.0, k.1)) (bases rest)
            (All-both (Apart p.video_rtp) (λ h. All (Apart h) s.allocator.free) (bases rest) apart.0
              free.1);
      free_range = (range.0, v.free_range);
      held_range = range.1;
      groups = Removes-groups r v.groups;
    }

Step-IsExclusive : (lo hi : ℕ) {s t : Pool} → Step s t → IsExclusive lo hi s → IsExclusive lo hi t
unfolding allocate
Step-IsExclusive lo hi (starts s p a h) v =
    let k = allocate-free s.allocator.free h in starts-IsExclusive lo hi s p a k.0 k.1 v
Step-IsExclusive lo hi (ends s p rest r) v = ends-IsExclusive lo hi s p rest r v

Reach-IsExclusive : (lo hi : ℕ) {s t : Pool} → Reach s t → IsExclusive lo hi s → IsExclusive lo hi t
Reach-IsExclusive lo hi here v = v
Reach-IsExclusive lo hi (next r st) v = Step-IsExclusive lo hi st (Reach-IsExclusive lo hi r v)

-- However streams start and end from a new allocator, the groups that are free and those that are
-- held never overlap, each lies in the range that was configured, and each holder has the four ports
-- of one group.
pub new_port_allocator-IsExclusive :
    (lo hi : ℕ) (a : PortAllocator) {s : Pool}
    → new_port_allocator lo hi ≡ done a
    → Reach (record { allocator = a; held = [] }) s
    → IsExclusive lo hi s
unfolding new_port_allocator
new_port_allocator-IsExclusive lo hi a h r =
    let f = fill_lem (hi + 1 - lo) lo lo hi [] (omega arith) tt tt tt in
    let e : a.free ≡ fill (hi + 1 - lo) lo hi [] = created _ (leb hi lo) h in
    Reach-IsExclusive lo hi r (record {
      free_apart = subst AllApart (sym e) f.0;
      held_apart = tt;
      between = tt;
      free_range = subst (All (InRange lo hi)) (sym e) f.1;
      held_range = tt;
      groups = tt;
    })
  where
    created :
        (ps : List ℕ) (b : Bool)
        → (if b then refused invalid_range else or_too_small ps) ≡ done a
        → a.free ≡ ps
    created ps b h = ground arith
