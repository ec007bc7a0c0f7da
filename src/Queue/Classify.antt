-- ===== src/Queue/Classify.antt =====
-- internal/infrastructure/queue/dlq.go: `contains` and `classifyError`. A text is the list of its bytes.
use Prim.Native.Char.{code}
use vox_streaming.Base.{
  ℕ, ◌≡◌, refl, ◌↔◌, inl, inr, Bool, true, false, ◌&&◌, ◌||◌, List, [], ◌∷◌, ◌++◌, Option, none,
  some, String, arith, ◌==◌, if◌then◌else◌, Bool-cases, ap, subst, Elem,
}

abbrev pub codes : String → List ℕ
codes String.[] = []
codes (String.◌∷◌ c s) = code c ∷ codes s

-- `s[i:i+len(sub)] == sub` at the start of `s`, and false where `s` is too short.
unfoldable pub begins_with : List ℕ → List ℕ → Bool
begins_with [] s = true
begins_with (c ∷ cs) [] = false
begins_with (c ∷ cs) (d ∷ s) = d == c && begins_with cs s

-- The inner loop: over the places i of `s`, the last one included.
unfoldable pub occurs : List ℕ → List ℕ → Bool
unfolding begins_with
occurs sub [] = begins_with sub []
occurs sub (c ∷ s) = begins_with sub (c ∷ s) || occurs sub s

-- `contains`: the outer loop.
unfoldable pub contains_any : List ℕ → List (List ℕ) → Bool
unfolding occurs
contains_any s [] = false
contains_any s (sub ∷ subs) = occurs sub s || contains_any s subs

pub data Reason : Type 0 where
  unknown deserialization_error timeout_error network_error not_found_error : Reason
  auth_error processing_error : Reason

unfoldable pub classify_message : List ℕ → Reason
unfolding contains_any
classify_message msg =
    if contains_any msg (codes "unmarshal" ∷ codes "invalid" ∷ codes "syntax" ∷ codes "json" ∷ [])
    then deserialization_error
    else if contains_any msg (codes "timeout" ∷ codes "deadline" ∷ codes "context" ∷ [])
    then timeout_error
    else if contains_any msg
        (codes "connection" ∷ codes "dial" ∷ codes "network" ∷ codes "refused" ∷ [])
    then network_error
    else if contains_any msg (codes "not found" ∷ codes "404" ∷ [])
    then not_found_error
    else if contains_any msg
        (codes "unauthorized" ∷ codes "forbidden" ∷ codes "401" ∷ codes "403" ∷ [])
    then auth_error
    else processing_error

-- `classifyError`; `none` is a nil error, and otherwise the text of the error.
unfoldable pub classify_error : Option (List ℕ) → Reason
unfolding classify_message
classify_error none = unknown
classify_error (some msg) = classify_message msg

-- A text with another one in the middle.
abbrev pub HasInside : List ℕ → List ℕ → Type 0
HasInside sub s = (before : List ℕ) × (after : List ℕ) × (s ≡ before ++ (sub ++ after))

begins_with_sound :
    (sub s : List ℕ) → begins_with sub s ≡ true → (rest : List ℕ) × (s ≡ sub ++ rest)
unfolding begins_with
begins_with_sound [] s h = (s, refl)
begins_with_sound (c ∷ cs) [] h = cc
begins_with_sound (c ∷ cs) (d ∷ s) h =
    let e : d ≡ c = ground arith in
    let (rest, k) = begins_with_sound cs s (ground arith) in (rest, cc)

begins_with-append : (sub rest : List ℕ) → begins_with sub (sub ++ rest) ≡ true
unfolding begins_with
begins_with-append [] rest = refl
begins_with-append (c ∷ cs) rest = ground (arith, begins_with-append cs rest)

occurs_sound : (sub s : List ℕ) → occurs sub s ≡ true → HasInside sub s
unfolding occurs
occurs_sound sub [] h = let (rest, k) = begins_with_sound sub [] h in ([], rest, k)
occurs_sound sub (c ∷ s) h = elim (Bool-cases (begins_with sub (c ∷ s))) [
  | inl e ↦ let (rest, k) = begins_with_sound sub (c ∷ s) e in ([], rest, k)
  | inr e ↦
      let (before, rest, k) = occurs_sound sub s (ground arith) in
      (c ∷ before, rest, ap (λ (t : List ℕ). c ∷ t) k)
]

occurs_here : (sub s : List ℕ) → begins_with sub s ≡ true → occurs sub s ≡ true
unfolding occurs
occurs_here sub [] h = h
occurs_here sub (c ∷ s) h = rw h

occurs_later : (sub before rest : List ℕ) → occurs sub (before ++ (sub ++ rest)) ≡ true
unfolding occurs
occurs_later sub [] rest = occurs_here sub (sub ++ rest) (begins_with-append sub rest)
occurs_later sub (c ∷ before) rest = ground (arith, occurs_later sub before rest)

-- The hand-written search finds a text exactly where it is somewhere inside.
pub occurs_iff : (sub s : List ℕ) → (occurs sub s ≡ true) ↔ HasInside sub s
occurs_iff sub s = (occurs_sound sub s, λ h. rw h.2 (occurs_later sub h.0 h.1))

-- `contains` answers whether one of the listed texts is somewhere inside.
pub contains_any_iff :
    (s : List ℕ) (subs : List (List ℕ))
    → (contains_any s subs ≡ true) ↔ ((sub : List ℕ) × Elem sub subs × HasInside sub s)
unfolding contains_any
contains_any_iff s [] = (λ h. cc, λ h. absurd h.1)
contains_any_iff s (x ∷ xs) = (there (contains_any_iff s xs).0, back (contains_any_iff s xs).1)
  where
    there :
        (contains_any s xs ≡ true → (sub : List ℕ) × Elem sub xs × HasInside sub s)
        → (occurs x s || contains_any s xs) ≡ true
        → (sub : List ℕ) × Elem sub (x ∷ xs) × HasInside sub s
    there ih h = elim (Bool-cases (occurs x s)) [
      | inl e ↦ (x, inl refl, (occurs_iff x s).0 e)
      | inr e ↦
          let rest : contains_any s xs ≡ true = ground arith in
          let k = ih rest in (k.0, inr k.1, k.2)
    ]

    back :
        (((sub : List ℕ) × Elem sub xs × HasInside sub s) → contains_any s xs ≡ true)
        → (sub : List ℕ) × Elem sub (x ∷ xs) × HasInside sub s
        → (occurs x s || contains_any s xs) ≡ true
    back ih (sub, inl e, i) =
        let here : occurs x s ≡ true =
          (occurs_iff x s).1 (subst (λ (y : List ℕ). HasInside y s) e i) in
        rw here
    back ih (sub, inr k, i) = let rest = ih (sub, k, i) in ground arith
