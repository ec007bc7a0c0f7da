-- ===== src/Base/Order.antt =====
-- Sorting as `slices.SortFunc` and `slices.Sort` do it, by a stable insertion, and sorted lists.
use mathlib.Core.Path.{◌≡◌}
use mathlib.Core.Bool.{Bool, true, false}
use mathlib.Core.List.{List, [], ◌∷◌}
use mathlib.Core.Logic.{inl, inr}
use vox_streaming.Base.Lists.{Elem}
use vox_streaming.Base.Tests.{if◌then◌else◌, Bool-cases}

module _ {ℓ} {A : Type ℓ} (lt : A → A → Bool) where
  pub insert : A → List A → List A
  insert a [] = a ∷ []
  insert a (x ∷ xs) = if lt x a then x ∷ insert a xs else a ∷ x ∷ xs

  unfoldable pub sort : List A → List A
  unfolding insert
  sort [] = []
  sort (x ∷ xs) = insert x (sort xs)

  -- The first element of the list, if any, is not below `a`.
  abbrev pub Leads : A → List A → Type 0
  Leads a [] = Unit
  Leads a (x ∷ xs) = lt x a ≡ false

  abbrev pub IsSorted : List A → Type 0
  IsSorted [] = Unit
  IsSorted (x ∷ xs) = Leads x xs × IsSorted xs

module _ {ℓ} {A : Type ℓ} (lt : A → A → Bool)
    (asym : (a b : A) → lt a b ≡ true → lt b a ≡ false) where
  insert-Leads :
      (a x : A) (xs : List A) → lt a x ≡ false → Leads lt x xs → Leads lt x (insert lt a xs)
  unfolding insert
  insert-Leads a x [] h l = h
  insert-Leads a x (y ∷ ys) h l = elim (Bool-cases (lt y a)) [ inl e ↦ rw e l | inr e ↦ rw e h ]

  pub insert-IsSorted : (a : A) (xs : List A) → IsSorted lt xs → IsSorted lt (insert lt a xs)
  unfolding insert
  insert-IsSorted a [] s = (tt, tt)
  insert-IsSorted a (x ∷ xs) s = elim (Bool-cases (lt x a)) [
    | inl e ↦ rw e (insert-Leads a x xs (asym x a e) s.0, insert-IsSorted a xs s.1)
    | inr e ↦ rw e (e, s)
  ]

  pub sort-IsSorted : (xs : List A) → IsSorted lt (sort lt xs)
  unfolding sort
  sort-IsSorted [] = tt
  sort-IsSorted (x ∷ xs) = insert-IsSorted x (sort lt xs) (sort-IsSorted xs)

-- Sorting loses and adds no element.
insert-Elem :
    {A : Type 0} (lt : A → A → Bool) (a x : A) (xs : List A)
    → Elem a (insert lt x xs)
    → Elem a (x ∷ xs)
unfolding insert
insert-Elem lt a x [] h = h
insert-Elem lt a x (y ∷ ys) h = go (insert-Elem lt a x ys) (lt y x) h
  where
    swap : Elem a (x ∷ ys) → Elem a (x ∷ y ∷ ys)
    swap (inl e) = inl e
    swap (inr h) = inr (inr h)

    go :
        (Elem a (insert lt x ys) → Elem a (x ∷ ys))
        → (b : Bool) → Elem a (if b then y ∷ insert lt x ys else x ∷ y ∷ ys)
        → Elem a (x ∷ y ∷ ys)
    go ih true (inl h) = inr (inl h)
    go ih true (inr h) = swap (ih h)
    go ih false h = h

pub sort-Elem :
    {A : Type 0} (lt : A → A → Bool) (a : A) (xs : List A) → Elem a (sort lt xs) → Elem a xs
unfolding sort
sort-Elem lt a [] h = h
sort-Elem lt a (x ∷ xs) h = go (sort-Elem lt a xs) (insert-Elem lt a x (sort lt xs) h)
  where
    go : (Elem a (sort lt xs) → Elem a xs) → Elem a (x ∷ sort lt xs) → Elem a (x ∷ xs)
    go ih (inl e) = inl e
    go ih (inr h) = inr (ih h)

Elem-insert :
    {A : Type 0} (lt : A → A → Bool) (a x : A) (xs : List A)
    → Elem a (x ∷ xs)
    → Elem a (insert lt x xs)
unfolding insert
Elem-insert lt a x [] h = h
Elem-insert lt a x (y ∷ ys) h = go (Elem-insert lt a x ys) (lt y x) h
  where
    go :
        (Elem a (x ∷ ys) → Elem a (insert lt x ys))
        → (b : Bool) → Elem a (x ∷ y ∷ ys)
        → Elem a (if b then y ∷ insert lt x ys else x ∷ y ∷ ys)
    go ih true (inl e) = inr (ih (inl e))
    go ih true (inr (inl e)) = inl e
    go ih true (inr (inr h)) = inr (ih (inr h))
    go ih false h = h

pub Elem-sort :
    {A : Type 0} (lt : A → A → Bool) (a : A) (xs : List A) → Elem a xs → Elem a (sort lt xs)
unfolding sort
Elem-sort lt a [] h = h
Elem-sort lt a (x ∷ xs) (inl e) = Elem-insert lt a x (sort lt xs) (inl e)
Elem-sort lt a (x ∷ xs) (inr h) = Elem-insert lt a x (sort lt xs) (inr (Elem-sort lt a xs h))
