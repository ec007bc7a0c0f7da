-- ===== src/Base/Redis.antt =====
-- What the program uses of Redis: keys with a value and an expiry, of which only those that have not
-- expired are seen. Commands take the time at which the server runs them.
use Prim.Native.Nat.{ℕ, ◌<◌, ◌≤◌}
use mathlib.Core.Path.{◌≡◌}
use mathlib.Core.Bool.{false}
use mathlib.Core.Logic.{inl, inr}
use mathlib.Core.Option.{Option, none, some}
use mathlib.Core.List.{List, [], ◌∷◌}
use native.Mathlib.Omega.{arith}
use vox_streaming.Base.Tests.{ltb, lt→ltb, if◌then◌else◌, Bool-cases, Option-cases}
use vox_streaming.Base.Eq.{Eq, eq, eq_refl}
use vox_streaming.Base.Store.{Store, lookup, insert, remove, lookup-insert, lookup-remove}

-- A JSON document as Redis holds it: one that decodes, or a text that does not.
pub data Document {ℓ} (A : Type ℓ) : Type ℓ where
  doc : A → Document A
  garbage : Document A

pub record Cell {ℓ} (V : Type ℓ) : Type ℓ where
  pub value : V
  pub deadline : ℕ

abbrev pub Keys {ℓ κ} : Type ℓ → Type κ → Type (ℓ ⊔ κ)
Keys K V = Store K (Cell V)

-- The cell of a key, unless its time is up.
unfoldable pub live {ℓ} : {V : Type ℓ} → ℕ → Option (Cell V) → Option (Cell V)
live now none = none
live now (some c) = if ltb now c.deadline then some c else none

abbrev pub value_of {ℓ} : {V : Type ℓ} → Option (Cell V) → Option V
value_of none = none
value_of (some c) = some c.value

module _ {ℓ κ} {K : Type ℓ} {V : Type κ} ⦃e : Eq K⦄ where
  unfoldable pub get_cell : ℕ → K → Keys K V → Option (Cell V)
  get_cell now k m = live now (lookup k m)

  unfoldable pub get : ℕ → K → Keys K V → Option V
  unfolding get_cell
  get now k m = value_of (get_cell now k m)

  -- SET with an expiry, and SET with KEEPTTL.
  unfoldable pub set : K → V → ℕ → Keys K V → Keys K V
  set k v deadline m = insert k (record { value = v; deadline = deadline }) m

  unfoldable pub del : K → Keys K V → Keys K V
  del k m = remove k m

  -- EXPIRE does nothing to a key that is not there.
  unfoldable pub expire : ℕ → K → ℕ → Keys K V → Keys K V
  unfolding get_cell
  expire now k deadline m = elim (get_cell now k m) [
    | none ↦ m
    | some c ↦ insert k (record { value = c.value; deadline = deadline }) m
  ]

module _ {ℓ κ} {K : Type ℓ} {V : Type κ} ⦃e : Eq K⦄ where
  -- A key is read back while its new expiry lies ahead; another key is as it was.
  pub get-set :
      (now : ℕ) (k j : K) (v : V) (d : ℕ) (m : Keys K V)
      → get now j (set k v d m)
        ≡ (if eq k j then (if ltb now d then some v else none) else get now j m)
  unfolding get set live
  get-set now k j v d m = elim (Bool-cases (eq k j)) [
    | inl h ↦ rw (lookup-insert k j (record { value = v; deadline = d }) m, h) (ground arith)
    | inr h ↦ rw (lookup-insert k j (record { value = v; deadline = d }) m, h)
  ]

  pub get-set_self :
      (later : ℕ) (k : K) (v : V) (d : ℕ) (m : Keys K V)
      → later < d
      → get later k (set k v d m) ≡ some v
  get-set_self later k v d m h = rw (get-set later k k v d m, eq_refl k, lt→ltb later d h)

  pub get-set_ne :
      (later : ℕ) (k j : K) (v : V) (d : ℕ) (m : Keys K V)
      → eq k j ≡ false
      → get later j (set k v d m) ≡ get later j m
  get-set_ne later k j v d m h = rw (get-set later k j v d m, h)

  -- What has expired, or was never there, stays away.
  pub get_later :
      (now later : ℕ) (k : K) (m : Keys K V)
      → now ≤ later
      → get now k m ≡ none
      → get later k m ≡ none
  unfolding get get_cell live
  get_later now later k m h e = elim (Option-cases (lookup k m)) [
    | inl absent ↦ rw (absent, live)
    | inr (c, found) ↦ ground arith
  ]

  pub get-del :
      (now : ℕ) (k j : K) (m : Keys K V)
      → get now j (del k m) ≡ (if eq k j then none else get now j m)
  unfolding get del live
  get-del now k j m = elim (Bool-cases (eq k j)) [
    | inl h ↦ rw (lookup-remove k j m, h)
    | inr h ↦ rw (lookup-remove k j m, h)
  ]

-- Hashes: a key whose value is a map of fields. A pipeline of HSET and EXPIRE is one command here.
abbrev fields_of {ℓ κ} : {F : Type ℓ} {V : Type κ} → Option (Store F V) → Store F V
fields_of none = []
fields_of (some h) = h

module _ {ℓ κ ι} {K : Type ℓ} {F : Type κ} {V : Type ι} ⦃e : Eq K⦄ where
  unfoldable pub hgetall : ℕ → K → Keys K (Store F V) → Store F V
  hgetall now k m = fields_of (get now k m)

module _ {ℓ κ ι} {K : Type ℓ} {F : Type κ} {V : Type ι} ⦃e : Eq K⦄ ⦃d : Eq F⦄ where
  unfoldable pub hget : ℕ → K → F → Keys K (Store F V) → Option V
  unfolding hgetall
  hget now k f m = lookup f (hgetall now k m)

  unfoldable pub hset_expire : ℕ → K → F → V → ℕ → Keys K (Store F V) → Keys K (Store F V)
  unfolding hgetall
  hset_expire now k f v deadline m = set k (insert f v (hgetall now k m)) deadline m

module _ {ℓ κ ι} {K : Type ℓ} {F : Type κ} {V : Type ι} ⦃e : Eq K⦄ ⦃d : Eq F⦄ where
  pub hgetall-hset_expire :
      (now later : ℕ) (k : K) (f : F) (v : V) (t : ℕ) (m : Keys K (Store F V))
      → later < t
      → hgetall later k (hset_expire now k f v t m) ≡ insert f v (hgetall now k m)
  unfolding hset_expire
  hgetall-hset_expire now later k f v t m h =
      rw (get-set later k k (insert f v (hgetall now k m)) t m, eq_refl k, lt→ltb later t h)

  -- A field is read back, and the other fields of its key stay as they were.
  pub hget-hset_expire :
      (now later : ℕ) (k : K) (f g : F) (v : V) (t : ℕ) (m : Keys K (Store F V))
      → later < t
      → hget later k g (hset_expire now k f v t m) ≡ (if eq f g then some v else hget now k g m)
  unfolding hget
  hget-hset_expire now later k f g v t m h =
      rw (hgetall-hset_expire now later k f v t m h) (lookup-insert f g v (hgetall now k m))

  -- Another key's hash is not touched.
  pub hget-hset_expire_ne :
      (now later : ℕ) (k j : K) (f g : F) (v : V) (t : ℕ) (m : Keys K (Store F V))
      → eq k j ≡ false
      → hget later j g (hset_expire now k f v t m) ≡ hget later j g m
  unfolding hget hset_expire hgetall
  hget-hset_expire_ne now later k j f g v t m h =
      rw (get-set later k j (insert f v (fields_of (get now k m))) t m, h)

-- What decodes, in order: the loops that skip a document with `continue`.
unfoldable pub decoded {ℓ} : {A : Type ℓ} → List (Document A) → List A
decoded [] = []
decoded (doc a ∷ ds) = a ∷ decoded ds
decoded (garbage ∷ ds) = decoded ds
