-- ===== src/Base/Failure.antt =====
-- Go's `error` results: a value or an error, and the errors that the program tells apart.
use Prim.Native.String.{String}
use mathlib.Core.Path.{◌≡◌, refl, ap}
use mathlib.Core.Option.{Option, none, some}

pub data Error : Type 0 where
  -- cache and usecase sentinels
  upload_session_not_found upload_session_expired upload_session_completed : Error
  upload_session_ownership segment_conflict : Error
  -- an error of Redis, Kafka, the object store, the file system or another library
  outside : String → Error
  -- `fmt.Errorf("text: %w", err)`
  wrapped : String → Error → Error
  -- `errors.New` and `fmt.Errorf` with no cause
  message : String → Error

pub data Result {ℓ} (A : Type ℓ) : Type ℓ where
  err : Error → Result A
  ok : A → Result A

-- `if err != nil { return err }` between two calls: the value goes on, an error ends the chain.
infixl 5 ◌>>=◌
abbrev pub ◌>>=◌ {κ ℓ} : {V : Type κ} {W : Type ℓ} → Result V → (V → Result W) → Result W
err problem >>= continue = err problem
ok value >>= continue = continue value

infixl 5 ◌>>◌
abbrev pub ◌>>◌ {ℓ} : {W : Type ℓ} → Result (Unit {0}) → Result W → Result W
earlier >> following = earlier >>= (λ _. following)

-- The error that a call of the outside world reports, if it fails.
abbrev pub Fault : Type 0
Fault = Option Error

-- `if err != nil { return err }` around such a call.
abbrev pub check : Fault → Result (Unit {0})
check none = ok tt
check (some e) = err e

-- The same with `fmt.Errorf("text: %w", err)`.
abbrev pub check_as : String → Fault → Result (Unit {0})
check_as text none = ok tt
check_as text (some e) = err (wrapped text e)

-- A chain that ends well: its first call did, and so did what it was handed on to.
pub >>=-eq-ok {κ ℓ} :
    {V : Type κ} {W : Type ℓ} (first : Result V) (continue : V → Result W) {w : W}
    → first >>= continue ≡ ok w
    → (v : V) × (first ≡ ok v) × (continue v ≡ ok w)
>>=-eq-ok (err problem) continue ends = cc
>>=-eq-ok (ok value) continue ends = (value, refl, ends)

-- The value of a result, or another.
abbrev ok_or {ℓ} : {A : Type ℓ} → Result A → A → A
ok_or (ok a) d = a
ok_or (err e) d = d

pub ok-injective {ℓ} : {A : Type ℓ} {a b : A} → ok a ≡ ok b → a ≡ b
ok-injective {a} h = ap (λ r. ok_or r a) h
