-- ===== src/Base/Eq.antt =====
-- Keys that can be compared: `==` of Go on texts, integers and comparable structs.
use Prim.Native.Nat.{ℕ}
use Prim.Native.String.{String}
use mathlib.Core.Path.{◌≡◌, refl}
use mathlib.Core.Logic.{◌↔◌}
use mathlib.Core.Bool.{Bool, true, false}
use native.Mathlib.Omega.{arith}
use vox_streaming.Base.Tests.{◌==◌ as nat_eq, ==_iff}
use vox_streaming.Base.Text.{text_eq, text_eq_iff}
use vox_streaming.Base.Int.{ℤ, pos, negsuc}

pub record Eq {ℓ} (A : Type ℓ) : Type ℓ where
  pub beq : A → A → Bool
  pub beq_iff : (x y : A) → (beq x y ≡ true) ↔ (x ≡ y)

abbrev pub eq {ℓ} : {A : Type ℓ} ⦃e : Eq A⦄ → A → A → Bool
eq ⦃e⦄ = e.beq

pub eq_refl {ℓ} : {A : Type ℓ} ⦃e : Eq A⦄ (a : A) → eq a a ≡ true
eq_refl ⦃e⦄ a = (e.beq_iff a a).1 refl

instance abbrev pub eq_ℕ : Eq ℕ
eq_ℕ = record { beq = nat_eq; beq_iff = ==_iff }

instance abbrev pub eq_text : Eq String
eq_text = record { beq = text_eq; beq_iff = text_eq_iff }

abbrev pub int_beq : ℤ → ℤ → Bool
int_beq (pos a) (pos b) = nat_eq a b
int_beq (negsuc a) (negsuc b) = nat_eq a b
int_beq (pos a) (negsuc b) = false
int_beq (negsuc a) (pos b) = false

pub int_beq_iff : (a b : ℤ) → (int_beq a b ≡ true) ↔ (a ≡ b)
int_beq_iff a b = ground arith

instance abbrev pub eq_ℤ : Eq ℤ
eq_ℤ = record { beq = int_beq; beq_iff = int_beq_iff }
