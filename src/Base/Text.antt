-- ===== src/Base/Text.antt =====
-- Texts compared as a whole, and sets of texts as lists.
use Prim.Native.String.{String}
use text.Mathlib.Text.{◌==◌}
use text.Mathlib.TextEquality.{eq_iff}
use mathlib.Core.Path.{◌≡◌, refl}
use mathlib.Core.Logic.{◌↔◌}
use mathlib.Core.Bool.{Bool, true, false, ◌||◌}
use mathlib.Core.List.{List, [], ◌∷◌}
use native.Mathlib.Omega.{arith}

unfoldable pub text_eq : String → String → Bool
text_eq a b = a == b

pub text_eq_iff : (a b : String) → (text_eq a b ≡ true) ↔ (a ≡ b)
unfolding text_eq
text_eq_iff a b = eq_iff a b

pub text_eq_refl : (a : String) → text_eq a a ≡ true
text_eq_refl a = (text_eq_iff a a).1 refl

pub text_eq_sym : (a b : String) → text_eq a b ≡ text_eq b a
text_eq_sym a b = ground (arith, text_eq_iff a b, text_eq_iff b a)

unfoldable pub is_empty : String → Bool
unfolding text_eq
is_empty s = text_eq s ""

-- `slices.Contains` over texts.
unfoldable pub contains : List String → String → Bool
contains [] s = false
contains (x ∷ xs) s = text_eq x s || contains xs s
