-- ===== src/Handler/Segments/Checks.antt =====
-- Chains of checks that let a request through: each of them did.
use vox_streaming.Base.{
  ◌≡◌, refl, ap, Bool, true, false, Option, none, some, String, ℕ, inl, inr, ◌⊎◌,
}
use vox_streaming.Handler.Segments.Requests.{Checked, stop, go_on, ◌>>=◌, require, parsed}

pub >>=-eq-go_on {κ ℓ} :
    {V : Type κ} {W : Type ℓ} (first : Checked V) (next : V → Checked W) {w : W}
    → first >>= next ≡ go_on w
    → (v : V) × (first ≡ go_on v) × (next v ≡ go_on w)
>>=-eq-go_on (stop status text) next e = cc
>>=-eq-go_on (go_on v) next e = (v, refl, e)

pub required {ℓ} :
    {W : Type ℓ} (b : Bool) (status : ℕ) (text : String) (next : Unit → Checked W) {w : W}
    → require b status text >>= next ≡ go_on w
    → (b ≡ true) × (next tt ≡ go_on w)
required true status text next e = (refl, e)
required false status text next e = cc

pub parsed-eq-go_on {κ ℓ} :
    {V : Type κ} {W : Type ℓ} (o : Option V) (status : ℕ) (text : String) (next : V → Checked W)
    {w : W}
    → parsed o status text >>= next ≡ go_on w
    → (v : V) × (o ≡ some v) × (next v ≡ go_on w)
parsed-eq-go_on none status text next e = cc
parsed-eq-go_on (some v) status text next e = (v, refl, e)

abbrev value_or {ℓ} : {A : Type ℓ} → Checked A → A → A
value_or (go_on a) d = a
value_or (stop status text) d = d

pub go_on-injective {ℓ} : {A : Type ℓ} {a b : A} → go_on a ≡ go_on b → a ≡ b
go_on-injective {a} h = ap (λ r. value_or r a) h

pub Checked-cases {ℓ} :
    {A : Type ℓ} (c : Checked A)
    → ((status : ℕ) × (text : String) × (c ≡ stop status text)) ⊎ ((a : A) × (c ≡ go_on a))
Checked-cases (stop status text) = inl (status, text, refl)
Checked-cases (go_on a) = inr (a, refl)
