-- ===== src/Auth/Access.antt =====
-- What a stream token that was accepted says, and whom it lets in.
use vox_streaming.Base.{
  ◌≡◌, refl, ◌⊎◌, inl, inr, Bool, true, false, not, ◌&&◌, List, [], ◌∷◌, String, arith, Bool-cases,
  All, ap, subst, Elem, sym,
}
use vox_streaming.Base.Text.{text_eq, text_eq_iff, is_empty, contains}
use vox_streaming.Base.Failure.{Result, ok, err, ◌>>◌, >>=-eq-ok, ok-injective}
use vox_streaming.Auth.Claims.{
  StreamClaims, token_use_stream, can_stream, can_access, refuse_if, supported_types, no_items,
  validate_stream,
}

-- A guard that let a call through, and what came after it.
pub passed {ℓ} :
    {A : Type ℓ} (b : Bool) (text : String) (k : Result A) (a : A)
    → (refuse_if b text >> k) ≡ ok a
    → (b ≡ false) × (k ≡ ok a)
passed true text k a h = cc
passed false text k a h = (refl, h)

abbrev pub IsStreamType : String → Type 0
IsStreamType t = (t ≡ "camera") ⊎ (t ≡ "screen")

known_type :
    (t : String) → (not (text_eq t "camera") && not (text_eq t "screen")) ≡ false → IsStreamType t
known_type t h = elim (Bool-cases (text_eq t "camera")) [
  | inl e ↦ inl ((text_eq_iff t "camera").0 e)
  | inr e ↦ inr ((text_eq_iff t "screen").0 (ground (arith, e, h)))
]

supported_types-IsStreamType : (ts : List String) → supported_types ts ≡ ok tt → All IsStreamType ts
unfolding supported_types
supported_types-IsStreamType [] h = tt
supported_types-IsStreamType (t ∷ ts) h =
    let p =
      passed (not (text_eq t "camera") && not (text_eq t "screen")) "unsupported stream type"
        (supported_types ts) tt h in
    (known_type t p.0, supported_types-IsStreamType ts p.1)

pub All-contains :
    (P : String → Type 0) (xs : List String) (x : String) → All P xs → contains xs x ≡ true → P x
unfolding contains
All-contains P [] x a h = cc
All-contains P (y ∷ ys) x a h = elim (Bool-cases (text_eq y x)) [
  | inl e ↦ subst P ((text_eq_iff y x).0 e) a.0
  | inr e ↦ All-contains P ys x a.1 (ground (arith, e, h))
]

-- What a list of texts contains is one of them.
contains-Elem : (xs : List String) (x : String) → contains xs x ≡ true → Elem x xs
unfolding contains
contains-Elem [] x h = cc
contains-Elem (y ∷ ys) x h = elim (Bool-cases (text_eq y x)) [
  | inl e ↦ inl (sym ((text_eq_iff y x).0 e))
  | inr e ↦ inr (contains-Elem ys x (ground (arith, e, h)))
]

-- What a stream token that was accepted guarantees.
abbrev pub IsStreamToken : StreamClaims → Type 0
IsStreamToken c =
    (text_eq c.token_use token_use_stream ≡ true)
    × (is_empty c.candidate_id ≡ false)
    × (is_empty c.session_id ≡ false)
    × (is_empty c.schedule_id ≡ false)
    × (is_empty c.exam_id ≡ false)
    × All IsStreamType c.stream_types

pub not-true : (b : Bool) → not b ≡ false → b ≡ true
not-true b h = ground arith

stream_claims : (d c : StreamClaims) → validate_stream (ok d) ≡ ok c → (d ≡ c) × IsStreamToken d
unfolding validate_stream
stream_claims d c h =
    let a = passed (not (text_eq d.token_use token_use_stream)) "invalid token use" _ c h in
    let b = passed (is_empty d.candidate_id) "missing candidateId" _ c a.1 in
    let e = passed (is_empty d.session_id) "missing sessionId" _ c b.1 in
    let f = passed (is_empty d.schedule_id) "missing scheduleId" _ c e.1 in
    let g = passed (is_empty d.exam_id) "missing examId" _ c f.1 in
    let i = passed (no_items d.stream_types) "missing streamTypes" _ c g.1 in
    let j = >>=-eq-ok (supported_types d.stream_types) (λ _. ok d) i.1 in
    (
      ok-injective j.2,
      (
        not-true (text_eq d.token_use token_use_stream) a.0,
        b.0,
        e.0,
        f.0,
        g.0,
        supported_types-IsStreamType d.stream_types j.1,
      ),
    )

-- A stream token that was accepted carries what the library parsed, and lets its bearer into one
-- schedule only, and there only to a camera or a screen stream that the token names.
pub validate_stream-access :
    (parsed : Result StreamClaims) (c : StreamClaims) (schedule_id stream_type : String)
    → validate_stream parsed ≡ ok c
    → (parsed ≡ ok c)
      × IsStreamToken c
      × (can_access c schedule_id stream_type ≡ true
          → (c.schedule_id ≡ schedule_id)
            × Elem stream_type c.stream_types
            × IsStreamType stream_type)
unfolding can_access can_stream validate_stream
validate_stream-access (err e) c schedule_id stream_type h = cc
validate_stream-access (ok d) c schedule_id stream_type h =
    let s = stream_claims d c h in
    let t = subst IsStreamToken s.0 s.1 in
    (
      ap (λ x. ok x) s.0,
      t,
      λ a. (
        (text_eq_iff c.schedule_id schedule_id).0 (ground (arith, a)),
        contains-Elem c.stream_types stream_type (ground (arith, a)),
        All-contains IsStreamType c.stream_types stream_type t.5 (ground (arith, a)),
      ),
    )
