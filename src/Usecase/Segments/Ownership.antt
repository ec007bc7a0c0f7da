-- ===== src/Usecase/Segments/Ownership.antt =====
-- Who may change or read a stream.
use vox_streaming.Base.{
  ℕ, ◌≡◌, refl, inl, inr, true, ap, List, [], ◌∷◌, Option, none, some, String, arith, Bool-cases,
}
use vox_streaming.Base.Text.{text_eq_iff}
use vox_streaming.Base.Failure.{Result, ok, err, upload_session_ownership}
use vox_streaming.Stream.Float.{Floats}
use vox_streaming.Cache.Upload.{UploadSession, UploadRegistry, lookup_upload}
use vox_streaming.Usecase.Segments.Defs.{
  Hashing, SegmentUploadRequest, InventoryDeclaration, SegmentUseCase, Calls, bytes_eq, decodes_to,
  owns, owned, declare_inventory, upload,
}
use vox_streaming.Usecase.Segments.Audit.{audit, complete_upload}

-- A token belongs to a session that stands under the stream and keeps the token's own hash.
abbrev pub IsOwnToken : Hashing → UploadSession → String → String → Type 0
IsOwnToken h session stream_id token =
    (session.stream_id ≡ stream_id)
    × (h.hex_decode session.upload_token_hash ≡ some (h.sha256 token))

bytes_eq-eq : (xs ys : List ℕ) → bytes_eq xs ys ≡ true → xs ≡ ys
unfolding bytes_eq
bytes_eq-eq [] [] e = refl
bytes_eq-eq [] (y ∷ ys) e = cc
bytes_eq-eq (x ∷ xs) [] e = cc
bytes_eq-eq (x ∷ xs) (y ∷ ys) e =
    let same : x ≡ y = ground (arith, e) in rw (same, bytes_eq-eq xs ys (ground (arith, e))) refl

decodes_to-eq : (o : Option (List ℕ)) (ys : List ℕ) → decodes_to o ys ≡ true → o ≡ some ys
decodes_to-eq none ys e = cc
decodes_to-eq (some xs) ys e = ap (λ l. some l) (bytes_eq-eq xs ys e)

owns-IsOwnToken :
    (h : Hashing) (session : UploadSession) (stream_id token : String)
    → owns h session stream_id token ≡ true
    → IsOwnToken h session stream_id token
unfolding owns
owns-IsOwnToken h session stream_id token o = (
  (text_eq_iff session.stream_id stream_id).0 (ground (arith, o)),
  decodes_to-eq (h.hex_decode session.upload_token_hash) (h.sha256 token) (ground (arith, o)),
)

refused :
    {A : Type 0} (h : Hashing) (stream_id token : String) (u : SegmentUseCase)
    (session : UploadSession) (l : UploadRegistry × Result UploadSession)
    (k : UploadSession → SegmentUseCase → SegmentUseCase × Result A)
    → l ≡ (u.sessions, ok session)
    → ¬ (IsOwnToken h session stream_id token)
    → owned h stream_id token l u k ≡ (u, err upload_session_ownership)
unfolding owned
refused h stream_id token u session l k e o = elim (Bool-cases (owns h session stream_id token)) [
  | inl y ↦ absurd (o (owns-IsOwnToken h session stream_id token y))
  | inr n ↦ rw (e, n) refl
]

-- Where the session that is looked up stands under another stream, or keeps a hash that does not decode
-- to the hash of the caller's token, the caller can neither upload, nor declare an inventory, nor
-- complete the stream, nor read its audit, whatever the rest of the request and the answers of the
-- world: each call is refused for its ownership and changes nothing.
pub stranger_changes_nothing :
    (fl : Floats) (h : Hashing) (w : Calls) (req : SegmentUploadRequest) (d : InventoryDeclaration)
    (u : SegmentUseCase) (session : UploadSession)
    → d.stream_id ≡ req.stream_id
    → d.upload_token ≡ req.upload_token
    → lookup_upload w.lookup_fault w.now req.stream_id u.sessions ≡ (u.sessions, ok session)
    → ¬ (IsOwnToken h session req.stream_id req.upload_token)
    → (upload h w req u ≡ (u, err upload_session_ownership))
      × (declare_inventory h w d u ≡ (u, err upload_session_ownership))
      × (complete_upload h w req u ≡ (u, err upload_session_ownership))
      × (audit fl h w req u ≡ (u, err upload_session_ownership))
unfolding upload declare_inventory complete_upload audit
stranger_changes_nothing fl h w req d u session es et l o = (
  refused h req.stream_id req.upload_token u session _ _ l o,
  rw (es, et) (refused h req.stream_id req.upload_token u session _ _ l o),
  refused h req.stream_id req.upload_token u session _ _ l o,
  refused h req.stream_id req.upload_token u session _ _ l o,
)
