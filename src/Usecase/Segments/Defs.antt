-- ===== src/Usecase/Segments/Defs.antt =====
-- segment_usecase.go: the state, and declaring and uploading a stream. SHA-256 and the decoding
-- of hexadecimal text belong to Go's library and are parameters.
use vox_streaming.Base.{
  ℕ, Bool, true, false, ◌&&◌, List, [], ◌∷◌, Option, none, some, String, ◌==◌, if◌then◌else◌,
  length,
}
use vox_streaming.Base.Int.{ℤ, pos}
use vox_streaming.Base.Text.{text_eq}
use vox_streaming.Base.Clock.{Time, is_zero}
use vox_streaming.Base.Failure.{
  Result, ok, err, Fault, wrapped, upload_session_completed, upload_session_ownership,
  segment_conflict,
}
use vox_streaming.Cache.Segment.{SegmentMeta, SegmentRegistry, add, find}
use vox_streaming.Cache.Inventory.{DeclaredSegment, InventoryRegistry, put}
use vox_streaming.Cache.Upload.{UploadSession, UploadRegistry, lookup_upload}

pub record Hashing : Type 0 where
  pub sha256 : String → List ℕ
  pub hex_decode : String → Option (List ℕ)

pub record SegmentUploadRequest : Type 0 where
  pub stream_id : String
  pub upload_token : String
  pub seq : ℤ
  pub started_at : Time
  pub ended_at : Time
  pub sha256 : String
  pub payload : List ℕ
  pub stop_reason : String

pub record InventoryDeclaration : Type 0 where
  pub stream_id : String
  pub upload_token : String
  pub complete : Bool
  pub declared_at : Time
  pub segments : List DeclaredSegment

-- The registries that the use case holds, and the keys of the objects stored, the newest first.
pub record SegmentUseCase : Type 0 where
  pub sessions : UploadRegistry
  pub segments : SegmentRegistry
  pub inventory : InventoryRegistry
  pub objects : List String

-- What the outside world answers during one call.
pub record Calls : Type 0 where
  pub now : Time
  pub lookup_fault : Fault
  pub find_fault : Fault
  pub stored : Result String
  pub add_fault : Fault
  pub inventory_fault : Fault
  pub put_fault : Fault
  pub list_fault : Fault
  pub complete_fault : Fault
  pub mark_fault : Fault

unfoldable pub bytes_eq : List ℕ → List ℕ → Bool
bytes_eq [] [] = true
bytes_eq [] (y ∷ ys) = false
bytes_eq (x ∷ xs) [] = false
bytes_eq (x ∷ xs) (y ∷ ys) = x == y && bytes_eq xs ys

abbrev pub decodes_to : Option (List ℕ) → List ℕ → Bool
decodes_to none actual = false
decodes_to (some expected) actual = bytes_eq expected actual

-- `validateUploadOwnership` finds no fault; bytes of different lengths are not equal.
unfoldable pub owns : Hashing → UploadSession → String → String → Bool
unfolding bytes_eq
owns h session stream_id token =
    text_eq session.stream_id stream_id
    && decodes_to (h.hex_decode session.upload_token_hash) (h.sha256 token)

-- A call on a session that was looked up, if the caller owns it.
unfoldable pub owned {ℓ} :
    {A : Type ℓ}
    → Hashing
    → String
    → String
    → UploadRegistry × Result UploadSession
    → SegmentUseCase
    → (UploadSession → SegmentUseCase → SegmentUseCase × Result A)
    → SegmentUseCase × Result A
unfolding owns
owned h stream_id token (sessions, err e) u k = (record u { sessions = sessions }, err e)
owned h stream_id token (sessions, ok session) u k =
    if owns h session stream_id token
    then k session (record u { sessions = sessions })
    else (record u { sessions = sessions }, err upload_session_ownership)

abbrev pub put_result :
    Result InventoryRegistry → SegmentUseCase → SegmentUseCase × Result (Unit {0})
put_result (ok i) u = (record u { inventory = i }, ok tt)
put_result (err e) u = (u, err e)

abbrev pub declared_at : Time → Time → Time
declared_at t now = if is_zero t then now else t

unfoldable pub declare_inventory :
    Hashing → Calls → InventoryDeclaration → SegmentUseCase → SegmentUseCase × Result (Unit {0})
unfolding owned
declare_inventory h w req u =
    owned h req.stream_id req.upload_token
      (lookup_upload w.lookup_fault w.now req.stream_id u.sessions) u
      (λ session v.
        put_result
          (put w.inventory_fault w.put_fault w.now
            (record {
              stream_id = req.stream_id;
              complete = req.complete;
              declared_at = declared_at req.declared_at w.now;
              segments = req.segments;
            })
            v.inventory)
          v)

-- The object is stored, and then its metadata is added.
unfoldable pub store_segment :
    Result String
    → Calls
    → SegmentUploadRequest
    → SegmentUseCase
    → SegmentUseCase × Result (Unit {0})
store_segment (err e) w req u = (u, err (wrapped "upload segment" e))
store_segment (ok key) w req u =
    let v : SegmentUseCase = record u { objects = key ∷ u.objects } in
    elim (add w.add_fault w.now req.stream_id
      (record {
        seq = req.seq;
        s3_key = key;
        sha256 = req.sha256;
        started_at = req.started_at;
        ended_at = req.ended_at;
        size_bytes = pos (length req.payload);
        uploaded_at = w.now;
      })
      u.segments) [ ok r ↦ (record v { segments = r }, ok tt) | err e ↦ (v, err e) ]

-- What is done with the segment that is there already, if one is.
unfoldable pub upload_over :
    Result (Option SegmentMeta)
    → Calls
    → SegmentUploadRequest
    → SegmentUseCase
    → SegmentUseCase × Result (Unit {0})
unfolding store_segment
upload_over (err e) w req u = (u, err (wrapped "lookup existing segment" e))
upload_over (ok (some existing)) w req u =
    if text_eq existing.sha256 req.sha256 then (u, ok tt) else (u, err segment_conflict)
upload_over (ok none) w req u = store_segment w.stored w req u

-- `Upload` once the caller is known to own the session.
unfoldable pub upload_owned :
    Calls
    → SegmentUploadRequest
    → UploadSession
    → SegmentUseCase
    → SegmentUseCase × Result (Unit {0})
unfolding upload_over
upload_owned w req session u =
    if session.completed
    then (u, err upload_session_completed)
    else upload_over (find w.find_fault w.now req.stream_id req.seq u.segments) w req u

unfoldable pub upload :
    Hashing → Calls → SegmentUploadRequest → SegmentUseCase → SegmentUseCase × Result (Unit {0})
unfolding owned upload_owned
upload h w req u =
    owned h req.stream_id req.upload_token
      (lookup_upload w.lookup_fault w.now req.stream_id u.sessions) u (upload_owned w req)
