-- ===== src/Tests/Cache.antt =====
-- The registries, with one stream of one candidate.
use vox_streaming.Base.{◌≡◌, refl, Bool, true, false, [], ◌∷◌, none, some, arith, if◌then◌else◌}
use vox_streaming.Base.Int.{pos}
use vox_streaming.Base.Eq.{eq_ℤ, eq_text}
use vox_streaming.Base.Text.{text_eq, text_eq_iff}
use vox_streaming.Base.Store.{lookup}
use vox_streaming.Base.Redis.{doc, get, get_cell, live}
use vox_streaming.Base.Failure.{ok, err, upload_session_not_found}
use vox_streaming.Cache.Segment.{SegmentMeta, SegmentRegistry}
use vox_streaming.Cache.Hls.{HlsFragmentMeta, HlsFragmentRegistry}
use vox_streaming.Cache.Upload.{
  UploadSession, UploadRegistry, UploadKey, eq_upload_key, register_or_get_upload, lookup_upload,
  mark_upload_complete, IsValid, register_or_get_upload-IsValid, lookup_upload_never_expired,
  IsFresh, mark_upload_complete_twice, CellFits,
}

abbrev session_a : UploadSession
session_a = record {
  stream_id = "a";
  candidate_id = "c";
  session_id = "s";
  schedule_id = "room";
  stream_type = "camera";
  created_at = 0;
  expires_at = 9000000;
  completed = false;
  upload_token_hash = "00";
  stop_reason = "";
}

-- The stream that the same candidate asks for next.
abbrev session_b : UploadSession
session_b = record session_a { stream_id = "b"; upload_token_hash = "01" }

abbrev key_a : UploadKey
key_a = record {
  schedule_id = "room";
  session_id = "s";
  candidate_id = "c";
  stream_type = "camera";
}

abbrev held : UploadSession → UploadRegistry
held s = record {
  sessions = ("a", record { value = doc s; deadline = 9000000 }) ∷ [];
  index = (key_a, record { value = "a"; deadline = 9000000 }) ∷ [];
}

held-IsValid : IsValid (held session_a)
unfolding lookup
held-IsValid k = go (text_eq "a" k) refl
  where
    go :
        (b : Bool)
        → text_eq "a" k ≡ b
        → CellFits k
            (if b then some (record { value = doc session_a; deadline = 9000000 }) else none)
    go true e = ((text_eq_iff "a" k).0 e, omega arith)
    go false e = tt

register_or_get_upload-IsValid_example :
    IsValid (register_or_get_upload none 1 session_b (held session_a)).0
register_or_get_upload-IsValid_example =
    register_or_get_upload-IsValid none 1 session_b (held session_a) held-IsValid

lookup_upload_never_expired_example :
    IsFresh 9000001 (lookup_upload none 9000001 "a" (held session_b)).1
    × (lookup_upload none 9000001 "a" (held session_a)
        ≡ (held session_a, err upload_session_not_found))
unfolding lookup text_eq
lookup_upload_never_expired_example =
    lookup_upload_never_expired 9000001 "a" (held session_b) (held session_a) session_a 9000000
      held-IsValid refl (omega arith)

found_at : get 1 "a" (held session_a).sessions ≡ some (doc session_a)
unfolding get get_cell live lookup text_eq
found_at = refl

found_later : get 2 "a" (held session_a).sessions ≡ some (doc session_a)
unfolding get get_cell live lookup text_eq
found_later = refl

mark_upload_complete_twice_example :
    (mark_upload_complete none 2 "a" "Expired"
      (mark_upload_complete none 1 "a" "Submitted" (held session_a)).0).1
    ≡ ok false
mark_upload_complete_twice_example =
    (mark_upload_complete_twice 1 2 "a" "Submitted" "Expired" (held session_a) found_at found_later
      refl).1

abbrev segment_1 : SegmentMeta
segment_1 = record {
  seq = pos 1;
  s3_key = "k";
  sha256 = "h";
  started_at = 0;
  ended_at = 5;
  size_bytes = pos 9;
  uploaded_at = 5;
}

abbrev no_segments : SegmentRegistry
no_segments = record { hashes = []; complete = [] }

abbrev fragment_1 : HlsFragmentMeta
fragment_1 = record {
  seq = pos 1;
  epoch = pos 0;
  s3_key = "k";
  started_at = 0;
  ended_at = 5;
  size_bytes = pos 9;
  uploaded_at = 5;
}

abbrev no_fragments : HlsFragmentRegistry
no_fragments = record { inits = []; fragments = [] }
