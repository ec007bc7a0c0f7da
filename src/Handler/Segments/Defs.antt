-- ===== src/Handler/Segments/Defs.antt =====
-- handler.go: the checks that come before a use case, and the errors that come after it.
use Prim.Native.String.{len, slice}
use text.Mathlib.Text.{starts_with}
use vox_streaming.Base.{
  ℕ, ◌+◌, Bool, false, not, ◌&&◌, ◌||◌, List, [], ◌∷◌, Option, none, some, String, ◌==◌, leb,
  if◌then◌else◌, length, take,
}
use vox_streaming.Base.Int.{pos, leb_ℤ}
use vox_streaming.Base.Text.{text_eq, is_empty, contains}
use vox_streaming.Base.Clock.{Time, after, sub, minutes}
use vox_streaming.Base.Failure.{
  Error, outside, wrapped, message, upload_session_not_found, upload_session_expired,
  upload_session_completed, upload_session_ownership, segment_conflict,
}
use vox_streaming.Usecase.Segments.{SegmentUploadRequest}
use vox_streaming.Handler.Segments.Requests.{
  Body, Request, Library, Response, refused, Checked, go_on, ◌>>=◌, ◌>>◌, require, parsed,
}

abbrev pub max_segment_size : ℕ
max_segment_size = 52428800

abbrev pub max_segment_duration : ℕ
max_segment_duration = minutes 2

abbrev pub max_inventory_segments : ℕ
max_inventory_segments = 5000

abbrev pub max_complete_body_size : ℕ
max_complete_body_size = 1024

-- `strings.CutPrefix` with "Bearer ", and whether anything follows but space.
unfoldable pub after_bearer : Library → String → Option String
unfolding is_empty
after_bearer l authorization =
    let token = slice authorization (len "Bearer ") (len authorization) in
    if not (starts_with authorization "Bearer ") || is_empty (l.trim_space token)
    then none
    else some token

-- `bearerToken`.
unfoldable pub bearer_token : Library → String → Option String
unfolding after_bearer
bearer_token l authorization = elim (after_bearer l authorization) [
  | none ↦ none
  | some token ↦ some (l.trim_space token)
]

abbrev pub authorized : Library → Request → Checked String
authorized l r = do
  token ← parsed (bearer_token l r.authorization) 401 "unauthorized"
  require (l.is_uuid r.stream_id) 400 "invalid streamId"
  go_on token

-- `io.ReadAll` of a body up to a limit.
unfoldable pub read_limited : ℕ → Body → Option (List ℕ)
read_limited limit body =
    if leb limit (length body.bytes)
    then some (take limit body.bytes)
    else if body.broken
    then none
    else some body.bytes

abbrev pub is_mp4 : Option String → Bool
is_mp4 none = false
is_mp4 (some media_type) = text_eq media_type "video/mp4"

abbrev pub sha256_size : ℕ
sha256_size = 32

-- The checks of `Upload` on when the segment was recorded.
unfoldable pub time_range : Library → Request → Checked (Time × Time)
time_range l r = do
  started ← parsed (l.parse_time r.started_at) 400 "invalid startedAt"
  ended ← parsed (l.parse_time r.ended_at) 400 "invalid endedAt"
  require (after ended started && leb_ℤ (sub ended started) (pos max_segment_duration)) 400
      "invalid segment time range"
  go_on (started, ended)

-- Those on its body.
unfoldable pub payload_of : Library → Request → Checked (List ℕ)
unfolding read_limited
payload_of l r = do
  require (is_mp4 (l.media_type r.content_type)) 415 "content type must be video/mp4"
  require (leb_ℤ r.content_length (pos max_segment_size)) 413 "segment too large"
  payload ← parsed (read_limited (max_segment_size + 1) r.body) 400 "read body failed"
  require (leb (length payload) max_segment_size) 413 "segment too large"
  require (not (length payload == 0)) 400 "empty body"
  go_on payload

-- Those on the checksum that was sent along.
unfoldable pub checksum_of : Library → Request → List ℕ → Checked String
checksum_of l r payload = do
  let checksum = l.to_lower (l.trim_space r.segment_sha256)
  expected ← parsed (l.hashing.hex_decode checksum) 400 "invalid X-Segment-SHA256"
  require (length expected == sha256_size) 400 "invalid X-Segment-SHA256"
  require (l.equal_fold checksum (l.hex_encode (l.sha256_bytes payload))) 422
      "segment checksum mismatch"
  go_on checksum

-- `Upload` up to the call of the use case.
unfoldable pub checked_upload : Library → Request → Checked SegmentUploadRequest
unfolding time_range payload_of checksum_of is_empty
checked_upload l r = do
  token ← authorized l r
  require (not (is_empty r.seq) && (not (is_empty r.started_at) && not (is_empty r.ended_at))) 400
      "missing required params"
  seq ← parsed (l.parse_int r.seq) 400 "invalid seq"
  require (leb_ℤ (pos 0) seq) 400 "invalid seq"
  range ← time_range l r
  payload ← payload_of l r
  checksum ← checksum_of l r payload
  go_on (record {
    stream_id = r.stream_id;
    upload_token = token;
    seq = seq;
    started_at = range.0;
    ended_at = range.1;
    sha256 = checksum;
    payload = payload;
    stop_reason = "";
  })

-- `KnownStopReasons`, and `NormalizeStopReason`.
abbrev pub known_stop_reasons : List String
known_stop_reasons =
    "Submitted" ∷ "Expired" ∷ "UserClosed" ∷ "ApplicationShutdown" ∷ "CaptureFailure"
    ∷ "RecoveredAfterCrash" ∷ []

unfoldable pub normalize_stop_reason : Library → String → String
unfolding contains
normalize_stop_reason l reason =
    if contains known_stop_reasons (l.trim_space reason) then l.trim_space reason else ""

-- `readStopReason`. A body over the limit cannot be read; one of space alone does not decode.
unfoldable pub read_stop_reason : Library → Body → String
unfolding normalize_stop_reason
read_stop_reason l body =
    if body.broken || leb (max_complete_body_size + 1) (length body.bytes)
    then ""
    else elim (l.decode_stop_reason body.bytes) [
      | none ↦ ""
      | some reason ↦ normalize_stop_reason l reason
    ]

-- What `errors.Is` finds at the end of the chain.
unfoldable pub cause : Error → Error
cause (wrapped text e) = cause e
cause (outside text) = outside text
cause (message text) = message text
cause upload_session_not_found = upload_session_not_found
cause upload_session_expired = upload_session_expired
cause upload_session_completed = upload_session_completed
cause upload_session_ownership = upload_session_ownership
cause segment_conflict = segment_conflict

-- `writeUseCaseError`.
unfoldable pub write_use_case_error : {A : Type 0} → Error → String → Response A
unfolding cause
write_use_case_error e fallback = elim (cause e) [
  | upload_session_not_found ↦ refused 404 "upload session not found"
  | upload_session_expired ↦ refused 410 "upload session expired"
  | upload_session_ownership ↦ refused 403 "forbidden"
  | upload_session_completed ↦ refused 409 "upload session already completed"
  | segment_conflict ↦ refused 409 "segment sequence conflict"
  | _ ↦ refused 500 fallback
]
