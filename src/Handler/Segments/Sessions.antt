-- ===== src/Handler/Segments/Sessions.antt =====
-- handler.go: `CreateSession`.
use vox_streaming.Base.{
  ℕ, ◌+◌, ◌*◌, Bool, not, List, ◌∷◌, Option, none, some, String, if◌then◌else◌, false,
}
use vox_streaming.Base.Int.{ℤ, pos, pos_part}
use vox_streaming.Base.Text.{is_empty}
use vox_streaming.Base.Clock.{Time, after, minutes}
use vox_streaming.Base.Failure.{Result, ok, err, Fault}
use vox_streaming.Domain.{RecordingPartChangedEvent}
use vox_streaming.Auth.Claims.{StreamClaims, can_stream, schedule_end, validate_stream}
use vox_streaming.Cache.Pending.{PendingAssembly, schedule}
use vox_streaming.Cache.Upload.{UploadSession, UploadRegistry, register_or_get_upload}
use vox_streaming.Handler.Segments.Requests.{
  Request, Library, Response, refused, json, Checked, go_on, ◌>>=◌, ◌>>◌, require, parsed,
}
use vox_streaming.Handler.Segments.Defs.{after_bearer}
use vox_streaming.Handler.Segments.Endpoints.{
  part_changed, SegmentHandler, Answers, desktop_source, on_passed, with_pending,
}

pub record CreateSessionResponse : Type 0 where
  pub stream_id : String
  pub stream_type : String
  pub expires_at : Time
  pub upload_token : String

abbrev pub assembly_watchdog_grace : ℕ
assembly_watchdog_grace = minutes 2

abbrev pub upload_credential_grade : ℕ
upload_credential_grade = minutes 30

-- `time.Unix`: 1970 began this many seconds after the zero time. The sum of the source fits 64 bits.
abbrev pub unix_time : ℕ → Time
unix_time s = (s + 62135596800) * 1000000000

abbrev pub later_of : Time → Option ℤ → Time
later_of window none = window
later_of window (some end) =
    if after (unix_time (pos_part end)) window then unix_time (pos_part end) else window

-- Until when what was recorded may be uploaded.
unfoldable pub credential_expires : Library → StreamClaims → Time
unfolding schedule_end
credential_expires l claims =
    later_of (l.token_expires claims) (schedule_end claims) + upload_credential_grade

abbrev pub claims_of : Result StreamClaims → Option StreamClaims
claims_of (ok c) = some c
claims_of (err e) = none

-- `validateStreamToken`.
unfoldable pub validate_stream_token : Library → String → Option StreamClaims
unfolding after_bearer validate_stream
validate_stream_token l authorization = elim (after_bearer l authorization) [
  | none ↦ none
  | some token ↦ claims_of (validate_stream (l.parse_token token))
]

-- `newUploadToken`: the token, and the hash that is kept of it.
unfoldable pub new_upload_token : Library → Option (List ℕ) → Option (String × String)
new_upload_token l none = none
new_upload_token l (some raw) = some (l.base64 raw, l.hex_encode (l.hashing.sha256 (l.base64 raw)))

-- The session to register, and the token for the client.
unfoldable pub checked_session : Library → Answers → Request → Checked (UploadSession × String)
unfolding validate_stream_token can_stream new_upload_token credential_expires is_empty
checked_session l w r = do
  claims ← parsed (validate_stream_token l r.authorization) 401 "unauthorized"
  stream_type ← parsed (l.decode_stream_type r.body) 400 "invalid request"
  require (not (is_empty (l.trim_space stream_type))) 400 "streamType is required"
  require (can_stream claims stream_type) 403 "forbidden stream type"
  stream_id ← parsed w.new_stream_id 500 "cannot create stream id"
  credential ← parsed (new_upload_token l w.random) 500 "cannot create upload credential"
  go_on (
    record {
      stream_id = stream_id;
      candidate_id = claims.candidate_id;
      session_id = claims.session_id;
      schedule_id = claims.schedule_id;
      stream_type = stream_type;
      created_at = w.calls.now;
      expires_at = credential_expires l claims;
      completed = false;
      upload_token_hash = credential.1;
      stop_reason = "";
    },
    credential.0,
  )

unfoldable pub watched : UploadSession → PendingAssembly
watched s = record {
  stream_id = s.stream_id;
  schedule_id = s.schedule_id;
  session_id = s.session_id;
  participant_id = s.candidate_id;
  stream_type = s.stream_type;
  due_at = s.expires_at + assembly_watchdog_grace;
  attempts = 0;
  source = "";
}

unfoldable pub uploading : Answers → String → UploadSession → RecordingPartChangedEvent
uploading w event_id s = record {
  event_id = event_id;
  stream_id = s.stream_id;
  schedule_id = s.schedule_id;
  session_id = s.session_id;
  participant_id = s.candidate_id;
  stream_type = s.stream_type;
  source = desktop_source;
  status = "UPLOADING";
  object_key = "";
  duration_secs = pos 0;
  has_gaps = false;
  error_message = "";
  occurred_at = w.calls.now;
}

unfoldable pub announced :
    Fault
    → RecordingPartChangedEvent
    → String
    → UploadSession
    → Bool
    → SegmentHandler
    → SegmentHandler × Response CreateSessionResponse
announced (some e) event token s created h = (h, refused 503 "cannot publish recording state")
announced none event token s created h = (
  record h { published = part_changed event ∷ h.published },
  json (if created then 201 else 200) (record {
    stream_id = s.stream_id;
    stream_type = s.stream_type;
    expires_at = s.expires_at;
    upload_token = token;
  }),
)

-- The end of `CreateSession`.
unfoldable pub announce_session :
    Answers
    → Option String
    → String
    → UploadSession
    → Bool
    → SegmentHandler
    → SegmentHandler × Response CreateSessionResponse
unfolding uploading announced
announce_session w none token s created h =
    (h, refused 500 "cannot create recording state event id")
announce_session w (some event_id) token s created h =
    announced w.publish_fault (uploading w event_id s) token s created h

abbrev pub with_sessions : UploadRegistry → SegmentHandler → SegmentHandler
with_sessions r h = record h { use_case = record h.use_case { sessions = r } }

-- A session that is registered is put under the watchdog, if it can be.
unfoldable pub session_registered :
    Answers
    → String
    → UploadRegistry × Result (UploadSession × Bool)
    → SegmentHandler
    → SegmentHandler × Response CreateSessionResponse
unfolding announce_session watched
session_registered w token (r, err e) h = (with_sessions r h, refused 500 "cannot register session")
session_registered w token (r, ok (s, created)) h =
    announce_session w w.event_id token s created (
      with_pending (schedule w.schedule_fault w.calls.now (watched s) h.pending)
        (with_sessions r h))

unfoldable pub create_session :
    Library → Answers → Request → SegmentHandler → SegmentHandler × Response CreateSessionResponse
unfolding checked_session session_registered
create_session l w r h = on_passed (checked_session l w r) h (λ (session, token).
    session_registered w token
      (register_or_get_upload w.register_fault w.calls.now session h.use_case.sessions) h)
