-- ===== src/Cache/Upload/Registry.antt =====
-- session.go: the upload sessions and the operations on them.
use vox_streaming.Base.{
  ℕ, ◌+◌, ◌-◌, ◌*◌, ◌/◌, ◌≡◌, ◌↔◌, ◌^◌, Bool, true, not, ◌&&◌, Option, none, some, String, arith,
  leb, ◌==◌, if◌then◌else◌, min,
}
use vox_streaming.Base.Text.{text_eq, text_eq_iff, is_empty}
use vox_streaming.Base.Clock.{Time, before}
use vox_streaming.Base.Eq.{Eq, eq_text}
use vox_streaming.Base.Redis.{Keys, Cell, Document, doc, garbage, get, get_cell, set, del}
use vox_streaming.Base.Failure.{
  Result, ok, err, Fault, outside, wrapped, message, upload_session_not_found,
  upload_session_expired,
}

pub record UploadSession : Type 0 where
  pub stream_id : String
  pub candidate_id : String
  pub session_id : String
  pub schedule_id : String
  pub stream_type : String
  pub created_at : Time
  pub expires_at : Time
  pub completed : Bool
  pub upload_token_hash : String
  pub stop_reason : String

-- What `uploadSessionIndexKey` formats.
pub record UploadKey : Type 0 where
  pub schedule_id : String
  pub session_id : String
  pub candidate_id : String
  pub stream_type : String

abbrev pub upload_key_beq : UploadKey → UploadKey → Bool
upload_key_beq a b =
    text_eq a.schedule_id b.schedule_id
    && (text_eq a.session_id b.session_id
        && (text_eq a.candidate_id b.candidate_id && text_eq a.stream_type b.stream_type))

pub upload_key_beq_iff : (a b : UploadKey) → (upload_key_beq a b ≡ true) ↔ (a ≡ b)
upload_key_beq_iff a b = ground (
  arith,
  text_eq_iff a.schedule_id b.schedule_id,
  text_eq_iff a.session_id b.session_id,
  text_eq_iff a.candidate_id b.candidate_id,
  text_eq_iff a.stream_type b.stream_type,
)

instance abbrev pub eq_upload_key : Eq UploadKey
eq_upload_key = record { beq = upload_key_beq; beq_iff = upload_key_beq_iff }

unfoldable pub upload_session_index_key : UploadSession → UploadKey
upload_session_index_key s = record {
  schedule_id = s.schedule_id;
  session_id = s.session_id;
  candidate_id = s.candidate_id;
  stream_type = s.stream_type;
}

pub record UploadRegistry : Type 0 where
  pub sessions : Keys String (Document UploadSession)
  pub index : Keys UploadKey String

-- The end of `registerUploadScript`: two SETs with PX, which Redis refuses for an expiry of 0 ms.
unfoldable pub register_fresh :
    Time → ℕ → UploadSession → UploadRegistry → UploadRegistry × Result UploadSession
unfolding upload_session_index_key
register_fresh now ttl_ms session r =
    let deadline = now + ttl_ms * 1000000 in
    if ttl_ms == 0 then (r, err (outside "invalid expire time")) else (
      record {
        sessions = set session.stream_id (doc session) deadline r.sessions;
        index = set (upload_session_index_key session) session.stream_id deadline r.index;
      },
      ok session,
    )

-- Its inner branch: an unfinished stream gets the new credential and expiry.
unfoldable pub register_resumed :
    Time
    → ℕ
    → UploadSession
    → String
    → UploadSession
    → UploadRegistry
    → UploadRegistry × Result UploadSession
unfolding upload_session_index_key
register_resumed now ttl_ms session existing_key existing r =
    let deadline = now + ttl_ms * 1000000 in
    let refreshed = record existing {
      upload_token_hash = session.upload_token_hash;
      expires_at = session.expires_at;
    } in
    if ttl_ms == 0 then (r, err (outside "invalid expire time")) else (
      record {
        sessions = set existing_key (doc refreshed) deadline r.sessions;
        index = set (upload_session_index_key session) existing_key deadline r.index;
      },
      ok refreshed,
    )

-- What the index entry led to. A document that cjson cannot decode ends the script with an error.
unfoldable pub register_indexed :
    Option (Document UploadSession)
    → Time
    → ℕ
    → UploadSession
    → String
    → UploadRegistry
    → UploadRegistry × Result UploadSession
unfolding register_fresh register_resumed upload_session_index_key
register_indexed none now ttl_ms session existing_key r =
    register_fresh now ttl_ms session
      (record r { index = del (upload_session_index_key session) r.index })
register_indexed (some garbage) now ttl_ms session existing_key r = (r, err (outside "cjson"))
register_indexed (some (doc existing)) now ttl_ms session existing_key r =
    if existing.completed
    then register_fresh now ttl_ms session
        (record r { index = del (upload_session_index_key session) r.index })
    else register_resumed now ttl_ms session existing_key existing r

unfoldable pub register_script :
    Option String
    → Time
    → ℕ
    → UploadSession
    → UploadRegistry
    → UploadRegistry × Result UploadSession
unfolding register_fresh register_indexed
register_script none now ttl_ms session r = register_fresh now ttl_ms session r
register_script (some existing_key) now ttl_ms session r =
    register_indexed (get now existing_key r.sessions) now ttl_ms session existing_key r

abbrev pub registered :
    UploadSession
    → UploadRegistry × Result UploadSession
    → UploadRegistry × Result (UploadSession × Bool)
registered session (r, ok s) = (r, ok (s, text_eq s.stream_id session.stream_id))
registered session (r, err e) = (r, err (wrapped "register upload session" e))

abbrev pub max_duration : ℕ
max_duration = 2 ^ 63 - 1

-- The run of the script, with a `ttl` that is positive; `time.Until` stops at the largest duration.
unfoldable pub registered_or_fault :
    Fault → Time → UploadSession → UploadRegistry → UploadRegistry × Result (UploadSession × Bool)
unfolding register_script upload_session_index_key
registered_or_fault (some e) now session r = (r, err (wrapped "register upload session" e))
registered_or_fault none now session r = registered session (
    register_script (get now (upload_session_index_key session) r.index) now
      (min (session.expires_at - now) max_duration / 1000000) session r)

-- `RegisterOrGetUpload`.
unfoldable pub register_or_get_upload :
    Fault → Time → UploadSession → UploadRegistry → UploadRegistry × Result (UploadSession × Bool)
unfolding registered_or_fault
register_or_get_upload fault now session r =
    if leb session.expires_at now
    then (r, err upload_session_expired)
    else registered_or_fault fault now session r

unfoldable pub lookup_found :
    Time
    → String
    → Option (Document UploadSession)
    → UploadRegistry
    → UploadRegistry × Result UploadSession
lookup_found now stream_id none r = (r, err upload_session_not_found)
lookup_found now stream_id (some garbage) r = (r, err (message "upload session registry unmarshal"))
lookup_found now stream_id (some (doc session)) r =
    if not (before now session.expires_at)
    then (record r { sessions = del stream_id r.sessions }, err upload_session_expired)
    else (r, ok session)

-- `LookupUpload`. The fault is one that is not `redis.Nil`.
unfoldable pub lookup_upload :
    Fault → Time → String → UploadRegistry → UploadRegistry × Result UploadSession
unfolding lookup_found
lookup_upload (some e) now stream_id r = (r, err (wrapped "upload session registry lookup" e))
lookup_upload none now stream_id r = lookup_found now stream_id (get now stream_id r.sessions) r

-- The document that `markUploadCompleteScript` writes: the first reason given stays.
unfoldable pub completed_session : String → UploadSession → UploadSession
unfolding is_empty
completed_session reason s = record s {
  stop_reason = if not (is_empty reason) && is_empty s.stop_reason then reason else s.stop_reason;
  completed = true;
}

-- The script and what `MarkUploadComplete` makes of its answer; SET keeps the key's expiry.
unfoldable pub complete_cell :
    String
    → String
    → Option (Cell (Document UploadSession))
    → UploadRegistry
    → UploadRegistry × Result Bool
unfolding completed_session
complete_cell stream_id reason none r = (r, err upload_session_not_found)
complete_cell stream_id reason (some c) r = elim c.value [
  | garbage ↦ (r, err (wrapped "mark upload session complete" (outside "cjson")))
  | doc s ↦ (
    record r { sessions = set stream_id (doc (completed_session reason s)) c.deadline r.sessions },
    ok (not s.completed),
  )
]

unfoldable pub mark_upload_complete :
    Fault → Time → String → String → UploadRegistry → UploadRegistry × Result Bool
unfolding complete_cell
mark_upload_complete (some e) now stream_id reason r =
    (r, err (wrapped "mark upload session complete" e))
mark_upload_complete none now stream_id reason r =
    complete_cell stream_id reason (get_cell now stream_id r.sessions) r
