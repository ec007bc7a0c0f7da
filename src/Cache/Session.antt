-- ===== src/Cache/Session.antt =====
-- internal/infrastructure/cache/session.go, the streams that are on air. The name of the instance that
-- has a stream is left out.
use vox_streaming.Base.{
  ℕ, ◌+◌, ◌≡◌, ◌↔◌, Bool, true, ◌&&◌, ◌||◌, List, [], ◌∷◌, Option, none, some, String, arith,
  if◌then◌else◌, ltb,
}
use vox_streaming.Base.Text.{text_eq, text_eq_iff, is_empty}
use vox_streaming.Base.Clock.{Time, minutes}
use vox_streaming.Base.Eq.{Eq}
use vox_streaming.Base.Redis.{Keys, Document, doc, garbage, get, set, del, expire, decoded}
use vox_streaming.Base.Failure.{Result, ok, err, Fault, outside, wrapped, message}

abbrev pub session_ttl : ℕ
session_ttl = minutes 5

pub record SessionInfo : Type 0 where
  pub schedule_id : String
  pub session_id : String
  pub participant_id : String
  pub stream_id : String
  pub stream_type : String
  pub started_at : Time

-- What `sessionKey` formats.
pub record SessionKey : Type 0 where
  pub schedule_id : String
  pub session_id : String
  pub participant_id : String
  pub stream_type : String

abbrev pub session_key_beq : SessionKey → SessionKey → Bool
session_key_beq a b =
    text_eq a.schedule_id b.schedule_id
    && (text_eq a.session_id b.session_id
        && (text_eq a.participant_id b.participant_id && text_eq a.stream_type b.stream_type))

pub session_key_beq_iff : (a b : SessionKey) → (session_key_beq a b ≡ true) ↔ (a ≡ b)
session_key_beq_iff a b = ground (
  arith,
  text_eq_iff a.schedule_id b.schedule_id,
  text_eq_iff a.session_id b.session_id,
  text_eq_iff a.participant_id b.participant_id,
  text_eq_iff a.stream_type b.stream_type,
)

instance abbrev pub eq_session_key : Eq SessionKey
eq_session_key = record { beq = session_key_beq; beq_iff = session_key_beq_iff }

abbrev pub LiveSessions : Type 0
LiveSessions = Keys SessionKey (Document SessionInfo)

unfoldable pub session_key : SessionInfo → SessionKey
session_key s = record {
  schedule_id = s.schedule_id;
  session_id = s.session_id;
  participant_id = s.participant_id;
  stream_type = s.stream_type;
}

unfoldable pub register : Fault → Time → SessionInfo → LiveSessions → Result LiveSessions
unfolding session_key
register (some e) now s m = err e
register none now s m = ok (set (session_key s) (doc s) (now + session_ttl) m)

unfoldable pub unregister : Fault → SessionKey → LiveSessions → Result LiveSessions
unregister (some e) k m = err e
unregister none k m = ok (del k m)

-- `Lookup`; a key that is not there is an error of Redis too.
abbrev pub looked_up : Option (Document SessionInfo) → Result SessionInfo
looked_up none = err (wrapped "streaming session registry lookup" (outside "redis: nil"))
looked_up (some garbage) = err (message "streaming session registry unmarshal")
looked_up (some (doc s)) = ok s

unfoldable pub look_up : Fault → Time → SessionKey → LiveSessions → Result SessionInfo
look_up (some e) now k m = err (wrapped "streaming session registry lookup" e)
look_up none now k m = looked_up (get now k m)

unfoldable pub refresh : Fault → Time → SessionKey → LiveSessions → Result LiveSessions
refresh (some e) now k m = err e
refresh none now k m = ok (expire now k (now + session_ttl) m)

-- The documents that live under keys of a pattern, in the order of the store.
unfoldable pub matching_documents :
    Time → (SessionKey → Bool) → LiveSessions → List (Document SessionInfo)
matching_documents now pattern [] = []
matching_documents now pattern ((k, c) ∷ m) =
    let rest = matching_documents now pattern m in
    if pattern k && ltb now c.deadline then c.value ∷ rest else rest

-- `scanByPattern`: the values are read only if a key was found, and one that does not decode is left out.
abbrev pub documents_read : Fault → List (Document SessionInfo) → Result (List SessionInfo)
documents_read mget_fault [] = ok []
documents_read none (d ∷ ds) = ok (decoded (d ∷ ds))
documents_read (some e) (d ∷ ds) = err (wrapped "streaming session registry mget" e)

unfoldable pub scan_by_pattern :
    Fault → Fault → Time → (SessionKey → Bool) → LiveSessions → Result (List SessionInfo)
unfolding matching_documents
scan_by_pattern (some e) mget_fault now pattern m =
    err (wrapped "streaming session registry scan" e)
scan_by_pattern none mget_fault now pattern m =
    documents_read mget_fault (matching_documents now pattern m)

unfoldable pub scan_schedule :
    Fault → Fault → Time → String → LiveSessions → Result (List SessionInfo)
unfolding scan_by_pattern
scan_schedule f g now schedule_id m =
    scan_by_pattern f g now (λ k. text_eq k.schedule_id schedule_id) m

unfoldable pub scan_all : Fault → Fault → Time → LiveSessions → Result (List SessionInfo)
unfolding scan_by_pattern
scan_all f g now m = scan_by_pattern f g now (λ k. true) m

-- The pattern of `ScanSession`, `streaming-session:*:id:*`: its stars span colons, so that the id may
-- stand for the session or for the participant.
unfoldable pub in_session : String → SessionKey → Bool
in_session id k = text_eq k.session_id id || text_eq k.participant_id id

unfoldable pub scan_session :
    Fault → Fault → Time → String → LiveSessions → Result (List SessionInfo)
unfolding scan_by_pattern in_session is_empty
scan_session f g now session_id m =
    if is_empty session_id then ok [] else scan_by_pattern f g now (in_session session_id) m
