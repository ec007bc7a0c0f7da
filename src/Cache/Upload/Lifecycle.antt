-- ===== src/Cache/Upload/Lifecycle.antt =====
-- The life of an upload stream: opened once, resumed while it is unfinished, completed once, and
-- followed by a new stream.
use vox_streaming.Base.{
  ℕ, ◌+◌, ◌-◌, ◌*◌, ◌/◌, ◌<◌, ◌≡◌, refl, Bool, true, false, not, Option, none, some, String, arith,
  if◌then◌else◌, min, ◌∙◌, ap,
}
use vox_streaming.Base.Text.{text_eq, text_eq_iff, text_eq_refl, is_empty}
use vox_streaming.Base.Clock.{Time}
use vox_streaming.Base.Eq.{eq_text}
use vox_streaming.Base.Store.{lookup, lookup-insert}
use vox_streaming.Base.Redis.{
  Cell, Document, doc, garbage, get, get_cell, live, set, del, value_of, get-set_self, get-set_ne,
}
use vox_streaming.Base.Failure.{ok}
use vox_streaming.Cache.Upload.Registry.{
  UploadSession, UploadRegistry, eq_upload_key, upload_session_index_key, register_fresh,
  register_resumed, register_indexed, register_script, register_or_get_upload, registered_or_fault,
  max_duration, completed_session, complete_cell, mark_upload_complete,
}

-- What completion leaves of the document that a key shows.
abbrev pub complete_document :
    String → Option (Document UploadSession) → Option (Document UploadSession)
complete_document reason none = none
complete_document reason (some garbage) = some garbage
complete_document reason (some (doc s)) = some (doc (completed_session reason s))

-- Completing a stream that is there answers whether it was still open, and from then on, at every
-- moment, the key shows the completed document for as long as it would have shown the open one.
pub mark_upload_complete_effect :
    (now later : Time) (i reason : String) (r : UploadRegistry) {s : UploadSession}
    → get now i r.sessions ≡ some (doc s)
    → ((mark_upload_complete none now i reason r).1 ≡ ok (not s.completed))
      × (get later i (mark_upload_complete none now i reason r).0.sessions
          ≡ complete_document reason (get later i r.sessions))
unfolding mark_upload_complete complete_cell get get_cell set live
mark_upload_complete_effect now later i reason r {s} h = go (lookup i r.sessions) refl h
  where
    go :
        (o : Option (Cell (Document UploadSession)))
        → lookup i r.sessions ≡ o
        → value_of (live now o) ≡ some (doc s)
        → ((complete_cell i reason (live now o) r).1 ≡ ok (not s.completed))
          × (value_of (live later (lookup i (complete_cell i reason (live now o) r).0.sessions))
              ≡ complete_document reason (value_of (live later (lookup i r.sessions))))
    go none e h = cc
    go (some c) e h = ground (
      arith,
      lookup-insert i i (record { value = doc (completed_session reason s); deadline = c.deadline })
          r.sessions,
      text_eq_refl i,
    )

-- The first reason that anybody gives.
abbrev pub first_reason : String → String → String
first_reason a b = if is_empty a then b else a

completed_session_twice :
    (a b : String) (s : UploadSession)
    → completed_session b (completed_session a s)
      ≡ record s { stop_reason = first_reason s.stop_reason (first_reason a b); completed = true }
unfolding completed_session is_empty
completed_session_twice a b s =
    ground (arith, text_eq_iff a "", text_eq_iff b "", text_eq_iff s.stop_reason "")

completed_closed :
    (a : String) (s : UploadSession) → ok (not (completed_session a s).completed) ≡ ok false
unfolding completed_session
completed_closed a s = refl

-- Two completions of an open stream: the first answers true and the second false, and the document
-- that is left is completed and carries the first reason that was given, whoever gave it.
pub mark_upload_complete_twice :
    (now later : Time) (i a b : String) (r : UploadRegistry) {s : UploadSession}
    → get now i r.sessions ≡ some (doc s)
    → get later i r.sessions ≡ some (doc s)
    → s.completed ≡ false
    → let first = mark_upload_complete none now i a r in
      let second = mark_upload_complete none later i b first.0 in
      (first.1 ≡ ok true)
      × (second.1 ≡ ok false)
      × (get later i second.0.sessions
          ≡ some (
              doc (record s {
                stop_reason = first_reason s.stop_reason (first_reason a b);
                completed = true;
              })))
mark_upload_complete_twice now later i a b r {s} h k open' =
    let first = mark_upload_complete_effect now later i a r h in
    let seen : get later i (mark_upload_complete none now i a r).0.sessions
        ≡ some (doc (completed_session a s)) =
      first.1 ∙ ap (complete_document a) k in
    let second =
      mark_upload_complete_effect later later i b (mark_upload_complete none now i a r).0 seen in
    (
      rw open' at first.0,
      second.0 ∙ completed_closed a s,
      second.1
          ∙ (ap (complete_document b) seen
              ∙ ap (λ (x : UploadSession). some (doc x)) (completed_session_twice a b s)),
    )

-- A session with the credential and the expiry of another: what resuming a stream makes of it.
abbrev pub renewed : UploadSession → UploadSession → UploadSession
renewed old new = record old {
  upload_token_hash = new.upload_token_hash;
  expires_at = new.expires_at;
}

-- The milliseconds that the keys of a session live.
abbrev pub ttl_ms : Time → UploadSession → ℕ
ttl_ms now s = min (s.expires_at - now) max_duration / 1000000

resumes_state :
    (now : Time) (new old : UploadSession) (i : String) (r : UploadRegistry)
    → get now (upload_session_index_key new) r.index ≡ some i
    → get now i r.sessions ≡ some (doc old)
    → old.completed ≡ false
    → now < new.expires_at
    → 0 < ttl_ms now new
    → register_or_get_upload none now new r ≡ (
      record {
        sessions = set i (doc (renewed old new)) (now + ttl_ms now new * 1000000) r.sessions;
        index = set (upload_session_index_key new) i (now + ttl_ms now new * 1000000) r.index;
      },
      ok (renewed old new, text_eq old.stream_id new.stream_id),
    )
unfolding register_or_get_upload registered_or_fault register_script register_indexed
    register_resumed
resumes_state now new old i r named found open' ahead positive = ground arith

-- While the index names an unfinished stream, asking for a session resumes that stream: the answer
-- is its document under the new credential and expiry, which the store now holds for it, and the
-- index still names it. No other stream's document changes.
pub register_or_get_upload_resumes :
    (now later : Time) (new : UploadSession) (i : String) (r : UploadRegistry) {old : UploadSession}
    → get now (upload_session_index_key new) r.index ≡ some i
    → get now i r.sessions ≡ some (doc old)
    → old.completed ≡ false
    → now < new.expires_at
    → 0 < ttl_ms now new
    → later < now + ttl_ms now new * 1000000
    → let p = register_or_get_upload none now new r in
      (p.1 ≡ ok (renewed old new, text_eq old.stream_id new.stream_id))
      × (get later i p.0.sessions ≡ some (doc (renewed old new)))
      × (get later (upload_session_index_key new) p.0.index ≡ some i)
      × ((j : String) → text_eq i j ≡ false → get later j p.0.sessions ≡ get later j r.sessions)
register_or_get_upload_resumes now later new i r {old} named found open' ahead positive soon =
    rw (resumes_state now new old i r named found open' ahead positive) (
      refl,
      get-set_self later i (doc (renewed old new)) _ r.sessions soon,
      get-set_self later (upload_session_index_key new) i _ r.index soon,
      λ j other. get-set_ne later i j (doc (renewed old new)) _ r.sessions other,
    )

reopens_state :
    (now : Time) (new old : UploadSession) (i : String) (r : UploadRegistry)
    → get now (upload_session_index_key new) r.index ≡ some i
    → get now i r.sessions ≡ some (doc old)
    → old.completed ≡ true
    → now < new.expires_at
    → 0 < ttl_ms now new
    → register_or_get_upload none now new r ≡ (
      record {
        sessions = set new.stream_id (doc new) (now + ttl_ms now new * 1000000) r.sessions;
        index =
            set
              (upload_session_index_key new)
              new.stream_id
              (now + ttl_ms now new * 1000000)
              (del (upload_session_index_key new) r.index);
      },
      ok (new, text_eq new.stream_id new.stream_id),
    )
unfolding register_or_get_upload registered_or_fault register_script register_indexed register_fresh
reopens_state now new old i r named found done ahead positive = ground arith

-- Once the stream that the index names is completed, asking for a session opens the new stream: it
-- is stored as given, the index names it, and the answer says that it was created.
pub register_or_get_upload_reopens :
    (now later : Time) (new : UploadSession) (i : String) (r : UploadRegistry) {old : UploadSession}
    → get now (upload_session_index_key new) r.index ≡ some i
    → get now i r.sessions ≡ some (doc old)
    → old.completed ≡ true
    → now < new.expires_at
    → 0 < ttl_ms now new
    → later < now + ttl_ms now new * 1000000
    → let p = register_or_get_upload none now new r in
      (p.1 ≡ ok (new, true))
      × (get later new.stream_id p.0.sessions ≡ some (doc new))
      × (get later (upload_session_index_key new) p.0.index ≡ some new.stream_id)
register_or_get_upload_reopens now later new i r {old} named found done ahead positive soon =
    rw (reopens_state now new old i r named found done ahead positive) (
      ap (λ (b : Bool). ok (new, b)) (text_eq_refl new.stream_id),
      get-set_self later new.stream_id (doc new) _ r.sessions soon,
      get-set_self later (upload_session_index_key new) new.stream_id _ _ soon,
    )
