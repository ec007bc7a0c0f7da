-- ===== src/Handler/Segments/Opening.antt =====
-- The credential that opening a stream hands out, and what the stream is under.
use vox_streaming.Base.{
  ℕ, ◌+◌, ◌≡◌, refl, sym, ap, ◌∙◌, subst, inl, inr, Bool, true, false, not, List, [], ◌∷◌, Option,
  none, some, String, arith,
}
use vox_streaming.Base.Text.{text_eq_refl, is_empty}
use vox_streaming.Base.Eq.{eq_text}
use vox_streaming.Base.Clock.{Time, unix}
use vox_streaming.Base.Store.{lookup, lookup-insert}
use vox_streaming.Base.Redis.{doc, set}
use vox_streaming.Base.Failure.{Result, ok, err, Fault}
use vox_streaming.Cache.Upload.{UploadSession, UploadRegistry, eq_upload_key, IsValid}
use vox_streaming.Domain.{RecordingPartChangedEvent}
use vox_streaming.Auth.Claims.{can_stream}
use vox_streaming.Cache.Pending.{PendingRegistry, live_due, schedule, pending_assembly_ttl}
use vox_streaming.Usecase.Segments.{bytes_eq, owns, SegmentUseCase}
use vox_streaming.Handler.Segments.Requests.{
  Request, Library, Response, refused, no_content, json, go_on,
}
use vox_streaming.Handler.Segments.Endpoints.{SegmentHandler, Answers, with_pending}
use vox_streaming.Handler.Segments.Sessions.{
  CreateSessionResponse, assembly_watchdog_grace, new_upload_token, validate_stream_token,
  checked_session, watched, uploading, announced, announce_session, with_sessions,
  session_registered, create_session,
}
use vox_streaming.Handler.Segments.Checks.{
  required, parsed-eq-go_on, go_on-injective, Checked-cases,
}
use vox_streaming.Handler.Segments.Stored.{IsOpened, KeptUntil, register_or_get_upload-IsOpened}

bytes_eq_refl : (xs : List ℕ) → bytes_eq xs xs ≡ true
unfolding bytes_eq
bytes_eq_refl [] = refl
bytes_eq_refl (x ∷ xs) = ground (arith, bytes_eq_refl xs)

-- The watchdog's entry for a session, with its details, and both until a day from now; nothing is said
-- if Redis failed.
abbrev pub IsArmed : Fault → Time → UploadSession → PendingRegistry → Type 0
IsArmed (some e) now s p = Unit
IsArmed none now s p =
    (lookup s.stream_id p.due ≡ some (unix (s.expires_at + assembly_watchdog_grace)))
    × (p.due_expires ≡ now + pending_assembly_ttl)
    × (lookup s.stream_id p.details
        ≡ some (record { value = doc (watched s); deadline = now + pending_assembly_ttl }))

-- What an answer of `CreateSession` promises its client.
abbrev pub HasOpened :
    Library → Answers → SegmentHandler → SegmentHandler × Response CreateSessionResponse → Type 0
HasOpened l w h (g, refused status text) = g.published ≡ h.published
HasOpened l w h (g, no_content) = ⊥
HasOpened l w h (g, json status a) =
    (s : UploadSession) × (d : Time) × (lookup a.stream_id g.use_case.sessions.sessions
      ≡ some (record { value = doc s; deadline = d }))
    × KeptUntil w.calls.now s d
    × (owns l.hashing s a.stream_id a.upload_token ≡ true)
    × (s.completed ≡ false)
    × (s.expires_at ≡ a.expires_at)
    × IsArmed w.schedule_fault w.calls.now s g.pending

announced-HasOpened :
    (l : Library) (w : Answers) (fault : Fault) (event : RecordingPartChangedEvent) (token : String)
    (s : UploadSession) (d : Time) (b : Bool) (h g : SegmentHandler)
    → g.published ≡ h.published
    → lookup s.stream_id g.use_case.sessions.sessions
      ≡ some (record { value = doc s; deadline = d })
    → KeptUntil w.calls.now s d
    → owns l.hashing s s.stream_id token ≡ true
    → s.completed ≡ false
    → IsArmed w.schedule_fault w.calls.now s g.pending
    → HasOpened l w h (announced fault event token s b g)
unfolding announced
announced-HasOpened l w (some e) event token s d b h g p r k o c n = p
announced-HasOpened l w none event token s d b h g p r k o c n = (s, d, r, k, o, c, refl, n)

scheduled-state :
    (fault : Fault) (now : Time) (s : UploadSession) (g : SegmentHandler)
    → let f = with_pending (schedule fault now (watched s) g.pending) g in
      (f.published ≡ g.published) × (f.use_case ≡ g.use_case) × IsArmed fault now s f.pending
unfolding schedule live_due watched set
scheduled-state (some e) now s g = (refl, refl, tt)
scheduled-state none now s g = (
  refl,
  refl,
  (
    rw
        (
          lookup-insert s.stream_id s.stream_id (unix (s.expires_at + assembly_watchdog_grace))
              (live_due now g.pending),
          text_eq_refl s.stream_id,
        )
        refl,
    refl,
    rw (lookup-insert s.stream_id s.stream_id _ g.pending.details, text_eq_refl s.stream_id) refl,
  ),
)

owns-new :
    (l : Library) (s : UploadSession) (token : String)
    → ((t : String)
        → l.hashing.hex_decode (l.hex_encode (l.hashing.sha256 t)) ≡ some (l.hashing.sha256 t))
    → s.upload_token_hash ≡ l.hex_encode (l.hashing.sha256 token)
    → owns l.hashing s s.stream_id token ≡ true
unfolding owns
owns-new l s token back e =
    rw (e, back token, text_eq_refl s.stream_id) (bytes_eq_refl (l.hashing.sha256 token))

session_registered-HasOpened :
    (l : Library) (w : Answers) (token : String) (new : UploadSession)
    (m : UploadRegistry × Result (UploadSession × Bool)) (h : SegmentHandler)
    → ((t : String)
        → l.hashing.hex_decode (l.hex_encode (l.hashing.sha256 t)) ≡ some (l.hashing.sha256 t))
    → new.upload_token_hash ≡ l.hex_encode (l.hashing.sha256 token)
    → IsOpened w.calls.now new m
    → HasOpened l w h (session_registered w token m h)
unfolding session_registered announce_session
session_registered-HasOpened l w token new (r, err e) h back hash o = refl
session_registered-HasOpened l w token new (r, ok (s, b)) h back hash (d, o, k, c, t, x) =
    go w.event_id
  where
    f : SegmentHandler
    f =
        with_pending (schedule w.schedule_fault w.calls.now (watched s) h.pending)
          (with_sessions r h)

    kept :
        (s : UploadSession)
        → s.expires_at ≡ new.expires_at
        → KeptUntil w.calls.now new d
        → KeptUntil w.calls.now s d
    kept s x (a, b, c) = (a, omega (arith, b, x), omega (arith, c, x))

    go : (id : Option String) → HasOpened l w h (announce_session w id token s b f)
    go none = (scheduled-state w.schedule_fault w.calls.now s (with_sessions r h)).0
    go (some event_id) =
        let st = scheduled-state w.schedule_fault w.calls.now s (with_sessions r h) in
        announced-HasOpened l w w.publish_fault (uploading w event_id s) token s d b h f st.0
          (subst
            (λ (u : SegmentUseCase).
              lookup s.stream_id u.sessions.sessions
              ≡ some (record { value = doc s; deadline = d }))
            (sym st.1) o)
          (kept s x k) (owns-new l s token back (t ∙ hash)) c st.2

new_upload_token-hash :
    (l : Library) (o : Option (List ℕ)) (k : String × String)
    → new_upload_token l o ≡ some k
    → k.1 ≡ l.hex_encode (l.hashing.sha256 k.0)
unfolding new_upload_token
new_upload_token-hash l none k e = cc
new_upload_token-hash l (some raw) k e =
    subst (λ (x : String × String). x.1 ≡ l.hex_encode (l.hashing.sha256 x.0)) (some-injective e)
      refl
  where
    or_else : String × String → Option (String × String) → String × String
    or_else d none = d
    or_else d (some x) = x

    some-injective : {a b : String × String} → some a ≡ some b → a ≡ b
    some-injective {a} h = ap (or_else a) h

checked_session-credential :
    (l : Library) (w : Answers) (r : Request) (x : UploadSession × String)
    → checked_session l w r ≡ go_on x
    → (x.0.completed ≡ false) × (x.0.upload_token_hash ≡ l.hex_encode (l.hashing.sha256 x.1))
unfolding checked_session
checked_session-credential l w r x e =
    let (c, ec, e) =
      parsed-eq-go_on (validate_stream_token l r.authorization) 401 "unauthorized" _ e in
    let (t, et, e) = parsed-eq-go_on (l.decode_stream_type r.body) 400 "invalid request" _ e in
    let (p, e) = required (not (is_empty (l.trim_space t))) 400 "streamType is required" _ e in
    let (q, e) = required (can_stream c t) 403 "forbidden stream type" _ e in
    let (i, ei, e) = parsed-eq-go_on w.new_stream_id 500 "cannot create stream id" _ e in
    let (k, ek, e) =
      parsed-eq-go_on (new_upload_token l w.random) 500 "cannot create upload credential" _ e in
    subst
      (λ (y : UploadSession × String).
        (y.0.completed ≡ false) × (y.0.upload_token_hash ≡ l.hex_encode (l.hashing.sha256 y.1)))
      (go_on-injective e) (refl, new_upload_token-hash l w.random k ek)

-- Where the session documents are valid, opening a stream answers with what the client can work with:
-- the stream that is named is stored, not completed, with the expiry that the answer says, and its key
-- lasts to the last whole millisecond before that (or before the longest duration, if that is sooner);
-- the token is accepted as its owner's. The watchdog's entry is set for two minutes after the expiry,
-- with its details and for a day, unless Redis failed to set it. A refusal publishes nothing. That
-- hexadecimal text of a hash decodes to the hash is assumed.
pub create_session-HasOpened :
    (l : Library) (w : Answers) (r : Request) (h : SegmentHandler)
    → ((t : String)
        → l.hashing.hex_decode (l.hex_encode (l.hashing.sha256 t)) ≡ some (l.hashing.sha256 t))
    → IsValid h.use_case.sessions
    → HasOpened l w h (create_session l w r h)
unfolding create_session
create_session-HasOpened l w r h back v = elim (Checked-cases (checked_session l w r)) [
  | inl (status, text, e) ↦ rw (create_session, e) refl
  | inr (x, e) ↦
      let c = checked_session-credential l w r x e in
      rw (create_session, e)
        (session_registered-HasOpened l w x.1 x.0 _ h back c.1 (
          register_or_get_upload-IsOpened w.register_fault w.calls.now x.0 h.use_case.sessions v
            c.0))
]
