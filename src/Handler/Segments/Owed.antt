-- ===== src/Handler/Segments/Owed.antt =====
-- A stream that the watchdog watches stays watched until the assembly of its recording was requested.
use vox_streaming.Base.{
  ℕ, ◌≡◌, refl, sym, ◌∙◌, subst, ◌⊎◌, inl, inr, Bool, false, List, [], ◌∷◌, Option, none, some,
  String, Elem, Bool-cases, All, ◌+◌, ◌≤◌, ◌<◌, true, arith, ltb, if◌then◌else◌,
}
use vox_streaming.Base.Text.{text_eq, text_eq_iff}
use vox_streaming.Base.Eq.{eq_text}
use vox_streaming.Base.Store.{lookup, remove, lookup-remove}
use vox_streaming.Base.Clock.{Time, unix}
use vox_streaming.Base.Redis.{doc, get, get-del}
use vox_streaming.Base.Failure.{Result, ok, err, Fault, ok-injective}
use vox_streaming.Domain.{RecordingPartChangedEvent, RecordingAssemblyRequestedEvent}
use vox_streaming.Stream.Float.{Floats}
use vox_streaming.Cache.Pending.{
  PendingAssembly, PendingRegistry, live_due, schedule, cancel, pending_assembly_ttl,
  schedule_moves,
}
use vox_streaming.Cache.Upload.{UploadSession, UploadRegistry, register_or_get_upload}
use vox_streaming.Usecase.Segments.{SegmentUseCase, StreamAudit, upload, declare_inventory, audit}
use vox_streaming.Handler.Segments.Requests.{
  Request, Library, Response, refused, no_content, json, Checked, stop, go_on,
}
use vox_streaming.Handler.Segments.Defs.{authorized, checked_upload}
use vox_streaming.Handler.Segments.Endpoints.{
  Published, assembly_requested, SegmentHandler, Answers, answered, on_passed, upload_segment,
  request_for, with_pending, complete, checked_inventory, declaration, put_inventory, audited,
  get_audit,
}
use vox_streaming.Handler.Segments.Sessions.{
  checked_session, uploading, announced, announce_session, session_registered, create_session,
  watched, with_sessions,
}
use vox_streaming.Handler.Segments.Handover.{HandedOver, LetGo, complete-HandedOver}
use vox_streaming.Handler.Segments.Calls.{
  Call, uploads, completes, declares, audits, opens, serve, serve_all, IsRecent,
}

module _ (later : Time) where
  -- At a moment Redis shows the stream on the watchdog's list, and its details.
  abbrev pub IsListed : String → PendingRegistry → Type 0
  IsListed i p =
      (due : ℕ) × (a : PendingAssembly) × (lookup i (live_due later p) ≡ some due)
      × (get later i p.details ≡ some (doc a))

  abbrev pub IsWatched : String → SegmentHandler → Type 0
  IsWatched i h = IsListed i h.pending

  abbrev pub IsRequested : String → List Published → Type 0
  IsRequested i ps =
      (e : RecordingAssemblyRequestedEvent) × (e.stream_id ≡ i) × Elem (assembly_requested e) ps

  -- Somebody will see to the recording of a stream: the watchdog, or who takes requests.
  abbrev pub IsOwed : String → SegmentHandler → Type 0
  IsOwed i h = IsWatched i h ⊎ IsRequested i h.published

  -- Everything else may change.
  unmoved :
      (i : String) (h g : SegmentHandler)
      → g.pending ≡ h.pending
      → g.published ≡ h.published
      → IsOwed i h
      → IsOwed i g
  unmoved i h g p q (inl k) = inl (subst (IsListed i) (sym p) k)
  unmoved i h g p q (inr (e, s, m)) = inr (e, s, subst (Elem (assembly_requested e)) (sym q) m)

  answered-IsOwed :
      (i fallback : String) (x : SegmentUseCase × Result Unit) (h : SegmentHandler)
      → IsOwed i h
      → IsOwed i (answered fallback x h).0
  answered-IsOwed i fallback (u, ok t) h o = o
  answered-IsOwed i fallback (u, err e) h o = o

  audited-IsOwed :
      {F : Type 0} (i : String) (x : SegmentUseCase × Result (StreamAudit F)) (h : SegmentHandler)
      → IsOwed i h
      → IsOwed i (audited x h).0
  audited-IsOwed i (u, ok a) h o = o
  audited-IsOwed i (u, err e) h o = o

  on_passed-IsOwed {ℓ} :
      {A : Type ℓ} {B : Type 0} (i : String) (c : Checked A) (h : SegmentHandler)
      (next : A → SegmentHandler × Response B)
      → ((a : A) → IsOwed i (next a).0)
      → IsOwed i h
      → IsOwed i (on_passed c h next).0
  on_passed-IsOwed i (stop status text) h next keeps o = o
  on_passed-IsOwed i (go_on a) h next keeps o = keeps a

  live-remove :
      (b : Bool) (i j : String) (m : List (String × ℕ))
      → text_eq j i ≡ false
      → lookup i (if b then remove j m else []) ≡ lookup i (if b then m else [])
  live-remove true i j m n = rw (lookup-remove j i m, n) refl
  live-remove false i j m n = refl

  -- Cancelling a stream takes no other off the list.
  cancel-IsListed :
      (i j : String) (p q : PendingRegistry)
      → text_eq j i ≡ false
      → ok q ≡ cancel none j p
      → IsListed i p
      → IsListed i q
  unfolding cancel live_due
  cancel-IsListed i j p q n e (d, a, l, g) = subst (IsListed i) (sym (ok-injective e)) (
    d,
    a,
    live-remove (ltb later p.due_expires) i j p.due n ∙ l,
    rw (get-del later j i p.details, n) g,
  )

  handed-IsOwed :
      (w : Answers) (i j : String) (h g : SegmentHandler) (a : Response Unit)
      → HandedOver w j h (g, a)
      → IsOwed i h
      → IsOwed i g
  handed-IsOwed w i j h g (refused status text) (p, q) o = unmoved i h g p q o
  handed-IsOwed w i j h g (json status a) x o = absurd x
  handed-IsOwed w i j h g no_content (e, s, q, p) (inr (f, t, m)) =
      inr (f, t, subst (Elem (assembly_requested f)) (sym q) (inr m))
  handed-IsOwed w i j h g no_content (e, s, q, p) (inl k) = elim (Bool-cases (text_eq j i)) [
    | inl y ↦
        inr (e, s ∙ (text_eq_iff j i).0 y, subst (Elem (assembly_requested e)) (sym q) (inl refl))
    | inr n ↦ inl (other n w.cancel_fault p)
  ]
    where
      other :
          text_eq j i ≡ false → (f : Fault) → LetGo f j h.pending g.pending → IsListed i g.pending
      other n none l = cancel-IsListed i j h.pending g.pending n l.0 k
      other n (some x) same = subst (IsListed i) (sym same) k

  complete-IsOwed :
      (l : Library) (w : Answers) (r : Request) (i : String) (h : SegmentHandler)
      → IsOwed i h
      → IsOwed i (complete l w r h).0
  complete-IsOwed l w r i h o =
      handed-IsOwed w i r.stream_id h (complete l w r h).0 (complete l w r h).1
        (complete-HandedOver l w r h) o

  live-earlier :
      (now : Time) (i : String) (r : PendingRegistry) (d : ℕ)
      → now ≤ later
      → lookup i (live_due later r) ≡ some d
      → lookup i (live_due now r) ≡ some d
  unfolding live_due lookup
  live-earlier now i r d le e = elim (Bool-cases (ltb later r.due_expires)) [
    | inl y ↦
        let before : ltb now r.due_expires ≡ true = ground (arith, y, le) in rw before (rw y at e)
    | inr n ↦ cc (rw n at e)
  ]

  -- Watching a stream stops the watch of no other.
  scheduled-IsOwed :
      (fault : Fault) (now : Time) (p : PendingAssembly) (i : String) (h : SegmentHandler)
      → now ≤ later
      → later < now + pending_assembly_ttl
      → IsOwed i h
      → IsOwed i (with_pending (schedule fault now p h.pending) h)
  unfolding schedule
  scheduled-IsOwed (some e) now p i h le l o = o
  scheduled-IsOwed none now p i h le l (inr m) = inr m
  scheduled-IsOwed none now p i h le l (inl (d, a, k, g)) =
      let m = schedule_moves now later p i h.pending refl l in
      inl (elim (Bool-cases (text_eq p.stream_id i)) [
        | inl y ↦ (unix p.due_at, p, m.0 ∙ rw y refl, m.1 ∙ rw y refl)
        | inr n ↦ (d, a, m.0 ∙ rw n (live-earlier now i h.pending d le k), m.1 ∙ rw n g)
      ])

  announced-IsOwed :
      (fault : Fault) (event : RecordingPartChangedEvent) (token : String) (s : UploadSession)
      (b : Bool) (i : String) (h : SegmentHandler)
      → IsOwed i h
      → IsOwed i (announced fault event token s b h).0
  unfolding announced
  announced-IsOwed (some e) event token s b i h o = o
  announced-IsOwed none event token s b i h (inl k) = inl k
  announced-IsOwed none event token s b i h (inr (f, t, m)) = inr (f, t, inr m)

  announce_session-IsOwed :
      (w : Answers) (o : Option String) (token : String) (s : UploadSession) (b : Bool) (i : String)
      (h : SegmentHandler)
      → IsOwed i h
      → IsOwed i (announce_session w o token s b h).0
  unfolding announce_session
  announce_session-IsOwed w none token s b i h k = k
  announce_session-IsOwed w (some event_id) token s b i h k =
      announced-IsOwed w.publish_fault (uploading w event_id s) token s b i h k

  session_registered-IsOwed :
      (w : Answers) (token : String) (m : UploadRegistry × Result (UploadSession × Bool))
      (i : String) (h : SegmentHandler)
      → (w.calls.now ≤ later) × (later < w.calls.now + pending_assembly_ttl)
      → IsOwed i h
      → IsOwed i (session_registered w token m h).0
  unfolding session_registered
  session_registered-IsOwed w token (r, err e) i h t o = o
  session_registered-IsOwed w token (r, ok (s, b)) i h t o =
      announce_session-IsOwed w w.event_id token s b i _
        (scheduled-IsOwed w.schedule_fault w.calls.now (watched s) i (with_sessions r h) t.0 t.1 o)

  serve-IsOwed :
      (fl : Floats) (l : Library) (c : Call) (i : String) (h : SegmentHandler)
      → IsRecent later c
      → IsOwed i h
      → IsOwed i (serve fl l c h)
  unfolding serve upload_segment put_inventory get_audit create_session
  serve-IsOwed fl l (uploads w r) i h t o =
      on_passed-IsOwed i (checked_upload l r) h _
        (λ req. answered-IsOwed i "upload failed" (upload l.hashing w.calls req h.use_case) h o) o
  serve-IsOwed fl l (completes w r) i h t o = complete-IsOwed l w r i h o
  serve-IsOwed fl l (declares w r) i h t o =
      on_passed-IsOwed i (checked_inventory l r) h _
        (λ x.
          answered-IsOwed i "declare inventory failed"
            (declare_inventory l.hashing w.calls (declaration r x) h.use_case) h o)
        o
  serve-IsOwed fl l (audits w r) i h t o =
      on_passed-IsOwed i (authorized l r) h _
        (λ token.
          audited-IsOwed i
            (audit fl l.hashing w.calls (request_for r.stream_id token "") h.use_case) h o)
        o
  serve-IsOwed fl l (opens w r) i h t o =
      on_passed-IsOwed i (checked_session l w r) h _
        (λ x.
          session_registered-IsOwed w x.1
            (register_or_get_upload w.register_fault w.calls.now x.0 h.use_case.sessions) i h t o)
        o

  -- For any moment: a stream that Redis would show on the watchdog's list then, with its details, or whose
  -- assembly was requested, is so still after any requests that come within the day before that moment,
  -- whatever the clients ask and however Redis, Kafka and the object store fail. That the list and the
  -- details lapse after a day without a change is part of it.
  pub serve_all-IsOwed :
      (fl : Floats) (l : Library) (cs : List Call) (i : String) (h : SegmentHandler)
      → All (IsRecent later) cs
      → IsOwed i h
      → IsOwed i (serve_all fl l cs h)
  unfolding serve_all
  serve_all-IsOwed fl l [] i h t o = o
  serve_all-IsOwed fl l (c ∷ cs) i h t o =
      serve_all-IsOwed fl l cs i (serve fl l c h) t.1 (serve-IsOwed fl l c i h t.0 o)
