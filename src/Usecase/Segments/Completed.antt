-- ===== src/Usecase/Segments/Completed.antt =====
-- Completing a stream, and uploading to it afterwards.
use vox_streaming.Base.{
  ℕ, ◌<◌, ◌≡◌, refl, Bool, true, not, none, some, String, ap, sym, ◌∙◌, lt→ltb, subst, ◌+◌,
}
use vox_streaming.Base.Eq.{eq_text}
use vox_streaming.Base.Redis.{doc, get, set}
use vox_streaming.Base.Failure.{Result, ok, err, upload_session_completed, ok-injective}
use vox_streaming.Cache.Segment.{mark_complete, segment_ttl}
use vox_streaming.Cache.Upload.{
  UploadSession, UploadRegistry, lookup_upload, lookup_found, mark_upload_complete,
  mark_upload_complete_effect, complete_document, completed_session,
}
use vox_streaming.Usecase.Segments.Defs.{
  Hashing, SegmentUploadRequest, SegmentUseCase, Calls, owns, upload, upload_owned,
}
use vox_streaming.Usecase.Segments.Audit.{complete_upload, complete_owned, reported_session}
use vox_streaming.Usecase.Segments.Uploads.{owned_by}

lookup-found :
    (now : ℕ) (i : String) (r : UploadRegistry) (s : UploadSession)
    → get now i r.sessions ≡ some (doc s)
    → now < s.expires_at
    → lookup_upload none now i r ≡ (r, ok s)
unfolding lookup_upload lookup_found
lookup-found now i r s h e = rw (h, lookup_found, lt→ltb now s.expires_at e)

-- The state that completing leaves, when nothing outside fails.
abbrev after_complete : Calls → SegmentUploadRequest → SegmentUseCase → SegmentUseCase
after_complete w req u = record u {
  sessions = (mark_upload_complete none w.now req.stream_id req.stop_reason u.sessions).0;
  segments = record u.segments {
    complete = set req.stream_id "1" (w.now + segment_ttl) u.segments.complete;
  };
}

complete_owned-ok :
    (w : Calls) (req : SegmentUploadRequest) (s : UploadSession) (u : SegmentUseCase)
    (m : UploadRegistry × Result Bool) (newly : Bool)
    → m.1 ≡ ok newly
    → w.mark_fault ≡ none
    → complete_owned w req s m u ≡ (
      record u {
        sessions = m.0;
        segments = record u.segments {
          complete = set req.stream_id "1" (w.now + segment_ttl) u.segments.complete;
        };
      },
      ok (reported_session req.stop_reason s, newly),
    )
unfolding complete_owned mark_complete
complete_owned-ok w req s u (r, err x) newly e mf = cc
complete_owned-ok w req s u (r, ok b) newly e mf =
    rw (mf) (ap (λ (x : Bool). marked x) (ok-injective e))
  where
    marked : Bool → SegmentUseCase × Result (UploadSession × Bool)
    marked x = (
      record u {
        sessions = r;
        segments = record u.segments {
          complete = set req.stream_id "1" (w.now + segment_ttl) u.segments.complete;
        };
      },
      ok (reported_session req.stop_reason s, x),
    )

complete-state :
    (h : Hashing) (w : Calls) (req : SegmentUploadRequest) (u : SegmentUseCase) (s : UploadSession)
    → get w.now req.stream_id u.sessions.sessions ≡ some (doc s)
    → w.now < s.expires_at
    → owns h s req.stream_id req.upload_token ≡ true
    → w.lookup_fault ≡ none
    → w.complete_fault ≡ none
    → w.mark_fault ≡ none
    → complete_upload h w req u
      ≡ (after_complete w req u, ok (reported_session req.stop_reason s, not s.completed))
unfolding complete_upload
complete-state h w req u s found alive own lf cf mf =
    let seen = lookup-found w.now req.stream_id u.sessions s found alive in
    owned_by h req.stream_id req.upload_token u s
      (lookup_upload w.lookup_fault w.now req.stream_id u.sessions)
      (λ session v.
        complete_owned w req session
          (mark_upload_complete w.complete_fault w.now req.stream_id req.stop_reason v.sessions) v)
      (subst (λ f. lookup_upload f w.now req.stream_id u.sessions ≡ (u.sessions, ok s)) (sym lf)
        seen)
      own
    ∙ subst
        (λ f.
          complete_owned w req s
            (mark_upload_complete f w.now req.stream_id req.stop_reason u.sessions) u
          ≡ (after_complete w req u, ok (reported_session req.stop_reason s, not s.completed)))
        (sym cf)
        (complete_owned-ok w req s u
          (mark_upload_complete none w.now req.stream_id req.stop_reason u.sessions)
          (not s.completed)
          (mark_upload_complete_effect w.now w.now req.stream_id req.stop_reason u.sessions found).0
          mf)

-- Once its owner has completed a stream, and for as long as the session lives, every upload of the
-- owner is refused as one to a completed session and changes nothing; the completion itself answers
-- whether the stream was still open.
pub upload-complete_upload :
    (h : Hashing) (w later : Calls) (done req : SegmentUploadRequest) (u : SegmentUseCase)
    (s : UploadSession)
    → get w.now done.stream_id u.sessions.sessions ≡ some (doc s)
    → get later.now done.stream_id u.sessions.sessions ≡ some (doc s)
    → w.now < s.expires_at
    → later.now < s.expires_at
    → owns h s done.stream_id done.upload_token ≡ true
    → w.lookup_fault ≡ none
    → w.complete_fault ≡ none
    → w.mark_fault ≡ none
    → later.lookup_fault ≡ none
    → req.stream_id ≡ done.stream_id
    → req.upload_token ≡ done.upload_token
    → let c = complete_upload h w done u in
      (c.1 ≡ ok (reported_session done.stop_reason s, not s.completed))
      × (upload h later req c.0 ≡ (c.0, err upload_session_completed))
unfolding upload upload_owned completed_session owns
upload-complete_upload h w later done req u s found still alive alive' own lf cf mf lf' es et =
    let state = complete-state h w done u s found alive own lf cf mf in
    let v : SegmentUseCase = after_complete w done u in
    let s' : UploadSession = completed_session done.stop_reason s in
    let kept =
      (mark_upload_complete_effect w.now later.now done.stream_id done.stop_reason u.sessions
        found).1
      ∙ ap (complete_document done.stop_reason) still in
    let seen = lookup-found later.now done.stream_id v.sessions s' kept (lives alive') in
    rw state (
      refl,
      owned_by h req.stream_id req.upload_token v s'
          (lookup_upload later.lookup_fault later.now req.stream_id v.sessions)
          (upload_owned later req)
          (subst
            (λ i. lookup_upload later.lookup_fault later.now i v.sessions ≡ (v.sessions, ok s'))
            (sym es)
            (subst (λ f. lookup_upload f later.now done.stream_id v.sessions ≡ (v.sessions, ok s'))
              (sym lf') seen))
          (subst (λ i. owns h s' i req.upload_token ≡ true) (sym es)
            (subst (λ t. owns h s' done.stream_id t ≡ true) (sym et) own)),
    )
  where
    lives : later.now < s.expires_at → later.now < (completed_session done.stop_reason s).expires_at
    lives x = x
