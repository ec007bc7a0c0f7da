-- ===== src/Handler/Segments/Handover.antt =====
-- Completing a stream hands the duty to assemble it from the watchdog to the queue.
use vox_streaming.Base.{
  ℕ, ◌≡◌, refl, sym, subst, Bool, List, ◌∷◌, Option, none, some, String, arith, if_ind,
}
use vox_streaming.Base.Text.{text_eq_iff, text_eq_refl}
use vox_streaming.Base.Store.{lookup, remove, lookup-remove}
use vox_streaming.Base.Eq.{eq_text}
use vox_streaming.Base.Failure.{
  Error, Result, ok, err, Fault, outside, wrapped, message, upload_session_not_found,
  upload_session_expired, upload_session_completed, upload_session_ownership, segment_conflict,
}
use vox_streaming.Domain.{RecordingAssemblyRequestedEvent}
use vox_streaming.Cache.Segment.{SegmentRegistry, mark_complete}
use vox_streaming.Cache.Pending.{PendingRegistry, cancel}
use vox_streaming.Cache.Upload.{UploadSession, UploadRegistry, mark_upload_complete}
use vox_streaming.Usecase.Segments.{
  Hashing, SegmentUploadRequest, SegmentUseCase, Calls, owns, owned, flagged, reported_session,
  complete_owned, complete_upload,
}
use vox_streaming.Handler.Segments.Requests.{
  Request, Library, Response, refused, no_content, json, Checked, stop, go_on,
}
use vox_streaming.Handler.Segments.Defs.{authorized, read_stop_reason, cause, write_use_case_error}
use vox_streaming.Handler.Segments.Endpoints.{
  assembly_requested, SegmentHandler, Answers, request_for, on_passed, assembly_request,
  with_pending, queue_assembly, marked, complete,
}

-- A completion that went well answers with the session of a stream.
abbrev IsOf : String → SegmentUseCase × Result (UploadSession × Bool) → Type 0
IsOf i (u, err e) = Unit
IsOf i (u, ok (s, newly)) = s.stream_id ≡ i

flagged-IsOf :
    (r : Result SegmentRegistry) (s : UploadSession) (newly : Bool) (u : SegmentUseCase)
    → IsOf s.stream_id (flagged r s newly u)
flagged-IsOf (err e) s newly u = tt
flagged-IsOf (ok r) s newly u = refl

complete_owned-IsOf :
    (w : Calls) (req : SegmentUploadRequest) (s : UploadSession) (m : UploadRegistry × Result Bool)
    (u : SegmentUseCase)
    → IsOf s.stream_id (complete_owned w req s m u)
unfolding complete_owned reported_session
complete_owned-IsOf w req s (r, err e) u = tt
complete_owned-IsOf w req s (r, ok newly) u =
    flagged-IsOf (mark_complete w.mark_fault w.now req.stream_id u.segments)
      (reported_session req.stop_reason s) newly (record u { sessions = r })

owned-IsOf :
    (h : Hashing) (i token : String) (l : UploadRegistry × Result UploadSession)
    (u : SegmentUseCase)
    (k : UploadSession → SegmentUseCase → SegmentUseCase × Result (UploadSession × Bool))
    → ((s : UploadSession) (v : SegmentUseCase) → IsOf s.stream_id (k s v))
    → IsOf i (owned h i token l u k)
unfolding owned owns
owned-IsOf h i token (r, err e) u k each = tt
owned-IsOf h i token (r, ok s) u k each =
    if_ind (IsOf i) (owns h s i token)
      (λ e.
        subst (λ j. IsOf j (k s (record u { sessions = r })))
          ((text_eq_iff s.stream_id i).0 (ground (arith, e))) (each s (record u { sessions = r })))
      (λ e. tt)

complete_upload-IsOf :
    (h : Hashing) (w : Calls) (req : SegmentUploadRequest) (u : SegmentUseCase)
    → IsOf req.stream_id (complete_upload h w req u)
unfolding complete_upload
complete_upload-IsOf h w req u = owned-IsOf h req.stream_id req.upload_token _ u _ (λ s v.
    complete_owned-IsOf w req s
      (mark_upload_complete w.complete_fault w.now req.stream_id req.stop_reason v.sessions) v)

-- What became of the watchdog's entry for a stream, given what Redis answered.
abbrev pub LetGo : Fault → String → PendingRegistry → PendingRegistry → Type 0
LetGo none i p q = (ok q ≡ cancel none i p) × (lookup i q.due ≡ none)
LetGo (some e) i p q = q ≡ p

-- What a completion does to the duty of having a stream's recording assembled: if it is answered with
-- success, the assembly of that stream was requested, and then the watchdog let go of it if Redis
-- answered, and has what it had if not; otherwise the watchdog keeps watching what it watched and nothing was published.
abbrev pub HandedOver :
    Answers → String → SegmentHandler → SegmentHandler × Response (Unit {0}) → Type 0
HandedOver w i h (g, refused status text) = (g.pending ≡ h.pending) × (g.published ≡ h.published)
HandedOver w i h (g, json status a) = ⊥
HandedOver w i h (g, no_content) =
    (e : RecordingAssemblyRequestedEvent) × (e.stream_id ≡ i)
    × (g.published ≡ assembly_requested e ∷ h.published)
    × LetGo w.cancel_fault i h.pending g.pending

queue_assembly-HandedOver :
    (w : Answers) (i : String) (o : Option String) (s : UploadSession) (h : SegmentHandler)
    → s.stream_id ≡ i
    → HandedOver w i h (queue_assembly w i o s h)
unfolding queue_assembly assembly_request cancel
queue_assembly-HandedOver w i none s h e = (refl, refl)
queue_assembly-HandedOver w i (some event_id) s h e = go w.publish_fault w.cancel_fault refl
  where
    let_go : Fault → SegmentHandler
    let_go c =
        with_pending (cancel c i h.pending) (record h {
          published = assembly_requested (assembly_request w event_id s) ∷ h.published;
        })

    removed : (i : String) (m : List (String × ℕ)) → lookup i (remove i m) ≡ none
    removed i m = rw (lookup-remove i i m, text_eq_refl i) refl

    go :
        (p c : Fault)
        → w.cancel_fault ≡ c
        → HandedOver w i h (elim p [
          | some e ↦ (h, refused 503 "cannot queue recording assembly")
          | none ↦ (
            with_pending (cancel c i h.pending) (record h {
              published = assembly_requested (assembly_request w event_id s) ∷ h.published;
            }),
            no_content,
          )
        ])
    go (some x) c k = (refl, refl)
    go none none k = (
      assembly_request w event_id s,
      e,
      refl,
      subst (λ f. LetGo f i h.pending (let_go none).pending) (sym k)
          (refl, removed i h.pending.due),
    )
    go none (some x) k = (
      assembly_request w event_id s,
      e,
      refl,
      subst (λ f. LetGo f i h.pending (let_go (some x)).pending) (sym k) refl,
    )

refusal :
    {A : Type 0} (e : Error) (fallback : String)
    → (status : ℕ) × (text : String) × (write_use_case_error {A = A} e fallback
        ≡ refused status text)
unfolding write_use_case_error cause
refusal (wrapped text e) fallback = refusal e fallback
refusal (outside text) fallback = (500, fallback, refl)
refusal (message text) fallback = (500, fallback, refl)
refusal upload_session_not_found fallback = (404, "upload session not found", refl)
refusal upload_session_expired fallback = (410, "upload session expired", refl)
refusal upload_session_completed fallback = (409, "upload session already completed", refl)
refusal upload_session_ownership fallback = (403, "forbidden", refl)
refusal segment_conflict fallback = (409, "segment sequence conflict", refl)

marked-HandedOver :
    (w : Answers) (i : String) (m : SegmentUseCase × Result (UploadSession × Bool))
    (h : SegmentHandler)
    → IsOf i m
    → HandedOver w i h (marked w i m h)
marked-HandedOver w i (u, err e) h o =
    let (status, text, same) = refusal e "mark complete failed" in
    subst (λ a. HandedOver w i h (record h { use_case = u }, a)) (sym same) (refl, refl)
marked-HandedOver w i (u, ok (s, newly)) h o =
    queue_assembly-HandedOver w i w.event_id s (record h { use_case = u }) o

-- A completion that is answered with success has requested the assembly of its stream, and then taken
-- the stream, and no other, off the watchdog's list, if Redis answered; if it did not, the list is as it
-- was. A completion that is refused leaves the list as it was and publishes nothing.
pub complete-HandedOver :
    (l : Library) (w : Answers) (r : Request) (h : SegmentHandler)
    → HandedOver w r.stream_id h (complete l w r h)
unfolding complete
complete-HandedOver l w r h =
    elim (authorized l r)
      as (λ (c : Checked String). HandedOver w r.stream_id h (
        on_passed c h (λ token.
          marked w r.stream_id
            (complete_upload l.hashing w.calls
              (request_for r.stream_id token (read_stop_reason l r.body)) h.use_case)
            h))) [
              | stop status text ↦ (refl, refl)
              | go_on token ↦ marked-HandedOver w r.stream_id _ h (
                  complete_upload-IsOf l.hashing w.calls
                    (request_for r.stream_id token (read_stop_reason l r.body)) h.use_case)
            ]
