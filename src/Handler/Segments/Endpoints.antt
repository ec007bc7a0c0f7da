-- ===== src/Handler/Segments/Endpoints.antt =====
-- handler.go: the endpoints `Upload`, `Complete`, `DeclareInventory`, `Audit` and `CreateSession`.
use vox_streaming.Base.{ℕ, Bool, List, [], ◌∷◌, Option, none, some, String, leb, length}
use vox_streaming.Base.Int.{pos}
use vox_streaming.Base.Failure.{Result, ok, err, Fault}
use vox_streaming.Domain.{RecordingAssemblyRequestedEvent, RecordingPartChangedEvent}
use vox_streaming.Cache.Pending.{PendingRegistry, cancel}
use vox_streaming.Cache.Upload.{UploadSession}
use vox_streaming.Stream.Float.{Floats}
use vox_streaming.Usecase.Segments.{
  SegmentUploadRequest, InventoryDeclaration, SegmentUseCase, Calls, StreamAudit, upload,
  complete_upload, declare_inventory, audit,
}
use vox_streaming.Handler.Segments.Requests.{
  Request, InventoryRequest, Library, Response, refused, no_content, json, Checked, stop, go_on,
  ◌>>=◌, ◌>>◌, require, parsed,
}
use vox_streaming.Handler.Segments.Defs.{
  max_inventory_segments, authorized, checked_upload, read_stop_reason, write_use_case_error,
}

pub data Published : Type 0 where
  assembly_requested : RecordingAssemblyRequestedEvent → Published
  part_changed : RecordingPartChangedEvent → Published

-- The use case, whose sessions the handler registers too, the streams that the watchdog watches, and
-- what was published, the newest first.
pub record SegmentHandler : Type 0 where
  pub use_case : SegmentUseCase
  pub pending : PendingRegistry
  pub published : List Published

-- What the outside world answers during one request; an id or a run of random bytes may not be had.
pub record Answers : Type 0 where
  pub calls : Calls
  pub new_stream_id : Option String
  pub event_id : Option String
  pub random : Option (List ℕ)
  pub register_fault : Fault
  pub schedule_fault : Fault
  pub publish_fault : Fault
  pub cancel_fault : Fault

abbrev pub desktop_source : String
desktop_source = "DESKTOP_SEGMENT_UPLOAD"

-- The answer to a call of the use case that has no value.
abbrev pub answered :
    String
    → SegmentUseCase × Result (Unit {0})
    → SegmentHandler
    → SegmentHandler × Response (Unit {0})
answered fallback (u, ok t) h = (record h { use_case = u }, no_content)
answered fallback (u, err e) h = (record h { use_case = u }, write_use_case_error e fallback)

-- Checks, and what is done once they have passed.
abbrev pub on_passed {ℓ} :
    {A : Type ℓ} {B : Type 0}
    → Checked A
    → SegmentHandler
    → (A → SegmentHandler × Response B)
    → SegmentHandler × Response B
on_passed (stop status text) h next = (h, refused status text)
on_passed (go_on a) h next = next a

unfoldable pub upload_segment :
    Library → Answers → Request → SegmentHandler → SegmentHandler × Response (Unit {0})
upload_segment l w r h =
    on_passed (checked_upload l r) h
      (λ req. answered "upload failed" (upload l.hashing w.calls req h.use_case) h)

-- A request that says no more than whose stream it is about.
abbrev pub request_for : String → String → String → SegmentUploadRequest
request_for stream_id token reason = record {
  stream_id = stream_id;
  upload_token = token;
  seq = pos 0;
  started_at = 0;
  ended_at = 0;
  sha256 = "";
  payload = [];
  stop_reason = reason;
}

unfoldable pub assembly_request : Answers → String → UploadSession → RecordingAssemblyRequestedEvent
assembly_request w event_id s = record {
  event_id = event_id;
  stream_id = s.stream_id;
  schedule_id = s.schedule_id;
  session_id = s.session_id;
  participant_id = s.candidate_id;
  stream_type = s.stream_type;
  source = desktop_source;
  requested_at = w.calls.now;
}

abbrev pub with_pending : Result PendingRegistry → SegmentHandler → SegmentHandler
with_pending (ok p) h = record h { pending = p }
with_pending (err e) h = h

-- The end of `Complete`: the job is queued, and then the watchdog is disarmed.
unfoldable pub queue_assembly :
    Answers
    → String
    → Option String
    → UploadSession
    → SegmentHandler
    → SegmentHandler × Response (Unit {0})
unfolding assembly_request
queue_assembly w stream_id none s h = (h, refused 500 "cannot create assembly event id")
queue_assembly w stream_id (some event_id) s h = elim w.publish_fault [
  | some e ↦ (h, refused 503 "cannot queue recording assembly")
  | none ↦ (
    with_pending (cancel w.cancel_fault stream_id h.pending)
        (record h { published = assembly_requested (assembly_request w event_id s) ∷ h.published }),
    no_content,
  )
]

abbrev pub marked :
    Answers
    → String
    → SegmentUseCase × Result (UploadSession × Bool)
    → SegmentHandler
    → SegmentHandler × Response (Unit {0})
marked w stream_id (u, err e) h =
    (record h { use_case = u }, write_use_case_error e "mark complete failed")
marked w stream_id (u, ok (s, newly)) h =
    queue_assembly w stream_id w.event_id s (record h { use_case = u })

unfoldable pub complete :
    Library → Answers → Request → SegmentHandler → SegmentHandler × Response (Unit {0})
unfolding queue_assembly
complete l w r h = on_passed (authorized l r) h (λ token.
    marked w r.stream_id
      (complete_upload l.hashing w.calls (request_for r.stream_id token (read_stop_reason l r.body))
        h.use_case)
      h)

abbrev pub checked_inventory : Library → Request → Checked (String × InventoryRequest)
checked_inventory l r = do
  token ← authorized l r
  inventory ← parsed (l.decode_inventory r.body) 400 "invalid request"
  require (leb (length inventory.segments) max_inventory_segments) 413 "too many segments"
  go_on (token, inventory)

abbrev pub declaration : Request → String × InventoryRequest → InventoryDeclaration
declaration r (token, inventory) = record {
  stream_id = r.stream_id;
  upload_token = token;
  complete = inventory.complete;
  declared_at = inventory.declared_at;
  segments = inventory.segments;
}

-- `DeclareInventory`.
unfoldable pub put_inventory :
    Library → Answers → Request → SegmentHandler → SegmentHandler × Response (Unit {0})
put_inventory l w r h = on_passed (checked_inventory l r) h (λ x.
    answered "declare inventory failed"
      (declare_inventory l.hashing w.calls (declaration r x) h.use_case) h)

abbrev pub audited :
    {F : Type 0}
    → SegmentUseCase × Result (StreamAudit F)
    → SegmentHandler
    → SegmentHandler × Response (StreamAudit F)
audited (u, ok a) h = (record h { use_case = u }, json 200 a)
audited (u, err e) h = (record h { use_case = u }, write_use_case_error e "audit failed")

unfoldable pub get_audit :
    (fl : Floats)
    → Library
    → Answers
    → Request
    → SegmentHandler
    → SegmentHandler × Response (StreamAudit fl.Float)
get_audit fl l w r h =
    on_passed (authorized l r) h (λ token.
      audited (audit fl l.hashing w.calls (request_for r.stream_id token "") h.use_case) h)
