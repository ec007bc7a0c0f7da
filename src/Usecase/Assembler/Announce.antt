-- ===== src/Usecase/Assembler/Announce.antt =====
-- assembler_usecase.go: the state, what answers from outside, the summary of a recording, and the event
-- that announces it. The quality report, which never fails an assembly and is read by nothing here, is
-- left out.
use vox_streaming.Base.{ℕ, ◌/◌, suc, Bool, true, false, List, ◌∷◌, Option, none, some, String}
use vox_streaming.Base.Int.{ℤ, pos, negsuc, sub_ℕ}
use vox_streaming.Base.Clock.{Time, Duration}
use vox_streaming.Base.Failure.{Error, Result, ok, err, Fault}
use vox_streaming.Domain.{RecordingAssemblyRequestedEvent, RecordingPartChangedEvent}
use vox_streaming.Cache.Segment.{SegmentMeta, SegmentRegistry}
use vox_streaming.Cache.Inventory.{StreamInventory, InventoryRegistry, find_inventory}
use vox_streaming.Cache.Upload.{UploadRegistry}
use vox_streaming.Cache.Pending.{PendingRegistry}
use vox_streaming.Stream.Float.{Floats}
use vox_streaming.Stream.Coverage.{reconcile, coverage_has_gaps, recorded_duration}

-- The registries, the streams in flight, the keys of the recordings stored and the events published,
-- the newest first.
pub record AssemblerUseCase : Type 0 where
  pub segments : SegmentRegistry
  pub inventory : InventoryRegistry
  pub sessions : UploadRegistry
  pub pending : PendingRegistry
  pub in_flight : List String
  pub recordings : List String
  pub published : List RecordingPartChangedEvent

-- What the outside world answers during one call. An assembly announces its outcome once, and a
-- failure then once more: the event ids and the publisher's answers are numbered 0 and 1.
pub record AssemblyCalls : Type 0 where
  pub now : Time
  pub describe : Error → String
  pub complete_fault : Fault
  pub list_fault : Fault
  pub ctx_done : Fault
  pub recording_exists : Result Bool
  pub final_key : String
  pub inventory_fault : Fault
  pub mkdir : Fault
  pub disk_space : Result ℕ
  pub download : Fault
  pub local_files : Result (List String)
  pub concat_list : Fault
  pub concat : Fault
  pub lookup_fault : Fault
  pub open_output : Fault
  pub stored : Result String
  pub event_id : ℕ → Result String
  pub publish : ℕ → Fault
  pub schedule_fault : Fault
  pub cancel_fault : Fault

-- `errRecordingStatePublish` and the other errors are told apart by `errors.Is`.
pub data Outcome : Type 0 where
  assembled : Outcome
  unpublished : Error → Outcome
  failed : Error → Outcome

abbrev pub recording_status : Bool → String
recording_status true = "PARTIAL"
recording_status false = "READY"

-- `int64(d.Seconds())`, towards zero.
unfoldable pub whole_seconds : Duration → ℤ
whole_seconds (pos n) = pos (n / 1000000000)
whole_seconds (negsuc n) = sub_ℕ 0 (suc n / 1000000000)

pub record Summary : Type 0 where
  pub duration_secs : ℤ
  pub has_gaps : Bool

unfoldable pub recording_summary : Floats → Option StreamInventory → List SegmentMeta → Summary
unfolding whole_seconds
recording_summary fl inventory metas = record {
  duration_secs = whole_seconds (recorded_duration inventory metas);
  has_gaps = coverage_has_gaps (reconcile fl inventory metas);
}

-- An inventory that cannot be read counts as none.
abbrev pub readable : Result (Option StreamInventory) → Option StreamInventory
readable (ok i) = i
readable (err e) = none

unfoldable pub load_summary :
    Floats → AssemblyCalls → String → List SegmentMeta → AssemblerUseCase → Summary
unfolding recording_summary
load_summary fl w stream_id metas u =
    recording_summary fl (readable (find_inventory w.inventory_fault w.now stream_id u.inventory))
      metas

unfoldable pub part_changed :
    AssemblyCalls
    → RecordingAssemblyRequestedEvent
    → String
    → String
    → String
    → Summary
    → String
    → RecordingPartChangedEvent
part_changed w request event_id status key s error_message = record {
  event_id = event_id;
  stream_id = request.stream_id;
  schedule_id = request.schedule_id;
  session_id = request.session_id;
  participant_id = request.participant_id;
  stream_type = request.stream_type;
  source = request.source;
  status = status;
  object_key = key;
  duration_secs = s.duration_secs;
  has_gaps = s.has_gaps;
  error_message = error_message;
  occurred_at = w.now;
}

-- `publishRecordingState`, with the number of the event among those of the call.
unfoldable pub publish_recording_state :
    ℕ
    → AssemblyCalls
    → RecordingAssemblyRequestedEvent
    → String
    → String
    → Summary
    → String
    → AssemblerUseCase
    → AssemblerUseCase × Fault
unfolding part_changed
publish_recording_state n w request status key s error_message u = elim (w.event_id n) [
  | err e ↦ (u, some e)
  | ok id ↦ elim (w.publish n) [
    | some e ↦ (u, some e)
    | none ↦ (
      record u { published = part_changed w request id status key s error_message ∷ u.published },
      none,
    )
  ]
]

abbrev pub announced : AssemblerUseCase × Fault → AssemblerUseCase × Outcome
announced (u, none) = (u, assembled)
announced (u, some e) = (u, unpublished e)

unfoldable pub announce :
    AssemblyCalls
    → RecordingAssemblyRequestedEvent
    → String
    → Summary
    → AssemblerUseCase
    → AssemblerUseCase × Outcome
unfolding publish_recording_state
announce w event key s u =
    announced (publish_recording_state 0 w event (recording_status s.has_gaps) key s "" u)
