-- ===== src/Usecase/Assembler/Defs.antt =====
-- assembler_usecase.go: from a request, or the end of a stream, to the outcome that is reported.
use vox_streaming.Base.{ℕ, ◌+◌, false, List, [], ◌∷◌, none, some, String, if◌then◌else◌}
use vox_streaming.Base.Int.{pos}
use vox_streaming.Base.Text.{contains}
use vox_streaming.Base.Clock.{Time}
use vox_streaming.Base.Failure.{Error, Result, ok, err, Fault, wrapped, message}
use vox_streaming.Domain.{RecordingAssemblyRequestedEvent, StreamEndedEvent}
use vox_streaming.Cache.Segment.{SegmentMeta, list, is_complete}
use vox_streaming.Cache.Pending.{PendingAssembly, schedule, cancel, assembly_source_webrtc}
use vox_streaming.Stream.Float.{Floats}
use vox_streaming.Usecase.Assembler.Announce.{
  AssemblerUseCase, AssemblyCalls, Outcome, Summary, load_summary, publish_recording_state,
  assembled, unpublished, failed,
}
use vox_streaming.Usecase.Assembler.Build.{acquired}

-- The body of `assemble`, while the stream is marked as in flight.
unfoldable pub assemble_listed :
    Floats
    → AssemblyCalls
    → RecordingAssemblyRequestedEvent
    → Result (List SegmentMeta)
    → AssemblerUseCase
    → AssemblerUseCase × Outcome
unfolding load_summary acquired
assemble_listed fl w event (err e) u = (u, failed (wrapped "list segments" e))
assemble_listed fl w event (ok []) u = (u, failed (message "no segments uploaded"))
assemble_listed fl w event (ok (m ∷ ms)) u =
    acquired w.ctx_done w event (m ∷ ms) (load_summary fl w event.stream_id (m ∷ ms) u) u

abbrev pub with_flights : List String → AssemblerUseCase × Outcome → AssemblerUseCase × Outcome
with_flights before (u, o) = (record u { in_flight = before }, o)

-- `assemble`: a stream in flight is left to the call that works on it; otherwise the mark is set, and
-- removed at the end whatever happens.
unfoldable pub assemble :
    Floats
    → AssemblyCalls
    → RecordingAssemblyRequestedEvent
    → AssemblerUseCase
    → AssemblerUseCase × Outcome
unfolding assemble_listed
assemble fl w event u =
    if contains u.in_flight event.stream_id
    then (u, assembled)
    else with_flights u.in_flight (
        assemble_listed fl w event (list w.list_fault w.now event.stream_id u.segments)
          (record u { in_flight = event.stream_id ∷ u.in_flight }))

abbrev pub no_summary : Summary
no_summary = record { duration_secs = pos 0; has_gaps = false }

abbrev pub reported : Error → AssemblerUseCase × Fault → AssemblerUseCase × Fault
reported e (u, none) = (u, some e)
reported e (u, some p) = (u, some (wrapped "assemble recording; publish failure state" p))

unfoldable pub report_outcome :
    AssemblyCalls
    → RecordingAssemblyRequestedEvent
    → AssemblerUseCase × Outcome
    → AssemblerUseCase × Fault
unfolding publish_recording_state
report_outcome w event (u, assembled) = (u, none)
report_outcome w event (u, unpublished e) = (u, some (wrapped "publish recording state" e))
report_outcome w event (u, failed e) =
    reported e (publish_recording_state 1 w event "FAILED" "" no_summary (w.describe e) u)

unfoldable pub assemble_requested :
    Floats
    → AssemblyCalls
    → RecordingAssemblyRequestedEvent
    → AssemblerUseCase
    → AssemblerUseCase × Fault
unfolding assemble report_outcome
assemble_requested fl w event u = report_outcome w event (assemble fl w event u)

unfoldable pub recording_request_from_stream_ended :
    StreamEndedEvent → RecordingAssemblyRequestedEvent
recording_request_from_stream_ended e = record {
  event_id = e.event_id;
  stream_id = e.stream_id;
  schedule_id = e.schedule_id;
  session_id = e.session_id;
  participant_id = e.participant_id;
  stream_type = e.stream_type;
  source = "SERVER_WEBRTC";
  requested_at = e.ended_at;
}

-- `disarmWatchdog`: a failure is only logged.
unfoldable pub disarm_watchdog : AssemblyCalls → String → AssemblerUseCase → AssemblerUseCase
disarm_watchdog w stream_id u = elim (cancel w.cancel_fault stream_id u.pending) [
  | ok p ↦ record u { pending = p }
  | err e ↦ u
]

unfoldable pub pending_of : Time → StreamEndedEvent → PendingAssembly
pending_of due_at e = record {
  stream_id = e.stream_id;
  schedule_id = e.schedule_id;
  session_id = e.session_id;
  participant_id = e.participant_id;
  stream_type = e.stream_type;
  due_at = due_at;
  attempts = 0;
  source = assembly_source_webrtc;
}

unfoldable pub disarmed :
    AssemblyCalls → String → AssemblerUseCase × Fault → AssemblerUseCase × Fault
unfolding disarm_watchdog
disarmed w stream_id (u, none) = (disarm_watchdog w stream_id u, none)
disarmed w stream_id (u, some e) = (u, some e)

unfoldable pub wait_grace :
    AssemblyCalls → ℕ → StreamEndedEvent → AssemblerUseCase → AssemblerUseCase × Fault
unfolding pending_of
wait_grace w grace_period e u =
    elim (schedule w.schedule_fault w.now (pending_of (w.now + grace_period) e) u.pending) [
      | ok p ↦ (record u { pending = p }, none)
      | err x ↦ (u, some (wrapped "schedule grace-period assembly" x))
    ]

unfoldable pub on_stream_ended :
    Floats → AssemblyCalls → ℕ → StreamEndedEvent → AssemblerUseCase → AssemblerUseCase × Fault
unfolding disarmed wait_grace assemble_requested recording_request_from_stream_ended
on_stream_ended fl w grace_period e u =
    elim (is_complete w.complete_fault w.now e.stream_id u.segments) [
      | err x ↦ (u, some x)
      | ok complete ↦
          if complete
          then disarmed w e.stream_id
              (assemble_requested fl w (recording_request_from_stream_ended e) u)
          else wait_grace w grace_period e u
    ]
