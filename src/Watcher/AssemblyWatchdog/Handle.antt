-- ===== src/Watcher/AssemblyWatchdog/Handle.antt =====
-- assembly_watchdog.go: `handle` and `SweepOnce`. The assembler stands behind an interface in the
-- source: it is the function `assemble` here, which may answer with an error.
use vox_streaming.Base.{ℕ, ◌+◌, List, [], ◌∷◌, none, some, String, leb, if◌then◌else◌}
use vox_streaming.Base.Clock.{Time, minutes}
use vox_streaming.Base.Failure.{Result, ok, err, Fault}
use vox_streaming.Domain.{RecordingAssemblyRequestedEvent}
use vox_streaming.Cache.Segment.{SegmentMeta}
use vox_streaming.Cache.Pending.{
  PendingAssembly, PendingRegistry, SweepFaults, assembly_source, schedule, cancel, due,
}

abbrev pub watchdog_batch_limit : ℕ
watchdog_batch_limit = 32

abbrev pub watchdog_retry_interval : ℕ
watchdog_retry_interval = minutes 2

abbrev pub watchdog_max_attempts : ℕ
watchdog_max_attempts = 5

-- What the world answers while one entry is handled: the time, the segments of a stream, the new
-- event id, the assembler, and the faults of the two writes to the registry.
pub record World : Type 0 where
  pub now : Time
  pub list_segments : String → Result (List SegmentMeta)
  pub new_event_id : Result String
  pub assemble : RecordingAssemblyRequestedEvent → Fault
  pub cancel_fault : Fault
  pub schedule_fault : Fault

-- A write whose error is only logged.
abbrev pub or_keep : Result PendingRegistry → PendingRegistry → PendingRegistry
or_keep (ok r') r = r'
or_keep (err e) r = r

-- `cancel`.
unfoldable pub cancel_entry : World → String → PendingRegistry → PendingRegistry
cancel_entry w stream_id r = or_keep (cancel w.cancel_fault stream_id r) r

unfoldable pub assembly_event : World → String → PendingAssembly → RecordingAssemblyRequestedEvent
assembly_event w event_id pending = record {
  event_id = event_id;
  stream_id = pending.stream_id;
  schedule_id = pending.schedule_id;
  session_id = pending.session_id;
  participant_id = pending.participant_id;
  stream_type = pending.stream_type;
  source = assembly_source pending;
  requested_at = w.now;
}

-- The entry as a failed attempt writes it back.
unfoldable pub retried : World → PendingAssembly → PendingAssembly
retried w pending = record pending {
  attempts = pending.attempts + 1;
  due_at = w.now + watchdog_retry_interval;
}

-- What follows the assembler's answer.
unfoldable pub after_assembly : Fault → World → PendingAssembly → PendingRegistry → PendingRegistry
unfolding cancel_entry retried
after_assembly none w pending r = cancel_entry w pending.stream_id r
after_assembly (some e) w pending r =
    if leb watchdog_max_attempts (pending.attempts + 1)
    then cancel_entry w pending.stream_id r
    else or_keep (schedule w.schedule_fault w.now (retried w pending) r) r

unfoldable pub with_event_id :
    Result String → World → PendingAssembly → PendingRegistry → PendingRegistry
unfolding after_assembly assembly_event
with_event_id (err e) w pending r = r
with_event_id (ok event_id) w pending r =
    after_assembly (w.assemble (assembly_event w event_id pending)) w pending r

unfoldable pub with_segments :
    Result (List SegmentMeta) → World → PendingAssembly → PendingRegistry → PendingRegistry
unfolding cancel_entry with_event_id
with_segments (err e) w pending r = r
with_segments (ok []) w pending r = cancel_entry w pending.stream_id r
with_segments (ok (m ∷ ms)) w pending r = with_event_id w.new_event_id w pending r

unfoldable pub handle : World → PendingAssembly → PendingRegistry → PendingRegistry
unfolding with_segments
handle w pending r = with_segments (w.list_segments pending.stream_id) w pending r

unfoldable pub handle_all : World → List PendingAssembly → PendingRegistry → PendingRegistry
unfolding handle
handle_all w [] r = r
handle_all w (p ∷ ps) r = handle_all w ps (handle w p r)

abbrev handle_due : World → PendingRegistry × Result (List PendingAssembly) → PendingRegistry
handle_due w (r, err e) = r
handle_due w (r, ok ps) = handle_all w ps r

-- `SweepOnce`; one time stands for the reads of the clock within a sweep.
unfoldable pub sweep_once : Fault → SweepFaults → World → PendingRegistry → PendingRegistry
unfolding handle_all
sweep_once list_fault f w r = handle_due w (due list_fault f w.now watchdog_batch_limit r)
