-- ===== src/Tests/Assembler.antt =====
-- The assembler, with one stored segment.
use vox_streaming.Base.{refl, false, [], ◌∷◌, none}
use vox_streaming.Base.Int.{pos}
use vox_streaming.Base.Eq.{eq_text, eq_ℤ}
use vox_streaming.Base.Text.{contains}
use vox_streaming.Base.Redis.{doc}
use vox_streaming.Base.Failure.{ok}
use vox_streaming.Domain.{RecordingAssemblyRequestedEvent, StreamEndedEvent}
use vox_streaming.Usecase.Assembler.{
  AssemblerUseCase, AssemblyCalls, assemble_requested, on_stream_ended, Answered,
  assemble_requested-Answered, Owned, on_stream_ended-Owned,
}
use vox_streaming.Tests.Usecase.{whole, segment}

abbrev assembler : AssemblerUseCase
assembler = record {
  segments = record {
    hashes = ("a", record { value = (pos 1, doc (segment 1)) ∷ []; deadline = 9000000 }) ∷ [];
    complete = ("a", record { value = "1"; deadline = 9000000 }) ∷ [];
  };
  inventory = [];
  sessions = record { sessions = []; index = [] };
  pending = record { due = []; due_expires = 0; details = [] };
  in_flight = [];
  recordings = [];
  published = [];
}

abbrev assembly : AssemblyCalls
assembly = record {
  now = 1;
  describe = λ e. "failed";
  complete_fault = none;
  list_fault = none;
  ctx_done = none;
  recording_exists = ok false;
  final_key = "final";
  inventory_fault = none;
  mkdir = none;
  disk_space = ok 1000000000;
  download = none;
  local_files = ok ("0000.mp4" ∷ []);
  concat_list = none;
  concat = none;
  lookup_fault = none;
  open_output = none;
  stored = ok "final";
  event_id = λ n. ok "e";
  publish = λ n. none;
  schedule_fault = none;
  cancel_fault = none;
}

abbrev requested : RecordingAssemblyRequestedEvent
requested = record {
  event_id = "e";
  stream_id = "a";
  schedule_id = "room";
  session_id = "s";
  participant_id = "c";
  stream_type = "camera";
  source = "SERVER_WEBRTC";
  requested_at = 1;
}

assemble_requested-Answered_example :
    Answered assembly requested assembler (assemble_requested whole assembly requested assembler)
unfolding contains
assemble_requested-Answered_example =
    assemble_requested-Answered whole assembly requested assembler refl

abbrev ended : StreamEndedEvent
ended = record {
  event_id = "e";
  schedule_id = "room";
  session_id = "s";
  participant_id = "c";
  stream_id = "a";
  stream_type = "camera";
  segment_keys = [];
  duration = pos 5;
  ended_at = 1;
}

on_stream_ended-Owned_example :
    Owned assembly 5 ended assembler (on_stream_ended whole assembly 5 ended assembler)
unfolding contains
on_stream_ended-Owned_example = on_stream_ended-Owned whole assembly 5 ended assembler
