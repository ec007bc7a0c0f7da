-- ===== src/Tests/Streams.antt =====
-- Streams on air.
use vox_streaming.Base.{List, [], ◌∷◌, none, some}
use vox_streaming.Base.Clock.{Time}
use vox_streaming.Base.Failure.{message, Fault}
use vox_streaming.Cache.Session.{SessionInfo}
use vox_streaming.Usecase.Streams.{StreamUseCase, StreamCalls}

abbrev camera : SessionInfo
camera = record {
  schedule_id = "room";
  session_id = "s";
  participant_id = "c";
  stream_id = "a";
  stream_type = "camera";
  started_at = 7;
}

abbrev call_at : Time → Fault → StreamCalls
call_at now fault = record {
  now = now;
  event_id = "e";
  session_fault = fault;
  publish_fault = none;
}

abbrev nothing : StreamUseCase
nothing = record { sessions = []; published = [] }

-- The heartbeat of the second minute fails, that of the third does not.
abbrev beats : List StreamCalls
beats = call_at 120000000000 (some (message "timeout")) ∷ call_at 180000000000 none ∷ []
