-- ===== src/Usecase/Streams/Defs.antt =====
-- stream_usecase.go: the start, the frames and the end of a stream; peer.go: `runSessionHeartbeat`.
use vox_streaming.Base.{List, [], ◌∷◌, none, some, String}
use vox_streaming.Base.Int.{ℤ}
use vox_streaming.Base.Clock.{Time}
use vox_streaming.Base.Failure.{Result, ok, err, Fault, check, check_as}
use vox_streaming.Domain.{StreamEndedEvent}
use vox_streaming.Cache.Session.{
  SessionInfo, SessionKey, LiveSessions, session_key, register, unregister, refresh,
}

pub record StreamStartedEvent : Type 0 where
  pub event_id : String
  pub session : SessionInfo

pub record FrameReadyEvent : Type 0 where
  pub event_id : String
  pub session : SessionInfo
  pub captured_at : Time
  pub frame_url : String
  pub sequence_no : ℤ

pub data StreamEvent : Type 0 where
  stream_started : StreamStartedEvent → StreamEvent
  frame_ready : FrameReadyEvent → StreamEvent
  stream_ended : StreamEndedEvent → StreamEvent

-- The streams on air, and the events published, the newest first.
pub record StreamUseCase : Type 0 where
  pub sessions : LiveSessions
  pub published : List StreamEvent

-- What the outside world answers during one call.
pub record StreamCalls : Type 0 where
  pub now : Time
  pub event_id : String
  pub session_fault : Fault
  pub publish_fault : Fault

abbrev pub kept_or : Result LiveSessions → LiveSessions → LiveSessions
kept_or (ok m) old = m
kept_or (err e) old = old

abbrev pub publish : StreamCalls → StreamEvent → StreamUseCase → StreamUseCase × Fault
publish w event u = elim w.publish_fault [
  | none ↦ (record u { published = event ∷ u.published }, none)
  | some e ↦ (u, some e)
]

abbrev pub failing_as : String → StreamUseCase × Fault → StreamUseCase × Result (Unit {0})
failing_as text (u, fault) = (u, check_as text fault)

-- That the stream could not be registered is only logged.
unfoldable pub notify_stream_started :
    StreamCalls → SessionInfo → StreamUseCase → StreamUseCase × Result (Unit {0})
notify_stream_started w info u =
    let s : SessionInfo = record info { started_at = w.now } in
    failing_as "notify stream started" (
      publish w (stream_started (record { event_id = w.event_id; session = s }))
        (record u { sessions = kept_or (register w.session_fault w.now s u.sessions) u.sessions }))

unfoldable pub refresh_stream :
    StreamCalls → SessionKey → StreamUseCase → StreamUseCase × Result (Unit {0})
refresh_stream w k u = (
  record u { sessions = kept_or (refresh w.session_fault w.now k u.sessions) u.sessions },
  check_as "refresh stream session" w.session_fault,
)

unfoldable pub publish_frame :
    StreamCalls → SessionInfo → String → ℤ → StreamUseCase → StreamUseCase × Result (Unit {0})
publish_frame w info frame_url seq u =
    let (v, fault) =
      publish w
        (frame_ready (record {
          event_id = w.event_id;
          session = info;
          captured_at = w.now;
          frame_url = frame_url;
          sequence_no = seq;
        }))
        u in
    (v, check fault)

-- That the stream could not be unregistered is only logged.
unfoldable pub notify_stream_ended :
    StreamCalls → SessionInfo → List String → ℤ → StreamUseCase → StreamUseCase × Result (Unit {0})
notify_stream_ended w info segment_keys duration u = failing_as "notify stream ended" (
    publish w
      (stream_ended (record {
        event_id = w.event_id;
        schedule_id = info.schedule_id;
        session_id = info.session_id;
        participant_id = info.participant_id;
        stream_id = info.stream_id;
        stream_type = info.stream_type;
        segment_keys = segment_keys;
        duration = duration;
        ended_at = w.now;
      }))
      (record u {
        sessions = kept_or (unregister w.session_fault (session_key info) u.sessions) u.sessions;
      }))

-- `runSessionHeartbeat` over the ticks that come before the peer is done.
unfoldable pub run_session_heartbeat : List StreamCalls → SessionKey → StreamUseCase → StreamUseCase
unfolding refresh_stream
run_session_heartbeat [] k u = u
run_session_heartbeat (w ∷ ws) k u = run_session_heartbeat ws k (refresh_stream w k u).0
