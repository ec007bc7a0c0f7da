-- ===== src/Domain.antt =====
-- internal/domain/events.go: the events that the service publishes, and the level of an alert.
use vox_streaming.Base.{Bool, ◌||◌, List, String, if◌then◌else◌}
use vox_streaming.Base.Text.{text_eq}
use vox_streaming.Base.Int.{ℤ}
use vox_streaming.Base.Clock.{Time}

pub record RecordingAssemblyRequestedEvent : Type 0 where
  pub event_id : String
  pub stream_id : String
  pub schedule_id : String
  pub session_id : String
  pub participant_id : String
  pub stream_type : String
  pub source : String
  pub requested_at : Time

pub record RecordingPartChangedEvent : Type 0 where
  pub event_id : String
  pub stream_id : String
  pub schedule_id : String
  pub session_id : String
  pub participant_id : String
  pub stream_type : String
  pub source : String
  pub status : String
  pub object_key : String
  pub duration_secs : ℤ
  pub has_gaps : Bool
  pub error_message : String
  pub occurred_at : Time

pub record StreamEndedEvent : Type 0 where
  pub event_id : String
  pub schedule_id : String
  pub session_id : String
  pub participant_id : String
  pub stream_id : String
  pub stream_type : String
  pub segment_keys : List String
  pub duration : ℤ
  pub ended_at : Time

pub record ParticipantEvent : Type 0 where
  pub kind : String
  pub session_id : String
  pub participant_id : String
  pub stream_id : String
  pub stream_type : String
  pub happened_at : Time

-- `AlertLevel` is a text, and the empty one means that the producer set none.
abbrev pub alert_level_critical : String
alert_level_critical = "CRITICAL"

abbrev pub alert_level_warning : String
alert_level_warning = "WARNING"

abbrev pub alert_level_info : String
alert_level_info = "INFO"

-- The cases of `DefaultAlertLevel`; the last one and the default are one.
abbrev pub is_critical_type : String → Bool
is_critical_type t = text_eq t "PHONE_DETECTED" || text_eq t "PROHIBITED_OBJECT"

abbrev pub is_warning_type : String → Bool
is_warning_type t =
    text_eq t "PERSON_MISSING"
    || (text_eq t "WINDOW_FOCUS_LOST"
        || (text_eq t "UNCOOPERATIVE_CANDIDATE"
            || (text_eq t "CAMERA_SIGNAL_LOST"
                || (text_eq t "STREAM_DROPPED"
                    || (text_eq t "RECORDING_INCOMPLETE" || text_eq t "MULTIPLE_PERSONS")))))

unfoldable pub default_alert_level : String → String
default_alert_level t =
    if is_critical_type t
    then alert_level_critical
    else if is_warning_type t
    then alert_level_warning
    else alert_level_info

-- `Confidence` is left out: nothing here reads or changes it.
pub record AlertEvent : Type 0 where
  pub event_id : String
  pub source : String
  pub session_id : String
  pub participant_id : String
  pub stream_id : String
  pub stream_type : String
  pub alert_type : String
  pub detail : String
  pub sequence_no : ℤ
  pub level : String
  pub captured_at : Time
