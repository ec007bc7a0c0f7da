-- ===== src/Usecase/Alerts/Defs.antt =====
-- monitor_usecase.go: the streams of a schedule, and an alert on its way to the proctors and to Kafka.
-- The scanner, the publishers and the maker of event ids are behind interfaces: their answers are
-- arguments.
use vox_streaming.Base.{
  ℕ, ◌+◌, Bool, not, ◌&&◌, ◌||◌, List, [], ◌∷◌, ◌++◌, Option, none, some, String, if◌then◌else◌,
}
use vox_streaming.Base.Text.{text_eq, is_empty, contains}
use vox_streaming.Base.Clock.{Time, is_zero}
use vox_streaming.Base.Failure.{Result, ok, err, Fault, wrapped, message}
use vox_streaming.Cache.Session.{SessionInfo}
use vox_streaming.Domain.{AlertEvent, ParticipantEvent, default_alert_level}

pub record StreamInfo : Type 0 where
  pub session_id : String
  pub participant_id : String
  pub stream_id : String
  pub stream_type : String
  pub started_at : Time

pub record ScheduleSummary : Type 0 where
  pub schedule_id : String
  pub active_count : ℕ
  pub streams : List StreamInfo

abbrev pub info_of : SessionInfo → StreamInfo
info_of s = record {
  session_id = s.session_id;
  participant_id = s.participant_id;
  stream_id = s.stream_id;
  stream_type = s.stream_type;
  started_at = s.started_at;
}

unfoldable pub infos : List SessionInfo → List StreamInfo
infos [] = []
infos (s ∷ ss) = info_of s ∷ infos ss

unfoldable pub get_schedule_snapshot : Result (List SessionInfo) → Result (List StreamInfo)
unfolding infos
get_schedule_snapshot (err e) = err (wrapped "get schedule snapshot" e)
get_schedule_snapshot (ok sessions) = ok (infos sessions)

-- `append` to a schedule's streams in the map, which keeps one entry for each schedule. The source
-- lists its map in no fixed order; here the schedules stand in the order in which they were met.
unfoldable pub add_stream : String → StreamInfo → List ScheduleSummary → List ScheduleSummary
add_stream schedule_id i [] =
    record { schedule_id = schedule_id; active_count = 1; streams = i ∷ [] } ∷ []
add_stream schedule_id i (s ∷ ss) =
    let rest = add_stream schedule_id i ss in
    if text_eq s.schedule_id schedule_id
    then record s { active_count = s.active_count + 1; streams = s.streams ++ (i ∷ []) } ∷ ss
    else s ∷ rest

unfoldable pub summarise :
    List String → List ScheduleSummary → List SessionInfo → List ScheduleSummary
unfolding add_stream
summarise allowed acc [] = acc
summarise allowed acc (s ∷ ss) =
    summarise allowed
      (if contains allowed s.schedule_id then add_stream s.schedule_id (info_of s) acc else acc) ss

unfoldable pub get_active_schedules :
    List String → Result (List SessionInfo) → Result (List ScheduleSummary)
unfolding summarise
get_active_schedules allowed (err e) = err (wrapped "get active schedules" e)
get_active_schedules allowed (ok all) = ok (summarise allowed [] all)

unfoldable pub find_stream : String → List SessionInfo → Option SessionInfo
find_stream stream_id [] = none
find_stream stream_id (s ∷ ss) =
    let rest = find_stream stream_id ss in if text_eq s.stream_id stream_id then some s else rest

unfoldable pub find_live_stream : String → Result (List SessionInfo) → Result (Option SessionInfo)
unfolding find_stream
find_live_stream stream_id (err e) = err (wrapped "find live stream" e)
find_live_stream stream_id (ok sessions) = ok (find_stream stream_id sessions)

unfoldable pub notify_participant :
    Time → String → String → String → String → String → ParticipantEvent
notify_participant now kind session_id participant_id stream_id stream_type = record {
  kind = kind;
  session_id = session_id;
  participant_id = participant_id;
  stream_id = stream_id;
  stream_type = stream_type;
  happened_at = now;
}

-- An identifier that the producer left blank, or filled with the session's.
unfoldable pub needs : String → String → Bool
unfolding is_empty
needs id session_id = is_empty id || text_eq id session_id

-- The session of the alert's own stream type, or the first.
unfoldable pub matching : String → SessionInfo → List SessionInfo → SessionInfo
matching stream_type first [] = first
matching stream_type first (s ∷ ss) =
    let rest = matching stream_type first ss in
    if not (is_empty stream_type) && text_eq s.stream_type stream_type then s else rest

unfoldable pub filled : SessionInfo → AlertEvent → AlertEvent
unfolding needs
filled m a = record a {
  participant_id =
      if needs a.participant_id a.session_id then m.participant_id else a.participant_id;
  stream_id = if needs a.stream_id a.session_id then m.stream_id else a.stream_id;
  stream_type = if is_empty a.stream_type then m.stream_type else a.stream_type;
}

abbrev pub filled_from : Result (List SessionInfo) → AlertEvent → AlertEvent
filled_from (err e) a = a
filled_from (ok []) a = a
filled_from (ok (s ∷ ss)) a = filled (matching a.stream_type s (s ∷ ss)) a

-- `enrichAlertIdentity`, with what `ScanSession` answers for a session.
unfoldable pub enrich_alert_identity :
    (String → Result (List SessionInfo)) → AlertEvent → AlertEvent
unfolding filled matching
enrich_alert_identity scan a =
    if is_empty a.session_id
      || not (needs a.participant_id a.session_id) && not (needs a.stream_id a.session_id)
    then a
    else filled_from (scan a.session_id) a

-- What the world answers while an alert is published; `durable` is none without a Kafka publisher.
pub record AlertCalls : Type 0 where
  pub now : Time
  pub new_id : String
  pub scan : String → Result (List SessionInfo)
  pub live_fault : Fault
  pub durable : Option Fault

-- What went out: the live alert, the durable one if there is a publisher, and the result.
pub record Published : Type 0 where
  pub live : AlertEvent
  pub durable : Option AlertEvent
  pub result : Result (Unit {0})

unfoldable pub prepared : AlertCalls → String → AlertEvent → AlertEvent
unfolding enrich_alert_identity
prepared w event_id alert =
    let a : AlertEvent =
      enrich_alert_identity w.scan
        (record alert { event_id = if is_empty event_id then w.new_id else event_id }) in
    record a {
      level = if is_empty a.level then default_alert_level a.alert_type else a.level;
      captured_at = if is_zero a.captured_at then w.now else a.captured_at;
    }

abbrev pub delivery : Fault → Option Fault → Result (Unit {0})
delivery (some l) (some (some d)) = err (message "alert delivery failed")
delivery (some l) (some none) = ok tt
delivery (some l) none = ok tt
delivery none d = ok tt

abbrev pub sent_durable : Option Fault → AlertEvent → Option AlertEvent
sent_durable none a = none
sent_durable (some f) a = some a

unfoldable pub publish_alert : AlertCalls → AlertEvent → String → Published
unfolding prepared
publish_alert w alert event_id =
    let a : AlertEvent = prepared w event_id alert in
    record {
      live = a;
      durable = sent_durable w.durable a;
      result = delivery w.live_fault w.durable;
    }
