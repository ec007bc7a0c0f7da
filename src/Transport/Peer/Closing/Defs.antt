-- ===== src/Transport/Peer/Closing/Defs.antt =====
-- peer.go: `Peer.close`, with the segment registry and the alerts. The peer has a registry; releasing
-- the recorder's slot, cleaning up its directory and waiting are left out but for their outcomes.
use vox_streaming.Base.{
  Bool, true, false, not, ◌&&◌, ◌||◌, List, [], ◌∷◌, ◌++◌, String, if◌then◌else◌, map,
}
use vox_streaming.Base.Clock.{Time}
use vox_streaming.Base.Failure.{Result, ok, err, Fault}
use vox_streaming.Cache.Segment.{SegmentMeta, SegmentRegistry, add, mark_complete}

-- What `close` finds: whether ffmpeg ingest is on, whether a video track came, whether a supervisor
-- was started, whether ffmpeg had to be killed and the supervisor gave up, whether the uploader was
-- done in time, and what it uploaded and noted.
pub record Teardown : Type 0 where
  pub has_ingest : Bool
  pub had_video_track : Bool
  pub recorder_started : Bool
  pub force_killed : Bool
  pub gave_up : Bool
  pub upload_done : Bool
  pub segs : List SegmentMeta
  pub incomplete : Bool

-- `closedByFailure` as it is read in turn: for the empty recording, the completion, the two alerts about
-- the recording, and the dropped stream.
pub record Flag : Type 0 where
  pub at_empty : Bool
  pub at_complete : Bool
  pub at_incomplete : Bool
  pub at_truncated : Bool
  pub at_dropped : Bool

-- What the outside world answers.
pub record CloseCalls : Type 0 where
  pub now : Time
  pub add_fault : SegmentMeta → Fault
  pub mark_fault : Fault

-- What a closing peer tells others, in this order.
pub data Notice : Type 0 where
  left : Notice
  alert : String → Notice
  ended : List String → Notice

abbrev pub recording_incomplete : String
recording_incomplete = "RECORDING_INCOMPLETE"

abbrev pub recording_truncated : String
recording_truncated = "RECORDING_TRUNCATED"

abbrev pub stream_dropped : String
stream_dropped = "STREAM_DROPPED"

abbrev pub no_segments : List SegmentMeta → Bool
no_segments [] = true
no_segments (m ∷ ms) = false

abbrev pub registered_or : SegmentRegistry → Result SegmentRegistry → SegmentRegistry × Bool
registered_or r (ok s) = (s, false)
registered_or r (err e) = (r, true)

-- The loop over the segments: the registry, and whether one could not be registered.
unfoldable pub register_segments :
    CloseCalls → String → List SegmentMeta → SegmentRegistry → SegmentRegistry × Bool
register_segments w stream_id [] r = (r, false)
register_segments w stream_id (m ∷ ms) r =
    let (s, failed) = registered_or r (add (w.add_fault m) w.now stream_id m r) in
    let (t, more) = register_segments w stream_id ms s in (t, failed || more)

abbrev pub captured : Teardown → List SegmentMeta
captured t = if t.recorder_started then t.segs else []

-- `st.incomplete` when the recorder was stopped.
unfoldable pub incomplete_after_stop : Teardown → Bool
incomplete_after_stop t =
    t.incomplete
    || (t.recorder_started && (not t.upload_done || (t.force_killed && no_segments t.segs)))

unfoldable pub truncated : Teardown → Bool
truncated t = t.recorder_started && t.force_killed && not (no_segments t.segs)

-- What is told about the recording, given whether it is incomplete.
unfoldable pub recording_notices : Flag → Teardown → Bool → List Notice
unfolding truncated
recording_notices flag t incomplete =
    let empty = t.had_video_track && no_segments (captured t) && not flag.at_empty in
    if ((t.recorder_started && t.gave_up) || incomplete || empty) && not flag.at_incomplete
    then alert recording_incomplete ∷ []
    else if truncated t && not flag.at_truncated
    then alert recording_truncated ∷ []
    else []

abbrev pub may_complete : Flag → Teardown → Bool → Bool
may_complete flag t incomplete =
    not flag.at_complete
    && not (t.recorder_started && t.gave_up)
    && not incomplete
    && not (no_segments (captured t))

abbrev pub marked : Result SegmentRegistry → SegmentRegistry → SegmentRegistry
marked (ok s) r = s
marked (err e) r = r

abbrev pub dropped_notice : Bool → List Notice
dropped_notice true = alert stream_dropped ∷ []
dropped_notice false = []

unfoldable pub close :
    CloseCalls → Flag → String → Teardown → SegmentRegistry → SegmentRegistry × List Notice
unfolding register_segments incomplete_after_stop recording_notices
close w flag stream_id t r =
    let (s, failed) = register_segments w stream_id (captured t) r in
    let incomplete = t.has_ingest && (incomplete_after_stop t || failed) in
    let complete = may_complete flag t incomplete in
    (
      if complete then marked (mark_complete w.mark_fault w.now stream_id s) s else s,
      left
          ∷ (recording_notices flag t incomplete
              ++ (dropped_notice flag.at_dropped ++ ended (map (λ m. m.s3_key) (captured t)) ∷ [])),
    )
