-- ===== src/Transport/Peer/Closing/Verdict.antt =====
-- What a peer that closes says about its recording.
use vox_streaming.Base.{
  ◌+◌, ◌≡◌, refl, sym, ap, subst, ◌∙◌, Bool, true, false, not, ◌&&◌, ◌||◌, List, [], ◌∷◌, none,
  some, String, arith, if◌then◌else◌,
}
use vox_streaming.Base.Text.{text_eq}
use vox_streaming.Base.Eq.{eq_text}
use vox_streaming.Base.Clock.{Time}
use vox_streaming.Base.Redis.{get, get-set_self}
use vox_streaming.Base.Failure.{ok, Fault, ok-injective}
use vox_streaming.Cache.Segment.{
  SegmentMeta, SegmentRegistry, add, mark_complete, is_complete, is_some, segment_ttl,
}
use vox_streaming.Transport.Peer.Closing.Defs.{
  Teardown, Flag, CloseCalls, Notice, left, alert, ended, no_segments, close, registered_or,
  register_segments, captured, incomplete_after_stop, may_complete, marked, recording_incomplete,
  stream_dropped,
}

-- The stream's recording counts as complete in the registry.
abbrev pub Complete : Time → String → SegmentRegistry → Bool → Type 0
Complete now stream_id r b = is_complete none now stream_id r ≡ ok b

abbrev pub says_lost : Notice → Bool
says_lost left = false
says_lost (alert a) = text_eq a recording_incomplete || text_eq a stream_dropped
says_lost (ended keys) = false

unfoldable pub any : (Notice → Bool) → List Notice → Bool
any f [] = false
any f (n ∷ ns) = f n || any f ns

abbrev pub steady : Bool → Flag
steady failed = record {
  at_empty = failed;
  at_complete = failed;
  at_incomplete = failed;
  at_truncated = failed;
  at_dropped = failed;
}

-- Registering segments completes nothing.
add-complete :
    (fault : Fault) (now : Time) (stream_id : String) (m : SegmentMeta) (r : SegmentRegistry)
    → (registered_or r (add fault now stream_id m r)).0.complete ≡ r.complete
unfolding add
add-complete none now stream_id m r = refl
add-complete (some e) now stream_id m r = refl

register_segments-complete :
    (w : CloseCalls) (stream_id : String) (ms : List SegmentMeta) (r : SegmentRegistry)
    → (register_segments w stream_id ms r).0.complete ≡ r.complete
unfolding register_segments
register_segments-complete w stream_id [] r = refl
register_segments-complete w stream_id (m ∷ ms) r =
    register_segments-complete w stream_id ms
      (registered_or r (add (w.add_fault m) w.now stream_id m r)).0
    ∙ add-complete (w.add_fault m) w.now stream_id m r

-- Whether `close` goes on to mark the recording complete.
abbrev pub completes : CloseCalls → Flag → String → Teardown → SegmentRegistry → Bool
completes w flag stream_id t r =
    may_complete flag t (
      t.has_ingest && (incomplete_after_stop t || (register_segments w stream_id (captured t) r).1))

abbrev pub is_none : Fault → Bool
is_none none = true
is_none (some e) = false

alerts :
    (w : CloseCalls) (failed : Bool) (stream_id : String) (t : Teardown) (r : SegmentRegistry)
    → t.had_video_track ≡ true
    → w.mark_fault ≡ none
    → (completes w (steady failed) stream_id t r && is_none w.mark_fault)
      ≡ not (any says_lost (close w (steady failed) stream_id t r).1)
unfolding close any text_eq
alerts w failed stream_id t r v m = rw m (ground (arith, v))

-- After `close`, a recording that was not complete is complete exactly if it was to be marked and Redis
-- took the mark.
close-Complete :
    (w : CloseCalls) (flag : Flag) (stream_id : String) (t : Teardown) (r : SegmentRegistry)
    → Complete w.now stream_id r false
    → Complete w.now stream_id
        (close w flag stream_id t r).0
        (completes w flag stream_id t r && is_none w.mark_fault)
unfolding close is_complete mark_complete
close-Complete w flag stream_id t r n = go (completes w flag stream_id t r)
  where
    s : SegmentRegistry
    s = (register_segments w stream_id (captured t) r).0

    unmarked : Complete w.now stream_id s false
    unmarked =
        ap (λ c. ok (is_some (get w.now stream_id c)))
          (register_segments-complete w stream_id (captured t) r)
        ∙ n

    marked-complete :
        (f : Fault)
        → Complete w.now stream_id (marked (mark_complete f w.now stream_id s) s) (is_none f)
    marked-complete none =
        ap (λ o. ok (is_some o))
          (get-set_self w.now stream_id "1" (w.now + segment_ttl) s.complete (omega arith))
    marked-complete (some e) = unmarked

    go :
        (b : Bool)
        → Complete w.now stream_id
            (if b then marked (mark_complete w.mark_fault w.now stream_id s) s else s)
            (b && is_none w.mark_fault)
    go true = marked-complete w.mark_fault
    go false = unmarked

-- A recording that `close` completes: the supervisor did not give up, the uploader was done in time and
-- lost nothing, every captured segment was registered, and there is one.
pub close-completed :
    (w : CloseCalls) (flag : Flag) (stream_id : String) (t : Teardown) (r : SegmentRegistry)
    → t.has_ingest ≡ true
    → Complete w.now stream_id r false
    → Complete w.now stream_id (close w flag stream_id t r).0 true
    → (t.recorder_started ≡ true)
      × (t.gave_up ≡ false)
      × (t.upload_done ≡ true)
      × (t.incomplete ≡ false)
      × ((register_segments w stream_id t.segs r).1 ≡ false)
      × (no_segments t.segs ≡ false)
unfolding incomplete_after_stop
close-completed w flag stream_id t r i n h =
    let e : (completes w flag stream_id t r && is_none w.mark_fault) ≡ true =
      ok-injective (sym (close-Complete w flag stream_id t r n) ∙ h) in
    ground (arith, e, i)

-- A stream that had video and was not complete before, where Redis takes the mark of a completion: at
-- its end either its recording is marked complete in the registry, or an alert says that it is
-- incomplete or was dropped, and never both, as long as the reason of the end does not change meanwhile.
pub close-accounts :
    (w : CloseCalls) (failed : Bool) (stream_id : String) (t : Teardown) (r : SegmentRegistry)
    → t.had_video_track ≡ true
    → Complete w.now stream_id r false
    → w.mark_fault ≡ none
    → Complete w.now stream_id
        (close w (steady failed) stream_id t r).0
        (not (any says_lost (close w (steady failed) stream_id t r).1))
close-accounts w failed stream_id t r v n m =
    subst (Complete w.now stream_id (close w (steady failed) stream_id t r).0)
      (alerts w failed stream_id t r v m) (close-Complete w (steady failed) stream_id t r n)
