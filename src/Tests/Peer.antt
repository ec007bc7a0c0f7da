-- ===== src/Tests/Peer.antt =====
-- The WebRTC peer.
use vox_streaming.Base.{◌≡◌, refl, inl, true, false, not, [], ◌∷◌, none, some, arith, length, Elem}
use vox_streaming.Base.Int.{pos}
use vox_streaming.Base.Failure.{ok}
use vox_streaming.Base.Text.{text_eq}
use vox_streaming.Base.Eq.{eq_text, eq_ℤ}
use vox_streaming.Cache.Segment.{
  SegmentMeta, SegmentRegistry, add, find, mark_complete, is_complete,
}
use vox_streaming.Base.Redis.{get, get_cell, live, set}
use vox_streaming.Base.Store.{lookup, insert}
use vox_streaming.Transport.Peer.Uploader.{
  SegmentFile, upload_attempts, upload_with_retry, run_segment_uploader, new_uploader,
}
use vox_streaming.Transport.Peer.Closing.{
  Teardown, CloseCalls, close, register_segments, any, says_lost, steady, incomplete_after_stop,
  close-accounts, close-found,
}
use vox_streaming.Transport.Peer.Life.{
  gone, finished, Peer, new_peer, close_begin, close_end, run_grace, grace_over, bind, release,
  start_once, swap_disconnected, swap_reconnected, notify_reconnected, starts, swaps_lost,
  swaps_back, tells_back, signal_over, check_signal, binds, releases, signal_expires, Reach, born,
  after, IsTold, Reach-IsTold, Reach-check_signal, close-run_grace,
}

abbrev file : SegmentFile
file = record {
  path = "0.mp4";
  handed_at = 9;
  uploaded_at = 10;
  size = ok (pos 5);
  attempt = λ n. ok "k";
}

abbrev segment : SegmentMeta
segment = record {
  seq = pos 0;
  s3_key = "k";
  sha256 = "";
  started_at = 1;
  ended_at = 9;
  size_bytes = pos 5;
  uploaded_at = 10;
}

abbrev recorded : Teardown
recorded = record {
  has_ingest = true;
  had_video_track = true;
  recorder_started = true;
  force_killed = false;
  gave_up = false;
  upload_done = true;
  segs = segment ∷ [];
  incomplete = false;
}

abbrev world : CloseCalls
world = record { now = 20; add_fault = λ m. none; mark_fault = none }

abbrev registry : SegmentRegistry
registry = record { hashes = []; complete = [] }

not_complete : is_complete none 20 "a" registry ≡ ok false
unfolding is_complete get get_cell live lookup
not_complete = refl

completes : is_complete none 20 "a" (close world (steady false) "a" recorded registry).0 ≡ ok true
unfolding close register_segments incomplete_after_stop add mark_complete is_complete get get_cell
    live lookup set insert text_eq
completes = refl

close-accounts_example :
    is_complete none 20 "a" (close world (steady true) "a" recorded registry).0
    ≡ ok (not (any says_lost (close world (steady true) "a" recorded registry).1))
close-accounts_example = close-accounts world true "a" recorded registry refl not_complete refl

uploads_it : segment ∷ [] ≡ (run_segment_uploader (file ∷ []) (new_uploader 1)).segs
unfolding run_segment_uploader upload_with_retry upload_attempts
uploads_it = refl

notes_nothing : false ≡ (run_segment_uploader (file ∷ []) (new_uploader 1)).incomplete
unfolding run_segment_uploader upload_with_retry upload_attempts
notes_nothing = refl

close-found_example :
    (length (segment ∷ []) ≡ length (file ∷ []))
    × ((x : SegmentMeta)
        → Elem x (segment ∷ [])
        → find none 30 "a" x.seq (close world (steady false) "a" recorded registry).0 ≡ ok (some x))
close-found_example =
    close-found world (steady false) 1 30 "a" (file ∷ []) recorded registry (omega arith) refl
      (λ d. (uploads_it, notes_nothing)) not_complete completes

-- A student's signaling is bound, lost, and bound again as the timer goes off.
abbrev bound : Peer
bound = bind 5 new_peer

abbrev released : Peer
released = (release 1 1 bound).0

abbrev overdue : Peer
overdue = signal_over 1 released

abbrev back : Peer
back = bind 6 overdue

back-Reach : Reach back
unfolding bind release
back-Reach =
    after
      (after (after (after born (binds new_peer 5 (omega arith))) (releases 1 1 bound))
        (signal_expires released 1 90000000001 refl))
      (binds overdue 6 (omega arith))

Reach-check_signal_example : check_signal 1 back ≡ back
unfolding bind release
Reach-check_signal_example = Reach-check_signal back 6 1 back-Reach refl (inl refl)

-- A connection that starts, is lost, and is back before anyone was told that it was lost.
abbrev told_back : Peer
told_back = notify_reconnected (swap_reconnected (swap_disconnected (start_once new_peer)))

told_back-Reach : Reach told_back
told_back-Reach =
    after
      (after (after (after born (starts new_peer)) (swaps_lost (start_once new_peer)))
        (swaps_back (swap_disconnected (start_once new_peer))))
      (tells_back (swap_reconnected (swap_disconnected (start_once new_peer))) (omega arith))

Reach-IsTold_example : IsTold told_back
Reach-IsTold_example = Reach-IsTold told_back told_back-Reach

abbrev lost_peer : Peer
lost_peer = record new_peer { disconnect_timer = some 30 }

close-run_grace_example :
    ((close_end (close_begin lost_peer)).news ≡ finished false ∷ gone ∷ [])
    × ((close_end (run_grace (grace_over (close_begin lost_peer)))).news
        ≡ finished true ∷ gone ∷ [])
close-run_grace_example = close-run_grace lost_peer 30 refl refl refl
