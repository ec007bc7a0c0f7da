-- ===== src/Tests/Ingest.antt =====
-- The start of a peer's recorder.
use vox_streaming.Base.{◌+◌, ◌<◌, ◌≤◌, ◌≡◌, refl, Bool, true, false, arith}
use vox_streaming.Transport.Peer.Ingest.{
  seen, finished, Ingest, new_ingest, note_track, check_done, session_opens, slot_taken,
  supervisor_starts, commit, rolled_back, close_done, close_reads, close_gives_back, track, checks,
  opens, takes, starts, commits, rolls_back, closes, reads, gives_back, Reach, born, after,
  under_way, Reach-released,
}

-- A start whose peer is closed before the commit rolls back.
abbrev both : Ingest
both = note_track false (note_track true new_ingest)

abbrev ready : Ingest
ready = supervisor_starts (slot_taken (session_opens (check_done both)))

abbrev rolled : Ingest
rolled = rolled_back (commit (close_done ready))

abbrev gone : Ingest
gone = close_gives_back false false (close_reads rolled)

ready-Reach : Reach ready
unfolding note_track check_done
ready-Reach =
    let tracks : Reach both =
      after (after born (track true new_ingest)) (track false (note_track true new_ingest)) in
    let past = after tracks (checks both (omega arith)) in
    let session = after past (opens (check_done both) (omega arith)) in
    let slot = after session (takes (session_opens (check_done both)) (omega arith)) in
    after slot (starts (slot_taken (session_opens (check_done both))) (omega arith))

gone-Reach : Reach gone
unfolding note_track check_done commit close_done
gone-Reach =
    let closed = after ready-Reach (closes ready) in
    let rolling = after closed (commits (close_done ready) (omega arith)) in
    let back = after rolling (rolls_back (commit (close_done ready)) (omega arith)) in
    after (after back (reads rolled refl)) (gives_back (close_reads rolled) false false refl)

Reach-released_example :
    (gone.slots ≤ 1)
    × (gone.sessions ≤ 1)
    × (0 < gone.slotted + gone.rolling → 0 < gone.slots)
    × ((session : Bool) → gone.closing ≡ seen session true → 0 < gone.slots)
    × (gone.closing ≡ finished → under_way gone ≡ 0 → (gone.slots ≡ 0) × (gone.sessions ≡ 0))
Reach-released_example = Reach-released gone gone-Reach
