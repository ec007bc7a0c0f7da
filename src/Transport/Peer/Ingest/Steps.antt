-- ===== src/Transport/Peer/Ingest/Steps.antt =====
-- What holds however the callbacks of the two tracks, a start and the end of the peer interleave.
use vox_streaming.Base.{
  ℕ, ◌+◌, ◌<◌, ◌≤◌, ◌≡◌, Bool, true, false, not, ◌&&◌, if◌then◌else◌, arith, if_ind,
}
use vox_streaming.Transport.Peer.Ingest.Defs.{
  Closing, standing, begun, seen, finished, Ingest, new_ingest, with_track, note_track, check_done,
  session_fails, session_opens, slot_missing, slot_taken, supervisor_fails, supervisor_starts,
  commit, rolled_back, close_done, close_reads, close_gives_back,
}

pub data Step : Ingest → Ingest → Type 0 where
  track : (video : Bool) (s : Ingest) → Step s (note_track video s)
  checks : (s : Ingest) → 0 < s.claimed → Step s (check_done s)
  no_session : (s : Ingest) → 0 < s.checked → Step s (session_fails s)
  opens : (s : Ingest) → 0 < s.checked → Step s (session_opens s)
  no_slot : (s : Ingest) → 0 < s.opened → Step s (slot_missing s)
  takes : (s : Ingest) → 0 < s.opened → Step s (slot_taken s)
  no_supervisor : (s : Ingest) → 0 < s.slotted → Step s (supervisor_fails s)
  starts : (s : Ingest) → 0 < s.slotted → Step s (supervisor_starts s)
  commits : (s : Ingest) → 0 < s.supervised → Step s (commit s)
  rolls_back : (s : Ingest) → 0 < s.rolling → Step s (rolled_back s)
  closes : (s : Ingest) → Step s (close_done s)
  reads : (s : Ingest) → s.closing ≡ begun → Step s (close_reads s)
  gives_back :
      (s : Ingest) (session slot : Bool)
      → s.closing ≡ seen session slot
      → Step s (close_gives_back session slot s)

pub data Reach : Ingest → Type 0 where
  born : Reach new_ingest
  after : {s t : Ingest} → Reach s → Step s t → Reach t

abbrev pub is_open : Closing → Bool
is_open standing = true
is_open begun = false
is_open finished = false
is_open (seen session slot) = false

abbrev pub is_finished : Closing → Bool
is_finished standing = false
is_finished begun = false
is_finished finished = true
is_finished (seen session slot) = false

-- What `close` read is still so.
abbrev pub StillSeen : Closing → Bool → Bool → Type 0
StillSeen standing session slot = Unit
StillSeen begun session slot = Unit
StillSeen finished session slot = Unit
StillSeen (seen a b) session slot = (a ≡ session) × (b ≡ slot)

abbrev pub one_if : Bool → ℕ
one_if b = if b then 1 else 0

abbrev pub kept : Ingest → ℕ
kept s = one_if (s.record_slot_held && not (is_finished s.closing))

pub record IsAccounted (s : Ingest) : Type 0 where
  pub one_start :
      s.claimed + s.checked + s.opened + s.slotted + s.supervised + one_if s.record_slot_held
      ≡ one_if s.session_starting
  pub one_holder :
      s.checked + s.opened + s.slotted + s.supervised + s.rolling + one_if s.record_slot_held ≤ 1
  pub slots_held : s.slots ≡ s.slotted + s.supervised + s.rolling + kept s
  pub sessions_open : s.sessions ≡ s.opened + s.slotted + s.supervised + s.rolling + kept s
  pub committed : s.session ≡ s.record_slot_held
  pub rolls_when_done : s.done ≡ false → s.rolling ≡ 0
  pub open_until_done : is_open s.closing ≡ not s.done
  pub as_read : StillSeen s.closing s.session s.record_slot_held

-- Nothing was read while the peer is open.
standing-StillSeen :
    (c : Closing) (session slot : Bool) → is_open c ≡ true → StillSeen c session slot
standing-StillSeen standing session slot e = tt
standing-StillSeen begun session slot e = cc
standing-StillSeen finished session slot e = cc
standing-StillSeen (seen a b) session slot e = cc

claim-IsAccounted :
    (s : Ingest)
    → s.session ≡ false
    → s.session_starting ≡ false
    → IsAccounted s
    → IsAccounted (record s { session_starting = true; claimed = s.claimed + 1 })
claim-IsAccounted s n m a = record {
  one_start = ground (arith, a.one_start, m);
  one_holder = a.one_holder;
  slots_held = a.slots_held;
  sessions_open = a.sessions_open;
  committed = a.committed;
  rolls_when_done = a.rolls_when_done;
  open_until_done = a.open_until_done;
  as_read = a.as_read;
}

with_track-IsAccounted :
    (video : Bool) (s : Ingest) → IsAccounted s → IsAccounted (with_track video s)
with_track-IsAccounted true s a = ground arith
with_track-IsAccounted false s a = ground arith

note_track-IsAccounted :
    (video : Bool) (s : Ingest) → IsAccounted s → IsAccounted (note_track video s)
unfolding note_track
note_track-IsAccounted video s a =
    let t = with_track video s in
    let b = with_track-IsAccounted video s a in
    if_ind IsAccounted (t.video && (t.audio && (not t.session && not t.session_starting)))
      (λ e. claim-IsAccounted t (ground (arith, e)) (ground (arith, e)) b) (λ e. b)

check_done-IsAccounted : (s : Ingest) → 0 < s.claimed → IsAccounted s → IsAccounted (check_done s)
unfolding check_done
check_done-IsAccounted s l a =
    if_ind IsAccounted s.done (λ e. ground arith) (λ e. ground (arith, e))

commit-IsAccounted : (s : Ingest) → 0 < s.supervised → IsAccounted s → IsAccounted (commit s)
unfolding commit
commit-IsAccounted s l a =
    if_ind IsAccounted s.done (λ e. ground (arith, e, l))
      (λ e.
        let still = standing-StillSeen s.closing true true (ground (arith, e, a.open_until_done)) in
        ground (arith, e, l, still))

close_done-IsAccounted : (s : Ingest) → IsAccounted s → IsAccounted (close_done s)
unfolding close_done
close_done-IsAccounted s a = if_ind IsAccounted s.done (λ e. a) (λ e. ground (arith, e))

close_reads-IsAccounted :
    (s : Ingest) → s.closing ≡ begun → IsAccounted s → IsAccounted (close_reads s)
close_reads-IsAccounted s e a = ground (arith, e)

close_gives_back-IsAccounted :
    (s : Ingest) (session slot : Bool)
    → s.closing ≡ seen session slot
    → IsAccounted s
    → IsAccounted (close_gives_back session slot s)
unfolding close_gives_back
close_gives_back-IsAccounted s session slot e a = ground (arith, e)

Step-IsAccounted : {s t : Ingest} → Step s t → IsAccounted s → IsAccounted t
Step-IsAccounted (track video s) a = note_track-IsAccounted video s a
Step-IsAccounted (checks s l) a = check_done-IsAccounted s l a
Step-IsAccounted (no_session s l) a = ground arith
Step-IsAccounted (opens s l) a = ground arith
Step-IsAccounted (no_slot s l) a = ground arith
Step-IsAccounted (takes s l) a = ground arith
Step-IsAccounted (no_supervisor s l) a = ground arith
Step-IsAccounted (starts s l) a = ground arith
Step-IsAccounted (commits s l) a = commit-IsAccounted s l a
Step-IsAccounted (rolls_back s l) a = ground arith
Step-IsAccounted (closes s) a = close_done-IsAccounted s a
Step-IsAccounted (reads s e) a = close_reads-IsAccounted s e a
Step-IsAccounted (gives_back s session slot e) a = close_gives_back-IsAccounted s session slot e a

Reach-IsAccounted : (s : Ingest) → Reach s → IsAccounted s
Reach-IsAccounted s born = ground arith
Reach-IsAccounted s (after {s = r} reached st) = Step-IsAccounted st (Reach-IsAccounted r reached)

-- A start that has taken a slot, or opened a session, and has not handed it on or given it back.
abbrev pub under_way : Ingest → ℕ
under_way s = s.opened + s.slotted + s.supervised + s.rolling

-- However the two tracks, a start that fails or is rolled back, and the end of the peer interleave: a
-- peer holds one slot and one session at most; whoever gives a slot back finds one to give back, so that
-- it never waits; and once the peer has ended and no start is under way, it holds neither.
pub Reach-released :
    (s : Ingest)
    → Reach s
    → (s.slots ≤ 1)
      × (s.sessions ≤ 1)
      × (0 < s.slotted + s.rolling → 0 < s.slots)
      × ((session : Bool) → s.closing ≡ seen session true → 0 < s.slots)
      × (s.closing ≡ finished → under_way s ≡ 0 → (s.slots ≡ 0) × (s.sessions ≡ 0))
Reach-released s r =
    let a = Reach-IsAccounted s r in
    (
      ground (arith, a.one_holder, a.slots_held),
      ground (arith, a.one_holder, a.sessions_open),
      λ l. omega (arith, l, a.slots_held),
      λ session e. ground (arith, e),
      λ e u. ground (arith, e, u, a.slots_held, a.sessions_open),
    )
