-- ===== src/Transport/Peer/Ingest/Defs.antt =====
-- peer.go: `noteFFmpegIngestTrack`, `abortFFmpegIngestStart`, and what `close` does about the recorder.
-- Each part that runs under the mutex, and each call that takes or gives back a resource, is a step.
use vox_streaming.Base.{ℕ, ◌+◌, ◌-◌, Bool, true, false, not, ◌&&◌, if◌then◌else◌}

-- Where `close` is: it has not begun, it has closed `done`, it has read under the mutex whether there is
-- a session and a slot, or it has given back what it read.
pub data Closing : Type 0 where
  standing begun finished : Closing
  seen : Bool → Bool → Closing

-- The state under the mutex; how many calls of `noteFFmpegIngestTrack` are past their claim, past their
-- look at `done`, with a session, with a slot, with a supervisor, and rolling back; and how many slots
-- of `RecordSem` and open sessions there are for this peer.
pub record Ingest : Type 0 where
  pub video : Bool
  pub audio : Bool
  pub session : Bool
  pub session_starting : Bool
  pub record_slot_held : Bool
  pub done : Bool
  pub closing : Closing
  pub claimed : ℕ
  pub checked : ℕ
  pub opened : ℕ
  pub slotted : ℕ
  pub supervised : ℕ
  pub rolling : ℕ
  pub slots : ℕ
  pub sessions : ℕ

abbrev pub new_ingest : Ingest
new_ingest = record {
  video = false;
  audio = false;
  session = false;
  session_starting = false;
  record_slot_held = false;
  done = false;
  closing = standing;
  claimed = 0;
  checked = 0;
  opened = 0;
  slotted = 0;
  supervised = 0;
  rolling = 0;
  slots = 0;
  sessions = 0;
}

abbrev pub with_track : Bool → Ingest → Ingest
with_track video s = if video then record s { video = true } else record s { audio = true }

-- A track came: the call that finds both claims the start.
unfoldable pub note_track : Bool → Ingest → Ingest
note_track video s =
    let t = with_track video s in
    if t.video && (t.audio && (not t.session && not t.session_starting))
    then record t { session_starting = true; claimed = t.claimed + 1 }
    else t

abbrev pub abort_start : Ingest → Ingest
abort_start s = record s { session_starting = false }

-- The look at `done`.
unfoldable pub check_done : Ingest → Ingest
check_done s =
    if s.done
    then abort_start (record s { claimed = s.claimed - 1 })
    else record s { claimed = s.claimed - 1; checked = s.checked + 1 }

-- `StartSession` fails, or opens a session.
abbrev pub session_fails : Ingest → Ingest
session_fails s = abort_start (record s { checked = s.checked - 1 })

abbrev pub session_opens : Ingest → Ingest
session_opens s = record s {
  checked = s.checked - 1;
  opened = s.opened + 1;
  sessions = s.sessions + 1;
}

-- There is no slot, or one is taken.
abbrev pub slot_missing : Ingest → Ingest
slot_missing s = abort_start (record s { opened = s.opened - 1; sessions = s.sessions - 1 })

abbrev pub slot_taken : Ingest → Ingest
slot_taken s = record s { opened = s.opened - 1; slotted = s.slotted + 1; slots = s.slots + 1 }

-- The supervisor does not start, or starts.
abbrev pub supervisor_fails : Ingest → Ingest
supervisor_fails s =
    abort_start
      (record s { slotted = s.slotted - 1; slots = s.slots - 1; sessions = s.sessions - 1 })

abbrev pub supervisor_starts : Ingest → Ingest
supervisor_starts s = record s { slotted = s.slotted - 1; supervised = s.supervised + 1 }

-- The commit under the mutex.
unfoldable pub commit : Ingest → Ingest
commit s =
    if s.done
    then record s {
      supervised = s.supervised - 1;
      rolling = s.rolling + 1;
      session_starting = false;
    }
    else record s { supervised = s.supervised - 1; session = true; record_slot_held = true }

-- The goroutine that rolls a start back comes to its end.
abbrev pub rolled_back : Ingest → Ingest
rolled_back s = record s { rolling = s.rolling - 1; slots = s.slots - 1; sessions = s.sessions - 1 }

-- `close` runs once.
unfoldable pub close_done : Ingest → Ingest
close_done s = if s.done then s else record s { done = true; closing = begun }

abbrev pub close_reads : Ingest → Ingest
close_reads s = record s { closing = seen s.session s.record_slot_held }

abbrev pub less_if : Bool → ℕ → ℕ
less_if true n = n - 1
less_if false n = n

-- It gives back what it has read.
unfoldable pub close_gives_back : Bool → Bool → Ingest → Ingest
close_gives_back session slot s = record s {
  slots = less_if slot s.slots;
  sessions = less_if session s.sessions;
  closing = finished;
}
