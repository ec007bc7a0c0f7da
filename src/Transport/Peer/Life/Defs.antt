-- ===== src/Transport/Peer/Life/Defs.antt =====
-- peer.go: `setupCallbacks`, `scheduleClose`, `cancelDisconnectTimer`, `BindSignaling`,
-- `ReleaseSignaling`, `IsAlive`, and `close` as its begin and its end. Stopping a timer does not stop a
-- callback that has begun, and a method looks at `done` before it takes the mutex: each is two steps. The
-- callbacks of the connection run side by side: each of their calls is a step.
use vox_streaming.Base.{
  ℕ, suc, ◌+◌, ◌-◌, ◌%◌, ◌^◌, ◌==◌, Bool, true, false, not, List, [], ◌∷◌, Option, none, some,
  if◌then◌else◌,
}
use vox_streaming.Base.Clock.{Time, seconds}

-- What a peer tells others: `finished` says whether the end was put down to a failure.
pub data News : Type 0 where
  started disconnected reconnected gone : News
  finished : Bool → News

-- A timer is the moment at which it goes off, and the binding it was set for. `late_grace`,
-- `late_signal` and `doomed` are callbacks that have begun: of the disconnect timer, of the signaling
-- timer before its check, and past it. `owed_disconnected` and `owed_reconnected` count the callbacks that
-- have swapped `announced_disconnect` and have not told of it yet. `news` has the newest first.
pub record Peer : Type 0 where
  pub done : Bool
  pub ended : Bool
  pub closed_by_failure : Bool
  pub announced_disconnect : Bool
  pub start_done : Bool
  pub owed_disconnected : ℕ
  pub owed_reconnected : ℕ
  pub disconnect_timer : Option Time
  pub signal_gen : ℕ
  pub signal_conn : Option ℕ
  pub signal_timer : Option (ℕ × Time)
  pub late_grace : ℕ
  pub late_signal : List ℕ
  pub doomed : ℕ
  pub news : List News

abbrev pub new_peer : Peer
new_peer = record {
  done = false;
  ended = false;
  closed_by_failure = false;
  announced_disconnect = false;
  start_done = false;
  owed_disconnected = 0;
  owed_reconnected = 0;
  disconnect_timer = none;
  signal_gen = 0;
  signal_conn = none;
  signal_timer = none;
  late_grace = 0;
  late_signal = [];
  doomed = 0;
  news = [];
}

abbrev pub is_alive : Peer → Bool
is_alive p = not p.done

-- `close` up to its first notice; it runs once.
unfoldable pub close_begin : Peer → Peer
close_begin p =
    if p.done
    then p
    else record p { done = true; signal_conn = none; signal_timer = none; news = gone ∷ p.news }

-- The rest of it, which reads whether a failure was the reason.
unfoldable pub close_end : Peer → Peer
close_end p = record p { ended = true; news = finished p.closed_by_failure ∷ p.news }

unfoldable pub fail : Peer → Peer
unfolding close_begin
fail p = close_begin (record p { closed_by_failure = true })

abbrev pub start_once : Peer → Peer
start_once p = if p.start_done then p else record p { start_done = true; news = started ∷ p.news }

-- `Connected`, after the start: the swap of the mark, and the notice that the winner of it owes.
abbrev pub swap_reconnected : Peer → Peer
swap_reconnected p =
    if p.announced_disconnect
    then record p { announced_disconnect = false; owed_reconnected = suc p.owed_reconnected }
    else p

abbrev pub notify_reconnected : Peer → Peer
notify_reconnected p = record p {
  owed_reconnected = p.owed_reconnected - 1;
  news = reconnected ∷ p.news;
}

-- `Disconnected`: the swap of the mark, and the notice that the winner of it owes.
abbrev pub swap_disconnected : Peer → Peer
swap_disconnected p =
    if p.announced_disconnect
    then p
    else record p { announced_disconnect = true; owed_disconnected = suc p.owed_disconnected }

abbrev pub notify_disconnected : Peer → Peer
notify_disconnected p = record p {
  owed_disconnected = p.owed_disconnected - 1;
  news = disconnected ∷ p.news;
}

abbrev pub disconnect_grace : ℕ
disconnect_grace = seconds 30

-- `scheduleClose` and `cancelDisconnectTimer`, each under the mutex.
abbrev pub schedule_close : Time → Peer → Peer
schedule_close now p = record p { disconnect_timer = some (now + disconnect_grace) }

abbrev pub cancel_disconnect_timer : Peer → Peer
cancel_disconnect_timer p = record p { disconnect_timer = none }

-- The disconnect timer goes off, if it is set: its callback begins.
unfoldable pub grace_over : Peer → Peer
grace_over p = elim p.disconnect_timer [
  | none ↦ p
  | some d ↦ record p { disconnect_timer = none; late_grace = suc p.late_grace }
]

-- A callback of the disconnect timer that has begun.
unfoldable pub run_grace : Peer → Peer
unfolding fail
run_grace p = if p.late_grace == 0 then p else fail (record p { late_grace = p.late_grace - 1 })

abbrev pub signaling_grace : ℕ
signaling_grace = seconds 90

-- `BindSignaling` under the mutex, past its look at `done`.
unfoldable pub bind : ℕ → Peer → Peer
bind conn p = record p {
  signal_timer = none;
  signal_gen = (p.signal_gen + 1) % 2 ^ 64;
  signal_conn = some conn;
}

-- `ReleaseSignaling` under the mutex, past its look at `done`.
unfoldable pub release : Time → ℕ → Peer → Peer × Bool
release now gen p =
    if p.signal_gen == gen
    then (record p { signal_conn = none; signal_timer = some (gen, now + signaling_grace) }, true)
    else (p, false)

-- The signaling timer goes off: its callback begins.
abbrev pub signal_over : ℕ → Peer → Peer
signal_over gen p = record p { signal_timer = none; late_signal = gen ∷ p.late_signal }

-- The callback's check under the mutex; a stale one returns.
unfoldable pub check_signal : ℕ → Peer → Peer
check_signal gen p = if p.signal_gen == gen then record p { doomed = suc p.doomed } else p

unfoldable pub run_doomed : Peer → Peer
unfolding fail
run_doomed p = fail (record p { doomed = p.doomed - 1 })
