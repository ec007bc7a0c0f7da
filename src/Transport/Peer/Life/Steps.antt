-- ===== src/Transport/Peer/Life/Steps.antt =====
-- A peer's life as steps, and what holds in all of it.
use vox_streaming.Base.{
  ℕ, ◌+◌, ◌-◌, ◌^◌, ◌<◌, ◌≡◌, refl, Bool, true, false, List, [], ◌∷◌, some, if◌then◌else◌, if_ind,
  ◌==◌, arith, Elem,
}
use vox_streaming.Base.Clock.{Time}
use vox_streaming.Transport.Peer.Life.Defs.{
  News, started, disconnected, reconnected, gone, finished, Peer, new_peer, close_begin, close_end,
  fail, start_once, swap_reconnected, notify_reconnected, swap_disconnected, notify_disconnected,
  cancel_disconnect_timer, schedule_close, grace_over, run_grace, bind, release, signal_over,
  check_signal, run_doomed,
}

-- What can happen next, in any order: a callback of the connection may be overtaken by another between
-- any two of its steps. The number of bindings fits in 64 bits; a binding and a release may be overtaken
-- by the end of the peer, so neither asks that it be alive.
pub data Step : Peer → Peer → Type 0 where
  cancels_timer : (p : Peer) → Step p (cancel_disconnect_timer p)
  starts : (p : Peer) → Step p (start_once p)
  swaps_back : (p : Peer) → Step p (swap_reconnected p)
  tells_back : (p : Peer) → 0 < p.owed_reconnected → Step p (notify_reconnected p)
  swaps_lost : (p : Peer) → Step p (swap_disconnected p)
  tells_lost : (p : Peer) → 0 < p.owed_disconnected → Step p (notify_disconnected p)
  schedules : (now : Time) (p : Peer) → Step p (schedule_close now p)
  failed : (p : Peer) → Step p (fail p)
  close : (p : Peer) → Step p (close_begin p)
  finish : (p : Peer) → p.done ≡ true → p.ended ≡ false → Step p (close_end p)
  grace_expires : (p : Peer) → Step p (grace_over p)
  grace_runs : (p : Peer) → Step p (run_grace p)
  binds : (p : Peer) (conn : ℕ) → p.signal_gen + 1 < 2 ^ 64 → Step p (bind conn p)
  releases : (now : Time) (gen : ℕ) (p : Peer) → Step p (release now gen p).0
  signal_expires :
      (p : Peer) (gen : ℕ) (d : Time) → p.signal_timer ≡ some (gen, d) → Step p (signal_over gen p)
  signal_checks : (p : Peer) (gen : ℕ) → Elem gen p.late_signal → Step p (check_signal gen p)
  signal_runs : (p : Peer) → 0 < p.doomed → Step p (run_doomed p)

pub data Reach : Peer → Type 0 where
  born : Reach new_peer
  after : {p q : Peer} → Reach p → Step p q → Reach q

abbrev pub count : (News → Bool) → List News → ℕ
count f [] = 0
count f (n ∷ ns) = (if f n then 1 else 0) + count f ns

abbrev pub is_started : News → Bool
is_started started = true
is_started disconnected = false
is_started reconnected = false
is_started gone = false
is_started (finished f) = false

abbrev pub is_gone : News → Bool
is_gone started = false
is_gone disconnected = false
is_gone reconnected = false
is_gone gone = true
is_gone (finished f) = false

abbrev pub is_finished : News → Bool
is_finished started = false
is_finished disconnected = false
is_finished reconnected = false
is_finished gone = false
is_finished (finished f) = true

abbrev pub is_disconnected : News → Bool
is_disconnected started = false
is_disconnected disconnected = true
is_disconnected reconnected = false
is_disconnected gone = false
is_disconnected (finished f) = false

abbrev pub is_reconnected : News → Bool
is_reconnected started = false
is_reconnected disconnected = false
is_reconnected reconnected = true
is_reconnected gone = false
is_reconnected (finished f) = false

-- Losses and returns, told or owed, differ by one exactly while the connection is taken for lost.
pub record IsTold (p : Peer) : Type 0 where
  pub one_start : count is_started p.news ≡ (if p.start_done then 1 else 0)
  pub one_gone : count is_gone p.news ≡ (if p.done then 1 else 0)
  pub one_end : count is_finished p.news ≡ (if p.ended then 1 else 0)
  pub balance :
      count is_disconnected p.news + p.owed_disconnected
      ≡ count is_reconnected p.news + p.owed_reconnected + (if p.announced_disconnect then 1 else 0)

close_begin-IsTold : (p : Peer) → IsTold p → IsTold (close_begin p)
unfolding close_begin
close_begin-IsTold p s = ground arith

fail-IsTold : (p : Peer) → IsTold p → IsTold (fail p)
unfolding fail
fail-IsTold p s =
    close_begin-IsTold (record p { closed_by_failure = true })
      (record {
        one_start = s.one_start;
        one_gone = s.one_gone;
        one_end = s.one_end;
        balance = s.balance;
      })

Step-IsTold : {p q : Peer} → Step p q → IsTold p → IsTold q
unfolding grace_over close_end run_grace bind release check_signal run_doomed
Step-IsTold (cancels_timer p) s = ground arith
Step-IsTold (starts p) s = ground arith
Step-IsTold (swaps_back p) s = ground arith
Step-IsTold (tells_back p l) s = ground arith
Step-IsTold (swaps_lost p) s = ground arith
Step-IsTold (tells_lost p l) s = ground arith
Step-IsTold (schedules now p) s = ground arith
Step-IsTold (failed p) s = fail-IsTold p s
Step-IsTold (close p) s = close_begin-IsTold p s
Step-IsTold (finish p d e) s = ground arith
Step-IsTold (grace_expires p) s = ground arith
Step-IsTold (grace_runs p) s =
    if_ind IsTold (p.late_grace == 0) (λ e. s)
      (λ e. fail-IsTold (record p { late_grace = p.late_grace - 1 }) (ground arith))
Step-IsTold (binds p conn l) s = ground arith
Step-IsTold (releases now gen p) s = ground arith
Step-IsTold (signal_expires p gen d e) s = ground arith
Step-IsTold (signal_checks p gen m) s = ground arith
Step-IsTold (signal_runs p l) s = fail-IsTold (record p { doomed = p.doomed - 1 }) (ground arith)

-- In every life of a peer, however its callbacks interleave: the start is told once it has begun and not
-- twice, the leaving once it has left and the end once it has ended, never twice. Losses of the
-- connection, told or still to be told by a callback that is under way, are as many as the returns, and
-- one more while the connection is taken for lost: no loss and no return is told twice or forgotten.
pub Reach-IsTold : (p : Peer) → Reach p → IsTold p
Reach-IsTold p born = record { one_start = refl; one_gone = refl; one_end = refl; balance = refl }
Reach-IsTold p (after {p = q} r st) = Step-IsTold st (Reach-IsTold q r)
