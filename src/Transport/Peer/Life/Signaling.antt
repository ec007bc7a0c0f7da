-- ===== src/Transport/Peer/Life/Signaling.antt =====
-- The signaling timer, and the ends that overtake one another.
use vox_streaming.Base.{
  ℕ, ◌+◌, ◌-◌, ◌%◌, ◌^◌, ◌<◌, ◌≤◌, ◌==◌, ◌≡◌, refl, sym, subst, inl, inr, Bool, true, false, List,
  [], ◌∷◌, Option, none, some, if_ind, arith, Elem, All,
}
use vox_streaming.Base.Clock.{Time}
use vox_streaming.Transport.Peer.Life.Defs.{
  gone, finished, Peer, close_begin, close_end, fail, start_once, swap_reconnected,
  swap_disconnected, grace_over, run_grace, bind, release, check_signal, run_doomed,
}
use vox_streaming.Transport.Peer.Life.Steps.{
  Step, cancels_timer, starts, swaps_back, tells_back, swaps_lost, tells_lost, schedules, failed,
  close, finish, grace_expires, grace_runs, binds, releases, signal_expires, signal_checks,
  signal_runs, Reach, born, after,
}

-- A binding that is not newer than the newest, and if it is the newest finds no channel bound.
abbrev IsOld : ℕ → Option ℕ → ℕ → Type 0
IsOld newest conn gen = (gen ≤ newest) × (gen ≡ newest → conn ≡ none)

abbrev TimerIsOld : ℕ → Option ℕ → Option (ℕ × Time) → Type 0
TimerIsOld newest conn none = Unit
TimerIsOld newest conn (some (gen, d)) = IsOld newest conn gen

record IsOverdue (p : Peer) : Type 0 where
  timer : TimerIsOld p.signal_gen p.signal_conn p.signal_timer
  callbacks : All (IsOld p.signal_gen p.signal_conn) p.late_signal

unbound :
    (newest : ℕ) (conn : Option ℕ) (gens : List ℕ)
    → All (IsOld newest conn) gens
    → All (IsOld newest none) gens
unbound newest conn [] a = tt
unbound newest conn (g ∷ gs) a = ((a.0.0, λ e. refl), unbound newest conn gs a.1)

newer :
    (newest n : ℕ) (conn c : Option ℕ) (gens : List ℕ)
    → newest < n
    → All (IsOld newest conn) gens
    → All (IsOld n c) gens
newer newest n conn c [] l a = tt
newer newest n conn c (g ∷ gs) l a =
    ((omega (arith, a.0.0), λ e. absurd (omega (arith, a.0.0, e))), newer newest n conn c gs l a.1)

close_begin-IsOverdue : (p : Peer) → IsOverdue p → IsOverdue (close_begin p)
unfolding close_begin
close_begin-IsOverdue p s =
    if_ind IsOverdue p.done (λ e. s)
      (λ e. record {
        timer = tt;
        callbacks = unbound p.signal_gen p.signal_conn p.late_signal s.callbacks;
      })

-- A state that has the same binding, timer and callbacks.
same-IsOverdue :
    (p q : Peer)
    → q.signal_gen ≡ p.signal_gen
    → q.signal_conn ≡ p.signal_conn
    → q.signal_timer ≡ p.signal_timer
    → q.late_signal ≡ p.late_signal
    → IsOverdue p
    → IsOverdue q
same-IsOverdue p q g c t l s = record {
  timer =
      subst (λ n. TimerIsOld n q.signal_conn q.signal_timer) (sym g)
        (subst (λ n. TimerIsOld p.signal_gen n q.signal_timer) (sym c)
          (subst (λ n. TimerIsOld p.signal_gen p.signal_conn n) (sym t) s.timer));
  callbacks =
      subst (λ n. All (IsOld n q.signal_conn) q.late_signal) (sym g)
        (subst (λ n. All (IsOld p.signal_gen n) q.late_signal) (sym c)
          (subst (All (IsOld p.signal_gen p.signal_conn)) (sym l) s.callbacks));
}

fail-IsOverdue : (p : Peer) → IsOverdue p → IsOverdue (fail p)
unfolding fail
fail-IsOverdue p s =
    close_begin-IsOverdue (record p { closed_by_failure = true })
      (record { timer = s.timer; callbacks = s.callbacks })

release-IsOverdue :
    (now : Time) (gen : ℕ) (p : Peer) → IsOverdue p → IsOverdue (release now gen p).0
unfolding release
release-IsOverdue now gen p s =
    if_ind (λ (r : Peer × Bool). IsOverdue r.0) (p.signal_gen == gen)
      (λ e. record {
        timer = (ground (arith, e), λ x. refl);
        callbacks = unbound p.signal_gen p.signal_conn p.late_signal s.callbacks;
      })
      (λ e. s)

Step-IsOverdue : {p q : Peer} → Step p q → IsOverdue p → IsOverdue q
unfolding grace_over close_end run_grace bind check_signal run_doomed
Step-IsOverdue (cancels_timer p) s = record { timer = s.timer; callbacks = s.callbacks }
Step-IsOverdue (starts p) s =
    same-IsOverdue p (start_once p) (ground arith) (ground arith) (ground arith) (ground arith) s
Step-IsOverdue (swaps_back p) s =
    same-IsOverdue p (swap_reconnected p) (ground arith) (ground arith) (ground arith)
      (ground arith) s
Step-IsOverdue (tells_back p l) s = record { timer = s.timer; callbacks = s.callbacks }
Step-IsOverdue (swaps_lost p) s =
    same-IsOverdue p (swap_disconnected p) (ground arith) (ground arith) (ground arith)
      (ground arith) s
Step-IsOverdue (tells_lost p l) s = record { timer = s.timer; callbacks = s.callbacks }
Step-IsOverdue (schedules now p) s = record { timer = s.timer; callbacks = s.callbacks }
Step-IsOverdue (failed p) s = fail-IsOverdue p s
Step-IsOverdue (close p) s = close_begin-IsOverdue p s
Step-IsOverdue (finish p d e) s = record { timer = s.timer; callbacks = s.callbacks }
Step-IsOverdue (grace_expires p) s =
    same-IsOverdue p (grace_over p) (ground arith) (ground arith) (ground arith) (ground arith) s
Step-IsOverdue (grace_runs p) s =
    if_ind IsOverdue (p.late_grace == 0) (λ e. s)
      (λ e.
        fail-IsOverdue (record p { late_grace = p.late_grace - 1 })
          (record { timer = s.timer; callbacks = s.callbacks }))
Step-IsOverdue (binds p conn l) s = record {
  timer = tt;
  callbacks =
      newer p.signal_gen ((p.signal_gen + 1) % 2 ^ 64) p.signal_conn (some conn) p.late_signal
        (omega (arith, l)) s.callbacks;
}
Step-IsOverdue (releases now gen p) s = release-IsOverdue now gen p s
Step-IsOverdue (signal_expires p gen d e) s = record {
  timer = tt;
  callbacks = (subst (TimerIsOld p.signal_gen p.signal_conn) e s.timer, s.callbacks);
}
Step-IsOverdue (signal_checks p gen m) s =
    same-IsOverdue p (check_signal gen p) (ground arith) (ground arith) (ground arith)
      (ground arith) s
Step-IsOverdue (signal_runs p l) s =
    fail-IsOverdue (record p { doomed = p.doomed - 1 })
      (record { timer = s.timer; callbacks = s.callbacks })

Reach-IsOverdue : (p : Peer) → Reach p → IsOverdue p
Reach-IsOverdue p born = record { timer = tt; callbacks = tt }
Reach-IsOverdue p (after {p = q} r st) = Step-IsOverdue st (Reach-IsOverdue q r)

All-Elem : (P : ℕ → Type 0) (x : ℕ) (xs : List ℕ) → All P xs → Elem x xs → P x
All-Elem P x [] a m = absurd m
All-Elem P x (y ∷ ys) a (inl e) = subst P (sym e) a.0
All-Elem P x (y ∷ ys) a (inr m) = All-Elem P x ys a.1 m

-- In every life of a peer, a callback of the signaling timer that runs its check while a channel is
-- bound finds itself stale: the peer stays as it was. So a student who came back in time is not cut off
-- by a timer that could no longer be stopped.
pub Reach-check_signal :
    (p : Peer) (conn gen : ℕ)
    → Reach p
    → p.signal_conn ≡ some conn
    → Elem gen p.late_signal
    → check_signal gen p ≡ p
unfolding check_signal
Reach-check_signal p conn gen r b m =
    let old =
      All-Elem (IsOld p.signal_gen p.signal_conn) gen p.late_signal (Reach-IsOverdue p r).callbacks
        m in
    if_ind (λ q. q ≡ p) (p.signal_gen == gen)
      (λ e. absurd (ground (arith, e, old.1 (ground (arith, e)), b))) (λ e. refl)

-- A peer that is deliberately closed while its connection is lost is put down to a failure all the same,
-- if the grace of the lost connection is over before the end of the call reads the reason: closing a peer leaves the timer of the lost
-- connection set.
pub close-run_grace :
    (p : Peer) (d : Time)
    → p.done ≡ false
    → p.closed_by_failure ≡ false
    → p.disconnect_timer ≡ some d
    → ((close_end (close_begin p)).news ≡ finished false ∷ gone ∷ p.news)
      × ((close_end (run_grace (grace_over (close_begin p)))).news ≡ finished true ∷ gone ∷ p.news)
unfolding close_begin close_end grace_over run_grace fail
close-run_grace p d n f t = ground arith
