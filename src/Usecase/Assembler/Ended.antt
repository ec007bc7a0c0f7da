-- ===== src/Usecase/Assembler/Ended.antt =====
-- The end of a stream: it is recorded, or it stays on the watchdog's list.
use vox_streaming.Base.{
  ℕ, ◌+◌, ◌<◌, ◌≡◌, refl, ◌⊎◌, inl, inr, Bool, true, false, none, some, lt→ltb, if◌then◌else◌,
  Bool-cases,
}
use vox_streaming.Base.Text.{contains}
use vox_streaming.Base.Clock.{unix}
use vox_streaming.Base.Eq.{eq_text, eq_refl}
use vox_streaming.Base.Store.{lookup, lookup-insert}
use vox_streaming.Base.Redis.{doc, get, get-set_self}
use vox_streaming.Base.Failure.{Result, ok, err, Fault, wrapped}
use vox_streaming.Domain.{StreamEndedEvent}
use vox_streaming.Cache.Segment.{is_complete}
use vox_streaming.Cache.Pending.{
  PendingAssembly, PendingRegistry, live_due, schedule, cancel, pending_assembly_ttl,
}
use vox_streaming.Stream.Float.{Floats}
use vox_streaming.Usecase.Assembler.Announce.{AssemblerUseCase, AssemblyCalls}
use vox_streaming.Usecase.Assembler.Defs.{
  disarm_watchdog, disarmed, wait_grace, assemble, report_outcome, assemble_requested, pending_of,
  recording_request_from_stream_ended, on_stream_ended,
}
use vox_streaming.Usecase.Assembler.Outcomes.{Answered, Recorded, assemble_requested-Answered}

-- For a day the stream is on the watchdog's list for the end of the grace period, with what is needed to
-- assemble it.
abbrev pub Armed : AssemblyCalls → ℕ → StreamEndedEvent → AssemblerUseCase → Type 0
Armed w grace e v =
    (later : ℕ)
    → later < w.now + pending_assembly_ttl
    → (lookup e.stream_id (live_due later v.pending) ≡ some (unix (w.now + grace)))
      × (get later e.stream_id v.pending.details ≡ some (doc (pending_of (w.now + grace) e)))

-- Another call is assembling the stream, and nothing else was done about its recording.
abbrev pub LeftToOther : StreamEndedEvent → AssemblerUseCase → AssemblerUseCase → Type 0
LeftToOther e u v =
    (contains u.in_flight e.stream_id ≡ true)
    × (v.in_flight ≡ u.in_flight)
    × (v.recordings ≡ u.recordings)
    × (v.published ≡ u.published)

-- What the end of a stream leaves: without an error, a recording that is announced, a pending entry, or
-- another call that is at work on it;
-- with one, the list of pending entries as it was.
abbrev pub Owned :
    AssemblyCalls → ℕ → StreamEndedEvent → AssemblerUseCase → AssemblerUseCase × Fault → Type 0
Owned w grace e u (v, none) =
    Armed w grace e v ⊎ (Recorded w (recording_request_from_stream_ended e) u v ⊎ LeftToOther e u v)
Owned w grace e u (v, some x) = v.pending ≡ u.pending

disarmed-Owned :
    (w : AssemblyCalls) (grace : ℕ) (e : StreamEndedEvent) (u : AssemblerUseCase)
    (r : AssemblerUseCase × Fault)
    → Answered w (recording_request_from_stream_ended e) u r
    → Owned w grace e u (disarmed w e.stream_id r)
unfolding disarmed disarm_watchdog
disarmed-Owned w grace e u (v, some x) a = a.0.0
disarmed-Owned w grace e u (v, none) a =
    inr (inl (go (cancel w.cancel_fault e.stream_id v.pending)))
  where
    go :
        (r : Result PendingRegistry)
        → Recorded w
            (recording_request_from_stream_ended e)
            u
            (elim r as (λ (x : Result PendingRegistry). AssemblerUseCase) [
              | ok p ↦ record v { pending = p }
              | err x ↦ v
            ])
    go (ok p) = a.2
    go (err x) = a.2

-- A call that finds the stream in flight does nothing but disarm the watchdog.
busy-Owned :
    (fl : Floats) (w : AssemblyCalls) (grace : ℕ) (e : StreamEndedEvent) (u : AssemblerUseCase)
    → contains u.in_flight e.stream_id ≡ true
    → Owned w grace e u
        (disarmed w e.stream_id (assemble_requested fl w (recording_request_from_stream_ended e) u))
unfolding disarmed disarm_watchdog assemble_requested assemble report_outcome
    recording_request_from_stream_ended
busy-Owned fl w grace e u b = rw b (inr (inr (go (cancel w.cancel_fault e.stream_id u.pending))))
  where
    go :
        (r : Result PendingRegistry)
        → LeftToOther e u (elim r as (λ (x : Result PendingRegistry). AssemblerUseCase) [
          | ok p ↦ record u { pending = p }
          | err x ↦ u
        ])
    go (ok p) = (b, refl, refl, refl)
    go (err x) = (b, refl, refl, refl)

wait_grace-Owned :
    (w : AssemblyCalls) (grace : ℕ) (e : StreamEndedEvent) (u : AssemblerUseCase)
    → Owned w grace e u (wait_grace w grace e u)
unfolding wait_grace schedule live_due pending_of
wait_grace-Owned w grace e u = go w.schedule_fault
  where
    p : PendingAssembly
    p = pending_of (w.now + grace) e

    go :
        (f : Fault)
        → Owned w grace e u
            (elim (schedule f w.now p u.pending)
              as (λ (x : Result PendingRegistry). AssemblerUseCase × Fault) [
                | ok q ↦ (record u { pending = q }, none)
                | err x ↦ (u, some (wrapped "schedule grace-period assembly" x))
              ])
    go (some x) = refl
    go none = inl λ later h. (
      rw (
        lt→ltb later (w.now + pending_assembly_ttl) h,
        lookup-insert e.stream_id e.stream_id (unix (w.now + grace)) (live_due w.now u.pending),
        eq_refl e.stream_id,
      ),
      get-set_self later e.stream_id (doc p) (w.now + pending_assembly_ttl) u.pending.details h,
    )

-- When a stream has ended and the call succeeds, its recording is stored and announced, or it stands
-- on the watchdog's list for the end of the grace period, for a day and with its details, or another call was assembling it already, to
-- which it is left: then nothing is stored or published here. If the call fails, the list is as it was,
-- so an entry that was armed when the student connected is still there.
pub on_stream_ended-Owned :
    (fl : Floats) (w : AssemblyCalls) (grace : ℕ) (e : StreamEndedEvent) (u : AssemblerUseCase)
    → Owned w grace e u (on_stream_ended fl w grace e u)
unfolding on_stream_ended recording_request_from_stream_ended
on_stream_ended-Owned fl w grace e u =
    go (is_complete w.complete_fault w.now e.stream_id u.segments)
  where
    go :
        (r : Result Bool)
        → Owned w grace e u (elim r as (λ (x : Result Bool). AssemblerUseCase × Fault) [
          | err x ↦ (u, some x)
          | ok complete ↦
              if complete
              then disarmed w e.stream_id
                  (assemble_requested fl w (recording_request_from_stream_ended e) u)
              else wait_grace w grace e u
        ])
    go (err x) = refl
    go (ok true) = elim (Bool-cases (contains u.in_flight e.stream_id)) [
      | inl busy ↦ busy-Owned fl w grace e u busy
      | inr idle ↦
          disarmed-Owned w grace e u _
            (assemble_requested-Answered fl w (recording_request_from_stream_ended e) u idle)
    ]
    go (ok false) = wait_grace-Owned w grace e u
