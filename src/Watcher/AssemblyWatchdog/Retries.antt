-- ===== src/Watcher/AssemblyWatchdog/Retries.antt =====
-- How often the watchdog tries a stream, and how it lets go of it.
use vox_streaming.Base.{
  ℕ, ◌+◌, ◌<◌, ◌≡◌, refl, ◌≢◌, List, [], ◌∷◌, Option, none, some, String, arith, leb, ltb,
  if◌then◌else◌, Option-cases, inl, inr, if_ind,
}
use vox_streaming.Base.Text.{text_eq_refl}
use vox_streaming.Base.Clock.{Time, unix}
use vox_streaming.Base.Eq.{eq_text}
use vox_streaming.Base.Store.{lookup, remove, lookup-insert, lookup-remove}
use vox_streaming.Base.Redis.{Document, doc, get, get-set_self, get-del}
use vox_streaming.Base.Failure.{ok}
use vox_streaming.Domain.{RecordingAssemblyRequestedEvent}
use vox_streaming.Cache.Segment.{SegmentMeta}
use vox_streaming.Cache.Pending.{
  PendingAssembly, PendingRegistry, schedule, cancel, pending_assembly_ttl, live_due,
}
use vox_streaming.Watcher.AssemblyWatchdog.Handle.{
  World, watchdog_max_attempts, watchdog_retry_interval, cancel_entry, retried, after_assembly,
  with_event_id, with_segments, handle, assembly_event,
}

-- A world in which Redis answers, segments are there, and the assembler fails on every request.
pub record IsFailing (w : World) (i : String) : Type 0 where
  pub segment : SegmentMeta
  pub others : List SegmentMeta
  pub listed : w.list_segments i ≡ ok (segment ∷ others)
  pub event_id : String
  pub issued : w.new_event_id ≡ ok event_id
  pub fails : (e : RecordingAssemblyRequestedEvent) → w.assemble e ≢ none
  pub cancels : w.cancel_fault ≡ none
  pub schedules : w.schedule_fault ≡ none

-- What the registry holds of a stream: its score and its details at a time.
abbrev pub Entry : Type 0
Entry = Option ℕ × Option (Document PendingAssembly)

abbrev pub entry_at : Time → String → PendingRegistry → Entry
entry_at t i r = (lookup i (live_due t r), get t i r.details)

-- The entry that a failed attempt leaves: one attempt more and two minutes later, or none.
abbrev pub next_entry : World → PendingAssembly → Entry
next_entry w p = if leb watchdog_max_attempts (p.attempts + 1) then (none, none) else (
  some (unix (w.now + watchdog_retry_interval)),
  some (doc (record p { attempts = p.attempts + 1; due_at = w.now + watchdog_retry_interval })),
)

cancelled :
    (t : Time) (i : String) (r : PendingRegistry)
    → lookup i (if ltb t r.due_expires then remove i r.due else []) ≡ none
unfolding lookup
cancelled t i r =
    if_ind (λ (m : List (String × ℕ)). lookup i m ≡ none) (ltb t r.due_expires)
      (λ e. rw (lookup-remove i i r.due, text_eq_refl i) refl) (λ e. refl)

-- Where Redis takes the writes, the segments are listed and there are some, an event id is made, and the
-- assembler fails: an entry that is handled counts the attempt and is due two minutes later, and for a
-- day a sweep would find it so. The fifth attempt takes it off the list, details and all.
pub handle_failing :
    (w : World) (p : PendingAssembly) (later : Time) (r : PendingRegistry)
    → IsFailing w p.stream_id
    → later < w.now + pending_assembly_ttl
    → entry_at later p.stream_id (handle w p r) ≡ next_entry w p
unfolding handle with_segments with_event_id after_assembly cancel_entry schedule cancel retried
    live_due
handle_failing w p later r h soon =
    elim (Option-cases (w.assemble (assembly_event w h.event_id p))) [
      | inl e ↦ absurd (h.fails _ e)
      | inr (x, e) ↦ ground (
        arith,
        e,
        cancelled later p.stream_id r,
        get-del later p.stream_id p.stream_id r.details,
        lookup-insert p.stream_id p.stream_id (unix (w.now + watchdog_retry_interval))
            (live_due w.now r),
        get-set_self later p.stream_id (doc (retried w p)) (w.now + pending_assembly_ttl) r.details,
        text_eq_refl p.stream_id,
      )
    ]
