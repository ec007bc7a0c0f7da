-- ===== src/Tests/Recorder.antt =====
-- The recorder and the watchdog.
use vox_streaming.Base.{ℕ, ◌*◌, ◌≤◌, ◌≡◌, refl, ◌≢◌, true, false, [], ◌∷◌, none, some, arith}
use vox_streaming.Base.Int.{pos}
use vox_streaming.Base.Eq.{eq_text}
use vox_streaming.Base.Redis.{doc}
use vox_streaming.Base.Failure.{ok, message}
use vox_streaming.Cache.Segment.{SegmentMeta}
use vox_streaming.Cache.Pending.{PendingAssembly, PendingRegistry}
use vox_streaming.Recorder.PortAllocator.{
  PortAllocator, done, new_port_allocator, fill, allocate, allocate_from, ports_at, starts, here,
  next, IsExclusive, new_port_allocator-IsExclusive,
}
use vox_streaming.Recorder.Supervisor.{
  Attempt, start, run, Verdict, run-ends, effective_max_attempts, max_total_restart_multiplier,
}
use vox_streaming.Watcher.AssemblyWatchdog.{
  World, IsFailing, entry_at, next_entry, handle, handle_failing,
}

-- Two groups of ports, and a stream that takes one.
abbrev two_groups : PortAllocator
two_groups = record { free = 14 ∷ 10 ∷ [] }

built : new_port_allocator 10 17 ≡ done two_groups
unfolding new_port_allocator fill
built = refl

abbrev one_left : PortAllocator
one_left = record { free = 10 ∷ [] }

taken : allocate two_groups ≡ done (ports_at 14, one_left)
unfolding allocate allocate_from
taken = refl

new_port_allocator-IsExclusive_example :
    IsExclusive 10 17 (record { allocator = one_left; held = ports_at 14 ∷ [] })
new_port_allocator-IsExclusive_example =
    new_port_allocator-IsExclusive 10 17 two_groups built (
      next here
        (starts (record { allocator = two_groups; held = [] }) (ports_at 14) one_left taken))

abbrev crash : Attempt
crash = record {
  produced_any = false;
  was_stopped = false;
  stop_seen = false;
  stop_in_backoff = false;
  next_starts = true;
}

run-ends_example :
    Verdict (run (crash ∷ crash ∷ []) (start 2))
    × (effective_max_attempts 2 * max_total_restart_multiplier ≤ 2
        → (run (crash ∷ crash ∷ []) (start 2)).1 ≢ none)
run-ends_example = run-ends 2 (crash ∷ crash ∷ [])

abbrev segment_1 : SegmentMeta
segment_1 = record {
  seq = pos 1;
  s3_key = "k";
  sha256 = "h";
  started_at = 0;
  ended_at = 5;
  size_bytes = pos 9;
  uploaded_at = 5;
}

abbrev failing_world : ℕ → World
failing_world now = record {
  now = now;
  list_segments = λ i. ok (segment_1 ∷ []);
  new_event_id = ok "e";
  assemble = λ e. some (message "ffmpeg");
  cancel_fault = none;
  schedule_fault = none;
}

is_failing : (now : ℕ) → IsFailing (failing_world now) "a"
is_failing now = record {
  segment = segment_1;
  others = [];
  listed = refl;
  event_id = "e";
  issued = refl;
  fails = λ e h. cc;
  cancels = refl;
  schedules = refl;
}

abbrev pending_a : PendingAssembly
pending_a = record {
  stream_id = "a";
  schedule_id = "room";
  session_id = "s";
  participant_id = "c";
  stream_type = "camera";
  due_at = 0;
  attempts = 0;
  source = "";
}

abbrev armed : PendingRegistry
armed = record {
  due = ("a", 0) ∷ [];
  due_expires = 9000000000;
  details = ("a", record { value = doc pending_a; deadline = 9000000000 }) ∷ [];
}

handle_failing_example :
    entry_at 5 "a" (handle (failing_world 1) pending_a armed)
    ≡ next_entry (failing_world 1) pending_a
handle_failing_example =
    handle_failing (failing_world 1) pending_a 5 armed (is_failing 1) (omega arith)
