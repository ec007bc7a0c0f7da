-- ===== src/Recorder/PortAllocator/Defs.antt =====
-- port_allocator.go. Ports are not negative. Each method holds the mutex for all of its body, so it
-- is one step.
use vox_streaming.Base.{ℕ, zero, suc, ◌+◌, ◌-◌, List, [], ◌∷◌, leb, if◌then◌else◌}

abbrev pub ports_per_stream : ℕ
ports_per_stream = 4

pub record AllocatedPorts : Type 0 where
  pub video_rtp : ℕ
  pub video_rtcp : ℕ
  pub audio_rtp : ℕ
  pub audio_rtcp : ℕ

-- The end of the slice, where groups are taken and put back, is the head of the list.
pub record PortAllocator : Type 0 where
  pub free : List ℕ

pub data Refusal : Type 0 where
  invalid_range range_too_small no_free_ports : Refusal

pub data Outcome (A : Type 0) : Type 0 where
  done : A → Outcome A
  refused : Refusal → Outcome A

-- `for p := rangeStart; p+portsPerStream-1 <= rangeEnd; p += portsPerStream`, with the rounds left as
-- fuel: each round moves p up, so the length of the range is enough.
unfoldable pub fill : ℕ → ℕ → ℕ → List ℕ → List ℕ
fill zero p range_end free = free
fill (suc fuel) p range_end free =
    let rest = fill fuel (p + ports_per_stream) range_end (p ∷ free) in
    if leb (p + ports_per_stream - 1) range_end then rest else free

abbrev pub or_too_small : List ℕ → Outcome PortAllocator
or_too_small [] = refused range_too_small
or_too_small (p ∷ free) = done (record { free = p ∷ free })

unfoldable pub new_port_allocator : ℕ → ℕ → Outcome PortAllocator
unfolding fill
new_port_allocator range_start range_end =
    if leb range_end range_start
    then refused invalid_range
    else or_too_small (fill (range_end + 1 - range_start) range_start range_end [])

abbrev pub ports_at : ℕ → AllocatedPorts
ports_at base = record {
  video_rtp = base;
  video_rtcp = base + 1;
  audio_rtp = base + 2;
  audio_rtcp = base + 3;
}

unfoldable pub allocate_from : List ℕ → Outcome (AllocatedPorts × PortAllocator)
allocate_from [] = refused no_free_ports
allocate_from (base ∷ free) = done (ports_at base, record { free = free })

unfoldable pub allocate : PortAllocator → Outcome (AllocatedPorts × PortAllocator)
unfolding allocate_from
allocate a = allocate_from a.free

unfoldable pub release : AllocatedPorts → PortAllocator → PortAllocator
release p a = record { free = p.video_rtp ∷ a.free }
