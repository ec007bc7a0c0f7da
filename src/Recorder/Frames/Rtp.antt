-- ===== src/Recorder/Frames/Rtp.antt =====
-- What frame_extractor.go reads of an RTP packet, and its arithmetic on 16-bit sequence numbers.
use vox_streaming.Base.{ℕ, ◌+◌, ◌-◌, ◌%◌, ◌^◌, Bool, List, ltb, if◌then◌else◌}
use vox_streaming.Base.Int.{ℤ, pos, negsuc}

pub record Packet : Type 0 where
  pub sequence_number : ℕ
  pub timestamp : ℕ
  pub marker : Bool
  pub payload : List ℕ

-- `a - b` of 16-bit numbers.
abbrev pub sub16 : ℕ → ℕ → ℕ
sub16 a b = (a + 2 ^ 16 - b) % 2 ^ 16

abbrev pub inc16 : ℕ → ℕ
inc16 a = (a + 1) % 2 ^ 16

abbrev pub signed16 : ℕ → ℤ
signed16 w = if ltb w (2 ^ 15) then pos w else negsuc (2 ^ 16 - w - 1)

-- `int32(int16(a - b))`.
unfoldable pub delta : ℕ → ℕ → ℤ
delta a b = signed16 (sub16 a b)
