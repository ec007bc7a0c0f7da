-- ===== src/Recorder/Frames/Extractor.antt =====
-- frame_extractor.go: `FrameExtractor`, but for its goroutine that reads packets and the call of
-- ffmpeg. A run-time panic is `none`; only an empty NAL unit can cause one.
use vox_streaming.Base.{
  ℕ, zero, suc, ◌+◌, ◌*◌, ◌%◌, ◌^◌, ◌==◌, Bool, true, false, not, ◌&&◌, ◌||◌, List, [], ◌∷◌, ◌++◌,
  Option, none, some, ltb, leb, if◌then◌else◌, length, take, drop,
}
use vox_streaming.Base.Int.{ℤ, pos, negsuc, ltb_ℤ}
use vox_streaming.Base.Clock.{Time, seconds, sub}
use vox_streaming.Base.Failure.{Result, ok, err}
use vox_streaming.Recorder.Frames.Rtp.{Packet, delta}
use vox_streaming.Recorder.Frames.Reorder.{ReorderBuffer, push, new_reorder_buffer}
use Prim.Native.Nat.{bit_and, bit_or}

abbrev pub Bytes : Type 0
Bytes = List ℕ

infixl 5 ◌>>=◌
abbrev pub ◌>>=◌ {ℓ κ} : {A : Type ℓ} {B : Type κ} → Option A → (A → Option B) → Option B
none >>= f = none
some a >>= f = f a

-- `idr_waiting` is whether the channel, which holds one value, is full; `key_frame_requests` counts the
-- requests that were sent to the browser.
pub record FrameExtractor : Type 0 where
  pub sps : Bytes
  pub pps : Bytes
  pub idr_nals : List Bytes
  pub idr_ready : Bool
  pub idr_waiting : Bool
  pub fua : Option Bytes
  pub pic_buf : List Bytes
  pub pic_ts : ℕ
  pub prev_seq : ℕ
  pub has_prev_seq : Bool
  pub lost_packets : ℕ
  pub picture_corrupted : Bool
  pub last_recovery_pli : Time
  pub key_frame_requests : ℕ
  pub reorder : ReorderBuffer

abbrev pub min_pli_interval : ℕ
min_pli_interval = seconds 2

-- The type that the first byte of a NAL unit names.
abbrev pub nal_type : ℕ → ℕ
nal_type b = bit_and b 0x1F

-- `RequestKeyFrame`: whether the request could be sent is only logged.
unfoldable pub request_key_frame : Time → FrameExtractor → FrameExtractor
request_key_frame now fe =
    if ltb_ℤ (sub now fe.last_recovery_pli) (pos min_pli_interval)
    then fe
    else record fe { last_recovery_pli = now; key_frame_requests = fe.key_frame_requests + 1 }

abbrev pub gap_of : ℤ → Packet → FrameExtractor → FrameExtractor × Bool
gap_of (negsuc n) pkt fe = (fe, true)
gap_of (pos zero) pkt fe = (fe, true)
gap_of (pos (suc zero)) pkt fe = (record fe { prev_seq = pkt.sequence_number }, false)
gap_of (pos (suc (suc n))) pkt fe = (
  record fe { lost_packets = (fe.lost_packets + suc n) % 2 ^ 64; prev_seq = pkt.sequence_number },
  true,
)

unfoldable pub check_seq_gap : Packet → FrameExtractor → FrameExtractor × Bool
unfolding delta
check_seq_gap pkt fe =
    if fe.has_prev_seq
    then gap_of (delta pkt.sequence_number fe.prev_seq) pkt fe
    else (record fe { prev_seq = pkt.sequence_number; has_prev_seq = true }, false)

abbrev pub is_idr : Bytes → Bool
is_idr [] = false
is_idr (b ∷ bs) = nal_type b == 5

unfoldable pub has_idr : List Bytes → Bool
has_idr [] = false
has_idr (n ∷ ns) = is_idr n || has_idr ns

abbrev pub no_bytes {ℓ} : {A : Type ℓ} → List A → Bool
no_bytes [] = true
no_bytes (x ∷ xs) = false

unfoldable pub commit_picture : Time → FrameExtractor → FrameExtractor
unfolding request_key_frame has_idr
commit_picture now fe =
    if no_bytes fe.pic_buf
    then fe
    else if fe.picture_corrupted
    then request_key_frame now (record fe { picture_corrupted = false; pic_buf = [] })
    else if has_idr fe.pic_buf
    then record fe { idr_nals = fe.pic_buf; idr_ready = true; idr_waiting = true; pic_buf = [] }
    else record fe { pic_buf = [] }

-- A parameter set is kept when it comes.
abbrev pub with_parameters : ℕ → Bytes → FrameExtractor → FrameExtractor
with_parameters t nal fe =
    if t == 7 then record fe { sps = nal } else if t == 8 then record fe { pps = nal } else fe

-- `addNAL` looks at the first byte, whether there is one or not.
unfoldable pub add_nal : Time → Bytes → Bool → FrameExtractor → Option FrameExtractor
unfolding commit_picture
add_nal now [] marker fe = none
add_nal now (b ∷ bs) marker fe =
    let kept =
      with_parameters (nal_type b) (b ∷ bs) (record fe { pic_buf = fe.pic_buf ++ (b ∷ bs) ∷ [] }) in
    some (if marker then commit_picture now kept else kept)

-- The loop of `ingestSTAPA`: each round takes two bytes at least, so the length is its fuel.
unfoldable pub stapa_units : ℕ → Time → Bytes → FrameExtractor → Option FrameExtractor
unfolding add_nal
stapa_units zero now p fe = some fe
stapa_units (suc fuel) now [] fe = some fe
stapa_units (suc fuel) now (a ∷ []) fe = some fe
stapa_units (suc fuel) now (a ∷ b ∷ rest) fe =
    let size = a * 256 + b in
    let more =
      add_nal now (take size rest) false fe >>= λ f. stapa_units fuel now (drop size rest) f in
    if ltb (length rest) size then some fe else more

unfoldable pub ingest_stapa : Time → Bytes → Bool → FrameExtractor → Option FrameExtractor
unfolding stapa_units commit_picture
ingest_stapa now p marker fe =
    stapa_units (length p) now p fe >>= λ f. some (if marker then commit_picture now f else f)

-- What the reassembly holds after the header of a fragment was read.
abbrev pub reassembly : ℕ → ℕ → Option Bytes → Option Bytes
reassembly indicator header fua =
    if not (bit_and header 0x80 == 0)
    then some (bit_or (bit_and indicator 0xE0) (bit_and header 0x1F) ∷ [])
    else fua

abbrev pub continue_fua :
    Time → ℕ → Bytes → Bool → Option Bytes → FrameExtractor → Option FrameExtractor
continue_fua now header payload marker none fe = some fe
continue_fua now header payload marker (some started) fe =
    if not (bit_and header 0x40 == 0)
    then add_nal now (started ++ payload) marker (record fe { fua = none })
    else some (record fe { fua = some (started ++ payload) })

unfoldable pub ingest_fua : Time → Bytes → Bool → FrameExtractor → Option FrameExtractor
unfolding add_nal
ingest_fua now [] marker fe = some fe
ingest_fua now (i ∷ []) marker fe = some fe
ingest_fua now (i ∷ h ∷ payload) marker fe =
    continue_fua now h payload marker (reassembly i h fe.fua) fe

-- The `switch` of `ingestOrdered`.
unfoldable pub ingest_payload : Time → Bytes → Bool → FrameExtractor → Option FrameExtractor
unfolding add_nal ingest_stapa ingest_fua
ingest_payload now [] marker fe = some fe
ingest_payload now (b ∷ bs) marker fe =
    if leb 1 (nal_type b) && leb (nal_type b) 23
    then add_nal now (b ∷ bs) marker fe
    else if nal_type b == 24
    then ingest_stapa now bs marker fe
    else if nal_type b == 28
    then ingest_fua now (b ∷ bs) marker fe
    else some fe

abbrev pub is_some {ℓ} : {A : Type ℓ} → Option A → Bool
is_some none = false
is_some (some a) = true

-- A gap in the numbers spoils the picture that is being put together, if there is one.
unfoldable pub note_gap : Packet → FrameExtractor → FrameExtractor
unfolding check_seq_gap
note_gap pkt fe =
    let (f, gap) = check_seq_gap pkt fe in
    record f {
      picture_corrupted =
          if gap && (not (no_bytes f.pic_buf) || is_some f.fua) then true else f.picture_corrupted;
      pic_ts = pkt.timestamp;
    }

unfoldable pub ingest_ordered : Time → Packet → FrameExtractor → Option FrameExtractor
unfolding note_gap ingest_payload
ingest_ordered now pkt fe = ingest_payload now pkt.payload pkt.marker (note_gap pkt fe)

unfoldable pub ingest_all : Time → List Packet → FrameExtractor → Option FrameExtractor
unfolding ingest_ordered
ingest_all now [] fe = some fe
ingest_all now (p ∷ ps) fe = ingest_ordered now p fe >>= λ f. ingest_all now ps f

unfoldable pub ingest : Time → Packet → FrameExtractor → Option FrameExtractor
unfolding push ingest_all
ingest now pkt fe =
    let (rb, out) = push now pkt fe.reorder in ingest_all now out (record fe { reorder = rb })

abbrev pub annex_b_start_code : Bytes
annex_b_start_code = 0 ∷ 0 ∷ 0 ∷ 1 ∷ []

unfoldable pub annex_b : List Bytes → Bytes
annex_b [] = []
annex_b (n ∷ ns) = annex_b_start_code ++ n ++ annex_b ns

-- A parameter set that never came is left out.
abbrev pub if_present : Bytes → List Bytes
if_present [] = []
if_present (b ∷ bs) = (b ∷ bs) ∷ []

unfoldable pub key_frame : FrameExtractor → Bytes
unfolding annex_b
key_frame fe = annex_b (if_present fe.sps ++ if_present fe.pps ++ fe.idr_nals)

unfoldable pub capture_key_frame : FrameExtractor → Option Bytes
unfolding key_frame
capture_key_frame fe =
    if not fe.idr_ready || no_bytes fe.idr_nals then none else some (key_frame fe)

-- `CaptureJPEG`, with ffmpeg as an argument.
unfoldable pub capture_jpeg : (Bytes → Result Bytes) → FrameExtractor → Result (Option Bytes)
unfolding key_frame
capture_jpeg h264_to_jpeg fe =
    if fe.idr_ready
    then elim (h264_to_jpeg (key_frame fe)) [ ok jpeg ↦ ok (some jpeg) | err e ↦ err e ]
    else ok none

abbrev pub new_frame_extractor : FrameExtractor
new_frame_extractor = record {
  sps = [];
  pps = [];
  idr_nals = [];
  idr_ready = false;
  idr_waiting = false;
  fua = none;
  pic_buf = [];
  pic_ts = 0;
  prev_seq = 0;
  has_prev_seq = false;
  lost_packets = 0;
  picture_corrupted = false;
  last_recovery_pli = 0;
  key_frame_requests = 0;
  reorder = new_reorder_buffer;
}
