-- ===== src/Recorder/Frames/Fragments.antt =====
-- A NAL unit in fragments (RFC 6184, section 5.8), as a sender cuts it, and what is made of them.
use vox_streaming.Base.{
  ℕ, zero, suc, ◌<◌, ◌≡◌, refl, ap, ◌∙◌, Bool, true, false, not, ◌&&◌, List, [], ◌∷◌, ◌++◌, Option,
  none, some, arith, ◌==◌,
}
use vox_streaming.Base.Clock.{Time}
use vox_streaming.Recorder.Frames.Extractor.{
  Bytes, FrameExtractor, ◌>>=◌, nal_type, add_nal, ingest_fua, ingest_payload,
}
use Prim.Native.Nat.{bit_and, bit_or}
use mathlib.Core.List.{append_assoc, append-nil}

-- The indicator keeps the first three bits of the unit's header and names type 28; the fragment's
-- header has the start bit, the end bit, and the unit's type.
abbrev pub fragment : ℕ → ℕ → Bytes → Bytes
fragment header flags chunk =
    bit_or (bit_and header 0xE0) 28 ∷ bit_or flags (bit_and header 0x1F) ∷ chunk

-- The payloads between the first and the last.
abbrev pub middles : ℕ → List Bytes → List Bytes
middles header [] = []
middles header (c ∷ cs) = fragment header 0 c ∷ middles header cs

abbrev pub concat : List Bytes → Bytes
concat [] = []
concat (c ∷ cs) = c ++ concat cs

-- Payloads one after another, none of them marked.
unfoldable pub ingest_unmarked : Time → List Bytes → FrameExtractor → Option FrameExtractor
ingest_unmarked now [] fe = some fe
ingest_unmarked now (p ∷ ps) fe = ingest_payload now p false fe >>= λ f. ingest_unmarked now ps f

-- A test that each byte up to a bound passes.
pass : (ℕ → Bool) → ℕ → Bool
pass test zero = true
pass test (suc bound) = pass test bound && test bound

passes : (test : ℕ → Bool) (bound b : ℕ) → b < bound → pass test bound ≡ true → test b ≡ true
unfolding pass
passes test zero b below all = absurd (omega (arith, below))
passes test (suc bound) b below all = ground (arith, passes test bound b, below, all)

abbrev byte_ok : ℕ → Bool
byte_ok h =
    (nal_type (bit_or (bit_and h 0xE0) 28) == 28)
    && (bit_and (bit_or 0x80 (bit_and h 0x1F)) 0x40 == 0)
    && not (bit_and (bit_or 0x80 (bit_and h 0x1F)) 0x80 == 0)
    && (bit_and (bit_or 0 (bit_and h 0x1F)) 0x80 == 0)
    && (bit_and (bit_or 0 (bit_and h 0x1F)) 0x40 == 0)
    && (bit_and (bit_or 0x40 (bit_and h 0x1F)) 0x80 == 0)
    && not (bit_and (bit_or 0x40 (bit_and h 0x1F)) 0x40 == 0)
    && (bit_or (bit_and (bit_or (bit_and h 0xE0) 28) 0xE0)
          (bit_and (bit_or 0x80 (bit_and h 0x1F)) 0x1F)
        == h)

bytes_pass : pass byte_ok 256 ≡ true
unfolding pass
bytes_pass = refl

bits : (h : ℕ) → h < 256 → byte_ok h ≡ true
bits h b = passes byte_ok 256 h b bytes_pass

first_fragment :
    (now : Time) (h : ℕ) (chunk : Bytes) (fe : FrameExtractor)
    → h < 256
    → ingest_payload now (fragment h 0x80 chunk) false fe
      ≡ some (record fe { fua = some (h ∷ chunk) })
unfolding ingest_payload ingest_fua
first_fragment now h chunk fe b = ground (arith, bits h b)

middle_fragment :
    (now : Time) (h : ℕ) (held chunk : Bytes) (fe : FrameExtractor)
    → h < 256
    → fe.fua ≡ some held
    → ingest_payload now (fragment h 0 chunk) false fe
      ≡ some (record fe { fua = some (held ++ chunk) })
unfolding ingest_payload ingest_fua
middle_fragment now h held chunk fe b e = ground (arith, bits h b, e)

middle_fragments :
    (now : Time) (h : ℕ) (chunks : List Bytes) (held : Bytes) (fe : FrameExtractor)
    → h < 256
    → fe.fua ≡ some held
    → ingest_unmarked now (middles h chunks) fe
      ≡ some (record fe { fua = some (held ++ concat chunks) })
unfolding ingest_unmarked
middle_fragments now h [] held fe b e = ground (arith, append-nil held, e)
middle_fragments now h (c ∷ cs) held fe b e =
    ap (λ o. o >>= λ f. ingest_unmarked now (middles h cs) f) (middle_fragment now h held c fe b e)
    ∙ (middle_fragments now h cs (held ++ c) (record fe { fua = some (held ++ c) }) b refl
        ∙ ap (λ l. some (record fe { fua = some l })) (append_assoc held c (concat cs)))

last_fragment :
    (now : Time) (h : ℕ) (held chunk : Bytes) (marker : Bool) (fe : FrameExtractor)
    → h < 256
    → fe.fua ≡ some held
    → ingest_payload now (fragment h 0x40 chunk) marker fe
      ≡ add_nal now (held ++ chunk) marker (record fe { fua = none })
unfolding ingest_payload ingest_fua
last_fragment now h held chunk marker fe b e = ground (arith, bits h b, e)

-- A NAL unit that a sender cut into a first fragment, any number of middle ones and a last one is put
-- together again: the payloads do what the whole unit does, whatever was being put together before.
pub ingest_payload-fragments :
    (now : Time) (header : ℕ) (first : Bytes) (chunks : List Bytes) (last : Bytes) (marker : Bool)
    (fe : FrameExtractor)
    → header < 256
    → (ingest_unmarked now (fragment header 0x80 first ∷ middles header chunks) fe >>= λ f.
        ingest_payload now (fragment header 0x40 last) marker f)
      ≡ add_nal now (header ∷ (first ++ (concat chunks ++ last))) marker (record fe { fua = none })
unfolding ingest_unmarked
ingest_payload-fragments now header first chunks last marker fe b =
    let one : FrameExtractor = record fe { fua = some (header ∷ first) } in
    let all : FrameExtractor = record fe { fua = some ((header ∷ first) ++ concat chunks) } in
    ap
      (λ o. (o >>= λ f. ingest_unmarked now (middles header chunks) f) >>= λ f.
        ingest_payload now (fragment header 0x40 last) marker f)
      (first_fragment now header first fe b)
    ∙ (ap (λ o. o >>= λ f. ingest_payload now (fragment header 0x40 last) marker f)
          (middle_fragments now header chunks (header ∷ first) one b refl)
        ∙ (last_fragment now header ((header ∷ first) ++ concat chunks) last marker all b refl
            ∙ ap (λ l. add_nal now (header ∷ l) marker (record fe { fua = none }))
                (append_assoc first (concat chunks) last)))
