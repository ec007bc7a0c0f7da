-- ===== src/Recorder/Frames/Panics.antt =====
-- A NAL unit without its header.
use vox_streaming.Base.{
  All, ℕ, if_ind, leb, not, ◌&&◌, sym, subst, ap, ◌∙◌, ◌++◌, if◌then◌else◌, ltb, length, ◌≡◌, refl,
  Bool, false, List, [], ◌∷◌, Option, none, some, arith, ◌==◌,
}
use vox_streaming.Base.Clock.{Time}
use Prim.Native.Nat.{bit_and}
use vox_streaming.Recorder.Frames.Rtp.{Packet, delta}
use vox_streaming.Recorder.Frames.Reorder.{
  push, push_at, take_next, drain, started, new_reorder_buffer,
}
use vox_streaming.Base.Int.{pos}
use vox_streaming.Recorder.Frames.Extractor.{
  Bytes, FrameExtractor, ◌>>=◌, nal_type, add_nal, stapa_units, ingest_stapa, ingest_fua,
  continue_fua, reassembly, ingest_payload, ingest_ordered, ingest_all, ingest, new_frame_extractor,
  note_gap, with_parameters, commit_picture,
}

-- The payload aggregates units.
abbrev pub aggregates : Bytes → Bool
aggregates [] = false
aggregates (b ∷ bs) = nal_type b == 24

-- A unit in fragments has its header from the first one on.
abbrev pub IsBegun : Option Bytes → Type 0
IsBegun none = Unit
IsBegun (some []) = ⊥
IsBegun (some (b ∷ bs)) = Unit

-- The call returns, and what is being put together keeps its header.
abbrev pub Returns : Option FrameExtractor → Type 0
Returns none = ⊥
Returns (some f) = IsBegun f.fua

fua-add_nal :
    (now : Time) (b : ℕ) (bs : Bytes) (marker : Bool) (fe : FrameExtractor)
    → IsBegun fe.fua
    → Returns (add_nal now (b ∷ bs) marker fe)
unfolding add_nal commit_picture
fua-add_nal now b bs marker fe h =
    let kept =
      with_parameters (nal_type b) (b ∷ bs) (record fe { pic_buf = fe.pic_buf ++ (b ∷ bs) ∷ [] }) in
    let e : (if marker then commit_picture now kept else kept).fua ≡ fe.fua = ground arith in
    subst IsBegun (sym e) h

continue_fua-Returns :
    (now : Time) (h : ℕ) (payload : Bytes) (marker : Bool) (fua : Option Bytes)
    (fe : FrameExtractor)
    → IsBegun fua
    → IsBegun fe.fua
    → Returns (continue_fua now h payload marker fua fe)
continue_fua-Returns now h payload marker none fe b c = c
continue_fua-Returns now h payload marker (some []) fe b c = absurd b
continue_fua-Returns now h payload marker (some (x ∷ xs)) fe b c =
    if_ind Returns (not (bit_and h 0x40 == 0))
      (λ e. fua-add_nal now x (xs ++ payload) marker (record fe { fua = none }) tt) (λ e. tt)

reassembly-IsBegun : (i h : ℕ) (fua : Option Bytes) → IsBegun fua → IsBegun (reassembly i h fua)
reassembly-IsBegun i h fua b = if_ind IsBegun (not (bit_and h 0x80 == 0)) (λ e. tt) (λ e. b)

ingest_fua-Returns :
    (now : Time) (p : Bytes) (marker : Bool) (fe : FrameExtractor)
    → IsBegun fe.fua
    → Returns (ingest_fua now p marker fe)
unfolding ingest_fua
ingest_fua-Returns now [] marker fe b = b
ingest_fua-Returns now (i ∷ []) marker fe b = b
ingest_fua-Returns now (i ∷ h ∷ payload) marker fe b =
    continue_fua-Returns now h payload marker (reassembly i h fe.fua) fe
      (reassembly-IsBegun i h fe.fua b) b

ingest_payload-Returns :
    (now : Time) (p : Bytes) (marker : Bool) (fe : FrameExtractor)
    → aggregates p ≡ false
    → IsBegun fe.fua
    → Returns (ingest_payload now p marker fe)
unfolding ingest_payload
ingest_payload-Returns now [] marker fe a b = b
ingest_payload-Returns now (x ∷ xs) marker fe a b =
    if_ind Returns (leb 1 (nal_type x) && leb (nal_type x) 23)
      (λ e. fua-add_nal now x xs marker fe b)
      (λ e. rw a (
        if_ind Returns (nal_type x == 28) (λ e. ingest_fua-Returns now (x ∷ xs) marker fe b)
          (λ e. b)))

-- An aggregate whose first unit is empty.
abbrev empty_unit : Bytes → Bytes
empty_unit rest = 24 ∷ 0 ∷ 0 ∷ rest

none_less : (n : ℕ) → ltb n 0 ≡ false
none_less n = ground arith

ingest_payload-empty_unit :
    (now : Time) (rest : Bytes) (marker : Bool) (fe : FrameExtractor)
    → ingest_payload now (empty_unit rest) marker fe ≡ none
unfolding ingest_payload ingest_stapa stapa_units add_nal
ingest_payload-empty_unit now rest marker fe = rw (none_less (length rest)) refl

note_gap-fua : (p : Packet) (fe : FrameExtractor) → (note_gap p fe).fua ≡ fe.fua
unfolding note_gap
note_gap-fua p fe = ground arith

ingest_ordered-Returns :
    (now : Time) (p : Packet) (fe : FrameExtractor)
    → aggregates p.payload ≡ false
    → IsBegun fe.fua
    → Returns (ingest_ordered now p fe)
unfolding ingest_ordered
ingest_ordered-Returns now p fe a b =
    ingest_payload-Returns now p.payload p.marker (note_gap p fe) a
      (subst IsBegun (sym (note_gap-fua p fe)) b)

Returns-then :
    (o : Option FrameExtractor) (k : FrameExtractor → Option FrameExtractor)
    → Returns o
    → ((f : FrameExtractor) → IsBegun f.fua → Returns (k f))
    → Returns (o >>= k)
Returns-then none k r h = absurd r
Returns-then (some f) k r h = h f r

-- Packets that aggregate nothing are taken in whatever they hold: the call returns, and a unit that is
-- put together from fragments keeps its header.
pub ingest_all-Returns :
    (now : Time) (ps : List Packet) (fe : FrameExtractor)
    → IsBegun fe.fua
    → All (λ p. aggregates p.payload ≡ false) ps
    → Returns (ingest_all now ps fe)
unfolding ingest_all
ingest_all-Returns now [] fe b a = b
ingest_all-Returns now (p ∷ ps) fe b a =
    Returns-then (ingest_ordered now p fe) (λ f. ingest_all now ps f)
      (ingest_ordered-Returns now p fe a.0 b) (λ f c. ingest_all-Returns now ps f c a.1)

ingest_ordered-empty_unit :
    (now : Time) (p : Packet) (rest : Bytes) (fe : FrameExtractor)
    → p.payload ≡ 24 ∷ 0 ∷ 0 ∷ rest
    → ingest_ordered now p fe ≡ none
unfolding ingest_ordered
ingest_ordered-empty_unit now p rest fe e =
    ap (λ l. ingest_payload now l p.marker (note_gap p fe)) e
    ∙ ingest_payload-empty_unit now rest p.marker (note_gap p fe)

delta_self : (a : ℕ) → delta a a ≡ pos 0
unfolding delta
delta_self a = ground arith

-- The first packet of a stream is handed on at once.
push-first : (now : Time) (p : Packet) → (push now p new_reorder_buffer).1 ≡ p ∷ []
unfolding push take_next drain
push-first now p =
    let s = started p new_reorder_buffer in
    ap (λ d. (push_at d now p s).1) (delta_self p.sequence_number)

-- One packet whose first aggregated unit is empty makes the call panic, in every state that the packet
-- is handed on in, and as the first packet of a stream.
pub ingest-empty_unit :
    (now : Time) (p : Packet) (rest : Bytes) (fe : FrameExtractor)
    → p.payload ≡ 24 ∷ 0 ∷ 0 ∷ rest
    → (ingest_ordered now p fe ≡ none) × (ingest now p new_frame_extractor ≡ none)
unfolding ingest ingest_all
ingest-empty_unit now p rest fe e =
    let f : FrameExtractor = record new_frame_extractor {
      reorder = (push now p new_reorder_buffer).0;
    } in
    (
      ingest_ordered-empty_unit now p rest fe e,
      ap (λ out. ingest_all now out f) (push-first now p)
          ∙ ap (λ o. o >>= λ g. ingest_all now [] g) (ingest_ordered-empty_unit now p rest f e),
    )
