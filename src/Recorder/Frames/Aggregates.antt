-- ===== src/Recorder/Frames/Aggregates.antt =====
-- Several NAL units in one payload (RFC 6184, section 5.7.1), as a sender writes them, and the picture
-- that is made of them.
use vox_streaming.Base.{
  ℕ, zero, suc, ◌+◌, ◌*◌, ◌/◌, ◌%◌, ◌<◌, ◌≤◌, ◌≡◌, refl, sym, ap, ◌∙◌, true, false, List, [], ◌∷◌,
  ◌++◌, Option, none, some, arith, if◌then◌else◌, length, length-append, take, drop, take-append,
  drop-append, All, ltb, Elem, inl, inr,
}
use vox_streaming.Base.Clock.{Time}
use vox_streaming.Recorder.Frames.Extractor.{
  Bytes, FrameExtractor, ◌>>=◌, add_nal, stapa_units, ingest_stapa, ingest_payload, commit_picture,
  has_idr, capture_key_frame, key_frame, annex_b, if_present, no_bytes, nal_type,
}
use mathlib.Core.List.{append_assoc, append-nil}

-- Each unit behind its length, of two bytes.
abbrev pub aggregate : List Bytes → Bytes
aggregate [] = []
aggregate (n ∷ ns) = length n / 256 ∷ length n % 256 ∷ (n ++ aggregate ns)

-- The first byte of a payload of several units, one for each importance that a sender may give it.
abbrev pub stapa_indicators : Bytes
stapa_indicators = 0x18 ∷ 0x38 ∷ 0x58 ∷ 0x78 ∷ []

nal_type-stapa : (indicator : ℕ) → Elem indicator stapa_indicators → nal_type indicator ≡ 24
nal_type-stapa i (inl e) = rw e refl
nal_type-stapa i (inr (inl e)) = rw e refl
nal_type-stapa i (inr (inr (inl e))) = rw e refl
nal_type-stapa i (inr (inr (inr (inl e)))) = rw e refl
nal_type-stapa i (inr (inr (inr (inr e)))) = absurd e

-- A unit has its header, and a length that fits.
abbrev pub IsUnit : Bytes → Type 0
IsUnit n = (1 ≤ length n) × (length n < 65536)

-- Units one after another, none of them marked.
unfoldable pub add_nals : Time → List Bytes → FrameExtractor → Option FrameExtractor
add_nals now [] fe = some fe
add_nals now (n ∷ ns) fe = add_nal now n false fe >>= λ f. add_nals now ns f

bind_cong :
    {A B : Type 0} (o : Option A) (f g : A → Option B)
    → ((a : A) → f a ≡ g a)
    → (o >>= f) ≡ (o >>= g)
bind_cong none f g h = refl
bind_cong (some a) f g h = h a

-- The loop takes the first unit off, whatever its length was computed from.
stapa_round :
    (fuel size : ℕ) (now : Time) (n rest : Bytes) (fe : FrameExtractor)
    → size ≡ length n
    → (if ltb (length (n ++ rest)) size
        then some fe
        else add_nal now (take size (n ++ rest)) false fe >>= λ f.
            stapa_units fuel now (drop size (n ++ rest)) f)
      ≡ (add_nal now n false fe >>= λ f. stapa_units fuel now rest f)
stapa_round fuel size now n rest fe e =
    let fits : ltb (length (n ++ rest)) (length n) ≡ false = ground (arith, length-append n rest) in
    rw (e, fits, take-append n rest, drop-append n rest) refl

stapa_units-aggregate :
    (fuel : ℕ) (now : Time) (ns : List Bytes) (fe : FrameExtractor)
    → length (aggregate ns) ≤ fuel
    → stapa_units fuel now (aggregate ns) fe ≡ add_nals now ns fe
unfolding stapa_units add_nals
stapa_units-aggregate zero now [] fe l = refl
stapa_units-aggregate (suc fuel) now [] fe l = refl
stapa_units-aggregate zero now (n ∷ ns) fe l = elim l [ ]
stapa_units-aggregate (suc fuel) now (n ∷ ns) fe l =
    stapa_round fuel (length n / 256 * 256 + length n % 256) now n (aggregate ns) fe (omega arith)
    ∙ bind_cong (add_nal now n false fe) (λ f. stapa_units fuel now (aggregate ns) f)
        (λ f. add_nals now ns f)
        (λ f.
          stapa_units-aggregate fuel now ns f (omega (arith, l, length-append n (aggregate ns))))

-- What became of the units of a picture.
pub record Picture (fe : FrameExtractor) (ns : List Bytes) (f : FrameExtractor) : Type 0 where
  pub pic_buf : f.pic_buf ≡ fe.pic_buf ++ ns
  pub picture_corrupted : f.picture_corrupted ≡ fe.picture_corrupted
  pub idr_nals : f.idr_nals ≡ fe.idr_nals
  pub idr_ready : f.idr_ready ≡ fe.idr_ready
  pub fua : f.fua ≡ fe.fua

Picture-then :
    (fe g f : FrameExtractor) (xs ys : List Bytes)
    → Picture fe xs g
    → Picture g ys f
    → Picture fe (xs ++ ys) f
Picture-then fe g f xs ys p q = record {
  pic_buf = q.pic_buf ∙ (ap (λ l. l ++ ys) p.pic_buf ∙ append_assoc fe.pic_buf xs ys);
  picture_corrupted = q.picture_corrupted ∙ p.picture_corrupted;
  idr_nals = q.idr_nals ∙ p.idr_nals;
  idr_ready = q.idr_ready ∙ p.idr_ready;
  fua = q.fua ∙ p.fua;
}

add_nal-Picture :
    (now : Time) (b : ℕ) (bs : Bytes) (fe : FrameExtractor)
    → (f : FrameExtractor) × (add_nal now (b ∷ bs) false fe ≡ some f) × Picture fe ((b ∷ bs) ∷ []) f
unfolding add_nal
add_nal-Picture now b bs fe = (
  _,
  refl,
  record {
    pic_buf = ground arith;
    picture_corrupted = ground arith;
    idr_nals = ground arith;
    idr_ready = ground arith;
    fua = ground arith;
  },
)

add_nals-Picture :
    (now : Time) (ns : List Bytes) (fe : FrameExtractor)
    → All IsUnit ns
    → (f : FrameExtractor) × (add_nals now ns fe ≡ some f) × Picture fe ns f
unfolding add_nals
add_nals-Picture now [] fe u = (
  fe,
  refl,
  record {
    pic_buf = sym (append-nil fe.pic_buf);
    picture_corrupted = refl;
    idr_nals = refl;
    idr_ready = refl;
    fua = refl;
  },
)
add_nals-Picture now ([] ∷ ns) fe u = absurd (omega (arith, u.0.0))
add_nals-Picture now ((b ∷ bs) ∷ ns) fe u =
    let (g, e, p) = add_nal-Picture now b bs fe in
    let (f, h, q) = add_nals-Picture now ns g u.1 in
    (f, ap (λ o. o >>= λ f. add_nals now ns f) e ∙ h, Picture-then fe g f ((b ∷ bs) ∷ []) ns p q)

has_idr-no_bytes : (ns : List Bytes) → has_idr ns ≡ true → no_bytes ns ≡ false
unfolding has_idr
has_idr-no_bytes [] h = cc
has_idr-no_bytes (n ∷ ns) h = refl

captured :
    (fe : FrameExtractor)
    → fe.idr_ready ≡ true
    → no_bytes fe.idr_nals ≡ false
    → capture_key_frame fe ≡ some (annex_b (if_present fe.sps ++ if_present fe.pps ++ fe.idr_nals))
unfolding capture_key_frame key_frame
captured fe r n = ground (arith, r, n)

commit_picture-clean :
    (now : Time) (fe : FrameExtractor)
    → fe.picture_corrupted ≡ false
    → has_idr fe.pic_buf ≡ true
    → capture_key_frame (commit_picture now fe)
      ≡ some (
          annex_b (
            if_present (commit_picture now fe).sps
            ++ if_present (commit_picture now fe).pps
            ++ fe.pic_buf))
unfolding commit_picture has_idr
commit_picture-clean now fe c i =
    let f = commit_picture now fe in
    let e : f
        ≡ record fe { idr_nals = fe.pic_buf; idr_ready = true; idr_waiting = true; pic_buf = [] } =
      ground (arith, c, i, has_idr-no_bytes fe.pic_buf i) in
    let n : f.idr_nals ≡ fe.pic_buf = ap (λ x. x.idr_nals) e in
    captured f (ap (λ x. x.idr_ready) e) (ap no_bytes n ∙ has_idr-no_bytes fe.pic_buf i)
    ∙ ap (λ l. some (annex_b (if_present f.sps ++ if_present f.pps ++ l))) n

commit_picture-spoilt :
    (now : Time) (fe : FrameExtractor)
    → fe.picture_corrupted ≡ true
    → no_bytes fe.pic_buf ≡ false
    → ((commit_picture now fe).idr_nals ≡ fe.idr_nals)
      × ((commit_picture now fe).idr_ready ≡ fe.idr_ready)
      × ((commit_picture now fe).picture_corrupted ≡ false)
unfolding commit_picture
commit_picture-spoilt now fe c n = let e : no_bytes fe.pic_buf ≡ false = n in ground (arith, c, e)

ingest_payload-stapa :
    (now : Time) (indicator : ℕ) (ns : List Bytes) (fe f : FrameExtractor)
    → nal_type indicator ≡ 24
    → add_nals now ns fe ≡ some f
    → ingest_payload now (indicator ∷ aggregate ns) true fe ≡ some (commit_picture now f)
unfolding ingest_payload ingest_stapa
ingest_payload-stapa now indicator ns fe f t e = rw t (
    ap (λ o. o >>= λ f. some (commit_picture now f))
      (stapa_units-aggregate (length (aggregate ns)) now ns fe (omega arith) ∙ e))

-- A picture whose units a sender put into one payload, with the marker and under any importance, is put together from them: if
-- it has a key frame and nothing of it was lost, what is captured then is exactly its units behind the
-- parameter sets.
pub ingest_payload-picture :
    (now : Time) (indicator : ℕ) (ns : List Bytes) (fe : FrameExtractor)
    → Elem indicator stapa_indicators
    → All IsUnit ns
    → has_idr ns ≡ true
    → fe.pic_buf ≡ []
    → fe.picture_corrupted ≡ false
    → (f : FrameExtractor) × (ingest_payload now (indicator ∷ aggregate ns) true fe ≡ some f)
      × (capture_key_frame f ≡ some (annex_b (if_present f.sps ++ if_present f.pps ++ ns)))
ingest_payload-picture now indicator ns fe t u i n c =
    let (g, e, p) = add_nals-Picture now ns fe u in
    let all : g.pic_buf ≡ ns = p.pic_buf ∙ ap (λ l. l ++ ns) n in
    let f = commit_picture now g in
    (
      f,
      ingest_payload-stapa now indicator ns fe g (nal_type-stapa indicator t) e,
      commit_picture-clean now g (p.picture_corrupted ∙ c) (ap has_idr all ∙ i)
          ∙ ap (λ l. some (annex_b (if_present f.sps ++ if_present f.pps ++ l))) all,
    )

-- If something of such a picture was lost, none of it is kept: the key frame from before stays as it
-- was, and the next picture is judged anew.
pub ingest_payload-picture_spoilt :
    (now : Time) (indicator : ℕ) (ns : List Bytes) (fe : FrameExtractor)
    → Elem indicator stapa_indicators
    → All IsUnit ns
    → has_idr ns ≡ true
    → fe.pic_buf ≡ []
    → fe.picture_corrupted ≡ true
    → (f : FrameExtractor) × (ingest_payload now (indicator ∷ aggregate ns) true fe ≡ some f)
      × (f.idr_nals ≡ fe.idr_nals)
      × (f.idr_ready ≡ fe.idr_ready)
      × (f.picture_corrupted ≡ false)
ingest_payload-picture_spoilt now indicator ns fe t u i n c =
    let (g, e, p) = add_nals-Picture now ns fe u in
    let all : g.pic_buf ≡ ns = p.pic_buf ∙ ap (λ l. l ++ ns) n in
    let s =
      commit_picture-spoilt now g (p.picture_corrupted ∙ c)
        (has_idr-no_bytes g.pic_buf (ap has_idr all ∙ i)) in
    (
      commit_picture now g,
      ingest_payload-stapa now indicator ns fe g (nal_type-stapa indicator t) e,
      s.0 ∙ p.idr_nals,
      s.1 ∙ p.idr_ready,
      s.2,
    )
