-- ===== src/Handler/Segments/Sound.antt =====
-- What an upload has passed before the use case sees it.
use vox_streaming.Base.{
  ℕ, zero, suc, Bool-cases, leb→le, ◌+◌, ◌-◌, ◌≤◌, ◌<◌, ◌==◌, ◌≡◌, refl, sym, ap, subst, ◌⊎◌, inl,
  inr, true, not, ◌&&◌, List, [], ◌∷◌, Option, none, some, String, arith, leb, length, take,
}
use vox_streaming.Base.Int.{ℤ, pos, ◌≤ℤ◌, leb_ℤ, saturate64}
use vox_streaming.Base.Text.{is_empty}
use vox_streaming.Base.Clock.{Time, after, sub}
use vox_streaming.Usecase.Segments.{SegmentUploadRequest, upload}
use vox_streaming.Handler.Segments.Requests.{Body, Request, Library, refused, go_on}
use vox_streaming.Handler.Segments.Defs.{
  bearer_token, authorized, max_segment_size, max_segment_duration, is_mp4, sha256_size,
  read_limited, time_range, payload_of, checksum_of, checked_upload,
}
use vox_streaming.Handler.Segments.Endpoints.{SegmentHandler, Answers, answered, upload_segment}
use vox_streaming.Handler.Segments.Checks.{
  >>=-eq-go_on, required, parsed-eq-go_on, go_on-injective, Checked-cases,
}

length-take : {A : Type 0} (n : ℕ) (xs : List A) → n ≤ length xs → length (take n xs) ≡ n
length-take zero xs h = refl
length-take (suc n) [] h = ground arith
length-take (suc n) (x ∷ xs) h = ap suc (length-take n xs (omega (arith, h)))

abbrev some_or : List ℕ → Option (List ℕ) → List ℕ
some_or d none = d
some_or d (some xs) = xs

-- A body that was read to less than the limit was read to its end.
whole-body :
    (n : ℕ) (b : Body) (xs : List ℕ) → read_limited n b ≡ some xs → length xs < n → xs ≡ b.bytes
unfolding read_limited
whole-body n b xs e l = elim (Bool-cases (leb n (length b.bytes))) [
  | inl y ↦
      let same : take n b.bytes ≡ xs = ap (some_or []) (rw y at e) in
      absurd (
        omega (
          arith,
          l,
          ap (λ (ys : List ℕ). length ys) same,
          length-take n b.bytes (leb→le n (length b.bytes) y),
        ))
  | inr y ↦ elim (Bool-cases b.broken) [
    | inl z ↦ none≢some (rw (y, z) at e)
    | inr z ↦ sym (ap (some_or []) (rw (y, z) at e))
  ]
]
  where
    none≢some : {A : Type 0} {a : List ℕ} → none ≡ some a → A
    none≢some h = cc

not-zero : (n : ℕ) → not (n == 0) ≡ true → 0 < n
not-zero n h = ground arith

time_range-Fits :
    (l : Library) (r : Request) (t : Time × Time)
    → time_range l r ≡ go_on t
    → (t.0 < t.1) × (t.1 - t.0 ≤ max_segment_duration)
unfolding time_range sub saturate64
time_range-Fits l r t e =
    let (a, ea, e) = parsed-eq-go_on (l.parse_time r.started_at) 400 "invalid startedAt" _ e in
    let (b, eb, e) = parsed-eq-go_on (l.parse_time r.ended_at) 400 "invalid endedAt" _ e in
    let (ok, e) =
      required (after b a && leb_ℤ (sub b a) (pos max_segment_duration)) 400
        "invalid segment time range" _ e in
    rw (sym (go_on-injective e)) (ground (arith, ok))

payload_of-Fits :
    (l : Library) (r : Request) (xs : List ℕ)
    → payload_of l r ≡ go_on xs
    → (xs ≡ r.body.bytes) × (0 < length xs) × (length xs ≤ max_segment_size)
unfolding payload_of
payload_of-Fits l r xs e =
    let (m, e) =
      required (is_mp4 (l.media_type r.content_type)) 415 "content type must be video/mp4" _ e in
    let (c, e) =
      required (leb_ℤ r.content_length (pos max_segment_size)) 413 "segment too large" _ e in
    let (ys, ry, e) =
      parsed-eq-go_on (read_limited (max_segment_size + 1) r.body) 400 "read body failed" _ e in
    let (s, e) = required (leb (length ys) max_segment_size) 413 "segment too large" _ e in
    let (z, e) = required (not (length ys == 0)) 400 "empty body" _ e in
    rw (sym (go_on-injective e)) (
      whole-body (max_segment_size + 1) r.body ys ry
          (below (length ys) (leb→le (length ys) max_segment_size s)),
      not-zero (length ys) z,
      leb→le (length ys) max_segment_size s,
    )
  where
    below : (n : ℕ) → n ≤ max_segment_size → n < max_segment_size + 1
    below n h = omega (arith, h)

checksum_of-Fits :
    (l : Library) (r : Request) (xs : List ℕ) (c : String)
    → ((a : String) (b : List ℕ)
        → l.equal_fold a (l.hex_encode (l.sha256_bytes b)) ≡ true
        → l.hashing.hex_decode a ≡ some (l.sha256_bytes b))
    → checksum_of l r xs ≡ go_on c
    → l.hashing.hex_decode c ≡ some (l.sha256_bytes xs)
unfolding checksum_of
checksum_of-Fits l r xs c fold e =
    let checksum = l.to_lower (l.trim_space r.segment_sha256) in
    let (b, eb, e) =
      parsed-eq-go_on (l.hashing.hex_decode checksum) 400 "invalid X-Segment-SHA256" _ e in
    let (s, e) = required (length b == sha256_size) 400 "invalid X-Segment-SHA256" _ e in
    let (m, e) =
      required (l.equal_fold checksum (l.hex_encode (l.sha256_bytes xs))) 422
        "segment checksum mismatch" _ e in
    subst (λ d. l.hashing.hex_decode d ≡ some (l.sha256_bytes xs)) (go_on-injective e)
      (fold checksum xs m)

-- The checksum that is passed on is the one that came in the header.
checksum_of-sent :
    (l : Library) (r : Request) (xs : List ℕ) (c : String)
    → checksum_of l r xs ≡ go_on c
    → c ≡ l.to_lower (l.trim_space r.segment_sha256)
unfolding checksum_of
checksum_of-sent l r xs c e =
    let checksum = l.to_lower (l.trim_space r.segment_sha256) in
    let (b, eb, e) =
      parsed-eq-go_on (l.hashing.hex_decode checksum) 400 "invalid X-Segment-SHA256" _ e in
    let (s, e) = required (length b == sha256_size) 400 "invalid X-Segment-SHA256" _ e in
    let (m, e) =
      required (l.equal_fold checksum (l.hex_encode (l.sha256_bytes xs))) 422
        "segment checksum mismatch" _ e in
    sym (go_on-injective e)

-- What the use case may rely on.
pub record IsSound (l : Library) (r : Request) (q : SegmentUploadRequest) : Type 0 where
  pub stream : q.stream_id ≡ r.stream_id
  pub uuid : l.is_uuid q.stream_id ≡ true
  pub not_negative : pos 0 ≤ℤ q.seq
  pub forward : q.started_at < q.ended_at
  pub short : q.ended_at - q.started_at ≤ max_segment_duration
  pub whole : q.payload ≡ r.body.bytes
  pub not_empty : 0 < length q.payload
  pub not_large : length q.payload ≤ max_segment_size
  pub sent : q.sha256 ≡ l.to_lower (l.trim_space r.segment_sha256)
  pub checksum : l.hashing.hex_decode q.sha256 ≡ some (l.sha256_bytes q.payload)

authorized-uuid :
    (l : Library) (r : Request) (token : String)
    → authorized l r ≡ go_on token
    → l.is_uuid r.stream_id ≡ true
authorized-uuid l r token e =
    let (t, et, e) = parsed-eq-go_on (bearer_token l r.authorization) 401 "unauthorized" _ e in
    (required (l.is_uuid r.stream_id) 400 "invalid streamId" _ e).0

not-below : (z : ℤ) → leb_ℤ (pos 0) z ≡ true → pos 0 ≤ℤ z
not-below z h = ground (arith, h)

checked_upload-IsSound :
    (l : Library) (r : Request) (q : SegmentUploadRequest)
    → ((a : String) (b : List ℕ)
        → l.equal_fold a (l.hex_encode (l.sha256_bytes b)) ≡ true
        → l.hashing.hex_decode a ≡ some (l.sha256_bytes b))
    → checked_upload l r ≡ go_on q
    → IsSound l r q
unfolding checked_upload
checked_upload-IsSound l r q fold e =
    let (token, et, e) = >>=-eq-go_on (authorized l r) _ e in
    let (p, e) =
      required (not (is_empty r.seq) && (not (is_empty r.started_at) && not (is_empty r.ended_at)))
        400 "missing required params" _ e in
    let (seq, es, e) = parsed-eq-go_on (l.parse_int r.seq) 400 "invalid seq" _ e in
    let (n, e) = required (leb_ℤ (pos 0) seq) 400 "invalid seq" _ e in
    let (range, er, e) = >>=-eq-go_on (time_range l r) _ e in
    let (xs, ex, e) = >>=-eq-go_on (payload_of l r) _ e in
    let (c, ec, e) = >>=-eq-go_on (checksum_of l r xs) _ e in
    let fits = payload_of-Fits l r xs ex in
    subst (IsSound l r) (go_on-injective e) (record {
      stream = refl;
      uuid = authorized-uuid l r token et;
      not_negative = not-below seq n;
      forward = (time_range-Fits l r range er).0;
      short = (time_range-Fits l r range er).1;
      whole = fits.0;
      not_empty = fits.1;
      not_large = fits.2;
      sent = checksum_of-sent l r xs c ec;
      checksum = checksum_of-Fits l r xs c fold ec;
    })

-- An upload either is turned away, which changes nothing, or the use case is called, and then on a
-- request whose stream is a UUID, whose number is not negative, whose segment lasts for more than
-- nothing and at most two minutes, whose payload is the whole body, of 1 byte to 50 MB, and whose
-- checksum is the header's, without the spaces around it and in lower case, and decodes to the hash of
-- the payload. Folding case is assumed not to change what hexadecimal text decodes to.
pub upload_segment-IsSound :
    (l : Library) (w : Answers) (r : Request) (h : SegmentHandler)
    → ((a : String) (b : List ℕ)
        → l.equal_fold a (l.hex_encode (l.sha256_bytes b)) ≡ true
        → l.hashing.hex_decode a ≡ some (l.sha256_bytes b))
    → ((status : ℕ) × (text : String) × (upload_segment l w r h ≡ (h, refused status text)))
      ⊎ ((q : SegmentUploadRequest) × IsSound l r q
          × (upload_segment l w r h
              ≡ answered "upload failed" (upload l.hashing w.calls q h.use_case) h))
unfolding upload_segment
upload_segment-IsSound l w r h fold = elim (Checked-cases (checked_upload l r)) [
  | inl (status, text, e) ↦ inl (status, text, rw (upload_segment, e))
  | inr (q, e) ↦ inr (q, checked_upload-IsSound l r q fold e, rw (upload_segment, e))
]
