-- ===== src/Usecase/Segments/Uploads.antt =====
-- Uploading a segment again, and after the end.
use vox_streaming.Base.{
  ◌+◌, ◌<◌, ◌≡◌, refl, Bool, true, false, ◌∷◌, none, some, String, if◌then◌else◌, length, sym, ◌∙◌,
  subst,
}
use vox_streaming.Base.Int.{pos}
use vox_streaming.Base.Eq.{eq_ℤ, eq_text, eq_refl}
use vox_streaming.Base.Text.{text_eq}
use vox_streaming.Base.Clock.{Time}
use vox_streaming.Base.Redis.{doc, hset_expire, hget-hset_expire}
use vox_streaming.Base.Failure.{Result, ok, err, segment_conflict}
use vox_streaming.Cache.Segment.{SegmentMeta, segment_ttl, add, find}
use vox_streaming.Cache.Upload.{UploadSession, UploadRegistry, lookup_upload}
use vox_streaming.Usecase.Segments.Defs.{
  Hashing, SegmentUploadRequest, SegmentUseCase, Calls, owns, owned, store_segment, upload_over,
  upload_owned, upload,
}

-- A call of an owner is the call on the session.
pub owned_by :
    {A : Type 0} (h : Hashing) (stream_id token : String) (u : SegmentUseCase)
    (session : UploadSession) (l : UploadRegistry × Result UploadSession)
    (k : UploadSession → SegmentUseCase → SegmentUseCase × Result A)
    → l ≡ (u.sessions, ok session)
    → owns h session stream_id token ≡ true
    → owned h stream_id token l u k ≡ k session u
unfolding owned
owned_by h stream_id token u session l k e o = rw (e, o)

-- The segment that an upload stores.
abbrev stored_meta : String → Time → SegmentUploadRequest → SegmentMeta
stored_meta key now req = record {
  seq = req.seq;
  s3_key = key;
  sha256 = req.sha256;
  started_at = req.started_at;
  ended_at = req.ended_at;
  size_bytes = pos (length req.payload);
  uploaded_at = now;
}

-- The state after a segment was stored for the first time.
unfoldable pub with_segment :
    String → Calls → SegmentUploadRequest → SegmentUseCase → SegmentUseCase
with_segment key w req u = record u {
  objects = key ∷ u.objects;
  segments = record u.segments {
    hashes =
        hset_expire w.now req.stream_id req.seq (doc (stored_meta key w.now req))
          (w.now + segment_ttl) u.segments.hashes;
  };
}

find-with_segment :
    (key : String) (w later : Calls) (req again : SegmentUploadRequest) (u : SegmentUseCase)
    → later.now < w.now + segment_ttl
    → again.stream_id ≡ req.stream_id
    → again.seq ≡ req.seq
    → find none later.now again.stream_id again.seq (with_segment key w req u).segments
      ≡ ok (some (stored_meta key w.now req))
unfolding find with_segment
find-with_segment key w later req again u h es eq_seq = rw (
  es,
  eq_seq,
  hget-hset_expire w.now later.now req.stream_id req.seq req.seq (doc (stored_meta key w.now req))
      (w.now + segment_ttl) u.segments.hashes h,
  eq_refl req.seq,
)

if_answer :
    (u : SegmentUseCase) (b : Bool) (x y : Result (Unit {0}))
    → ◌≡◌ {A = SegmentUseCase × Result (Unit {0})}
        (if b then (u, x) else (u, y))
        (u, (if b then x else y))
if_answer u true x y = refl
if_answer u false x y = refl

-- The first upload of a sequence number of an open stream by its owner stores one object and the
-- metadata. For a day after it, and while the session lives, the same upload is answered as done and
-- changes nothing, and other content under the number is refused as a conflict and changes nothing.
pub upload_again :
    (h : Hashing) (w later : Calls) (req again : SegmentUploadRequest) (u : SegmentUseCase)
    (session : UploadSession) (key : String)
    → lookup_upload w.lookup_fault w.now req.stream_id u.sessions ≡ (u.sessions, ok session)
    → lookup_upload later.lookup_fault later.now req.stream_id u.sessions ≡ (u.sessions, ok session)
    → owns h session req.stream_id req.upload_token ≡ true
    → session.completed ≡ false
    → find w.find_fault w.now req.stream_id req.seq u.segments ≡ ok none
    → w.stored ≡ ok key
    → w.add_fault ≡ none
    → later.find_fault ≡ none
    → later.now < w.now + segment_ttl
    → again.stream_id ≡ req.stream_id
    → again.upload_token ≡ req.upload_token
    → again.seq ≡ req.seq
    → (upload h w req u ≡ (with_segment key w req u, ok tt))
      × (upload h later again (with_segment key w req u) ≡ (
        with_segment key w req u,
        (if text_eq req.sha256 again.sha256 then ok tt else err segment_conflict),
      ))
unfolding upload upload_owned upload_over store_segment with_segment add
upload_again h w later req again u session key l l' own running absent st ad fd time es et en = (
  owned_by h req.stream_id req.upload_token u session _ (upload_owned w req) l own ∙ first,
  owned_by h again.stream_id again.upload_token (with_segment key w req u) session
        (lookup_upload later.lookup_fault later.now again.stream_id
          (with_segment key w req u).sessions)
        (upload_owned later again) (rw es l') (rw (es, et) own)
      ∙ second,
)
  where
    first : upload_owned w req session u ≡ (with_segment key w req u, ok tt)
    first = rw (running, absent, upload_over, st, store_segment, ad)

    second : upload_owned later again session (with_segment key w req u) ≡ (
      with_segment key w req u,
      (if text_eq req.sha256 again.sha256 then ok tt else err segment_conflict),
    )
    second =
        let f = find-with_segment key w later req again u time es en in
        let g =
          subst
            (λ x.
              find x later.now again.stream_id again.seq (with_segment key w req u).segments
              ≡ ok (some (stored_meta key w.now req)))
            (sym fd) f in
        rw (running, g, upload_over)
          (if_answer (with_segment key w req u) (text_eq req.sha256 again.sha256) (ok tt)
            (err segment_conflict))
