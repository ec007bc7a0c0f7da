-- ===== src/Transport/Peer/Uploader.antt =====
-- peer.go: `runFFmpegSegmentUploader` and `uploadFFmpegSegmentWithRetry`. The context of an upload is
-- never cancelled, so only the attempts decide. A file is what the world says of it.
use vox_streaming.Base.{
  ℕ, zero, suc, ◌+◌, ◌≡◌, ◌≤◌, ◌<◌, refl, sym, subst, ap, ◌∙◌, Bool, true, false, List, [], ◌∷◌,
  ◌++◌, String, arith, length, length-append,
}
use vox_streaming.Base.Int.{ℤ, pos}
use vox_streaming.Base.Clock.{Time}
use vox_streaming.Base.Failure.{Error, Result, ok, err, wrapped, message}
use vox_streaming.Cache.Segment.{SegmentMeta}

-- A segment's path, when the recorder hands it over and when it is uploaded, its size on disk, and
-- what each attempt to upload it ends with.
pub record SegmentFile : Type 0 where
  pub path : String
  pub handed_at : Time
  pub uploaded_at : Time
  pub size : Result ℤ
  pub attempt : ℕ → Result String

abbrev pub ffmpeg_segment_upload_max_attempts : ℕ
ffmpeg_segment_upload_max_attempts = 3

-- The loop over the attempts that are left, with the last error.
unfoldable pub upload_attempts : ℕ → ℕ → (ℕ → Result String) → Error → Result String
upload_attempts zero n attempt last_err = err (wrapped "upload failed after 3 attempts" last_err)
upload_attempts (suc left) n attempt last_err = elim (attempt n) [
  | ok key ↦ ok key
  | err e ↦ upload_attempts left (n + 1) attempt e
]

abbrev pub sized : Result ℤ → Result String → Result (String × ℤ)
sized (err e) key = err (wrapped "stat segment" e)
sized (ok size) (err e) = err e
sized (ok size) (ok key) = ok (key, size)

unfoldable pub upload_with_retry : SegmentFile → Result (String × ℤ)
unfolding upload_attempts
upload_with_retry f =
    sized f.size
      (upload_attempts ffmpeg_segment_upload_max_attempts 0 f.attempt (message "no attempt"))

-- `seq`, `prevAt`, `st.segs` and `st.incomplete`, and the files left on disk.
pub record Uploader : Type 0 where
  pub seq : ℕ
  pub prev_at : Time
  pub segs : List SegmentMeta
  pub incomplete : Bool
  pub kept : List String

abbrev pub uploaded : SegmentFile → Uploader → Result (String × ℤ) → Uploader
uploaded f u (err e) = record u {
  seq = u.seq + 1;
  prev_at = f.handed_at;
  incomplete = true;
  kept = f.path ∷ u.kept;
}
uploaded f u (ok (key, size)) = record u {
  seq = u.seq + 1;
  prev_at = f.handed_at;
  segs =
      u.segs
      ++ record {
        seq = pos u.seq;
        s3_key = key;
        sha256 = "";
        started_at = u.prev_at;
        ended_at = f.handed_at;
        size_bytes = size;
        uploaded_at = f.uploaded_at;
      }
        ∷ [];
}

unfoldable pub run_segment_uploader : List SegmentFile → Uploader → Uploader
unfolding upload_with_retry
run_segment_uploader [] u = u
run_segment_uploader (f ∷ fs) u = run_segment_uploader fs (uploaded f u (upload_with_retry f))

abbrev pub new_uploader : Time → Uploader
new_uploader now = record { seq = 0; prev_at = now; segs = []; incomplete = false; kept = [] }

-- Segments numbered on from `n` up to `m`, each from the end of the one before, from the moment `t` to
-- the moment `s`.
abbrev pub Contiguous : ℕ → Time → List SegmentMeta → ℕ → Time → Type 0
Contiguous n t [] m s = (n ≡ m) × (t ≡ s)
Contiguous n t (x ∷ xs) m s =
    (x.seq ≡ pos n) × (x.started_at ≡ t) × Contiguous (n + 1) x.ended_at xs m s

Contiguous-append :
    (xs : List SegmentMeta) (x : SegmentMeta) (n m : ℕ) (t s : Time)
    → Contiguous n t xs m s
    → x.seq ≡ pos m
    → x.started_at ≡ s
    → Contiguous n t (xs ++ x ∷ []) (m + 1) x.ended_at
Contiguous-append [] x n m t s c e f =
    (e ∙ ap pos (sym c.0), f ∙ sym c.1, (omega (arith, c.0), refl))
Contiguous-append (y ∷ ys) x n m t s c e f =
    (c.0, c.1, Contiguous-append ys x (n + 1) m y.ended_at s c.2 e f)

-- How far an uploader is after `n` files, from the moment `start` on.
pub record Uploads (start : Time) (n : ℕ) (u : Uploader) : Type 0 where
  pub counted : u.seq ≡ n
  pub at_most : length u.segs ≤ n
  pub all_there : u.incomplete ≡ false → (length u.segs ≡ n) × Contiguous 0 start u.segs n u.prev_at
  pub some_missing : u.incomplete ≡ true → length u.segs < n

uploaded-Uploads :
    (start : Time) (n : ℕ) (f : SegmentFile) (u : Uploader) (r : Result (String × ℤ))
    → Uploads start n u
    → Uploads start (n + 1) (uploaded f u r)
uploaded-Uploads start n f u (err e) p = record {
  counted = omega (arith, p.counted);
  at_most = omega (arith, p.at_most);
  all_there = λ h. cc;
  some_missing = λ h. omega (arith, p.at_most);
}
uploaded-Uploads start n f u (ok (key, size)) p =
    let m : SegmentMeta = record {
      seq = pos u.seq;
      s3_key = key;
      sha256 = "";
      started_at = u.prev_at;
      ended_at = f.handed_at;
      size_bytes = size;
      uploaded_at = f.uploaded_at;
    } in
    record {
      counted = omega (arith, p.counted);
      at_most = omega (arith, p.at_most, length-append u.segs (m ∷ []));
      all_there = λ h. (
        omega (arith, (p.all_there h).0, length-append u.segs (m ∷ [])),
        Contiguous-append u.segs m 0 n start u.prev_at (p.all_there h).1 (ap pos p.counted) refl,
      );
      some_missing = λ h. omega (arith, p.some_missing h, length-append u.segs (m ∷ []));
    }

run-Uploads :
    (start : Time) (fs : List SegmentFile) (n : ℕ) (u : Uploader)
    → Uploads start n u
    → Uploads start (n + length fs) (run_segment_uploader fs u)
unfolding run_segment_uploader
run-Uploads start [] n u p = subst (λ k. Uploads start k u) (omega arith) p
run-Uploads start (f ∷ fs) n u p =
    subst (λ k. Uploads start k (run_segment_uploader fs (uploaded f u (upload_with_retry f))))
      (omega arith)
      (run-Uploads start fs (n + 1) (uploaded f u (upload_with_retry f))
        (uploaded-Uploads start n f u (upload_with_retry f) p))

-- An uploader that did not note a loss uploaded every file it was handed, numbered from 0 without a gap
-- and each from the end of the one before; one that did has fewer segments than files.
pub run_segment_uploader-Uploads :
    (start : Time) (fs : List SegmentFile)
    → Uploads start (length fs) (run_segment_uploader fs (new_uploader start))
run_segment_uploader-Uploads start fs =
    subst (λ k. Uploads start k (run_segment_uploader fs (new_uploader start))) (omega arith)
      (run-Uploads start fs 0 (new_uploader start) (record {
        counted = refl;
        at_most = omega arith;
        all_there = λ h. (refl, (refl, refl));
        some_missing = λ h. cc;
      }))
