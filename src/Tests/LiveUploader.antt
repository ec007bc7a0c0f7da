-- ===== src/Tests/LiveUploader.antt =====
-- The uploader of live fragments.
use vox_streaming.Base.{ℕ, ◌≡◌, refl, false, [], ◌∷◌, none, some, arith}
use vox_streaming.Base.Int.{pos}
use vox_streaming.Base.Failure.{ok}
use vox_streaming.Cache.Hls.{HlsFragmentMeta, HlsFragmentRegistry, get_fragment}
use vox_streaming.Transport.LiveManifest.{span}
use vox_streaming.Transport.Peer.LiveUploader.{
  Asset, new_live_uploader, run_hls_fragment_uploader, Lands, run_hls_fragment_uploader-contiguous,
}

abbrev fragment : ℕ → ℕ → Asset
fragment now d = record {
  event = record { path = "f.m4s"; is_init = false; epoch = pos 0; duration = pos d };
  now = now;
  open_fault = none;
  size = pos 9;
  stored = ok "k";
  register_fault = none;
  uploaded_at = now;
}

fragment-Lands : (now d : ℕ) → Lands (fragment now d) "k" d
fragment-Lands now d = record {
  fragment = refl;
  long = refl;
  opens = refl;
  stores = refl;
  registers = refl;
}

abbrev empty : HlsFragmentRegistry
empty = record { inits = []; fragments = [] }

run_hls_fragment_uploader-contiguous_example :
    (x : HlsFragmentMeta) × (y : HlsFragmentMeta) × (get_fragment none 50 "a"
        (pos 0)
        (run_hls_fragment_uploader "a"
          (fragment 10 4 ∷ fragment 30 5 ∷ [])
          (new_live_uploader empty)).registry
      ≡ ok (some x))
    × (get_fragment none 50 "a"
          (pos 1)
          (run_hls_fragment_uploader "a"
            (fragment 10 4 ∷ fragment 30 5 ∷ [])
            (new_live_uploader empty)).registry
        ≡ ok (some y))
    × (y.started_at ≡ x.ended_at)
    × (span x ≡ pos 4)
    × (span y ≡ pos 5)
run_hls_fragment_uploader-contiguous_example =
    run_hls_fragment_uploader-contiguous "a" (fragment 10 4) (fragment 30 5) "k" "k" 4 5
      (new_live_uploader empty) 50 (fragment-Lands 10 4) (fragment-Lands 30 5) refl
      (0, refl, omega arith) (omega arith) (omega arith)
