-- ===== src/Transport/Peer/LiveUploader/Defs.antt =====
-- peer.go: `runHLSFragmentUploader`, with `uploadHLSInit` and `uploadHLSFragment`. What fails is only
-- logged. The uploader is given a storage and a registry; removing the file of what was registered is
-- left out.
use vox_streaming.Base.{ℕ, ◌+◌, ◌-◌, List, [], ◌∷◌, none, some, String, if◌then◌else◌}
use vox_streaming.Base.Int.{ℤ, pos, negsuc, ◌+ℤ◌, wrap64}
use vox_streaming.Base.Eq.{eq, eq_ℤ}
use vox_streaming.Base.Clock.{Time, Duration}
use vox_streaming.Base.Failure.{Result, ok, err, Fault}
use vox_streaming.Cache.Hls.{HlsFragmentMeta, HlsFragmentRegistry, add_init, add_fragment}
use vox_streaming.Watcher.Tail.{HlsFragmentEvent}

-- An asset that ffmpeg has finished, when it is taken up, and what comes of opening its file, uploading
-- it and registering it.
pub record Asset : Type 0 where
  pub event : HlsFragmentEvent
  pub now : Time
  pub open_fault : Fault
  pub size : ℤ
  pub stored : Result String
  pub register_fault : Fault
  pub uploaded_at : Time

pub record LiveUploader : Type 0 where
  pub seq : ℕ
  pub base_time : Time
  pub cumulative : Duration
  pub last_epoch : ℤ
  pub registry : HlsFragmentRegistry

abbrev pub new_live_uploader : HlsFragmentRegistry → LiveUploader
new_live_uploader r = record {
  seq = 0;
  base_time = 0;
  cumulative = pos 0;
  last_epoch = negsuc 0;
  registry = r;
}

-- `t.Add(d)` and `t.Add(-d)`, from the zero time on.
abbrev pub plus_duration : Time → Duration → Time
plus_duration t (pos n) = t + n
plus_duration t (negsuc n) = t - (n + 1)

abbrev pub minus_duration : Time → Duration → Time
minus_duration t (pos n) = t - n
minus_duration t (negsuc n) = t + (n + 1)

abbrev pub registry_or : Result HlsFragmentRegistry → HlsFragmentRegistry → HlsFragmentRegistry
registry_or (ok r) old = r
registry_or (err e) old = old

-- What is uploaded is registered; a file that cannot be opened is not uploaded.
abbrev pub upload_and :
    Fault
    → Result String
    → (String → Result HlsFragmentRegistry)
    → HlsFragmentRegistry
    → HlsFragmentRegistry
upload_and (some e) stored add r = r
upload_and none (err e) add r = r
upload_and none (ok key) add r = registry_or (add key) r

unfoldable pub upload_hls_init : String → Asset → HlsFragmentRegistry → HlsFragmentRegistry
upload_hls_init stream_id a r =
    upload_and a.open_fault a.stored
      (λ key.
        add_init a.register_fault a.uploaded_at stream_id
          (record { epoch = a.event.epoch; s3_key = key; uploaded_at = a.uploaded_at }) r)
      r

abbrev pub fragment_meta : Asset → ℕ → Time → Time → String → HlsFragmentMeta
fragment_meta a seq started ended key = record {
  seq = pos seq;
  epoch = a.event.epoch;
  s3_key = key;
  started_at = started;
  ended_at = ended;
  size_bytes = a.size;
  uploaded_at = a.uploaded_at;
}

unfoldable pub upload_hls_fragment :
    String → Asset → ℕ → Time → Time → HlsFragmentRegistry → HlsFragmentRegistry
upload_hls_fragment stream_id a seq started ended r =
    upload_and a.open_fault a.stored
      (λ key.
        add_fragment a.register_fault a.uploaded_at stream_id
          (fragment_meta a seq started ended key) r)
      r

-- The first fragment of an epoch sets the time from which those of the epoch count.
unfoldable pub anchored : Asset → LiveUploader → LiveUploader
anchored a u = if eq a.event.epoch u.last_epoch then u else record u {
  base_time = minus_duration a.now a.event.duration;
  cumulative = pos 0;
  last_epoch = a.event.epoch;
}

abbrev pub placed : String → Asset → LiveUploader → LiveUploader
placed stream_id a v =
    let total = wrap64 (v.cumulative +ℤ a.event.duration) in
    record v {
      seq = v.seq + 1;
      cumulative = total;
      registry =
          upload_hls_fragment stream_id a v.seq (plus_duration v.base_time v.cumulative)
            (plus_duration v.base_time total) v.registry;
    }

-- One round of the loop.
unfoldable pub take_asset : String → Asset → LiveUploader → LiveUploader
unfolding anchored upload_hls_init upload_hls_fragment
take_asset stream_id a u =
    if a.event.is_init
    then record u { registry = upload_hls_init stream_id a u.registry }
    else placed stream_id a (anchored a u)

unfoldable pub run_hls_fragment_uploader : String → List Asset → LiveUploader → LiveUploader
unfolding take_asset
run_hls_fragment_uploader stream_id [] u = u
run_hls_fragment_uploader stream_id (a ∷ assets) u =
    run_hls_fragment_uploader stream_id assets (take_asset stream_id a u)
