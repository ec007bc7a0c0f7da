-- ===== src/Watcher/Tail/Written.antt =====
-- hls_watch.go: what is passed on of a playlist that ffmpeg wrote.
use vox_streaming.Base.{
  ◌≡◌, refl, ap, ◌∙◌, Bool, true, false, List, [], ◌∷◌, Option, String, if◌then◌else◌, All, map,
}
use vox_streaming.Base.Int.{ℤ, pos}
use vox_streaming.Watcher.Tail.Readings.{Host, Grows, last_reading}
use vox_streaming.Watcher.Tail.Fragments.{
  init_event, fragment_event, watch_hls_fragments, Playlist, empty_playlist, scan,
}
use vox_streaming.Watcher.Tail.Events.{events_of}
use vox_streaming.Watcher.Tail.Once.{watch_hls_fragments_once}
use vox_streaming.Watcher.Tail.Playlist.{
  Entry, timed, untimed, playlist_lines, IsEntry, IsTag, IsMap, passed_on, read_entry, scan-written,
}

events-passed_on :
    (host : Host) (hls_dir : String) (epoch : ℤ) (es : List Entry)
    → map (fragment_event host hls_dir epoch) (map read_entry es)
      ≡ map (passed_on host hls_dir epoch) es
unfolding fragment_event
events-passed_on host hls_dir epoch [] = refl
events-passed_on host hls_dir epoch (timed secs title name lasts ∷ es) =
    ap (λ l. passed_on host hls_dir epoch (timed secs title name lasts) ∷ l)
      (events-passed_on host hls_dir epoch es)
events-passed_on host hls_dir epoch (untimed name ∷ es) =
    ap (λ l. passed_on host hls_dir epoch (untimed name) ∷ l)
      (events-passed_on host hls_dir epoch es)

-- While ffmpeg's playlist only grows by whole lines, and is in the end some other tags, the line that
-- names the init segment, and entries, each a name behind its duration or without one: every entry is
-- passed on exactly once and in order, with the seconds in front of it or with none, and the init
-- segment at most once and under the name between the quotes, whatever the ticks and whenever the init
-- file appears. Reading a number of seconds is the host's.
pub watch_hls_fragments-written :
    (host : Host) (hls_dir : String) (epoch : ℤ)
    (ticks : List (Option (List String) × (String → Bool))) (tags : List String)
    (before uri rest : String) (es : List Entry)
    → Grows [] (map (λ r. r.0) ticks)
    → last_reading [] (map (λ r. r.0) ticks) ≡ playlist_lines tags before uri rest es
    → All (IsTag host) tags
    → IsMap host before uri rest
    → All (IsEntry host) es
    → let t =
        watch_hls_fragments host hls_dir epoch ticks
          (record { sent_init = false; sent_frags = 0; out = [] }) in
      (events_of false t.out ≡ map (passed_on host hls_dir epoch) es)
      × (events_of true t.out ≡ (
          if t.sent_init
          then record {
            path = host.join hls_dir uri;
            is_init = true;
            epoch = epoch;
            duration = pos 0;
          }
            ∷ []
          else []))
unfolding init_event
watch_hls_fragments-written host hls_dir epoch ticks tags before uri rest es g l t m e =
    let once = watch_hls_fragments_once host hls_dir epoch ticks g in
    let same =
      ap (λ ls. scan host ls empty_playlist) l ∙ scan-written host tags before uri rest es t m e in
    (
      once.0
          ∙ (ap (λ (p : Playlist). map (fragment_event host hls_dir epoch) p.frags) same
              ∙ events-passed_on host hls_dir epoch es),
      once.1
          ∙ ap
              (λ (p : Playlist).
                if (watch_hls_fragments host hls_dir epoch ticks
                  (record { sent_init = false; sent_frags = 0; out = [] })).sent_init
                then init_event host hls_dir epoch p.init_uri ∷ []
                else [])
              same,
    )
