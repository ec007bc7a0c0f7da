-- ===== src/Tests/Tails.antt =====
-- The tails of ffmpeg's list of segments and of its playlist.
use vox_streaming.Base.{
  ◌≡◌, refl, ◌++◌, true, false, [], ◌∷◌, none, some, String, List, Option, Bool, map, if◌then◌else◌,
}
use vox_streaming.Base.Int.{pos}
use vox_streaming.Base.Text.{is_empty}
use vox_streaming.Watcher.Tail.{
  Host, last_reading, lines_of, placed, watch_segments, watch_segments_once, watch_hls_fragments,
  events_of, HlsTail, Entry, timed, untimed, IsTag, IsMap, IsEntry, passed_on,
  watch_hls_fragments-written, parse_hls_map_uri, parse_hls_extinf_duration,
}
use text.Mathlib.Text.{◌==◌}

-- Names as on Unix, without a clean-up of the path, and one number.
abbrev host : Host
host = record {
  trim_space = λ s. s;
  is_abs = λ s. s == "/rec/1.mp4";
  join = λ dir name. dir;
  parse_seconds = λ s. if s == "4.0" then some (pos 4000000000) else none;
}

abbrev listings : List (Option (List String))
listings =
    some ("0.mp4" ∷ [])
    ∷ none
    ∷ some ("0.mp4" ∷ "" ∷ "/rec/1.mp4" ∷ [])
    ∷ some ("0.mp4" ∷ "" ∷ "/rec/1.mp4" ∷ [])
    ∷ []

watch_segments_once_example :
    (watch_segments host "/out" listings (record { sent = 0; out = [] })).out
    ≡ map (placed host "/out") (lines_of host (last_reading [] listings))
watch_segments_once_example =
    watch_segments_once host "/out" listings
      ((_, refl), ((("" ∷ "/rec/1.mp4" ∷ []), refl), (([], refl), tt)))

watched :
    (watch_segments host "/out" listings (record { sent = 0; out = [] })).out
    ≡ "/out" ∷ "/rec/1.mp4" ∷ []
unfolding watch_segments is_empty
watched = refl

map_uri : parse_hls_map_uri "#EXT-X-MAP:URI=\"init.mp4\"" ≡ "init.mp4"
unfolding parse_hls_map_uri
map_uri = refl

no_map_uri : parse_hls_map_uri "#EXT-X-MAP:URI=\"init.mp4" ≡ ""
unfolding parse_hls_map_uri
no_map_uri = refl

extinf : parse_hls_extinf_duration host "#EXTINF:4.0," ≡ pos 4000000000
unfolding parse_hls_extinf_duration
extinf = refl

abbrev first_lines : List String
first_lines = "#EXTM3U" ∷ "#EXT-X-MAP:URI=\"init.mp4\"" ∷ "#EXTINF:4.0," ∷ "0.m4s" ∷ []

-- The init file appears one tick after the playlist names it.
abbrev ticks : List (Option (List String) × (String → Bool))
ticks =
    (some first_lines, λ f. false)
    ∷ (some (first_lines ++ "1.m4s" ∷ []), λ f. true)
    ∷ (none, λ f. true)
    ∷ (some (first_lines ++ "1.m4s" ∷ []), λ f. true)
    ∷ []

abbrev entries : List Entry
entries = timed "4.0" "" "0.m4s" (pos 4000000000) ∷ untimed "1.m4s" ∷ []

named : (host.trim_space "1.m4s" ≡ "1.m4s") × (is_empty "1.m4s" ≡ false)
unfolding is_empty
named = (refl, refl)

tagged : IsTag host "#EXTM3U"
unfolding is_empty
tagged = ((refl, refl), refl, refl, refl)

mapped : IsMap host "#EXT-X-MAP:" "init.mp4" ""
unfolding is_empty
mapped = ((refl, refl), refl, refl, refl, refl)

first-IsEntry : IsEntry host (timed "4.0" "" "0.m4s" (pos 4000000000))
unfolding is_empty
first-IsEntry = ((refl, refl), refl, refl, ((refl, refl), refl, refl))

abbrev passed : HlsTail
passed =
    watch_hls_fragments host "/hls" (pos 2) ticks
      (record { sent_init = false; sent_frags = 0; out = [] })

watch_hls_fragments-written_example :
    (events_of false passed.out ≡ map (passed_on host "/hls" (pos 2)) entries)
    × (events_of true passed.out ≡ (
        if passed.sent_init
        then record { path = "/hls"; is_init = true; epoch = pos 2; duration = pos 0 } ∷ []
        else []))
watch_hls_fragments-written_example =
    watch_hls_fragments-written host "/hls" (pos 2) ticks ("#EXTM3U" ∷ []) "#EXT-X-MAP:" "init.mp4"
      "" entries ((_, refl), (("1.m4s" ∷ [], refl), (([], refl), tt))) refl (tagged, tt) mapped
      (first-IsEntry, ((named, refl, refl), tt))
