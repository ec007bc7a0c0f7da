-- ===== src/Watcher/Tail/Fragments.antt =====
-- hls_watch.go: the init segment and the fragments that ffmpeg's playlist names are passed on.
use vox_streaming.Base.{
  ℕ, ◌+◌, Bool, true, false, not, ◌&&◌, List, [], ◌∷◌, ◌++◌, Option, none, some, String, length,
  drop, map, leb, if◌then◌else◌,
}
use vox_streaming.Base.Int.{ℤ, pos}
use vox_streaming.Base.Clock.{Duration}
use vox_streaming.Base.Text.{is_empty}
use vox_streaming.Watcher.Tail.Readings.{Host}
use Prim.Native.String.{len, slice}
use text.Mathlib.Text.{starts_with, find?}

pub record HlsFragmentEvent : Type 0 where
  pub path : String
  pub is_init : Bool
  pub epoch : ℤ
  pub duration : Duration

pub record FragEntry : Type 0 where
  pub name : String
  pub duration : Duration

-- What was read of the playlist so far.
pub record Playlist : Type 0 where
  pub init_uri : String
  pub frags : List FragEntry
  pub pending_duration : Duration

abbrev pub empty_playlist : Playlist
empty_playlist = record { init_uri = ""; frags = []; pending_duration = pos 0 }

abbrev pub up_to_quote : String → Option ℕ → String
up_to_quote rest none = ""
up_to_quote rest (some stop) = slice rest 0 stop

abbrev pub from_marker : String → Option ℕ → String
from_marker line none = ""
from_marker line (some start) =
    let rest = slice line (start + len "URI=\"") (len line) in up_to_quote rest (find? rest "\"")

-- `parseHLSMapURI`.
unfoldable pub parse_hls_map_uri : String → String
parse_hls_map_uri line = from_marker line (find? line "URI=\"")

abbrev pub up_to_comma : String → Option ℕ → String
up_to_comma rest none = rest
up_to_comma rest (some comma) = slice rest 0 comma

abbrev pub trim_prefix : String → String → String
trim_prefix line prefix =
    if starts_with line prefix then slice line (len prefix) (len line) else line

-- `parseHLSExtinfDuration`.
unfoldable pub parse_hls_extinf_duration : Host → String → Duration
parse_hls_extinf_duration host line =
    let rest = trim_prefix line "#EXTINF:" in
    elim (host.parse_seconds (up_to_comma rest (find? rest ","))) [ some d ↦ d | none ↦ pos 0 ]

-- One turn of the scanner's loop.
unfoldable pub scan_line : Host → String → Playlist → Playlist
unfolding parse_hls_map_uri parse_hls_extinf_duration
scan_line host text p =
    let line = host.trim_space text in
    if is_empty line
    then p
    else if is_empty p.init_uri && starts_with line "#EXT-X-MAP:"
    then record p { init_uri = parse_hls_map_uri line }
    else if starts_with line "#EXTINF:"
    then record p { pending_duration = parse_hls_extinf_duration host line }
    else if starts_with line "#"
    then p
    else record p {
      frags = p.frags ++ record { name = line; duration = p.pending_duration } ∷ [];
      pending_duration = pos 0;
    }

unfoldable pub scan : Host → List String → Playlist → Playlist
unfolding scan_line
scan host [] p = p
scan host (l ∷ ls) p = scan host ls (scan_line host l p)

-- `sentInit` and `sentFrags`, and what went into the channel.
pub record HlsTail : Type 0 where
  pub sent_init : Bool
  pub sent_frags : ℕ
  pub out : List HlsFragmentEvent

unfoldable pub init_event : Host → String → ℤ → String → HlsFragmentEvent
init_event host hls_dir epoch uri = record {
  path = host.join hls_dir uri;
  is_init = true;
  epoch = epoch;
  duration = pos 0;
}

unfoldable pub fragment_event : Host → String → ℤ → FragEntry → HlsFragmentEvent
fragment_event host hls_dir epoch entry = record {
  path = host.join hls_dir entry.name;
  is_init = false;
  epoch = epoch;
  duration = entry.duration;
}

-- The init segment, once its file is there.
unfoldable pub emit_init : Host → String → ℤ → (String → Bool) → Playlist → HlsTail → HlsTail
unfolding init_event
emit_init host hls_dir epoch exists p t =
    if not t.sent_init && not (is_empty p.init_uri) && exists (host.join hls_dir p.init_uri)
    then record t { out = t.out ++ init_event host hls_dir epoch p.init_uri ∷ []; sent_init = true }
    else t

unfoldable pub emit_fragments : Host → String → ℤ → Playlist → HlsTail → HlsTail
unfolding fragment_event
emit_fragments host hls_dir epoch p t = if leb (length p.frags) t.sent_frags then t else record t {
  out = t.out ++ map (fragment_event host hls_dir epoch) (drop t.sent_frags p.frags);
  sent_frags = length p.frags;
}

-- A reading of the playlist, if it could be read, and the files that are there.
unfoldable pub emit_new_hls_entries :
    Host → String → ℤ → Option (List String) → (String → Bool) → HlsTail → HlsTail
unfolding scan emit_init emit_fragments
emit_new_hls_entries host hls_dir epoch none exists t = t
emit_new_hls_entries host hls_dir epoch (some raw) exists t =
    let p = scan host raw empty_playlist in
    emit_fragments host hls_dir epoch p (emit_init host hls_dir epoch exists p t)

-- A tick for each reading, and one more when the context ends.
unfoldable pub watch_hls_fragments :
    Host → String → ℤ → List (Option (List String) × (String → Bool)) → HlsTail → HlsTail
unfolding emit_new_hls_entries
watch_hls_fragments host hls_dir epoch [] t = t
watch_hls_fragments host hls_dir epoch (r ∷ rs) t =
    watch_hls_fragments host hls_dir epoch rs (emit_new_hls_entries host hls_dir epoch r.0 r.1 t)
