-- ===== src/Watcher/Tail/Playlist.antt =====
-- hls_watch.go: a playlist as ffmpeg writes it, line by line, and what the tail reads in it.
use vox_streaming.Base.{
  ◌+◌, ◌≡◌, refl, sym, ap, ◌∙◌, true, false, List, [], ◌∷◌, ◌++◌, none, some, String, All, map,
  arith,
}
use vox_streaming.Base.Int.{ℤ, pos}
use vox_streaming.Base.Clock.{Duration}
use vox_streaming.Base.Text.{is_empty}
use vox_streaming.Watcher.Tail.Readings.{Host}
use vox_streaming.Watcher.Tail.Fragments.{
  HlsFragmentEvent, FragEntry, Playlist, empty_playlist, up_to_quote, from_marker,
  parse_hls_map_uri, up_to_comma, trim_prefix, parse_hls_extinf_duration, scan_line, scan,
}
use vox_streaming.Watcher.Tail.Growth.{scan-append}
use Prim.Native.String.{len, slice}
use Prim.Native.String.{◌++◌ as ◌⋈◌}
use text.Mathlib.Text.{starts_with, find?}
use text.Mathlib.TextPositions.{
  len-append, slice-append_left, slice-append_right, starts_with-append,
}
use mathlib.Core.List.{append_assoc as entries_assoc, append-nil}

-- A fragment of a playlist: its name, and the line before it that gives its duration, if there is one.
pub data Entry : Type 0 where
  timed : (secs title name : String) → Duration → Entry
  untimed : (name : String) → Entry

abbrev pub extinf_line : String → String → String
extinf_line secs title = "#EXTINF:" ⋈ (secs ⋈ ("," ⋈ title))

abbrev pub entry_lines : List Entry → List String
entry_lines [] = []
entry_lines (timed secs title name lasts ∷ es) = extinf_line secs title ∷ name ∷ entry_lines es
entry_lines (untimed name ∷ es) = name ∷ entry_lines es

abbrev pub map_line : String → String → String → String
map_line before uri rest = (before ⋈ "URI=\"") ⋈ (uri ⋈ ("\"" ⋈ rest))

-- A line that is neither blank nor surrounded by spaces.
abbrev pub IsPlain : Host → String → Type 0
IsPlain host line = (host.trim_space line ≡ line) × (is_empty line ≡ false)

abbrev pub IsName : Host → String → Type 0
IsName host line =
    IsPlain host line × (starts_with line "#EXTINF:" ≡ false) × (starts_with line "#" ≡ false)

-- The seconds end at the first comma, and they are read as the duration.
abbrev pub IsEntry : Host → Entry → Type 0
IsEntry host (timed secs title name lasts) =
    IsPlain host (extinf_line secs title)
    × (find? (secs ⋈ ("," ⋈ title)) "," ≡ some (len secs))
    × (host.parse_seconds secs ≡ some lasts)
    × IsName host name
IsEntry host (untimed name) = IsName host name

-- Another tag.
abbrev pub IsTag : Host → String → Type 0
IsTag host line =
    IsPlain host line
    × (starts_with line "#EXT-X-MAP:" ≡ false)
    × (starts_with line "#EXTINF:" ≡ false)
    × (starts_with line "#" ≡ true)

-- The name stands between the first mark and the quote after it.
abbrev pub IsMap : Host → String → String → String → Type 0
IsMap host before uri rest =
    IsPlain host (map_line before uri rest)
    × (starts_with (map_line before uri rest) "#EXT-X-MAP:" ≡ true)
    × (find? (map_line before uri rest) "URI=\"" ≡ some (len before))
    × (find? (uri ⋈ ("\"" ⋈ rest)) "\"" ≡ some (len uri))
    × (is_empty uri ≡ false)

-- What is to be passed on of an entry.
abbrev pub passed_on : Host → String → ℤ → Entry → HlsFragmentEvent
passed_on host hls_dir epoch (timed secs title name lasts) = record {
  path = host.join hls_dir name;
  is_init = false;
  epoch = epoch;
  duration = lasts;
}
passed_on host hls_dir epoch (untimed name) = record {
  path = host.join hls_dir name;
  is_init = false;
  epoch = epoch;
  duration = pos 0;
}

abbrev pub read_entry : Entry → FragEntry
read_entry (timed secs title name lasts) = record { name = name; duration = lasts }
read_entry (untimed name) = record { name = name; duration = pos 0 }

-- The rest of a text behind a part of it.
behind : (s t : String) → slice (s ⋈ t) (len s) (len (s ⋈ t)) ≡ t
behind s t = ap (λ n. slice (s ⋈ t) (len s) n) (len-append s t) ∙ slice-append_right s t

parse_hls_extinf_duration-written :
    (host : Host) (secs title : String) (lasts : Duration)
    → find? (secs ⋈ ("," ⋈ title)) "," ≡ some (len secs)
    → host.parse_seconds secs ≡ some lasts
    → parse_hls_extinf_duration host (extinf_line secs title) ≡ lasts
unfolding parse_hls_extinf_duration
parse_hls_extinf_duration-written host secs title lasts c p =
    let rest : trim_prefix (extinf_line secs title) "#EXTINF:" ≡ secs ⋈ ("," ⋈ title) =
      rw (starts_with-append "#EXTINF:" (secs ⋈ ("," ⋈ title)))
        (behind "#EXTINF:" (secs ⋈ ("," ⋈ title))) in
    let number : up_to_comma (secs ⋈ ("," ⋈ title)) (find? (secs ⋈ ("," ⋈ title)) ",") ≡ secs =
      ap (up_to_comma (secs ⋈ ("," ⋈ title))) c ∙ slice-append_left secs ("," ⋈ title) in
    let text = ap (λ t. up_to_comma t (find? t ",")) rest ∙ number in
    ap (λ t. elim (host.parse_seconds t) [ some d ↦ d | none ↦ pos 0 ]) text ∙ rw p refl

parse_hls_map_uri-written :
    (before uri rest : String)
    → find? (map_line before uri rest) "URI=\"" ≡ some (len before)
    → find? (uri ⋈ ("\"" ⋈ rest)) "\"" ≡ some (len uri)
    → parse_hls_map_uri (map_line before uri rest) ≡ uri
unfolding parse_hls_map_uri
parse_hls_map_uri-written before uri rest m q =
    let line = map_line before uri rest in
    let tail : slice line (len before + len "URI=\"") (len line) ≡ uri ⋈ ("\"" ⋈ rest) =
      ap (λ n. slice line n (len line)) (sym (len-append before "URI=\""))
      ∙ behind (before ⋈ "URI=\"") (uri ⋈ ("\"" ⋈ rest)) in
    ap (from_marker line) m
    ∙ (ap (λ t. up_to_quote t (find? t "\"")) tail
        ∙ (ap (up_to_quote (uri ⋈ ("\"" ⋈ rest))) q ∙ slice-append_left uri ("\"" ⋈ rest)))

scan_line-tag :
    (host : Host) (line : String) (p : Playlist) → IsTag host line → scan_line host line p ≡ p
unfolding scan_line
scan_line-tag host line p t = rw (t.0.0, t.0.1, t.1, t.2, t.3) (ground arith)

scan-tags :
    (host : Host) (ls : List String) (p : Playlist) → All (IsTag host) ls → scan host ls p ≡ p
unfolding scan
scan-tags host [] p t = refl
scan-tags host (l ∷ ls) p t =
    ap (scan host ls) (scan_line-tag host l p t.0) ∙ scan-tags host ls p t.1

scan_line-map :
    (host : Host) (before uri rest : String)
    → IsMap host before uri rest
    → scan_line host (map_line before uri rest) empty_playlist
      ≡ record empty_playlist { init_uri = uri }
unfolding scan_line is_empty
scan_line-map host before uri rest m =
    rw (m.0.0, m.0.1, m.1)
      (ap (λ u. record empty_playlist { init_uri = u })
        (parse_hls_map_uri-written before uri rest m.2 m.3))

scan_line-extinf :
    (host : Host) (secs title name : String) (lasts : Duration) (p : Playlist)
    → is_empty p.init_uri ≡ false
    → IsEntry host (timed secs title name lasts)
    → scan_line host (extinf_line secs title) p ≡ record p { pending_duration = lasts }
unfolding scan_line
scan_line-extinf host secs title name lasts p i e =
    rw (e.0.0, e.0.1, i, starts_with-append "#EXTINF:" (secs ⋈ ("," ⋈ title)))
      (ap (λ d. record p { pending_duration = d })
        (parse_hls_extinf_duration-written host secs title lasts e.1 e.2))

scan_line-name :
    (host : Host) (name : String) (p : Playlist)
    → is_empty p.init_uri ≡ false
    → IsName host name
    → scan_line host name p ≡ record p {
      frags = p.frags ++ record { name = name; duration = p.pending_duration } ∷ [];
      pending_duration = pos 0;
    }
unfolding scan_line
scan_line-name host name p i n = rw (n.0.0, n.0.1, i, n.1, n.2) refl

-- A playlist to which entries were added.
abbrev with_entries : Playlist → List Entry → Playlist
with_entries p es = record p { frags = p.frags ++ map read_entry es; pending_duration = pos 0 }

then-entries :
    (p : Playlist) (e : Entry) (es : List Entry)
    → with_entries (with_entries p (e ∷ [])) es ≡ with_entries p (e ∷ es)
then-entries p e es =
    ap (λ fs. record p { frags = fs; pending_duration = pos 0 })
      (entries_assoc p.frags (read_entry e ∷ []) (map read_entry es))

scan-entries :
    (host : Host) (es : List Entry) (p : Playlist)
    → is_empty p.init_uri ≡ false
    → p.pending_duration ≡ pos 0
    → All (IsEntry host) es
    → scan host (entry_lines es) p ≡ with_entries p es
unfolding scan
scan-entries host [] p i z a =
    ap (λ fs. record p { frags = fs }) (sym (append-nil p.frags))
    ∙ ap (λ d. record p { frags = p.frags ++ []; pending_duration = d }) z
scan-entries host (timed secs title name lasts ∷ es) p i z a =
    ap (λ q. scan host (entry_lines es) (scan_line host name q))
      (scan_line-extinf host secs title name lasts p i a.0)
    ∙ (ap (scan host (entry_lines es))
          (scan_line-name host name (record p { pending_duration = lasts }) i a.0.3)
        ∙ (scan-entries host es (with_entries p (timed secs title name lasts ∷ [])) i refl a.1
            ∙ then-entries p (timed secs title name lasts) es))
scan-entries host (untimed name ∷ es) p i z a =
    ap (scan host (entry_lines es)) (
      scan_line-name host name p i a.0
      ∙ ap
          (λ d. record p {
            frags = p.frags ++ record { name = name; duration = d } ∷ [];
            pending_duration = pos 0;
          })
          z)
    ∙ (scan-entries host es (with_entries p (untimed name ∷ [])) i refl a.1
        ∙ then-entries p (untimed name) es)

-- The whole playlist: tags, the line that names the init segment, and the entries.
abbrev pub playlist_lines : List String → String → String → String → List Entry → List String
playlist_lines tags before uri rest es = tags ++ (map_line before uri rest ∷ entry_lines es)

pub scan-written :
    (host : Host) (tags : List String) (before uri rest : String) (es : List Entry)
    → All (IsTag host) tags
    → IsMap host before uri rest
    → All (IsEntry host) es
    → scan host (playlist_lines tags before uri rest es) empty_playlist
      ≡ record { init_uri = uri; frags = map read_entry es; pending_duration = pos 0 }
unfolding scan
scan-written host tags before uri rest es t m e =
    scan-append host tags (map_line before uri rest ∷ entry_lines es) empty_playlist
    ∙ (ap (scan host (map_line before uri rest ∷ entry_lines es))
          (scan-tags host tags empty_playlist t)
        ∙ (ap (scan host (entry_lines es)) (scan_line-map host before uri rest m)
            ∙ scan-entries host es (record empty_playlist { init_uri = uri }) m.4 refl e))
