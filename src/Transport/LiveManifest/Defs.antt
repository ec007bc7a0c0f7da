-- ===== src/Transport/LiveManifest/Defs.antt =====
-- live_manifest.go: the playlist as its lines. A duration stays in nanoseconds until it is printed,
-- an asset is named by its epoch or sequence number, and the URI that `assetURI` makes of the name
-- is not formed.
use vox_streaming.Base.{
  ℕ, suc, ◌+◌, ◌-◌, ◌/◌, Bool, true, false, not, ◌&&◌, List, [], ◌∷◌, ◌++◌, Option, none, some,
  if◌then◌else◌, length, drop,
}
use vox_streaming.Base.Int.{ℤ, pos, negsuc, ltb_ℤ, leb_ℤ, wrap64, ◌+ℤ◌}
use vox_streaming.Base.Eq.{eq, eq_ℤ}
use vox_streaming.Base.Clock.{Time, Duration, sub}
use vox_streaming.Base.Failure.{Result, ok, err, message, ◌>>=◌}
use vox_streaming.Cache.Hls.{HlsInitMeta, HlsFragmentMeta}

abbrev pub span : HlsFragmentMeta → Duration
span f = sub f.ended_at f.started_at

-- `windowFragments`: the scan from the newest fragment back, over the reversed list, that counts how
-- many fragments it takes.
unfoldable pub taken : List HlsFragmentMeta → Duration → Duration → ℕ
taken [] total window = 0
taken (f ∷ older) total window =
    let next = wrap64 (total +ℤ span f) in
    let rest = taken older next window in if leb_ℤ window next then 1 else suc rest

unfoldable pub backwards : List HlsFragmentMeta → List HlsFragmentMeta → List HlsFragmentMeta
backwards [] acc = acc
backwards (f ∷ fs) acc = backwards fs (f ∷ acc)

unfoldable pub window_fragments : List HlsFragmentMeta → Duration → List HlsFragmentMeta
unfolding taken backwards
window_fragments frags window =
    if leb_ℤ window (pos 0)
    then frags
    else drop (length frags - taken (backwards frags []) (pos 0) window) frags

abbrev pub no_epoch : ℤ
no_epoch = negsuc 0

-- `discontinuitiesBefore`: the first loop, with its counter and the epoch before.
unfoldable pub trimmed : ℤ → List HlsFragmentMeta → ℕ → ℤ → ℕ × ℤ
trimmed first [] count prev = (count, prev)
trimmed first (f ∷ fs) count prev =
    let rest =
      trimmed first fs
        (if not (eq prev no_epoch) && not (eq f.epoch prev) then count + 1 else count) f.epoch in
    if leb_ℤ first f.seq then (count, prev) else rest

-- The second loop.
unfoldable pub boundary : ℤ → List HlsFragmentMeta → ℤ → ℕ
boundary first [] prev = 0
boundary first (f ∷ fs) prev =
    let rest = boundary first fs prev in
    if eq f.seq first then (if not (eq f.epoch prev) then 1 else 0) else rest

unfoldable pub discontinuities_before : List HlsFragmentMeta → ℤ → ℕ
unfolding trimmed boundary
discontinuities_before frags first =
    let t = trimmed first frags 0 no_epoch in
    if not (eq t.1 no_epoch) then t.0 + boundary first frags t.1 else t.0

pub data Line : Type 0 where
  extm3u : Line
  version : ℕ → Line
  target_duration : ℕ → Line
  media_sequence : ℤ → Line
  discontinuity_sequence : ℕ → Line
  discontinuity : Line
  map_uri : ℤ → Line
  program_date_time : Time → Line
  extinf : Duration → ℤ → Line
  endlist : Line

-- `initByEpoch`: the last init of an epoch stands.
unfoldable pub init_of : List HlsInitMeta → ℤ → Option HlsInitMeta
init_of [] epoch = none
init_of (i ∷ is) epoch = elim (init_of is epoch) [
  | some later ↦ some later
  | none ↦ if eq i.epoch epoch then some i else none
]

-- The longest span of the fragments, from zero, and its seconds rounded up.
unfoldable pub longest : List HlsFragmentMeta → Duration → Duration
longest [] d = d
longest (f ∷ fs) d = longest fs (if ltb_ℤ d (span f) then span f else d)

unfoldable pub ceil_seconds : Duration → ℕ
ceil_seconds (pos n) = (n + 999999999) / 1000000000
ceil_seconds (negsuc n) = 0

-- The lines at the head of an epoch.
unfoldable pub epoch_head : List HlsInitMeta → HlsFragmentMeta → ℤ → Result (List Line)
epoch_head inits f prev =
    if not (eq f.epoch prev)
    then (elim (init_of inits f.epoch) [
      | none ↦ err (message "missing hls init segment")
      | some i ↦
          let anchor : List Line = map_uri i.epoch ∷ program_date_time f.started_at ∷ [] in
          ok (if not (eq prev no_epoch) then discontinuity ∷ anchor else anchor)
    ])
    else ok []

-- The loop over the window; within an epoch `prevEpoch` stands as it was, which is the epoch.
unfoldable pub fragment_lines : List HlsInitMeta → List HlsFragmentMeta → ℤ → Result (List Line)
unfolding epoch_head
fragment_lines inits [] prev = ok []
fragment_lines inits (f ∷ fs) prev =
    let rest = fragment_lines inits fs f.epoch in
    do head ← epoch_head inits f prev; tail ← rest; ok (head ++ (extinf (span f) f.seq ∷ tail))

abbrev pub ends : Bool → List Line
ends true = endlist ∷ []
ends false = []

-- The playlist of a window, and none of an empty one.
unfoldable pub playlist :
    List HlsInitMeta → List HlsFragmentMeta → List HlsFragmentMeta → Bool → Result (List Line)
unfolding fragment_lines discontinuities_before longest ceil_seconds
playlist inits frags [] ended = err (message "no fragment")
playlist inits frags (f ∷ fs) ended = do
  lines ← fragment_lines inits (f ∷ fs) no_epoch
  ok (
      extm3u
      ∷ version 7
      ∷ target_duration (ceil_seconds (longest (f ∷ fs) (pos 0)))
      ∷ media_sequence f.seq
      ∷ discontinuity_sequence (discontinuities_before frags f.seq)
      ∷ (lines ++ ends ended))

-- The window, or the newest fragment when it is empty.
unfoldable pub served : List HlsFragmentMeta → Duration → List HlsFragmentMeta
unfolding window_fragments
served frags window = elim (window_fragments frags window) [
  | [] ↦ drop (length frags - 1) frags
  | f ∷ fs ↦ f ∷ fs
]

unfoldable pub build_live_manifest :
    List HlsInitMeta → List HlsFragmentMeta → Duration → Bool → Result (List Line)
unfolding served playlist
build_live_manifest inits [] window ended = err (message "no hls fragments available yet")
build_live_manifest inits (f ∷ fs) window ended =
    playlist inits (f ∷ fs) (served (f ∷ fs) window) ended
