-- ===== src/Transport/LiveManifest/Window.antt =====
-- The playlist of a window beside the whole stream.
use vox_streaming.Base.{
  ℕ, ◌+◌, ◌-◌, ◌≡◌, refl, Bool, true, false, List, [], ◌∷◌, ◌++◌, arith, if◌then◌else◌, length,
  take, drop, take-append-drop, All, sym, ap, subst,
}
use vox_streaming.Base.Int.{ℤ, pos, leb_ℤ}
use vox_streaming.Base.Eq.{eq, eq_ℤ, eq_refl}
use vox_streaming.Base.Clock.{Duration}
use vox_streaming.Base.Failure.{Result, ok, err, ◌>>=◌, ok-injective}
use vox_streaming.Cache.Hls.{HlsInitMeta, HlsFragmentMeta, fragment_before}
use vox_streaming.Transport.LiveManifest.Defs.{
  window_fragments, no_epoch, trimmed, boundary, discontinuities_before, Line, extm3u, version,
  target_duration, media_sequence, discontinuity_sequence, longest, ceil_seconds, fragment_lines,
  ends, playlist, served, taken, backwards, build_live_manifest,
}
use vox_streaming.Transport.LiveManifest.Tags.{
  changes_from, epoch_changes, discontinuities, Increasing, IsEpoch, Counts, window-Counts,
  discontinuities-append,
}

-- The epoch of the last fragment, or the one before.
last_epoch : ℤ → List HlsFragmentMeta → ℤ
last_epoch p [] = p
last_epoch p (f ∷ fs) = last_epoch f.epoch fs

changes_from-append :
    (p : ℤ) (pre : List HlsFragmentMeta) (f : HlsFragmentMeta) (post : List HlsFragmentMeta)
    → changes_from p (pre ++ (f ∷ post))
      ≡ changes_from p pre
        + ((if eq f.epoch (last_epoch p pre) then 0 else 1) + changes_from f.epoch post)
unfolding changes_from last_epoch
changes_from-append p [] f post = omega arith
changes_from-append p (g ∷ pre) f post = omega (arith, changes_from-append g.epoch pre f post)

trimmed-append :
    (pre : List HlsFragmentMeta) (f : HlsFragmentMeta) (post : List HlsFragmentMeta) (count : ℕ)
    (p : ℤ)
    → eq p no_epoch ≡ false
    → All IsEpoch pre
    → All (λ g. fragment_before g f ≡ true) pre
    → trimmed f.seq (pre ++ (f ∷ post)) count p ≡ (count + changes_from p pre, last_epoch p pre)
unfolding trimmed changes_from last_epoch
trimmed-append [] f post count p e a b = rw (refl_leb f.seq) (ap (λ n. (n, p)) (omega arith))
  where
    refl_leb : (x : ℤ) → leb_ℤ x x ≡ true
    refl_leb x = ground arith
trimmed-append (g ∷ pre) f post count p e a b =
    go (eq g.epoch p) refl (λ c. trimmed-append pre f post c g.epoch a.0 a.1 b.1)
  where
    later : leb_ℤ f.seq g.seq ≡ false
    later = ground (arith, b.0)

    go :
        (d : Bool)
        → eq g.epoch p ≡ d
        → ((c : ℕ)
            → trimmed f.seq (pre ++ (f ∷ post)) c g.epoch
              ≡ (c + changes_from g.epoch pre, last_epoch g.epoch pre))
        → trimmed f.seq (g ∷ (pre ++ (f ∷ post))) count p
          ≡ (count + changes_from p (g ∷ pre), last_epoch p (g ∷ pre))
    go true ed ih =
        rw (trimmed, later, changes_from, ed, e, ih count)
          (ap (λ n. (n, last_epoch g.epoch pre)) (omega arith))
    go false ed ih =
        rw (trimmed, later, changes_from, ed, e, ih (count + 1))
          (ap (λ n. (n, last_epoch g.epoch pre)) (omega arith))

boundary-append :
    (pre : List HlsFragmentMeta) (f : HlsFragmentMeta) (post : List HlsFragmentMeta) (p : ℤ)
    → All (λ g. fragment_before g f ≡ true) pre
    → boundary f.seq (pre ++ (f ∷ post)) p ≡ (if eq f.epoch p then 0 else 1)
unfolding boundary
boundary-append [] f post p b = rw (eq_refl f.seq) (ground arith)
boundary-append (g ∷ pre) f post p b = rw (other) (boundary-append pre f post p b.1)
  where
    other : eq g.seq f.seq ≡ false
    other = ground (arith, b.0)

last_epoch-IsEpoch :
    (p : ℤ) (fs : List HlsFragmentMeta)
    → eq p no_epoch ≡ false
    → All IsEpoch fs
    → eq (last_epoch p fs) no_epoch ≡ false
unfolding last_epoch
last_epoch-IsEpoch p [] e a = e
last_epoch-IsEpoch p (f ∷ fs) e a = last_epoch-IsEpoch f.epoch fs a.0 a.1

-- What the window scrolled past, the boundary included.
discontinuities_before-append :
    (pre : List HlsFragmentMeta) (f : HlsFragmentMeta) (post : List HlsFragmentMeta)
    → All IsEpoch pre
    → All (λ g. fragment_before g f ≡ true) pre
    → discontinuities_before (pre ++ (f ∷ post)) f.seq + changes_from f.epoch post
      ≡ epoch_changes (pre ++ (f ∷ post))
unfolding discontinuities_before epoch_changes trimmed changes_from last_epoch
discontinuities_before-append [] f post a b = rw (refl_leb f.seq) (omega arith)
  where
    refl_leb : (x : ℤ) → leb_ℤ x x ≡ true
    refl_leb x = ground arith
discontinuities_before-append (g ∷ pre) f post a b =
    rw
      (
        later,
        trimmed-append pre f post 0 g.epoch a.0 a.1 b.1,
        last_epoch-IsEpoch g.epoch pre a.0 a.1,
      )
      (omega (
        arith,
        boundary-append (g ∷ pre) f post (last_epoch g.epoch pre) b,
        changes_from-append g.epoch pre f post,
      ))
  where
    later : leb_ℤ f.seq g.seq ≡ false
    later = ground (arith, b.0)

-- What is served is the end of the stream.
served-suffix :
    (frags : List HlsFragmentMeta) (window : Duration)
    → (pre : List HlsFragmentMeta) × (pre ++ served frags window ≡ frags)
unfolding served window_fragments
served-suffix frags window = go (window_fragments frags window) (windowed (leb_ℤ window (pos 0)))
  where
    windowed :
        (b : Bool)
        → (pre : List HlsFragmentMeta) × (pre
              ++ (if b
                  then frags
                  else drop (length frags - taken (backwards frags []) (pos 0) window) frags)
            ≡ frags)
    windowed true = ([], refl)
    windowed false =
        let n = length frags - taken (backwards frags []) (pos 0) window in
        (take n frags, take-append-drop n frags)

    go :
        (w : List HlsFragmentMeta)
        → (pre : List HlsFragmentMeta) × (pre ++ w ≡ frags)
        → (pre : List HlsFragmentMeta) × (pre
              ++ (elim w as (λ (x : List HlsFragmentMeta). List HlsFragmentMeta) [
                | [] ↦ drop (length frags - 1) frags
                | f ∷ fs ↦ f ∷ fs
              ])
            ≡ frags)
    go [] h = (take (length frags - 1) frags, take-append-drop (length frags - 1) frags)
    go (f ∷ fs) h = h

All-split :
    (P : HlsFragmentMeta → Type 0) (pre post : List HlsFragmentMeta)
    → All P (pre ++ post)
    → All P pre × All P post
All-split P [] post h = (tt, h)
All-split P (g ∷ pre) post h = let r = All-split P pre post h.1 in ((h.0, r.0), r.1)

Increasing-split :
    (pre : List HlsFragmentMeta) (f : HlsFragmentMeta) (post : List HlsFragmentMeta)
    → Increasing (pre ++ (f ∷ post))
    → All (λ g. fragment_before g f ≡ true) pre
Increasing-split [] f post h = tt
Increasing-split (g ∷ pre) f post h = (
  (All-split (λ x. fragment_before g x ≡ true) pre (f ∷ post) h.0).1.0,
  Increasing-split pre f post h.1,
)

playlist-discontinuities :
    (inits : List HlsInitMeta) (frags pre w : List HlsFragmentMeta) (ended : Bool)
    (lines : List Line)
    → pre ++ w ≡ frags
    → Increasing frags
    → All IsEpoch frags
    → playlist inits frags w ended ≡ ok lines
    → discontinuities lines ≡ epoch_changes frags
unfolding playlist discontinuities
playlist-discontinuities inits frags pre [] ended lines e inc a h = cc
playlist-discontinuities inits frags pre (f ∷ fs) ended lines e inc a h =
    let all = All-split IsEpoch pre (f ∷ fs) (subst (All IsEpoch) (sym e) a) in
    let low = Increasing-split pre f fs (subst Increasing (sym e) inc) in
    go (fragment_lines inits (f ∷ fs) no_epoch) (window-Counts inits f fs all.1)
      (subst (λ x. discontinuities_before x f.seq + changes_from f.epoch fs ≡ epoch_changes x) e
        (discontinuities_before-append pre f fs all.0 low))
      h
  where
    tail_of : (b : Bool) → discontinuities (ends b) ≡ 0
    tail_of true = refl
    tail_of false = refl

    go :
        (r : Result (List Line))
        → Counts r (0 + changes_from f.epoch fs)
        → discontinuities_before frags f.seq + changes_from f.epoch fs ≡ epoch_changes frags
        → (r >>= λ ls. ok (
            extm3u
            ∷ version 7
            ∷ target_duration (ceil_seconds (longest (f ∷ fs) (pos 0)))
            ∷ media_sequence f.seq
            ∷ discontinuity_sequence (discontinuities_before frags f.seq)
            ∷ (ls ++ ends ended)))
          ≡ ok lines
        → discontinuities lines ≡ epoch_changes frags
    go (err x) c d h = cc
    go (ok ls) c d h =
        subst (λ x. discontinuities x ≡ epoch_changes frags) (ok-injective h)
          (omega (arith, discontinuities-append ls (ends ended), tail_of ended, c, d))

-- However a window trims the stream, the playlist accounts for every restart of the recorder: the
-- discontinuities that it counts as scrolled past and those that it shows add up to the changes of
-- epoch along the whole stream, for fragments in order of distinct sequence numbers whose epochs are
-- not the program's mark for "none".
pub build_live_manifest-discontinuities :
    (inits : List HlsInitMeta) (frags : List HlsFragmentMeta) (window : Duration) (ended : Bool)
    (lines : List Line)
    → Increasing frags
    → All IsEpoch frags
    → build_live_manifest inits frags window ended ≡ ok lines
    → discontinuities lines ≡ epoch_changes frags
unfolding build_live_manifest
build_live_manifest-discontinuities inits [] window ended lines inc a h = cc
build_live_manifest-discontinuities inits (f ∷ fs) window ended lines inc a h =
    let s = served-suffix (f ∷ fs) window in
    playlist-discontinuities inits (f ∷ fs) s.0 (served (f ∷ fs) window) ended lines s.1 inc a h
