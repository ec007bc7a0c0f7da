-- ===== src/Transport/LiveManifest/Tags.antt =====
-- The discontinuities that a playlist shows.
use vox_streaming.Base.{
  ℕ, suc, ◌+◌, ◌≡◌, refl, Bool, true, false, List, [], ◌∷◌, ◌++◌, Option, none, some, arith,
  if◌then◌else◌, All, subst,
}
use vox_streaming.Base.Int.{ℤ}
use vox_streaming.Base.Eq.{eq, eq_ℤ}
use vox_streaming.Base.Clock.{Duration}
use vox_streaming.Base.Failure.{Result, ok, err, ◌>>=◌}
use vox_streaming.Cache.Hls.{HlsInitMeta, HlsFragmentMeta, fragment_before}
use vox_streaming.Transport.LiveManifest.Defs.{
  span, no_epoch, Line, extm3u, version, target_duration, media_sequence, discontinuity_sequence,
  discontinuity, map_uri, program_date_time, extinf, endlist, init_of, epoch_head, fragment_lines,
}

-- How often the epoch changes along a list of fragments, after an epoch `p`, and along a whole one.
unfoldable pub changes_from : ℤ → List HlsFragmentMeta → ℕ
changes_from p [] = 0
changes_from p (f ∷ fs) =
    let rest = changes_from f.epoch fs in (if eq f.epoch p then 0 else 1) + rest

unfoldable pub epoch_changes : List HlsFragmentMeta → ℕ
unfolding changes_from
epoch_changes [] = 0
epoch_changes (f ∷ fs) = changes_from f.epoch fs

-- The discontinuities that a playlist accounts for: those it counts as past, and its own tags.
unfoldable pub discontinuities : List Line → ℕ
discontinuities [] = 0
discontinuities (discontinuity ∷ ls) = suc (discontinuities ls)
discontinuities (discontinuity_sequence n ∷ ls) = n + discontinuities ls
discontinuities (_ ∷ ls) = discontinuities ls

abbrev pub Increasing : List HlsFragmentMeta → Type 0
Increasing [] = Unit
Increasing (f ∷ fs) = All (λ g. fragment_before f g ≡ true) fs × Increasing fs

abbrev pub IsEpoch : HlsFragmentMeta → Type 0
IsEpoch f = eq f.epoch no_epoch ≡ false

pub discontinuities-append :
    (xs ys : List Line) → discontinuities (xs ++ ys) ≡ discontinuities xs + discontinuities ys
unfolding discontinuities
discontinuities-append [] ys = omega arith
discontinuities-append (extm3u ∷ xs) ys = discontinuities-append xs ys
discontinuities-append (version n ∷ xs) ys = discontinuities-append xs ys
discontinuities-append (target_duration n ∷ xs) ys = discontinuities-append xs ys
discontinuities-append (media_sequence n ∷ xs) ys = discontinuities-append xs ys
discontinuities-append (discontinuity_sequence n ∷ xs) ys =
    omega (arith, discontinuities-append xs ys)
discontinuities-append (discontinuity ∷ xs) ys = omega (arith, discontinuities-append xs ys)
discontinuities-append (map_uri n ∷ xs) ys = discontinuities-append xs ys
discontinuities-append (program_date_time n ∷ xs) ys = discontinuities-append xs ys
discontinuities-append (extinf n m ∷ xs) ys = discontinuities-append xs ys
discontinuities-append (endlist ∷ xs) ys = discontinuities-append xs ys

-- A result that counts `n` discontinuities, if there is one.
abbrev pub Counts : Result (List Line) → ℕ → Type 0
Counts (ok ls) n = discontinuities ls ≡ n
Counts (err e) n = Unit

epoch_head-Counts :
    (inits : List HlsInitMeta) (f : HlsFragmentMeta) (p : ℤ)
    → Counts (epoch_head inits f p) (if eq f.epoch p then 0 else if eq p no_epoch then 0 else 1)
unfolding epoch_head discontinuities
epoch_head-Counts inits f p =
    go (init_of inits f.epoch) refl (eq f.epoch p) refl (eq p no_epoch) refl
  where
    go :
        (i : Option HlsInitMeta)
        → init_of inits f.epoch ≡ i
        → (a : Bool) → eq f.epoch p ≡ a
        → (b : Bool) → eq p no_epoch ≡ b
        → Counts (epoch_head inits f p) (if eq f.epoch p then 0 else if eq p no_epoch then 0 else 1)
    go i ei true ea b eb = rw (ea, epoch_head)
    go none ei false ea b eb = rw (ea, epoch_head, ei) tt
    go (some i) ei false ea true eb = rw (ea, epoch_head, ei, eb)
    go (some i) ei false ea false eb = rw (ea, epoch_head, ei, eb)

joined :
    (r s : Result (List Line)) (d : Duration) (seq : ℤ) (n m : ℕ)
    → Counts r n
    → Counts s m
    → Counts (r >>= λ head. s >>= λ tail. ok (head ++ (extinf d seq ∷ tail))) (n + m)
unfolding discontinuities
joined (err e) s d seq n m a b = tt
joined (ok x) (err e) d seq n m a b = tt
joined (ok x) (ok y) d seq n m a b =
    omega (arith, discontinuities-append x (extinf d seq ∷ y), a, b)

fragment_lines-Counts :
    (inits : List HlsInitMeta) (fs : List HlsFragmentMeta) (p : ℤ)
    → eq p no_epoch ≡ false
    → All IsEpoch fs
    → Counts (fragment_lines inits fs p) (changes_from p fs)
unfolding fragment_lines changes_from discontinuities
fragment_lines-Counts inits [] p e a = refl
fragment_lines-Counts inits (f ∷ fs) p e a =
    joined (epoch_head inits f p) (fragment_lines inits fs f.epoch) (span f) f.seq
      (if eq f.epoch p then 0 else 1) (changes_from f.epoch fs)
      (subst
        (λ (b : Bool).
          Counts (epoch_head inits f p) (if eq f.epoch p then 0 else if b then 0 else 1))
        e (epoch_head-Counts inits f p))
      (fragment_lines-Counts inits fs f.epoch a.0 a.1)

-- The first fragment of a window has no tag, since the playlist begins with it.
pub window-Counts :
    (inits : List HlsInitMeta) (f : HlsFragmentMeta) (fs : List HlsFragmentMeta)
    → All IsEpoch (f ∷ fs)
    → Counts (fragment_lines inits (f ∷ fs) no_epoch) (0 + changes_from f.epoch fs)
unfolding fragment_lines
window-Counts inits f fs a =
    joined (epoch_head inits f no_epoch) (fragment_lines inits fs f.epoch) (span f) f.seq 0
      (changes_from f.epoch fs)
      (subst (λ (b : Bool). Counts (epoch_head inits f no_epoch) (if b then 0 else 0)) a.0
        (epoch_head-Counts inits f no_epoch))
      (fragment_lines-Counts inits fs f.epoch a.0 a.1)
