-- ===== src/Transport/LiveManifest/Scan.antt =====
-- The scan of `windowFragments` from the newest fragment back.
use vox_streaming.Base.{
  ℕ, zero, suc, ◌+◌, ◌-◌, ◌≤◌, ◌<◌, ◌^◌, ◌≡◌, refl, ◌⊎◌, inl, inr, List, [], ◌∷◌, arith, if_ind,
  length, take, All, ap,
}
use vox_streaming.Base.Int.{pos, leb_ℤ, wrap64, ◌+ℤ◌, saturate64}
use vox_streaming.Base.Clock.{sub}
use vox_streaming.Cache.Hls.{HlsFragmentMeta}
use vox_streaming.Transport.LiveManifest.Defs.{span, taken}

-- The nanoseconds that fragments last, together.
unfoldable pub total_span : List HlsFragmentMeta → ℕ
total_span [] = 0
total_span (f ∷ fs) = f.ended_at - f.started_at + total_span fs

abbrev pub Forward : HlsFragmentMeta → Type 0
Forward f = f.started_at ≤ f.ended_at

span_fits :
    (f : HlsFragmentMeta)
    → Forward f
    → f.ended_at - f.started_at ≤ 2 ^ 63 - 1
    → span f ≡ pos (f.ended_at - f.started_at)
unfolding sub saturate64
span_fits f h b = ground arith

add_fits : (a b : ℕ) → a + b ≤ 2 ^ 63 - 1 → wrap64 (pos a +ℤ pos b) ≡ pos (a + b)
unfolding wrap64 ◌+ℤ◌
add_fits a b h = ground arith

-- What the scan back takes: the fewest of the newest fragments that last as long as what is left of
-- the window, or all.
abbrev pub Fewest : ℕ → ℕ → List HlsFragmentMeta → ℕ → Type 0
Fewest window total fs n =
    (n ≤ length fs)
    × ((n ≡ length fs) ⊎ (window ≤ total + total_span (take n fs)))
    × ((k : ℕ) → k < n → total + total_span (take k fs) < window)

-- One fragment reaches the window, or more of them are taken.
Fewest-one :
    (window total : ℕ) (f : HlsFragmentMeta) (fs : List HlsFragmentMeta)
    → total < window
    → window ≤ total + (f.ended_at - f.started_at)
    → Fewest window total (f ∷ fs) 1
unfolding total_span
Fewest-one window total f fs h r = (omega arith, inr (omega arith), λ k l. before k l)
  where
    before : (k : ℕ) → k < 1 → total + total_span (take k (f ∷ fs)) < window
    before zero l = omega arith
    before (suc k) l = absurd (omega arith)

Fewest-more :
    (window total n : ℕ) (f : HlsFragmentMeta) (fs : List HlsFragmentMeta)
    → total < window
    → Fewest window (total + (f.ended_at - f.started_at)) fs n
    → Fewest window total (f ∷ fs) (suc n)
unfolding total_span
Fewest-more window total n f fs h r = (omega (arith, r.0), reach r.1, before)
  where
    reach :
        ((n ≡ length fs) ⊎ (window ≤ total + (f.ended_at - f.started_at) + total_span (take n fs)))
        → (suc n ≡ suc (length fs)) ⊎ (window ≤ total + total_span (take (suc n) (f ∷ fs)))
    reach (inl e) = inl (ap suc e)
    reach (inr e) = inr (omega arith)

    before : (k : ℕ) → k < suc n → total + total_span (take k (f ∷ fs)) < window
    before zero l = omega arith
    before (suc k) l = omega (arith, r.2 k (omega arith))

pub taken-Fewest :
    (fs : List HlsFragmentMeta) (total window : ℕ)
    → All Forward fs
    → total + total_span fs ≤ 2 ^ 63 - 1
    → total < window
    → Fewest window total fs (taken fs (pos total) (pos window))
unfolding taken total_span
taken-Fewest [] total window a b h = (omega arith, inl refl, λ k l. absurd (omega arith))
taken-Fewest (f ∷ fs) total window a b h =
    rw
      (
        taken,
        span_fits f a.0 (omega arith),
        add_fits total (f.ended_at - f.started_at) (omega arith),
      )
      (if_ind (λ (n : ℕ). Fewest window total (f ∷ fs) n)
        (leb_ℤ (pos window) (pos (total + (f.ended_at - f.started_at))))
        (λ e. Fewest-one window total f fs h (ground (arith, e)))
        (λ e.
          Fewest-more window total
            (taken fs (pos (total + (f.ended_at - f.started_at))) (pos window)) f fs h
            (taken-Fewest fs (total + (f.ended_at - f.started_at)) window a.1 (omega arith)
              (ground (arith, e)))))
