-- ===== src/Transport/LiveManifest/Shortest.antt =====
-- How much of a stream a window shows.
use vox_streaming.Base.{
  ℕ, zero, suc, ◌+◌, ◌-◌, ◌≤◌, ◌<◌, ◌^◌, ◌≡◌, refl, ◌⊎◌, inl, inr, false, List, [], ◌∷◌, ◌++◌,
  arith, length, take, drop, take-append-drop, All, sym, ap, subst, ◌∙◌,
}
use vox_streaming.Base.Int.{pos, leb_ℤ}
use vox_streaming.Cache.Hls.{HlsFragmentMeta}
use vox_streaming.Transport.LiveManifest.Defs.{taken, backwards, window_fragments}
use vox_streaming.Transport.LiveManifest.Scan.{total_span, Forward, Fewest, taken-Fewest}

-- The scan runs over the fragments from the newest back.
backwards-append : (fs acc : List HlsFragmentMeta) → backwards fs acc ≡ backwards fs [] ++ acc
unfolding backwards
backwards-append [] acc = refl
backwards-append (f ∷ fs) acc =
    backwards-append fs (f ∷ acc)
    ∙ (sym (append_assoc (backwards fs []) (f ∷ []) acc)
        ∙ ap (λ x. x ++ acc) (sym (backwards-append fs (f ∷ []))))
  where
    append_assoc : (x y z : List HlsFragmentMeta) → (x ++ y) ++ z ≡ x ++ (y ++ z)
    append_assoc [] y z = refl
    append_assoc (w ∷ x) y z = ap (λ l. w ∷ l) (append_assoc x y z)

length-backwards :
    (fs acc : List HlsFragmentMeta) → length (backwards fs acc) ≡ length fs + length acc
unfolding backwards
length-backwards [] acc = omega arith
length-backwards (f ∷ fs) acc = omega (arith, length-backwards fs (f ∷ acc))

total_span-backwards :
    (fs acc : List HlsFragmentMeta) → total_span (backwards fs acc) ≡ total_span fs + total_span acc
unfolding backwards total_span
total_span-backwards [] acc = omega arith
total_span-backwards (f ∷ fs) acc = omega (arith, total_span-backwards fs (f ∷ acc))

All-backwards :
    (fs acc : List HlsFragmentMeta)
    → All Forward fs
    → All Forward acc
    → All Forward (backwards fs acc)
unfolding backwards
All-backwards [] acc a b = b
All-backwards (f ∷ fs) acc a b = All-backwards fs (f ∷ acc) a.1 (a.0, b)

total_span-take-append :
    (k : ℕ) (xs ys : List HlsFragmentMeta)
    → k ≤ length xs
    → total_span (take k (xs ++ ys)) ≡ total_span (take k xs)
unfolding total_span
total_span-take-append zero xs ys h = refl
total_span-take-append (suc k) [] ys h = absurd (omega arith)
total_span-take-append (suc k) (x ∷ xs) ys h =
    omega (arith, total_span-take-append k xs ys (omega arith))

total_span-take-all :
    (k : ℕ) (xs : List HlsFragmentMeta) → k ≡ length xs → total_span (take k xs) ≡ total_span xs
unfolding total_span
total_span-take-all zero [] h = refl
total_span-take-all zero (x ∷ xs) h = absurd (omega (arith, h))
total_span-take-all (suc k) [] h = absurd (omega (arith, h))
total_span-take-all (suc k) (x ∷ xs) h = omega (arith, total_span-take-all k xs (omega (arith, h)))

backwards-++ :
    (pre suffix acc : List HlsFragmentMeta)
    → backwards (pre ++ suffix) acc ≡ backwards suffix (backwards pre acc)
unfolding backwards
backwards-++ [] suffix acc = refl
backwards-++ (f ∷ pre) suffix acc = backwards-++ pre suffix (f ∷ acc)

-- The newest `k` fragments, where `k` is the length of a suffix, last as long as the suffix.
newest :
    (pre suffix : List HlsFragmentMeta) (k : ℕ)
    → k ≡ length suffix
    → total_span (take k (backwards (pre ++ suffix) [])) ≡ total_span suffix
unfolding backwards total_span
newest pre suffix k h =
    let l : length (backwards suffix []) ≡ length suffix + 0 = length-backwards suffix [] in
    ap (λ x. total_span (take k x))
      (backwards-++ pre suffix [] ∙ backwards-append suffix (backwards pre []))
    ∙ (total_span-take-append k (backwards suffix []) (backwards pre []) (omega (arith, l, h))
        ∙ (total_span-take-all k (backwards suffix []) (omega (arith, l, h)) ∙ total_span-nil))
  where
    total_span-nil : total_span (backwards suffix []) ≡ total_span suffix
    total_span-nil = omega (arith, total_span-backwards suffix [])

length-drop : (m : ℕ) (xs : List HlsFragmentMeta) → length (drop m xs) ≡ length xs - m
length-drop zero xs = omega arith
length-drop (suc m) [] = omega arith
length-drop (suc m) (x ∷ xs) = omega (arith, length-drop m xs)

-- What a number of fragments, the fewest that last as long as the window, says of the fragments after
-- the others.
suffix-Shortest :
    (frags : List HlsFragmentMeta) (window n : ℕ)
    → Fewest window 0 (backwards frags []) n
    → ((take (length frags - n) frags ≡ []) ⊎ (window ≤ total_span (drop (length frags - n) frags)))
      × ((f : HlsFragmentMeta) (later : List HlsFragmentMeta)
          → drop (length frags - n) frags ≡ f ∷ later
          → total_span later < window)
suffix-Shortest frags window n h = (reach h.1, before)
  where
    low : n ≤ length frags
    low = omega (arith, h.0, length-backwards frags [])

    whole : take (length frags - n) frags ++ drop (length frags - n) frags ≡ frags
    whole = take-append-drop (length frags - n) frags

    reach :
        ((n ≡ length (backwards frags []))
          ⊎ (window ≤ 0 + total_span (take n (backwards frags []))))
        → (take (length frags - n) frags ≡ [])
          ⊎ (window ≤ total_span (drop (length frags - n) frags))
    reach (inl e) =
        let none_left : length frags - n ≡ 0 = omega (arith, e, length-backwards frags []) in
        inl (ap (λ m. take m frags) none_left)
    reach (inr e) =
        let same =
          subst
            (λ x. total_span (take n (backwards x [])) ≡ total_span (drop (length frags - n) frags))
            whole
            (newest (take (length frags - n) frags) (drop (length frags - n) frags) n
              (omega (arith, length-drop (length frags - n) frags, low))) in
        inr (omega (arith, e, same))

    before :
        (f : HlsFragmentMeta) (later : List HlsFragmentMeta)
        → drop (length frags - n) frags ≡ f ∷ later
        → total_span later < window
    before f later e =
        let count : suc (length later) ≡ n =
          omega (arith, ap (λ x. length x) e, length-drop (length frags - n) frags, low) in
        let split : (take (length frags - n) frags ++ (f ∷ [])) ++ later ≡ frags =
          append_snoc (take (length frags - n) frags) f later
          ∙ (ap (λ x. take (length frags - n) frags ++ x) (sym e) ∙ whole) in
        let same =
          subst (λ x. total_span (take (length later) (backwards x [])) ≡ total_span later) split
            (newest (take (length frags - n) frags ++ (f ∷ [])) later (length later) refl) in
        omega (arith, h.2 (length later) (omega (arith, count)), same)
      where
        append_snoc :
            (xs : List HlsFragmentMeta) (x : HlsFragmentMeta) (ys : List HlsFragmentMeta)
            → (xs ++ (x ∷ [])) ++ ys ≡ xs ++ (x ∷ ys)
        append_snoc [] x ys = refl
        append_snoc (z ∷ xs) x ys = ap (λ l. z ∷ l) (append_snoc xs x ys)

-- For a window that is positive, over fragments none of which ends before it starts and that last less
-- than the longest duration together, what is served is the shortest end of the stream that lasts at
-- least as long as the window, or the whole stream: it is an end of the stream, it is all of it or
-- reaches the window, and without its first fragment it falls short of the window.
pub window_fragments_shortest :
    (frags : List HlsFragmentMeta) (window : ℕ)
    → 0 < window
    → All Forward frags
    → total_span frags ≤ 2 ^ 63 - 1
    → (before : List HlsFragmentMeta) × (before ++ window_fragments frags (pos window) ≡ frags)
      × ((before ≡ []) ⊎ (window ≤ total_span (window_fragments frags (pos window))))
      × ((f : HlsFragmentMeta) (later : List HlsFragmentMeta)
          → window_fragments frags (pos window) ≡ f ∷ later
          → total_span later < window)
unfolding window_fragments total_span
window_fragments_shortest frags window h a b =
    let shut : leb_ℤ (pos window) (pos 0) ≡ false = ground arith in
    let n : ℕ = taken (backwards frags []) (pos 0) (pos window) in
    let few =
      taken-Fewest (backwards frags []) 0 window (All-backwards frags [] a tt)
        (spans (total_span-backwards frags [])) h in
    let s = suffix-Shortest frags window n few in
    rw shut (take (length frags - n) frags, take-append-drop (length frags - n) frags, s.0, s.1)
  where
    spans :
        total_span (backwards frags []) ≡ total_span frags + total_span []
        → 0 + total_span (backwards frags []) ≤ 2 ^ 63 - 1
    spans e = omega (arith, e, b, nothing)
      where
        nothing : total_span [] ≡ 0
        nothing = refl
