-- ===== src/Stream/Coverage/Missing.antt =====
-- The gaps of a recording: with an inventory an exact difference, without one a guess from the times
-- that cannot see a missing first or last segment.
use vox_streaming.Base.{
  ◌≡◌, refl, sym, ◌≢◌, ◌↔◌, inl, inr, Bool, true, false, not, List, [], ◌∷◌, ◌++◌, map, none, some,
  arith, if◌then◌else◌, length, Elem, ap, subst, ltb, ◌∙◌,
}
use vox_streaming.Base.Eq.{eq_ℤ, int_beq_iff}
use vox_streaming.Base.Int.{ℤ, pos, ltb_ℤ}
use vox_streaming.Base.Clock.{sub, seconds}
use vox_streaming.Base.Order.{IsSorted, sort-IsSorted, sort-Elem, Elem-sort}
use vox_streaming.Cache.Segment.{SegmentMeta}
use vox_streaming.Cache.Inventory.{DeclaredSegment, StreamInventory}
use vox_streaming.Stream.Gap.{SegmentGap, audit_gaps, gaps_after, gap_between}
use vox_streaming.Stream.Float.{Floats}
use vox_streaming.Stream.Coverage.Defs.{
  coverage_has_gaps, arrived, missing_of, ltb_seq, reconcile, reconcile_segments,
  reconcile_declared, reconcile_received,
}

-- No segment with a sequence number is among those that were received.
abbrev pub IsAbsent : List SegmentMeta → ℤ → Type 0
IsAbsent received seq = (m : SegmentMeta) → Elem m received → m.seq ≢ seq

arrived-false : (ms : List SegmentMeta) (seq : ℤ) → arrived ms seq ≡ false → IsAbsent ms seq
unfolding arrived
arrived-false [] seq h m k e = absurd k
arrived-false (x ∷ xs) seq h m (inl same) e =
    ground (arith, int_beq_iff x.seq seq, ap (λ (s : SegmentMeta). s.seq) same)
arrived-false (x ∷ xs) seq h m (inr k) e = arrived-false xs seq (ground arith) m k e

absent_false : (ms : List SegmentMeta) (seq : ℤ) → IsAbsent ms seq → arrived ms seq ≡ false
unfolding arrived
absent_false [] seq h = refl
absent_false (x ∷ xs) seq h =
    let first : x.seq ≢ seq = h x (inl refl) in
    let rest : arrived xs seq ≡ false = absent_false xs seq (λ m k. h m (inr k)) in
    ground (arith, int_beq_iff x.seq seq)

-- A segment that was declared under a sequence number.
abbrev pub IsDeclared : List DeclaredSegment → ℤ → Type 0
IsDeclared ds seq = (d : DeclaredSegment) × Elem d ds × (d.seq ≡ seq)

missing_of_sound :
    (ms : List SegmentMeta) (ds : List DeclaredSegment) (seq : ℤ)
    → Elem seq (missing_of ms ds)
    → IsDeclared ds seq × (arrived ms seq ≡ false)
unfolding missing_of
missing_of_sound ms [] seq h = absurd h
missing_of_sound ms (d ∷ ds) seq h = go (arrived ms d.seq) refl (missing_of_sound ms ds seq) h
  where
    go :
        (b : Bool)
        → arrived ms d.seq ≡ b
        → (Elem seq (missing_of ms ds) → IsDeclared ds seq × (arrived ms seq ≡ false))
        → Elem seq (if not b then d.seq ∷ missing_of ms ds else missing_of ms ds)
        → IsDeclared (d ∷ ds) seq × (arrived ms seq ≡ false)
    go true e ih k = let (f, a) = ih k in ((f.0, inr f.1, f.2), a)
    go false e ih (inl k) = ((d, inl refl, sym k), rw k e)
    go false e ih (inr k) = let (f, a) = ih k in ((f.0, inr f.1, f.2), a)

missing_of_complete :
    (ms : List SegmentMeta) (ds : List DeclaredSegment) (seq : ℤ)
    → IsDeclared ds seq
    → arrived ms seq ≡ false
    → Elem seq (missing_of ms ds)
unfolding missing_of
missing_of_complete ms [] seq h a = absurd h.1
missing_of_complete ms (d ∷ ds) seq (c, k, e) a =
    go (arrived ms d.seq) refl k (λ k. missing_of_complete ms ds seq (c, k, e) a)
  where
    go :
        (b : Bool)
        → arrived ms d.seq ≡ b
        → Elem c (d ∷ ds)
        → (Elem c ds → Elem seq (missing_of ms ds))
        → Elem seq (if not b then d.seq ∷ missing_of ms ds else missing_of ms ds)
    go true f (inl same) ih = absurd (ground (arith, ap (λ (s : DeclaredSegment). s.seq) same))
    go true f (inr k) ih = ih k
    go false f (inl same) ih = inl (sym e ∙ ap (λ (s : DeclaredSegment). s.seq) same)
    go false f (inr k) ih = inr (ih k)

ltb_seq_asym : (a b : ℤ) → ltb_seq a b ≡ true → ltb_seq b a ≡ false
ltb_seq_asym a b h = ground arith

module _ (fl : Floats) where
  -- With an inventory that lists a segment, the missing sequence numbers are in order, and they are
  -- exactly those that the client declared and that no received segment has.
  pub reconcile-missing :
      (inventory : StreamInventory) (d : DeclaredSegment) (ds : List DeclaredSegment)
      (received : List SegmentMeta)
      → inventory.segments ≡ d ∷ ds
      → let c = reconcile fl (some inventory) received in
        IsSorted ltb_seq c.missing_seqs
        × ((seq : ℤ)
            → Elem seq c.missing_seqs ↔ (IsDeclared inventory.segments seq × IsAbsent received seq))
  unfolding reconcile reconcile_segments reconcile_declared
  reconcile-missing inventory d ds received e =
      rw (e, reconcile_segments)
        (
          sort-IsSorted ltb_seq ltb_seq_asym (missing_of received (d ∷ ds)),
          λ seq. (
            λ k.
                let (f, a) =
                  missing_of_sound received (d ∷ ds) seq
                    (sort-Elem ltb_seq seq (missing_of received (d ∷ ds)) k) in
                (f, arrived-false received seq a),
            λ k.
                Elem-sort ltb_seq seq (missing_of received (d ∷ ds))
                  (missing_of_complete received (d ∷ ds) seq k.0 (absent_false received seq k.1)),
          ),
        )

  -- With such an inventory `HasGaps` is false exactly when every declared segment arrived.
  pub reconcile-coverage_has_gaps :
      (inventory : StreamInventory) (d : DeclaredSegment) (ds : List DeclaredSegment)
      (received : List SegmentMeta)
      → inventory.segments ≡ d ∷ ds
      → (coverage_has_gaps (reconcile fl (some inventory) received) ≡ false)
        ↔ ((s : DeclaredSegment) → Elem s (d ∷ ds) → ¬ IsAbsent received s.seq)
  unfolding coverage_has_gaps
  reconcile-coverage_has_gaps inventory d ds received e =
      let exact = (reconcile-missing inventory d ds received e).1 in
      (
        λ none_missing s k absent.
            nothing-Elem _ none_missing s.seq ((exact s.seq).1 ((s, rw e k, refl), absent)),
        λ all_there. no-Elem _ λ seq k.
            let (f, absent) = (exact seq).0 k in
            all_there f.0 (subst (Elem f.0) e f.1) (rw f.2 absent),
      )
    where
      nothing-Elem : (xs : List ℤ) → ltb 0 (length xs) ≡ false → (seq : ℤ) → Elem seq xs → ⊥
      nothing-Elem [] h seq k = k
      nothing-Elem (x ∷ xs) h seq k = ground arith

      no-Elem : (xs : List ℤ) → ((seq : ℤ) → ¬ Elem seq xs) → ltb 0 (length xs) ≡ false
      no-Elem [] h = refl
      no-Elem (x ∷ xs) h = absurd (h x (inl refl))

-- The guess from times does not see a segment that is missing from the start or the end: a run of
-- segments without a gap has none after its first or its last is taken away.
gaps_after-tail :
    (m n : SegmentMeta) (ms : List SegmentMeta) → gaps_after m (n ∷ ms) ≡ [] → gaps_after n ms ≡ []
unfolding gaps_after gap_between
gaps_after-tail m n ms h = go (ltb_ℤ (pos (seconds 2)) (sub n.started_at m.ended_at)) _ h
  where
    go :
        (b : Bool) (g : SegmentGap)
        → (if b then g ∷ gaps_after n ms else gaps_after n ms) ≡ []
        → gaps_after n ms ≡ []
    go true g h = cc
    go false g h = h

gaps_after-init :
    (m last : SegmentMeta) (ms : List SegmentMeta)
    → gaps_after m (ms ++ last ∷ []) ≡ []
    → gaps_after m ms ≡ []
unfolding gaps_after gap_between
gaps_after-init m last [] h = refl
gaps_after-init m last (n ∷ ms) h =
    go (ltb_ℤ (pos (seconds 2)) (sub n.started_at m.ended_at)) _ (gaps_after-init n last ms) h
  where
    go :
        (b : Bool) (g : SegmentGap)
        → (gaps_after n (ms ++ last ∷ []) ≡ [] → gaps_after n ms ≡ [])
        → (if b then g ∷ gaps_after n (ms ++ last ∷ []) else gaps_after n (ms ++ last ∷ [])) ≡ []
        → (if b then g ∷ gaps_after n ms else gaps_after n ms) ≡ []
    go true g ih h = cc
    go false g ih h = ih h

module _ (fl : Floats) where
  map-nil : (gs : List SegmentGap) → map (λ g. g.to_seq) gs ≡ [] → gs ≡ []
  map-nil [] h = refl
  map-nil (g ∷ gs) h = cc

  -- Without an inventory, when a received run shows no gap, neither does what is left of it once its
  -- first segment, or its last, is lost: the gap at the start or at the end is not reported.
  pub reconcile_blind_spots :
      (first last : SegmentMeta) (ms : List SegmentMeta)
      → (reconcile fl none (first ∷ ms ++ last ∷ [])).missing_seqs ≡ []
      → ((reconcile fl none (ms ++ last ∷ [])).missing_seqs ≡ [])
        × ((reconcile fl none (first ∷ ms)).missing_seqs ≡ [])
  unfolding reconcile reconcile_received audit_gaps
  reconcile_blind_spots first last ms h =
      let gapless = map-nil (gaps_after first (ms ++ last ∷ [])) h in
      (head ms gapless, ap (map (λ g. g.to_seq)) (gaps_after-init first last ms gapless))
    where
      head :
          (ms : List SegmentMeta)
          → gaps_after first (ms ++ last ∷ []) ≡ []
          → (reconcile fl none (ms ++ last ∷ [])).missing_seqs ≡ []
      head [] g = refl
      head (n ∷ ns) g = ap (map (λ g. g.to_seq)) (gaps_after-tail first n (ns ++ last ∷ []) g)
