-- ===== src/Transport/Peer/Closing/Registered.antt =====
-- The recording of a peer whose uploader and end are put together.
use vox_streaming.Base.{
  ℕ, ◌+◌, ◌<◌, ◌≡◌, refl, sym, ap, subst, ◌∙◌, ◌⊎◌, inl, inr, Bool, true, false, ◌||◌, List, [],
  ◌∷◌, none, some, String, arith, length, Elem, if◌then◌else◌,
}
use vox_streaming.Base.Int.{ℤ, pos}
use vox_streaming.Base.Eq.{eq, eq_refl, eq_ℤ, eq_text}
use vox_streaming.Base.Clock.{Time}
use vox_streaming.Base.Failure.{ok, Fault, ◌>>=◌}
use vox_streaming.Base.Redis.{hget}
use vox_streaming.Cache.Segment.{
  SegmentMeta, SegmentRegistry, add, find, mark_complete, find-add, segment_ttl, decode_field,
}
use vox_streaming.Transport.Peer.Uploader.{
  SegmentFile, Uploader, Contiguous, run_segment_uploader, new_uploader,
  run_segment_uploader-Uploads,
}
use vox_streaming.Transport.Peer.Closing.Defs.{
  Teardown, Flag, CloseCalls, close, register_segments, registered_or,
}
use vox_streaming.Transport.Peer.Closing.Verdict.{Complete, close-completed}

-- A segment that is yet to be registered, or one with a smaller number that is there now.
abbrev IsDue : Time → String → ℕ → SegmentMeta → List SegmentMeta → SegmentRegistry → Type 0
IsDue now stream_id n x ms r =
    Elem x ms
    ⊎ ((k : ℕ) × (x.seq ≡ pos k) × (k < n) × (find none now stream_id x.seq r ≡ ok (some x)))

-- After one segment is added it is found, and so is one with another number that was there.
add-found :
    (now later : Time) (stream_id : String) (m x : SegmentMeta) (n : ℕ) (r s : SegmentRegistry)
    → later < now + segment_ttl
    → m.seq ≡ pos n
    → add none now stream_id m r ≡ ok s
    → IsDue now stream_id n x (m ∷ []) r
    → find none later stream_id x.seq s ≡ ok (some x)
unfolding find
add-found now later stream_id m x n r s l e a d =
    ap (λ o. o >>= find none later stream_id x.seq) (sym a)
    ∙ (find-add now later stream_id m x.seq r l ∙ go d)
  where
    go :
        IsDue now stream_id n x (m ∷ []) r
        → (if eq m.seq x.seq then ok (some m) else decode_field (hget now stream_id x.seq r.hashes))
          ≡ ok (some x)
    go (inl (inl same)) = rw (same, eq_refl m.seq) refl
    go (inl (inr nowhere)) = absurd nowhere
    go (inr (k, other, lt, f)) = ground (arith, e, other, f)

added :
    (fault : Fault) (now : Time) (stream_id : String) (m : SegmentMeta) (r : SegmentRegistry)
    → (registered_or r (add fault now stream_id m r)).1 ≡ false
    → (s : SegmentRegistry) × (add none now stream_id m r ≡ ok s)
      × ((registered_or r (add fault now stream_id m r)).0 ≡ s)
unfolding add
added none now stream_id m r h = (_, refl, refl)
added (some e) now stream_id m r h = cc

still-IsDue :
    (now : Time) (stream_id : String) (x m : SegmentMeta) (ms : List SegmentMeta) (n : ℕ)
    (r s : SegmentRegistry)
    → m.seq ≡ pos n
    → add none now stream_id m r ≡ ok s
    → IsDue now stream_id n x (m ∷ ms) r
    → IsDue now stream_id (n + 1) x ms s
still-IsDue now stream_id x m ms n r s e a (inl (inl same)) = inr (
  n,
  ap (λ y. y.seq) same ∙ e,
  omega arith,
  add-found now now stream_id m x n r s (omega arith) e a (inl (inl same)),
)
still-IsDue now stream_id x m ms n r s e a (inl (inr there)) = inl there
still-IsDue now stream_id x m ms n r s e a (inr (k, other, lt, f)) = inr (
  k,
  other,
  omega arith,
  add-found now now stream_id m x n r s (omega arith) e a (inr (k, other, lt, f)),
)

neither : (a b : Bool) → (a || b) ≡ false → (a ≡ false) × (b ≡ false)
neither a b h = ground arith

register_segments-found :
    (w : CloseCalls) (later : Time) (stream_id : String) (x m : SegmentMeta) (ms : List SegmentMeta)
    (n j : ℕ) (t u : Time) (r : SegmentRegistry)
    → later < w.now + segment_ttl
    → Contiguous n t (m ∷ ms) j u
    → (register_segments w stream_id (m ∷ ms) r).1 ≡ false
    → IsDue w.now stream_id n x (m ∷ ms) r
    → find none later stream_id x.seq (register_segments w stream_id (m ∷ ms) r).0 ≡ ok (some x)
unfolding register_segments
register_segments-found w later stream_id x m [] n j t u r l c f d =
    let (s, a, e) = added (w.add_fault m) w.now stream_id m r (neither _ _ f).0 in
    ap (λ q. find none later stream_id x.seq q) e
    ∙ add-found w.now later stream_id m x n r s l c.0 a d
register_segments-found w later stream_id x m (m' ∷ ms) n j t u r l c f d =
    let (s, a, e) = added (w.add_fault m) w.now stream_id m r (neither _ _ f).0 in
    let q = (registered_or r (add (w.add_fault m) w.now stream_id m r)).0 in
    register_segments-found w later stream_id x m' ms (n + 1) j m.ended_at u q l c.2
      (neither _ _ f).1
      (subst (IsDue w.now stream_id (n + 1) x (m' ∷ ms)) (sym e)
        (still-IsDue w.now stream_id x m (m' ∷ ms) n r s c.0 a d))

-- Marking a stream complete leaves its segments.
find-close :
    (w : CloseCalls) (flag : Flag) (later : Time) (stream_id : String) (seq : ℤ) (t : Teardown)
    (r : SegmentRegistry)
    → t.recorder_started ≡ true
    → find none later stream_id seq (close w flag stream_id t r).0
      ≡ find none later stream_id seq (register_segments w stream_id t.segs r).0
unfolding close find mark_complete
find-close w flag later stream_id seq t r s = ground arith

-- What `close` reads of an uploader: what it left, if it was seen to be done in time; while it is still
-- at work anything may be read.
abbrev pub Saw : Teardown → Uploader → Type 0
Saw t u = t.upload_done ≡ true → (t.segs ≡ u.segs) × (t.incomplete ≡ u.incomplete)

-- If the end of a peer with ffmpeg ingest marks a recording complete that was not, then each file that
-- ffmpeg handed over was uploaded, and for a day each of those segments is found in the registry under
-- its number, whatever segments the registry held before. The end of the peer may come while the
-- uploader is still at work: only of one that was done in time is it assumed that what it left was read.
pub close-found :
    (w : CloseCalls) (flag : Flag) (start later : Time) (stream_id : String) (fs : List SegmentFile)
    (t : Teardown) (r : SegmentRegistry)
    → later < w.now + segment_ttl
    → t.has_ingest ≡ true
    → Saw t (run_segment_uploader fs (new_uploader start))
    → Complete w.now stream_id r false
    → Complete w.now stream_id (close w flag stream_id t r).0 true
    → (length t.segs ≡ length fs)
      × ((x : SegmentMeta)
          → Elem x t.segs
          → find none later stream_id x.seq (close w flag stream_id t r).0 ≡ ok (some x))
close-found w flag start later stream_id fs t r l i saw n h =
    let c = close-completed w flag stream_id t r i n h in
    let (e, f) = saw c.2 in
    let u = run_segment_uploader-Uploads start fs in
    let a = u.all_there (sym f ∙ c.3) in
    (
      ap length e ∙ a.0,
      λ x m.
          find-close w flag later stream_id x.seq t r c.0
          ∙ nonempty t.segs x m c.4 (
              subst
                (λ s.
                  Contiguous 0 start s (length fs)
                    (run_segment_uploader fs (new_uploader start)).prev_at)
                (sym e) a.1),
    )
  where
    nonempty :
        (segs : List SegmentMeta) (x : SegmentMeta)
        → Elem x segs
        → (register_segments w stream_id segs r).1 ≡ false
        → Contiguous 0 start segs (length fs) (run_segment_uploader fs (new_uploader start)).prev_at
        → find none later stream_id x.seq (register_segments w stream_id segs r).0 ≡ ok (some x)
    nonempty [] x m g k = absurd m
    nonempty (s ∷ ss) x m g k =
        register_segments-found w later stream_id x s ss 0 (length fs) start
          (run_segment_uploader fs (new_uploader start)).prev_at r l k g (inl m)
