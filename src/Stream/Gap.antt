-- ===== src/Stream/Gap.antt =====
-- internal/stream/gap.go and audit.go: gaps between consecutive segments, from their times.
use vox_streaming.Base.{List, [], ◌∷◌, if◌then◌else◌}
use vox_streaming.Base.Int.{ℤ, pos, ltb_ℤ, ◌+ℤ◌, wrap64}
use vox_streaming.Base.Clock.{Duration, sub, seconds}
use vox_streaming.Cache.Segment.{SegmentMeta}

pub record SegmentGap : Type 0 where
  pub from_seq : ℤ
  pub to_seq : ℤ
  pub missing : Duration

-- The gap before `m`, where `prev` comes before it: more than two seconds.
unfoldable pub gap_between : SegmentMeta → SegmentMeta → List SegmentGap → List SegmentGap
gap_between prev m gaps =
    let gap = sub m.started_at prev.ended_at in
    if ltb_ℤ (pos (seconds 2)) gap
    then record { from_seq = prev.seq; to_seq = m.seq; missing = gap } ∷ gaps
    else gaps

-- The loop over the segments from the second one on.
unfoldable pub gaps_after : SegmentMeta → List SegmentMeta → List SegmentGap
unfolding gap_between
gaps_after prev [] = []
gaps_after prev (m ∷ ms) = gap_between prev m (gaps_after m ms)

-- The sum of the segments' own spans, which wraps.
unfoldable pub total_recorded : Duration → List SegmentMeta → Duration
total_recorded total [] = total
total_recorded total (m ∷ ms) = total_recorded (wrap64 (total +ℤ sub m.ended_at m.started_at)) ms

unfoldable pub audit_gaps : List SegmentMeta → List SegmentGap × Duration
unfolding gaps_after total_recorded
audit_gaps [] = ([], pos 0)
audit_gaps (m ∷ ms) = (gaps_after m ms, total_recorded (pos 0) (m ∷ ms))
