-- ===== src/Stream/Coverage/Defs.antt =====
-- coverage.go: reconciling an inventory with the segments that arrived. The texts of `Detail` are
-- kept as the values that they are formatted from.
use vox_streaming.Base.{
  ℕ, ◌-◌, ◌/◌, ◌%◌, Bool, true, false, not, ◌||◌, List, [], ◌∷◌, ◌++◌, map, Option, none, some,
  if◌then◌else◌, length, get_elem?, ◌==◌, ltb,
}
use vox_streaming.Base.Eq.{eq, eq_ℤ}
use vox_streaming.Base.Int.{ℤ, pos, ltb_ℤ, leb_ℤ, ◌+ℤ◌, wrap64}
use vox_streaming.Base.Clock.{Duration, sub}
use vox_streaming.Base.Order.{sort}
use vox_streaming.Cache.Segment.{SegmentMeta}
use vox_streaming.Cache.Inventory.{DeclaredSegment, StreamInventory}
use vox_streaming.Stream.Gap.{SegmentGap, audit_gaps}
use vox_streaming.Stream.Float.{Floats}

pub data AnomalyKind : Type 0 where
  missing not_captured low_frame_rate empty : AnomalyKind

pub data Detail (F : Type 0) : Type 0 where
  unaccounted : Duration → ℤ → ℤ → Detail F
  never_reached zero_bytes : Detail F
  no_frames : Duration → Detail F
  slow : F → F → Detail F

pub record CoverageAnomaly (F : Type 0) : Type 0 where
  pub seq : ℤ
  pub kind : AnomalyKind
  pub detail : Detail F

pub record StreamCoverage (F : Type 0) : Type 0 where
  pub declared_segments : ℕ
  pub received_segments : ℕ
  pub missing_seqs : List ℤ
  pub anomalies : List (CoverageAnomaly F)
  pub has_inventory : Bool
  pub client_complete : Bool
  pub declared_frames : ℤ

-- `HasGaps`.
unfoldable pub coverage_has_gaps : {F : Type 0} → StreamCoverage F → Bool
coverage_has_gaps c = ltb 0 (length c.missing_seqs)

-- The set `receivedSeqs`: whether a sequence number arrived.
unfoldable pub arrived : List SegmentMeta → ℤ → Bool
arrived [] seq = false
arrived (m ∷ ms) seq = eq m.seq seq || arrived ms seq

-- The loop over the declared segments: what it sums and appends.
unfoldable pub declared_frames_from : List SegmentMeta → ℤ → List DeclaredSegment → ℤ
declared_frames_from received acc [] = acc
declared_frames_from received acc (d ∷ ds) =
    declared_frames_from received
      (if arrived received d.seq then wrap64 (acc +ℤ d.frames_written) else acc) ds

unfoldable pub missing_of : List SegmentMeta → List DeclaredSegment → List ℤ
missing_of received [] = []
missing_of received (d ∷ ds) =
    if not (arrived received d.seq) then d.seq ∷ missing_of received ds else missing_of received ds

abbrev pub never_arrived : {F : Type 0} → ℤ → CoverageAnomaly F
never_arrived seq = record { seq = seq; kind = missing; detail = never_reached }

abbrev pub gap_anomaly : {F : Type 0} → SegmentGap → CoverageAnomaly F
gap_anomaly g = record {
  seq = g.to_seq;
  kind = missing;
  detail = unaccounted g.missing g.from_seq g.to_seq;
}

abbrev pub ltb_seq : ℤ → ℤ → Bool
ltb_seq a b = ltb_ℤ a b

module _ (fl : Floats) where
  open fl use {Float, of_int, seconds_of, plus, times, over, less}

  -- The loop of `medianFrameRate`.
  unfoldable pub frame_rates : List DeclaredSegment → List Float
  frame_rates [] = []
  frame_rates (d ∷ ds) =
      let duration = sub d.ended_at d.started_at in
      if leb_ℤ duration (pos 0) || leb_ℤ d.frames_written (pos 0)
      then frame_rates ds
      else over (of_int d.frames_written) (seconds_of duration) ∷ frame_rates ds

  abbrev float_or : Option Float → Float
  float_or none = of_int (pos 0)
  float_or (some x) = x

  -- The middle of a sorted list that is not empty.
  unfoldable pub middle_rate : List Float → Float
  middle_rate rates =
      let middle = length rates / 2 in
      if length rates % 2 == 1
      then float_or (get_elem? rates middle)
      else over (plus (float_or (get_elem? rates (middle - 1))) (float_or (get_elem? rates middle)))
          (of_int (pos 2))

  unfoldable pub median_frame_rate : List DeclaredSegment → Float
  unfolding frame_rates middle_rate
  median_frame_rate declared =
      let rates = frame_rates declared in
      if length rates == 0 then of_int (pos 0) else middle_rate (sort less rates)

  -- `lowFrameRateFraction`.
  abbrev pub low_frame_rate_fraction : Float
  low_frame_rate_fraction = over (of_int (pos 1)) (of_int (pos 2))

  -- One round of `captureAnomalies`: what it appends. `baseline <= 0` is `!(0 < baseline)`, for a
  -- rate, which is a number.
  unfoldable pub capture_anomaly : Float → DeclaredSegment → Option (CoverageAnomaly Float)
  capture_anomaly baseline d =
      let duration = sub d.ended_at d.started_at in
      let rate = over (of_int d.frames_written) (seconds_of duration) in
      if eq d.size_bytes (pos 0)
      then some (record { seq = d.seq; kind = empty; detail = zero_bytes })
      else if leb_ℤ duration (pos 0)
      then none
      else if eq d.frames_written (pos 0)
      then some (record { seq = d.seq; kind = not_captured; detail = no_frames duration })
      else if not (less (of_int (pos 0)) baseline)
      then none
      else if less rate (times baseline low_frame_rate_fraction)
      then some (record { seq = d.seq; kind = low_frame_rate; detail = slow rate baseline })
      else none

  abbrev cons_some :
      Option (CoverageAnomaly Float) → List (CoverageAnomaly Float) → List (CoverageAnomaly Float)
  cons_some none xs = xs
  cons_some (some x) xs = x ∷ xs

  unfoldable pub capture_anomalies_from :
      Float → List DeclaredSegment → List (CoverageAnomaly Float)
  unfolding capture_anomaly
  capture_anomalies_from baseline [] = []
  capture_anomalies_from baseline (d ∷ ds) =
      cons_some (capture_anomaly baseline d) (capture_anomalies_from baseline ds)

  unfoldable pub capture_anomalies : List DeclaredSegment → List (CoverageAnomaly Float)
  unfolding capture_anomalies_from median_frame_rate
  capture_anomalies declared = capture_anomalies_from (median_frame_rate declared) declared

  -- Without an inventory: the heuristic on times.
  unfoldable pub reconcile_received : List SegmentMeta → StreamCoverage Float
  reconcile_received received = record {
    declared_segments = 0;
    received_segments = length received;
    missing_seqs = map (λ g. g.to_seq) (audit_gaps received).0;
    anomalies = map gap_anomaly (audit_gaps received).0;
    has_inventory = false;
    client_complete = false;
    declared_frames = pos 0;
  }

  -- With one that lists a segment: the subtraction.
  unfoldable pub reconcile_declared :
      StreamInventory → List DeclaredSegment → List SegmentMeta → StreamCoverage Float
  unfolding missing_of declared_frames_from capture_anomalies
  reconcile_declared inventory segments received = record {
    declared_segments = length segments;
    received_segments = length received;
    missing_seqs = sort ltb_seq (missing_of received segments);
    anomalies = map never_arrived (missing_of received segments) ++ capture_anomalies segments;
    has_inventory = true;
    client_complete = inventory.complete;
    declared_frames = declared_frames_from received (pos 0) segments;
  }

  unfoldable pub reconcile_segments :
      StreamInventory → List DeclaredSegment → List SegmentMeta → StreamCoverage Float
  unfolding reconcile_received reconcile_declared
  reconcile_segments inventory [] received = reconcile_received received
  reconcile_segments inventory (d ∷ ds) received = reconcile_declared inventory (d ∷ ds) received

  unfoldable pub reconcile : Option StreamInventory → List SegmentMeta → StreamCoverage Float
  unfolding reconcile_segments reconcile_received
  reconcile none received = reconcile_received received
  reconcile (some inventory) received = reconcile_segments inventory inventory.segments received

-- First start to last end.
unfoldable pub declared_span : DeclaredSegment → List DeclaredSegment → Duration
declared_span first [] = sub first.ended_at first.started_at
declared_span first (d ∷ []) = sub d.ended_at first.started_at
declared_span first (d ∷ e ∷ ds) = declared_span first (e ∷ ds)

unfoldable pub received_span : SegmentMeta → List SegmentMeta → Duration
received_span first [] = sub first.ended_at first.started_at
received_span first (m ∷ []) = sub m.ended_at first.started_at
received_span first (m ∷ n ∷ ms) = received_span first (n ∷ ms)

unfoldable pub recorded_received : List SegmentMeta → Duration
unfolding received_span
recorded_received [] = pos 0
recorded_received (m ∷ ms) = received_span m ms

unfoldable pub recorded_declared : List DeclaredSegment → List SegmentMeta → Duration
unfolding declared_span recorded_received
recorded_declared [] received = recorded_received received
recorded_declared (d ∷ ds) received = declared_span d ds

-- `RecordedDuration`.
unfoldable pub recorded_duration : Option StreamInventory → List SegmentMeta → Duration
unfolding recorded_declared recorded_received
recorded_duration none received = recorded_received received
recorded_duration (some inventory) received = recorded_declared inventory.segments received
