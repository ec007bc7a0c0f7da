-- ===== src/Handler/Segments/Calls.antt =====
-- Requests one after another, each with what the world answers while it is served.
use vox_streaming.Base.{List, [], ◌∷◌, ◌+◌, ◌≤◌, ◌<◌}
use vox_streaming.Base.Eq.{eq_text}
use vox_streaming.Base.Clock.{Time}
use vox_streaming.Stream.Float.{Floats}
use vox_streaming.Cache.Pending.{pending_assembly_ttl}
use vox_streaming.Handler.Segments.Requests.{Request, Library}
use vox_streaming.Handler.Segments.Endpoints.{
  SegmentHandler, Answers, upload_segment, complete, put_inventory, get_audit,
}
use vox_streaming.Handler.Segments.Sessions.{create_session}

-- A request, with what the world answers while it is served.
pub data Call : Type 0 where
  uploads completes declares audits opens : Answers → Request → Call

unfoldable pub serve : Floats → Library → Call → SegmentHandler → SegmentHandler
serve fl l (uploads w r) h = (upload_segment l w r h).0
serve fl l (completes w r) h = (complete l w r h).0
serve fl l (declares w r) h = (put_inventory l w r h).0
serve fl l (audits w r) h = (get_audit fl l w r h).0
serve fl l (opens w r) h = (create_session l w r h).0

unfoldable pub serve_all : Floats → Library → List Call → SegmentHandler → SegmentHandler
unfolding serve
serve_all fl l [] h = h
serve_all fl l (c ∷ cs) h = serve_all fl l cs (serve fl l c h)

abbrev pub asked_at : Call → Time
asked_at (uploads w r) = w.calls.now
asked_at (completes w r) = w.calls.now
asked_at (declares w r) = w.calls.now
asked_at (audits w r) = w.calls.now
asked_at (opens w r) = w.calls.now

-- A request that came within the day before a moment.
abbrev pub IsRecent : Time → Call → Type 0
IsRecent later c = (asked_at c ≤ later) × (later < asked_at c + pending_assembly_ttl)
