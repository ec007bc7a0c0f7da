-- ===== src/Usecase/Streams/Visible.antt =====
-- For how long a stream is on air for those who look it up.
use vox_streaming.Base.{◌+◌, ◌<◌, List, [], ◌∷◌, none, some}
use vox_streaming.Base.Clock.{Time}
use vox_streaming.Cache.Session.{eq_session_key, session_ttl}
use vox_streaming.Usecase.Streams.Defs.{StreamCalls}

-- No two refreshes that went well, nor the last one and `later`, are a time to live apart.
abbrev pub InTime : Time → List StreamCalls → Time → Type 0
InTime deadline [] later = later < deadline
InTime deadline (w ∷ ws) later = elim w.session_fault [
  | none ↦ (w.now < deadline) × InTime (w.now + session_ttl) ws later
  | some e ↦ InTime deadline ws later
]
