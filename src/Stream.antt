-- ===== src/Stream.antt =====
-- internal/stream: what a client says it captured, measured against what arrived.
pub mod Gap
pub mod Float
pub mod Coverage
