-- ===== src/Queue/Replay.antt =====
-- internal/infrastructure/queue/dlq.go: the dead-letter writer and the reprocessor.
mod Defs
mod Settled
unfoldable pub use Defs.*
pub use Settled.*
