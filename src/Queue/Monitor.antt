-- ===== src/Queue/Monitor.antt =====
-- internal/infrastructure/queue/monitor.go.
mod Defs
mod Alerts
mod Spacing
mod Counting
unfoldable pub use Defs.*
pub use Alerts.*
unfoldable pub use Spacing.*
unfoldable pub use Counting.*
