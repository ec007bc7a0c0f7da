-- ===== src/Queue/Consumer.antt =====
-- internal/infrastructure/queue/consumer.go.
mod Defs
mod Retrying
mod Commits
mod PoisonPill
unfoldable pub use Defs.*
pub use Retrying.*
unfoldable pub use Commits.*
pub use PoisonPill.*
