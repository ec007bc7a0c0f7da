-- ===== src/Usecase/Alerts.antt =====
-- internal/usecase/monitor_usecase.go.
mod Defs
mod Identity
mod Schedules
mod Published
unfoldable pub use Defs.*
unfoldable pub use Identity.*
unfoldable pub use Schedules.*
unfoldable pub use Published.*
