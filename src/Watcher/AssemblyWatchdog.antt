-- ===== src/Watcher/AssemblyWatchdog.antt =====
-- internal/watcher/assembly_watchdog.go.
mod Handle
mod Retries
unfoldable pub use Handle.*
pub use Retries.*
