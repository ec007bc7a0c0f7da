-- ===== src/Cache/Upload.antt =====
-- internal/infrastructure/cache/session.go, the upload sessions: a session by its stream, and for
-- each candidate, exam session and stream type an index entry that names the stream in use.
-- The two Lua scripts run as one step each; `now` is the server's clock and the program's.
mod Registry
mod Invariant
mod Lifecycle
unfoldable pub use Registry.*
pub use Invariant.*
pub use Lifecycle.*
