-- ===== src/Usecase/Streams.antt =====
-- internal/usecase/stream_usecase.go, and the heartbeat of a peer.
mod Defs
mod Visible
unfoldable pub use Defs.*
pub use Visible.*
