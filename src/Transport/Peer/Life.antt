-- ===== src/Transport/Peer/Life.antt =====
-- peer.go: the callbacks, timers and signaling channel of a peer.

mod Defs
mod Steps
mod Signaling
unfoldable pub use Defs.*
pub use Steps.*
pub use Signaling.*
