-- ===== src/Transport/Peer/Closing.antt =====
-- peer.go: `Peer.close`, from the recorder's end to the event that the stream has ended.
mod Defs
mod Verdict
mod Registered
unfoldable pub use Defs.*
unfoldable pub use Verdict.*
pub use Registered.*
