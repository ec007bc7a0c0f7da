-- ===== src/Transport/Peer/LiveUploader.antt =====
-- peer.go: the upload of the fragments that are watched live.
mod Defs
mod Timeline
unfoldable pub use Defs.*
pub use Timeline.*
