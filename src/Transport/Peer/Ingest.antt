-- ===== src/Transport/Peer/Ingest.antt =====
-- peer.go: how the recorder of a peer is started while the peer may be closed.
mod Defs
mod Steps
unfoldable pub use Defs.*
pub use Steps.*
