-- ===== src/Transport.antt =====
-- internal/transport/webrtc: the register of connected peers and the live-rewind playlist.
pub mod SessionManager
pub mod LiveManifest
pub mod Peer
