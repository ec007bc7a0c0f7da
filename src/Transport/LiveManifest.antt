-- ===== src/Transport/LiveManifest.antt =====
-- internal/transport/webrtc/live_manifest.go.
mod Defs
mod Tags
mod Window
mod Scan
mod Shortest
unfoldable pub use Defs.*
unfoldable pub use Tags.*
pub use Window.*
unfoldable pub use Scan.*
pub use Shortest.*
