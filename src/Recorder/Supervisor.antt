-- ===== src/Recorder/Supervisor.antt =====
-- internal/recorder/supervisor.go: restarting ffmpeg until it is stopped or has failed too often.
mod Loop
mod Bounds
unfoldable pub use Loop.*
pub use Bounds.*
