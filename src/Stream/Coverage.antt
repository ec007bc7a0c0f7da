-- ===== src/Stream/Coverage.antt =====
-- internal/stream/coverage.go.
mod Defs
mod Missing
unfoldable pub use Defs.*
pub use Missing.*
