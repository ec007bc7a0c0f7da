-- ===== src/Recorder/Frames/Reorder.antt =====
-- frame_extractor.go: `reorderBuffer`.
mod Defs
mod Drain
mod Waiting
mod Order
mod Ascending
unfoldable pub use Defs.*
pub use Drain.*
pub use Waiting.*
pub use Order.*
pub use Ascending.*
