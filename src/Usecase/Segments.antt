-- ===== src/Usecase/Segments.antt =====
-- internal/usecase/segment_usecase.go.
mod Defs
mod Audit
mod Uploads
mod Completed
mod Ownership
unfoldable pub use Defs.*
unfoldable pub use Audit.*
pub use Uploads.*
pub use Completed.*
pub use Ownership.*
