-- ===== src/Handler/Segments.antt =====
-- internal/handler/segment/handler.go: the endpoints through which a desktop client opens a stream,
-- uploads its segments, declares what it captured, and completes it.
mod Requests
mod Defs
mod Endpoints
mod Sessions
mod Checks
mod Sound
mod Handover
mod Calls
mod Owed
mod Stored
mod Opening
unfoldable pub use Requests.*
unfoldable pub use Defs.*
unfoldable pub use Sessions.*
unfoldable pub use Endpoints.*
pub use Sound.*
pub use Handover.*
pub use Calls.*
pub use Owed.*
pub use Opening.*
