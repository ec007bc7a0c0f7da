-- ===== src/Recorder/PortAllocator.antt =====
-- internal/recorder/port_allocator.go: a stack of free groups of four ports.
mod Defs
mod Exclusive
mod Size
unfoldable pub use Defs.*
pub use Exclusive.*
pub use Size.*
