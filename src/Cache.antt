-- ===== src/Cache.antt =====
-- internal/infrastructure/cache: the registries that live in Redis. Each keeps its keys apart by a
-- prefix (`upload-session:`, `stream:…:segments`), so each is a map of its own here, with the
-- identifiers that the key is formatted from as its key.
pub mod Segment
pub mod Inventory
pub mod Upload
pub mod Pending
pub mod Hls
pub mod ScheduleStream
pub mod Session
