-- ===== src/Cache/Pending.antt =====
-- internal/infrastructure/cache/assembly.go: the streams that still owe a recording, in a sorted set
-- by the second at which they are due, with the details of each under a key of its own.
mod Registry
mod Laws
unfoldable pub use Registry.*
pub use Laws.*
