-- ===== src/Handler.antt =====
-- internal/handler: what the HTTP endpoints make of a request.
pub mod Segments
