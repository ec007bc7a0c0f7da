-- ===== src/Transport/Peer.antt =====
-- peer.go: one student's stream, from its uploads to its end. WebRTC itself, the timers' clock and the
-- object store are outside.
pub mod Uploader
pub mod Closing
pub mod Life
pub mod Ingest
pub mod LiveUploader
