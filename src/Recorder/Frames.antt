-- ===== src/Recorder/Frames.antt =====
-- frame_extractor.go: RTP packets brought into order, NAL units put together from their payloads, and
-- the last key frame kept.
pub mod Rtp
pub mod Reorder
pub mod Extractor
pub mod Fragments
pub mod Aggregates
pub mod Panics
