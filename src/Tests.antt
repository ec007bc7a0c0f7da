-- ===== src/Tests.antt =====
-- The properties at concrete inputs.
pub mod Cache
pub mod Queue
pub mod Recorder
pub mod Usecase
pub mod Assembler
pub mod Streams
pub mod Edges
pub mod Tails
pub mod Handler
pub mod Frames
pub mod Peer
pub mod Ingest
pub mod LiveUploader
