-- ===== src/Recorder.antt =====
-- internal/recorder.
pub mod PortAllocator
pub mod Supervisor
pub mod Frames
