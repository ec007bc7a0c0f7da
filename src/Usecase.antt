-- ===== src/Usecase.antt =====
-- internal/usecase: what the handlers, the consumers and the watchdog call.
pub mod Segments
pub mod Streams
pub mod Alerts
pub mod Assembler
