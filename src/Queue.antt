-- ===== src/Queue.antt =====
-- internal/infrastructure/queue: the Kafka consumers, their dead-letter queues and their monitor.
pub mod Classify
pub mod Consumer
pub mod Monitor
pub mod Replay
