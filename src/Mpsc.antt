-- ===== src/Mpsc.antt =====
-- mpsc-event-pipeline-kata/cpp: one ring per producer, and the consumer that drains them.
pub mod Ring
pub mod Config
pub mod Pipeline
pub mod Sink
pub mod Tests
