-- ===== src/Mpmc.antt =====
-- mpmc-work-queue-kata/cpp: bounded work queues for many producers and consumers.
pub mod Api
pub mod Event
pub mod EventCount
pub mod Locked
pub mod Rounds
pub mod Turnstile
pub mod Sharded
pub mod Histogram
pub mod Driver
pub mod Brief
pub mod Tests
