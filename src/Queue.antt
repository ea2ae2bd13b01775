-- ===== src/Queue.antt =====
-- packages/queue: the leased job queue.
pub mod Events
pub mod Lifecycle
pub mod Claim
pub mod Reaper
