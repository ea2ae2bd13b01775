-- ===== src/Invariant.antt =====
-- What every transaction of the queue and of the run lifecycle keeps.
pub mod Steps
pub mod Guard
pub mod QueueOps
pub mod Reaping
pub mod RunOps
pub mod SchedulerOps
pub mod FleetOps
pub mod JobRows
pub mod Stream
pub mod Whole
pub mod Riders
pub mod Exclusive
pub mod SpawnOps
pub mod AgentOps
pub mod WebhookOps
pub mod AdmissionOps
pub mod Delivered
