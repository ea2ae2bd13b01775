-- ===== src/Tests.antt =====
-- Small databases on which the theorems are tried.
mod Samples
mod QueueTests
mod LlmTests
mod PlaneTests
mod EdgeTests
mod LoopTests
mod ModelTests
mod TokenTests
mod ClientTests
mod WebhookTests
mod FleetTests
mod HubTests
mod SchedulerTests
