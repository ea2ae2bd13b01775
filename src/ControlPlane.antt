-- ===== src/ControlPlane.antt =====
-- apps/control-plane/src: the orchestrator's handlers on the tables.
pub mod RunLifecycle
pub mod RunService
pub mod Scheduler
pub mod EventHub
pub mod Accounting
pub mod Provisioner
pub mod Provision
pub mod Pending
pub mod Reconciler
pub mod Spawn
pub mod AgentTx
pub mod AgentApi
pub mod Admission
pub mod ModelCall
pub mod RequestTracker
pub mod RateLimiter
pub mod GithubCheck
pub mod RunMatch
pub mod Webhook
pub mod Checkpoints
