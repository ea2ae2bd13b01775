-- ===== src/AgentCore.antt =====
-- packages/agent-core/src: the agent's side of a job.
pub mod Messages
pub mod Compact
pub mod Loop
