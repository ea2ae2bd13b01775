-- ===== src/Agent.antt =====
-- apps/agent/src: the process in a VM.
pub mod Client
