-- ===== src/Protocol.antt =====
-- packages/protocol: the wire types that every other part shares.
pub mod Text
pub mod Context
pub mod Review
pub mod Jobs
pub mod Events
pub mod AgentApi
