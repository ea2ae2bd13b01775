-- ===== src/Llm.antt =====
-- packages/llm: model calls on the user's subscription.
pub mod Types
pub mod Budget
pub mod Catalog
pub mod Router
