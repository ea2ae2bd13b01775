-- ===== src/Db.antt =====
-- packages/db: the tables, and the transactions that act on them.
pub mod Tables
pub mod Tx
pub mod Retry
pub mod Handler
