-- ===== src/Identity.antt =====
-- packages/identity/src: the tokens of jobs.
pub mod JobToken
