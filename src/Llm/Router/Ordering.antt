-- ===== src/Llm/Router/Ordering.antt =====
-- The order in which packages/llm/src/router.ts offers the models of a tier (`candidates`).
use mathlib.Core.List.{Perm}
use mathlib.Core.List.Perm
use kapi_final.Base.{List}
use kapi_final.Llm.Router.{Router}
