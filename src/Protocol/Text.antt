-- ===== src/Protocol/Text.antt =====
-- Texts that the program builds. An id is opaque and only compared, so it is a number whose order is
-- that of `localeCompare`; a text built from ids or statuses is a constructor over its parts.
use kapi_final.Base.{ℕ, String, Bool, true, false, Option}

pub data JobStatus : Type 0 where
  queued claimed running succeeded failed cancelled : JobStatus

pub data Text : Type 0 where
  -- A literal, or a text that a caller gave.
  lit : String → Text
  -- 'lease expired: vm ' || COALESCE(vm_id, '?') || ' stopped heartbeating'
  lease_expired : Option ℕ → Text
  -- `the captain ${job.status}`
  captain_ended : JobStatus → Text
  -- `the run is already ${run.status}; no more agents can be created.`, with the other two
  -- refusals of a spawn: too deep, and the budget used up.
  run_over : String → Text
  too_deep : ℕ → ℕ → Text
  budget_used : ℕ → Text

-- JavaScript's truth of a text: all but the empty one.
abbrev pub truthy : Text → Bool
truthy (lit String.[]) = false
truthy _ = true
