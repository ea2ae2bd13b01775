-- ===== src/ControlPlane/AgentApi/Serving.antt =====
-- apps/control-plane/src/agent-api.ts: the routes behind the lease middleware.
use kapi_final.Base.{ℕ, String, Bool, true, false, List, Option, if◌then◌else◌}
use kapi_final.Protocol.Text.{Text}
use kapi_final.Protocol.AgentApi.{SpawnRequest}
use kapi_final.Db.Tables.{Db}
use kapi_final.Db.Handler.{left_by}
use kapi_final.Queue.Lifecycle.{get_job}
use kapi_final.ControlPlane.AgentTx.{Claims, Posted}
use kapi_final.ControlPlane.AgentApi.{
  Report, is_active, agent_claim, agent_start, agent_heartbeat, agent_events, agent_cancel_child,
  agent_complete, agent_spawn,
}

-- The requests that write. A request to spawn carries the two digests as functions.
pub data AgentRequest : Type 0 where
  claims_job : (ℕ → Bool) → AgentRequest
  starts_job : AgentRequest
  beats : AgentRequest
  posts : List Posted → AgentRequest
  spawns :
      (ℕ → String → ℕ)
      → (List SpawnRequest → ℕ)
      → Option String
      → List (ℕ × SpawnRequest)
      → AgentRequest
  cancels_child : ℕ → Text → AgentRequest
  reports : Report → AgentRequest

-- Claim and heartbeat pass without a lease.
abbrev pub is_exempt : AgentRequest → Bool
is_exempt (claims_job _) = true
is_exempt beats = true
is_exempt _ = false

-- What the database is after the route; `seconds` is KAPI_LEASE_SECONDS.
unfoldable pub route : Claims → (seconds now : ℕ) → AgentRequest → Db → Db
route c seconds now (claims_job locked) db = left_by (agent_claim c locked seconds now db)
route c seconds now starts_job db = left_by (agent_start c db)
route c seconds now beats db = left_by (agent_heartbeat c seconds now db)
route c seconds now (posts es) db = left_by (agent_events c es db)
route c seconds now (spawns operation fingerprint request agents) db =
    left_by (agent_spawn operation fingerprint c now request agents db)
route c seconds now (cancels_child id why) db = left_by (agent_cancel_child c id why now db)
route c seconds now (reports r) db = left_by (agent_complete c now r db)

unfoldable pub admitted : Claims → (seconds now : ℕ) → AgentRequest → Bool → Db → Db
admitted c seconds now q true db = route c seconds now q db
admitted c seconds now q false db = db

unfoldable pub serve : Claims → (seconds now : ℕ) → AgentRequest → Db → Db
serve c seconds now q db =
    admitted c seconds now q
      (if is_exempt q then true else is_active c now (get_job c.job_id db.jobs)) db
