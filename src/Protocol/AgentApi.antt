-- ===== src/Protocol/AgentApi.antt =====
-- packages/protocol/src/agent-api.ts: what an agent asks of the control plane, and the answers.
use kapi_final.Base.{ℕ, String, List}
use kapi_final.Base.Int.{ℤ}
use kapi_final.Protocol.Context.{Context}
use kapi_final.Protocol.Jobs.{JobKind, AgentRole}
use kapi_final.Protocol.Events.{RunStatus}

-- One agent that a captain wants to exist.
pub record SpawnRequest : Type 0 where
  pub kind : JobKind
  pub role : AgentRole
  pub instruction : String
  pub acceptance : List String
  pub touches : List String
  pub depends_on : List ℕ
  pub priority : ℤ
  pub secrets : List String
  pub context : Context

pub record SpawnedAgent : Type 0 where
  pub job_id : ℕ
  pub kind : JobKind
  pub role : AgentRole
  pub instruction : String

-- The texts that a refusal gives as its reason, with the numbers in them.
pub data Reason : Type 0 where
  run_over : RunStatus → Reason
  too_deep : (depth max_spawn_depth : ℕ) → Reason
  budget_used : (max_total_spawns : ℕ) → Reason

pub record SpawnRefusal : Type 0 where
  pub role : AgentRole
  pub instruction : String
  pub reason : Reason

pub record SpawnBudget : Type 0 where
  pub total_spawns : ℕ
  pub max_total_spawns : ℕ
  pub depth : ℕ
  pub max_spawn_depth : ℕ

-- With the cursor `before`, which the handler takes out again.
pub record SpawnResponse : Type 0 where
  pub before : ℕ
  pub spawned : List SpawnedAgent
  pub refused : List SpawnRefusal
  pub budget : SpawnBudget
