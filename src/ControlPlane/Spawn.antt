-- ===== src/ControlPlane/Spawn.antt =====
-- apps/control-plane/src/agent-api.ts: POST /agent/spawn. Every request comes with the fresh id
-- that its job gets if it is accepted. AgentApi.spawn_call makes the call from the request: the id of
-- the operation and the fingerprint are digests of what it holds.
pub mod Accepted
pub mod Batch
pub mod Request
use mathlib.Core.Option
use kapi_final.Base.{
  ℕ, zero, suc, ◌+◌, ◌-◌, ◌==◌, ltb, Option, none, some, List, [], ◌∷◌, length, if◌then◌else◌,
  row_of, String,
}
use kapi_final.Protocol.Context.{Context, get, put, spread, is_truthy}
use kapi_final.Protocol.Jobs.{Job, JobSpec, agent}
use kapi_final.Protocol.Events.{EventInput, agent_spawned, of_spawn}
use kapi_final.Protocol.AgentApi.{
  SpawnRequest, SpawnedAgent, SpawnRefusal, SpawnResponse, Reason, run_over, too_deep, budget_used,
}
use kapi_final.Db.Tables.{Db, Run, SpawnReceipt, Artifacts}
use kapi_final.Db.Tx.{Tx, ◌>>=◌, ◌>>◌, pure, query, fail_with, conflict, update_artifacts}
use kapi_final.Queue.Events.{append_event_}
use kapi_final.Queue.Lifecycle.{enqueue_in, get_job}
use kapi_final.Invariant.Steps.{is_run_terminal}

-- The parent of a job, where both have a row.
unfoldable pub parent_of : List Job → ℕ → Option ℕ
parent_of jobs id = elim (get_job id jobs) [
  | none ↦ none
  | some j ↦ elim j.parent_job_id [
    | none ↦ none
    | some p ↦ Option.map (λ (k : Job). k.id) (get_job p jobs)
  ]
]

-- The chain of parents: as many steps as there are jobs leave none out.
unfoldable pub depth_from : ℕ → List Job → ℕ → ℕ
depth_from zero jobs id = 0
depth_from (suc fuel) jobs id = elim (parent_of jobs id) [
  | none ↦ 0
  | some p ↦ 1 + depth_from fuel jobs p
]

unfoldable pub depth_of : List Job → ℕ → ℕ
depth_of jobs = depth_from (length jobs) jobs

-- if (parentContext.k) inheritedContext.k = parentContext.k
unfoldable pub inherit : String → Context → Context → Context
inherit k parent o = elim (get k parent) [
  | none ↦ o
  | some v ↦ if is_truthy v then put k v o else o
]

unfoldable pub inherited_context : Option Job → Context
inherited_context none = []
inherited_context (some j) =
    let parent = (j.payload).context in inherit "baseBranch" parent (inherit "repoUrl" parent [])

-- What the transaction is given, as AgentApi.spawn_call makes it.
pub record SpawnCall : Type 0 where
  pub job_id : ℕ
  pub run_id : ℕ
  pub depth : ℕ
  pub now : ℕ
  pub inherited : Context
  pub operation : Option ℕ
  pub fingerprint : ℕ
  pub agents : List (ℕ × SpawnRequest)

unfoldable pub spec_of : SpawnCall → SpawnRequest → JobSpec
spec_of c w = record {
  run_id = c.run_id;
  parent_job_id = some c.job_id;
  kind = w.kind;
  role = w.role;
  payload = record {
    instruction = w.instruction;
    acceptance = w.acceptance;
    touches = w.touches;
    secrets = w.secrets;
    context = spread c.inherited w.context;
  };
  depends_on = w.depends_on;
  priority = w.priority;
  max_attempts = 3;
}

-- Why the next request is refused, if it is; `run` is the row as it was locked.
unfoldable pub refusal : SpawnCall → Run → ℕ → Option Reason
refusal c run remaining =
    if is_run_terminal run.status
    then some (run_over run.status)
    else if ltb run.max_spawn_depth c.depth
    then some (too_deep c.depth run.max_spawn_depth)
    else if remaining == 0
    then some (budget_used run.max_total_spawns)
    else none

unfoldable pub spawn_event : SpawnCall → Job → EventInput
spawn_event c child = record {
  run_id = c.run_id;
  job_id = some child.id;
  kind = agent_spawned;
  sender = agent c.job_id;
  recipient = none;
  payload =
      of_spawn child.id child.kind child.role (child.payload).instruction (child.payload).touches;
}

unfoldable pub to_spawned : Job → SpawnedAgent
to_spawned j = record {
  job_id = j.id;
  kind = j.kind;
  role = j.role;
  instruction = (j.payload).instruction;
}

abbrev pub refused_for : SpawnRequest → Reason → SpawnRefusal
refused_for w why = record { role = w.role; instruction = w.instruction; reason = why }

abbrev pub Batch : Type 0
Batch = List SpawnedAgent × List SpawnRefusal

abbrev pub with_spawned : SpawnedAgent → Batch → Batch
with_spawned a (s, r) = (a ∷ s, r)

abbrev pub with_refused : SpawnRefusal → Batch → Batch
with_refused f (s, r) = (s, f ∷ r)

-- One request that is accepted: the job, and the event of the spawn.
unfoldable pub spawn_one : SpawnCall → ℕ → SpawnRequest → Tx SpawnedAgent
spawn_one c id w = do
  child ← enqueue_in id c.now (spec_of c w)
  append_event_ (spawn_event c child)
  pure (to_spawned child)

-- for (const want of parsed.data.agents)
unfoldable pub spawn_each : SpawnCall → Run → ℕ → List (ℕ × SpawnRequest) → Tx Batch
spawn_each c run remaining [] = pure ([], [])
spawn_each c run remaining ((id, w) ∷ ws) = elim (refusal c run remaining) [
  | some why ↦ spawn_each c run remaining ws >>= λ b. pure (with_refused (refused_for w why) b)
  | none ↦
      spawn_one c id w >>= λ a. spawn_each c run (remaining - 1) ws >>= λ b. pure (with_spawned a b)
]

abbrev pub response_of : SpawnCall → Run → Batch → SpawnResponse
response_of c run (spawned, refused) = record {
  before = run.event_seq;
  spawned = spawned;
  refused = refused;
  budget = record {
    total_spawns = run.total_spawns + length spawned;
    max_total_spawns = run.max_total_spawns;
    depth = c.depth;
    max_spawn_depth = run.max_spawn_depth;
  };
}

abbrev pub remember : SpawnReceipt → Artifacts → Artifacts
remember r a = record a { receipts = r ∷ a.receipts }

unfoldable pub save_receipt : Option ℕ → ℕ → SpawnResponse → Tx (Unit {0})
save_receipt none fingerprint response = pure tt
save_receipt (some operation) fingerprint response =
    update_artifacts
      (remember (record { operation = operation; fingerprint = fingerprint; response = response }))

unfoldable pub spawn_fresh : SpawnCall → Run → Tx SpawnResponse
spawn_fresh c run = do
  batch ← spawn_each c run (run.max_total_spawns - run.total_spawns) c.agents
  save_receipt c.operation c.fingerprint (response_of c run batch)
  pure (response_of c run batch)

unfoldable pub saved_receipt : Option ℕ → List SpawnReceipt → Option SpawnReceipt
saved_receipt none receipts = none
saved_receipt (some operation) receipts = row_of (λ r. r.operation) operation receipts

-- With the row of the run, and what an earlier request of the same id has left.
unfoldable pub spawn_once : SpawnCall → Run → Option SpawnReceipt → Tx (Option SpawnResponse)
spawn_once c run none = spawn_fresh c run >>= λ response. pure (some response)
spawn_once c run (some saved) =
    if saved.fingerprint == c.fingerprint then pure (some saved.response) else fail_with conflict

unfoldable pub spawn_run : SpawnCall → Option Run → Tx (Option SpawnResponse)
spawn_run c none = pure none
spawn_run c (some run) =
    query (λ db. saved_receipt c.operation (db.artifacts).receipts) >>= spawn_once c run

unfoldable pub spawn : SpawnCall → Tx (Option SpawnResponse)
spawn c = query (λ db. row_of (λ (r : Run). r.id) c.run_id db.runs) >>= spawn_run c
