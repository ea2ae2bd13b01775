-- ===== src/ControlPlane/Provisioner.antt =====
-- apps/control-plane/src/provisioner.ts: the slots of VMs, as rows of agents. What a provider's calls
-- answer is an argument; the lock of a deployment makes the reservations serial.
pub mod Slots
use kapi_final.Base.{
  ℕ, ◌==◌, leb, ltb, Bool, true, false, not, ◌&&◌, ◌||◌, Option, none, some, List, [], ◌∷◌, length,
  select, row_of, update_where, returning, if◌then◌else◌,
}
use kapi_final.Protocol.Jobs.{Job}
use kapi_final.Db.Tables.{
  Db, Agent, AgentStatus, Run, Project, CostStatus, unavailable, provisioning, provision_unknown,
  provision_timeout,
}
use kapi_final.Db.Tx.{Tx, ◌>>=◌, ◌>>◌, pure, done, update_agents}
use kapi_final.Queue.Claim.{is_queued}
use kapi_final.Invariant.Steps.{is_run_terminal}
use kapi_final.ControlPlane.Scheduler.{project_of}

pub record Limits : Type 0 where
  pub max_active : ℕ
  pub max_active_per_user : ℕ

abbrev pub is_null {ℓ} : {A : Type ℓ} → Option A → Bool
is_null none = true
is_null (some _) = false

abbrev pub is_id : Option ℕ → Option ℕ → Bool
is_id (some a) (some b) = a == b
is_id _ _ = false

abbrev pub run_of : ℕ → Db → Option Run
run_of id db = row_of (λ (r : Run). r.id) id db.runs

abbrev project_of_run : Option Run → Db → Option Project
project_of_run none db = none
project_of_run (some r) db = project_of r.project_id db

abbrev owner_of : Option Project → Option ℕ
owner_of none = none
owner_of (some p) = some p.owner_id

unfoldable pub run_owner : ℕ → Db → Option ℕ
run_owner id db = owner_of (project_of_run (run_of id db) db)

-- vm_id IS NOT NULL AND provider IS NOT NULL, in the join with its run and project
unfoldable pub holds_vm : Db → Agent → Bool
holds_vm db a =
    (not (is_null a.vm_id) && not (is_null a.provider)) && not (is_null (run_owner a.run_id db))

unfoldable pub active_vms : Db → ℕ
active_vms db = length (select (holds_vm db) db.agents)

unfoldable pub owned_vms : Option ℕ → Db → ℕ
owned_vms owner db =
    length (select (λ a. holds_vm db a && is_id (run_owner a.run_id db) owner) db.agents)

abbrev pub is_live_in : ℕ → Agent → Bool
is_live_in run a = a.run_id == run && is_null a.stopped_at

unfoldable pub live_agents : ℕ → List Agent → ℕ
live_agents run agents = length (select (is_live_in run) agents)

abbrev pub is_unpriced : CostStatus → Bool
is_unpriced unavailable = true
is_unpriced _ = false

unfoldable pub has_capacity : Run → ℕ → Bool
has_capacity r live =
    (ltb live r.max_concurrent_vms && ltb r.vm_seconds r.max_vm_seconds)
    && (is_unpriced r.cost_status || ltb r.usd_cents r.max_usd_cents)

unfoldable pub reservation : (vm provider now : ℕ) → Job → Agent
reservation vm provider now job = record {
  job_id = job.id;
  run_id = job.run_id;
  role = job.role;
  status = provisioning;
  vm_id = some vm;
  provider = some provider;
  last_heartbeat = some now;
  stopped_at = none;
  reservation_id = some vm;
  accounted_through = none;
}

-- ON CONFLICT (job_id) DO UPDATE
unfoldable pub reserve_again : (vm now : ℕ) → Agent → Agent
reserve_again vm now a = record a {
  status = provisioning;
  vm_id = some vm;
  reservation_id = some vm;
  stopped_at = none;
  last_heartbeat = some now;
}

-- WHERE agents.stopped_at IS NOT NULL AND (agents.vm_id IS NULL OR agents.provider IS NULL)
unfoldable pub may_reuse : Agent → Bool
may_reuse a = not (is_null a.stopped_at) && (is_null a.vm_id || is_null a.provider)

unfoldable pub take_row : (vm now : ℕ) → Agent → Option Agent → Tx Bool
take_row vm now a none db = done true (record db { agents = a ∷ db.agents })
take_row vm now a (some b) db =
    if may_reuse b
    then done true (record db {
      agents = update_where (λ (x : Agent). x.job_id == a.job_id) (reserve_again vm now) db.agents;
    })
    else done false db

unfoldable pub take_slot : (vm provider now : ℕ) → Job → Tx Bool
take_slot vm provider now job db =
    take_row vm now (reservation vm provider now job)
      (row_of (λ (a : Agent). a.job_id) job.id db.agents) db

abbrev pub is_waiting : Option Job → Bool
is_waiting none = false
is_waiting (some j) = is_queued j.status

unfoldable pub may_start : Option Run → Db → Bool
may_start none db = false
may_start (some r) db =
    not (is_run_terminal r.status) && has_capacity r (live_agents r.id db.agents)

unfoldable pub is_full : Limits → ℕ → Db → Bool
is_full limits run db =
    leb limits.max_active (active_vms db)
    || leb limits.max_active_per_user (owned_vms (run_owner run db) db)

-- The transaction of `provision` that reserves a slot; false is the empty answer.
unfoldable pub reserve_slot : Limits → (vm provider now : ℕ) → Job → Tx Bool
reserve_slot limits vm provider now job db =
    if is_full limits job.run_id db
    then done false db
    else if not (is_waiting (row_of (λ (j : Job). j.id) job.id db.jobs))
    then done false db
    else if not (may_start (run_of job.run_id db) db)
    then done false db
    else take_slot vm provider now job db

abbrev pub is_provisioning : AgentStatus → Bool
is_provisioning provisioning = true
is_provisioning _ = false

abbrev pub awaits_vm : ℕ → Agent → Bool
awaits_vm job a = a.job_id == job && (is_provisioning a.status && is_null a.stopped_at)

abbrev pub non_empty {ℓ} : {A : Type ℓ} → List A → Bool
non_empty [] = false
non_empty (_ ∷ _) = true

-- The VM has been created; false sends it back to the provider.
unfoldable pub attach : (job vm provider now : ℕ) → Tx Bool
attach job vm provider now db =
    (update_agents (awaits_vm job) (λ a. record a {
      vm_id = some vm;
      provider = some provider;
      accounted_through = some now;
    })
        >> pure (non_empty (select (awaits_vm job) db.agents)))
      db

-- The provider's answer was lost.
unfoldable pub hold_unknown : (job reservation : ℕ) → Tx (Unit {0})
hold_unknown job reservation =
    update_agents
      (λ a.
        (a.job_id == job && is_id a.reservation_id (some reservation)) && is_provisioning a.status)
      (λ a. record a { status = provision_unknown })

-- #release
unfoldable pub release_agent : (job now : ℕ) → AgentStatus → (deleted : Bool) → Tx (Unit {0})
release_agent job now status deleted =
    update_agents (λ a. a.job_id == job)
      (λ a. record a {
        status = status;
        stopped_at = some now;
        vm_id = if deleted then none else a.vm_id;
      })

-- A VM whose deletion is confirmed.
unfoldable pub forget_vm : (job vm : ℕ) → Tx (Unit {0})
forget_vm job vm =
    update_agents (λ a. (a.job_id == job && is_id a.vm_id (some vm)) && not (is_null a.stopped_at))
      (λ a. record a { vm_id = none })

abbrev is_starting : AgentStatus → Bool
is_starting provisioning = true
is_starting provision_unknown = true
is_starting _ = false

abbrev beat_by : ℕ → Option ℕ → Bool
beat_by cutoff none = false
beat_by cutoff (some t) = leb t cutoff

abbrev run_fits : Option ℕ → ℕ → Bool
run_fits none run = true
run_fits (some r) run = run == r

-- The rows that reapStaleProvisioning closes. A reservation always has a heartbeat, so started_at is
-- not asked for.
unfoldable pub is_stale : (cutoff : ℕ) → (run : Option ℕ) → (provider : ℕ) → Db → Agent → Bool
is_stale cutoff run provider db a =
    ((is_starting a.status && is_null a.stopped_at)
      && (is_waiting (row_of (λ (j : Job). j.id) a.job_id db.jobs)
          && beat_by cutoff a.last_heartbeat))
    && (run_fits run a.run_id && is_id a.provider (some provider))

abbrev time_out : ℕ → Agent → Agent
time_out now a = record a { status = provision_timeout; stopped_at = some now }

-- vm_id IS DISTINCT FROM reservation_id
abbrev pub is_distinct : Option ℕ → Option ℕ → Bool
is_distinct none none = false
is_distinct (some a) (some b) = not (a == b)
is_distinct _ _ = true

abbrev pub forget_of : (destroy : ℕ → ℕ → Bool) → ℕ → Option ℕ → Option ℕ → Tx (Unit {0})
forget_of destroy job none r = pure tt
forget_of destroy job (some vm) r =
    if is_distinct (some vm) r && destroy job vm then forget_vm job vm else pure tt

unfoldable pub forget_each : (destroy : ℕ → ℕ → Bool) → List Agent → Tx (Unit {0})
forget_each destroy [] = pure tt
forget_each destroy (a ∷ as') =
    forget_of destroy a.job_id a.vm_id a.reservation_id >> forget_each destroy as'

unfoldable pub reap_stale :
    (cutoff now : ℕ) (run : Option ℕ) (provider : ℕ) (destroy : ℕ → ℕ → Bool) → Tx ℕ
reap_stale cutoff now run provider destroy db =
    (update_agents (is_stale cutoff run provider db) (time_out now)
        >> (forget_each destroy
              (returning (is_stale cutoff run provider db) (time_out now) db.agents)
            >> pure (length (select (is_stale cutoff run provider db) db.agents))))
      db

-- The VMs of agents that have stopped.
unfoldable pub is_reclaimable : ℕ → Agent → Bool
is_reclaimable provider a =
    (not (is_null a.vm_id) && not (is_null a.stopped_at))
    && (is_distinct a.vm_id a.reservation_id && is_id a.provider (some provider))

unfoldable pub reclaim : (provider : ℕ) (destroy : ℕ → ℕ → Bool) → Tx (Unit {0})
reclaim provider destroy db = forget_each destroy (select (is_reclaimable provider) db.agents) db
