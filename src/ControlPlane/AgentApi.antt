-- ===== src/ControlPlane/AgentApi.antt =====
-- apps/control-plane/src/agent-api.ts: what a VM may ask. The claims of its token, which
-- `verifyJobToken` has checked, and the parsed body are arguments. Pushing new events to browsers
-- (`flush`) only reads and is left out.
pub mod Inbox
pub mod Serving
use mathlib.Core.Option
use kapi_final.Base.{
  ℕ, zero, suc, ◌+◌, String, ◌==◌, leb, ltb, Bool, true, false, not, ◌&&◌, ◌||◌, Option, none, some,
  List, [], ◌∷◌, map, any, select, length, if◌then◌else◌, row_of,
}
use kapi_final.Protocol.Text.{JobStatus, Text, truthy, lit, queued, claimed, running, cancelled}
use kapi_final.Protocol.Review.{ReviewVerdict, normalise_verdict}
use kapi_final.Protocol.Jobs.{Job, JobResult, JobKind, AgentRole, is_job_terminal, is_job_leased}
use kapi_final.Protocol.Jobs
use kapi_final.Protocol.AgentApi.{SpawnRequest, SpawnResponse}
use kapi_final.Db.Tables.{Db, Agent, Run}
use kapi_final.Db.Tables
use kapi_final.Db.Handler.{Handler, ◌>>=◌, ◌>>◌, commit, answer}
use kapi_final.Db.Tx.{Tx, query, update_agents, upsert_agent}
use kapi_final.Queue.Claim.{claim}
use kapi_final.Queue.Lifecycle.{
  mark_running, heartbeat, complete, fail, cancel_subtree, get_job, is_vm, sort_by, ids_of,
}
use kapi_final.ControlPlane.RunLifecycle.{start_run, finish_run, is_null}
use kapi_final.ControlPlane.AgentTx.{Claims, Posted, append_all, record_verdict}
use kapi_final.ControlPlane.Spawn.{SpawnCall, spawn, depth_of, inherited_context}

abbrev pub runs_past : ℕ → Option ℕ → Bool
runs_past now none = false
runs_past now (some t) = ltb now t

-- The lease middleware: the token says who was assigned the job, the row who holds it now.
unfoldable pub is_active : Claims → ℕ → Option Job → Bool
is_active c now none = false
is_active c now (some j) =
    j.run_id == c.run_id
    && (is_vm j.vm_id c.vm_id && (is_job_leased j.status && runs_past now j.lease_expires_at))

-- POST /agent/claim. The upsert keeps the VM of an agent that the provisioner has enrolled.
unfoldable pub enrolled : Claims → ℕ → Job → Agent
enrolled c now j = record {
  job_id = j.id;
  run_id = j.run_id;
  role = j.role;
  status = Tables.claimed;
  vm_id = some c.vm_id;
  provider = none;
  last_heartbeat = some now;
  stopped_at = none;
  reservation_id = none;
  accounted_through = none;
}

unfoldable pub enrolled_again : Claims → ℕ → Agent → Agent
enrolled_again c now a = record a {
  status = Tables.claimed;
  vm_id = if is_null a.provider then some c.vm_id else a.vm_id;
  last_heartbeat = some now;
  stopped_at = none;
}

unfoldable pub enrol : Claims → ℕ → Option Job → Handler (Option Job)
enrol c now none = answer none
enrol c now (some j) =
    commit (upsert_agent (enrolled c now j) (enrolled_again c now)) >> answer (some j)

unfoldable pub agent_claim : Claims → (ℕ → Bool) → (seconds now : ℕ) → Handler (Option Job)
agent_claim c locked seconds now = do
  job ← commit (
      claim
        (record {
          vm_id = c.vm_id;
          kinds = [];
          run_id = some c.run_id;
          job_id = some c.job_id;
          lease_seconds = seconds;
        })
        locked now)
  enrol c now job

-- POST /agent/start
unfoldable pub after_start : Claims → Option Job → Handler Bool
after_start c none = answer false
after_start c (some j) = do
  commit (update_agents (λ a. a.job_id == c.job_id) (λ a. record a { status = Tables.running }))
  _ ← commit (start_run c.run_id c.job_id)
  answer true

unfoldable pub agent_start : Claims → Handler Bool
agent_start c = commit (mark_running c.job_id c.vm_id) >>= after_start c

-- POST /agent/heartbeat: whether the lease is extended, whether the job is cancelled, and the lease.
abbrev pub is_cancelled : JobStatus → Bool
is_cancelled cancelled = true
is_cancelled _ = false

pub record Beat : Type 0 where
  pub ok : Bool
  pub cancelled : Bool
  pub lease_expires_at : Option ℕ

unfoldable pub beat_of : Bool → Option Job → Beat
beat_of ok none = record { ok = ok; cancelled = false; lease_expires_at = none }
beat_of ok (some j) = record {
  ok = ok;
  cancelled = is_cancelled j.status;
  lease_expires_at = j.lease_expires_at;
}

unfoldable pub agent_heartbeat : Claims → (seconds now : ℕ) → Handler Beat
agent_heartbeat c seconds now = do
  ok ← commit (heartbeat c.job_id c.vm_id seconds now)
  job ← commit (query (λ db. get_job c.job_id db.jobs))
  answer (beat_of ok job)

-- POST /agent/events
abbrev seq_or_zero : Option Run → ℕ
seq_or_zero none = 0
seq_or_zero (some r) = r.event_seq

unfoldable pub agent_events : Claims → List Posted → Handler ℕ
agent_events c events = do
  before ← commit (query (λ db. seq_or_zero (row_of (λ (r : Run). r.id) c.run_id db.runs)))
  commit (append_all c before events)

-- GET /agent/children: direct children, oldest first, and how many are not over.
pub record AgentChild : Type 0 where
  pub job_id : ℕ
  pub kind : JobKind
  pub role : AgentRole
  pub status : JobStatus
  pub instruction : String
  pub attempts : ℕ
  pub ok : Option Bool
  pub summary : Option Text
  pub branch : Option String
  pub pr_url : Option String
  pub review : Option ReviewVerdict
  pub error : Option Text

-- job.result?.f ?? null
abbrev in_result {ℓ} : {A : Type ℓ} → (JobResult → Option A) → Job → Option A
in_result f j = elim j.result [ none ↦ none | some r ↦ f r ]

unfoldable pub child_of : Job → AgentChild
child_of j = record {
  job_id = j.id;
  kind = j.kind;
  role = j.role;
  status = j.status;
  instruction = (j.payload).instruction;
  attempts = j.attempts;
  ok = in_result (λ r. some r.ok) j;
  summary = in_result (λ r. some r.summary) j;
  branch = in_result (λ r. r.branch) j;
  pr_url = in_result (λ r. r.pr_url) j;
  review = in_result (λ r. r.review) j;
  error = j.error;
}

pub record Children : Type 0 where
  pub children : List AgentChild
  pub pending : ℕ

abbrev is_pending : JobStatus → Bool
is_pending queued = true
is_pending claimed = true
is_pending running = true
is_pending _ = false

unfoldable pub children_seen : Claims → List Job → Children
children_seen c jobs =
    let rows =
      sort_by (λ a b. leb a.created_at b.created_at)
        (select (λ j. is_vm j.parent_job_id c.job_id) jobs) in
    let children = map child_of rows in
    record {
      children = children;
      pending = length (select (λ (ch : AgentChild). is_pending ch.status) children);
    }

unfoldable pub agent_children : Claims → Handler Children
agent_children c = commit (query (λ db. children_seen c db.jobs))

-- POST /agent/cancel-child
pub data CancelReply : Type 0 where
  -- 404, 403, and the ids that were cancelled
  no_such_job not_yours : CancelReply
  cancelled_jobs : List ℕ → CancelReply

-- The target and its ancestors, as many steps as there are jobs.
unfoldable pub chain : ℕ → List Job → ℕ → List Job
chain zero jobs id = []
chain (suc fuel) jobs id = elim (get_job id jobs) [
  | none ↦ []
  | some j ↦ elim j.parent_job_id [ none ↦ j ∷ [] | some p ↦ j ∷ chain fuel jobs p ]
]

unfoldable pub is_own : Claims → List Job → ℕ → Bool
is_own c jobs id =
    any (λ j. is_vm j.parent_job_id c.job_id || j.id == c.job_id) (chain (length jobs) jobs id)

unfoldable pub cancel_own : Claims → ℕ → Text → ℕ → Bool → Handler CancelReply
cancel_own c id reason now false = answer not_yours
cancel_own c id reason now true = do
  rows ← commit (cancel_subtree id reason now)
  answer (cancelled_jobs (ids_of rows))

unfoldable pub cancel_known : Claims → ℕ → Text → ℕ → Option Job → Handler CancelReply
cancel_known c id reason now none = answer no_such_job
cancel_known c id reason now (some target) =
    if not (target.run_id == c.run_id)
    then answer no_such_job
    else (commit (query (λ db. is_own c db.jobs id)) >>= cancel_own c id reason now)

unfoldable pub agent_cancel_child : Claims → ℕ → Text → ℕ → Handler CancelReply
agent_cancel_child c id reason now =
    commit (query (λ db. get_job id db.jobs)) >>= cancel_known c id reason now

-- POST /agent/complete
pub record Report : Type 0 where
  pub result : Option JobResult
  pub error : Option Text

abbrev says : Option Text → Option Text
says none = none
says (some t) = if truthy t then some t else none

abbrev pub normalised : JobResult → JobResult
normalised r = record r { review = Option.map normalise_verdict r.review }

abbrev pub finished : Option JobResult → JobResult
finished (some r) = r
finished none = record {
  ok = true;
  summary = lit "finished";
  files_changed = [];
  commits = [];
  branch = none;
  pr_url = none;
  review = none;
  error = none;
}

abbrev pub review_in : Option JobResult → Option ReviewVerdict
review_in none = none
review_in (some r) = r.review

unfoldable pub close_root : ℕ → Job → Handler (Unit {0})
close_root now j =
    if is_null j.parent_job_id && is_job_terminal j.status
    then (commit (finish_run now j) >>= λ _. answer tt)
    else answer tt

-- `none` is the 409 of a lost lease.
unfoldable pub reported : Claims → ℕ → Option JobResult → Option Job → Handler (Option JobStatus)
reported c now result none = answer none
reported c now result (some j) = do
  commit (record_verdict c (review_in result))
  close_root now j
  answer (some j.status)

unfoldable pub settle : Claims → ℕ → Option JobResult → Option Text → Tx (Option Job)
settle c now result none = complete c.job_id c.vm_id (finished result) now
settle c now result (some error) = fail c.job_id c.vm_id error now

unfoldable pub agent_complete : Claims → ℕ → Report → Handler (Option JobStatus)
agent_complete c now report =
    let result = Option.map normalised report.result in
    commit (settle c now result (says report.error)) >>= reported c now result

-- POST /agent/spawn. The digests are parameters: of the job and the request's id, and of the agents.
-- An attempt that deadlocks is rolled back and made again, so one that runs is all that counts.
module _ (operation : ℕ → String → ℕ) (fingerprint : List SpawnRequest → ℕ) where
  unfoldable pub spawn_call : Claims → ℕ → Option String → List (ℕ × SpawnRequest) → Db → SpawnCall
  spawn_call c now request agents db = record {
    job_id = c.job_id;
    run_id = c.run_id;
    depth = depth_of db.jobs c.job_id + 1;
    now = now;
    inherited = inherited_context (get_job c.job_id db.jobs);
    operation = Option.map (operation c.job_id) request;
    fingerprint = fingerprint (map (λ (a : ℕ × SpawnRequest). a.1) agents);
    agents = agents;
  }

  unfoldable pub agent_spawn :
      Claims → ℕ → Option String → List (ℕ × SpawnRequest) → Handler (Option SpawnResponse)
  agent_spawn c now request agents =
      commit (query (spawn_call c now request agents)) >>= λ k. commit (spawn k)
