-- ===== src/Queue/Lifecycle.antt =====
-- packages/queue/src/lifecycle.ts: enqueue, heartbeat, and the ends of a job.
pub mod Lease
pub mod Stored
pub mod Secrets
use text.Mathlib.Text.{◌==◌ as str_eq}
use kapi_final.Base.{
  ℕ, zero, suc, ◌==◌, ◌+◌, ◌*◌, leb, ltb, Option, none, some, Bool, true, false, not, ◌&&◌, ◌||◌,
  List, [], ◌∷◌, ◌++◌, head?, has, map, select, length, if◌then◌else◌, row_of, String,
}
use kapi_final.Protocol.Text.{
  JobStatus, Text, queued, claimed, running, succeeded, failed, cancelled,
}
use kapi_final.Protocol.Jobs.{Job, JobSpec, JobResult, is_job_leased, is_job_terminal}
use kapi_final.Db.Tables.{Db, Agent, AgentStatus, Run}
use kapi_final.Db.Tables
use kapi_final.Db.Tx.{
  Tx, ◌>>=◌, ◌>>◌, pure, update_jobs, update_agents, update_runs, insert_job, for_each,
}
use kapi_final.Queue.Events.{append_event_, job_status_event}

-- `[...new Set(texts)]`: the first of each.
unfoldable pub distinct : List String → List String
distinct [] = []
distinct (t ∷ ts) = t ∷ select (λ u. not (str_eq u t)) (distinct ts)

-- The row that INSERT makes; `id` is `newId("job")`.
unfoldable pub new_job : ℕ → ℕ → JobSpec → Job
new_job id now s = record {
  id = id;
  run_id = s.run_id;
  parent_job_id = s.parent_job_id;
  kind = s.kind;
  role = s.role;
  status = queued;
  payload = record s.payload { secrets = distinct s.payload.secrets };
  result = none;
  vm_id = none;
  lease_expires_at = none;
  attempts = 0;
  max_attempts = s.max_attempts;
  priority = s.priority;
  depends_on = s.depends_on;
  error = none;
  created_at = now;
  started_at = none;
  finished_at = none;
}

abbrev pub count_spawn : Run → Run
count_spawn r = record r { total_spawns = r.total_spawns + 1 }

unfoldable pub enqueue_in : ℕ → ℕ → JobSpec → Tx Job
unfolding new_job
enqueue_in id now s = do
  job ← insert_job (new_job id now s)
  append_event_ (job_status_event job.run_id job.id none queued none none none)
  _ ← update_runs (λ r. r.id == job.run_id) count_spawn
  pure job

abbrev pub is_vm : Option ℕ → ℕ → Bool
is_vm none vm = false
is_vm (some v) vm = v == vm

-- WHERE id = $1 AND vm_id = $2 AND status IN ('claimed','running')
abbrev pub holds_lease : ℕ → Job → Bool
holds_lease vm j = is_vm j.vm_id vm && is_job_leased j.status

abbrev pub has_id_and : ℕ → (Job → Bool) → Job → Bool
has_id_and id p j = j.id == id && p j

unfoldable pub extend_lease : ℕ → ℕ → Job → Job
extend_lease now seconds j = record j { lease_expires_at = some (now + seconds * 1000) }

abbrev pub beat : ℕ → Agent → Agent
beat now a = record a { last_heartbeat = some now }

unfoldable pub beat_agents : ℕ → ℕ → ℕ → List Job → Tx Bool
beat_agents id vm now [] = pure false
beat_agents id vm now (_ ∷ _) = do
  update_agents (λ a. a.job_id == id && is_vm a.vm_id vm) (beat now)
  pure true

-- Two statements, each a transaction of its own; neither can throw.
unfoldable pub heartbeat : ℕ → ℕ → ℕ → ℕ → Tx Bool
heartbeat id vm seconds now = do
  rows ← update_jobs (has_id_and id (holds_lease vm)) (extend_lease now seconds)
  beat_agents id vm now rows

abbrev pub is_claimed : JobStatus → Bool
is_claimed claimed = true
is_claimed _ = false

unfoldable pub set_running : Job → Job
set_running j = record j { status = running }

unfoldable pub record_running : ℕ → Option Job → Tx (Option Job)
record_running vm none = pure none
record_running vm (some job) = do
  append_event_ (job_status_event job.run_id job.id (some claimed) running (some vm) none none)
  pure (some job)

unfoldable pub mark_running : ℕ → ℕ → Tx (Option Job)
mark_running id vm = do
  rows ← update_jobs (has_id_and id (λ j. is_vm j.vm_id vm && is_claimed j.status)) set_running
  record_running vm (head? rows)

unfoldable pub stop_agent : ℕ → ℕ → AgentStatus → Tx (Unit {0})
stop_agent now id status =
    update_agents (λ a. a.job_id == id) (λ a. record a { status = status; stopped_at = some now })

unfoldable pub set_succeeded : JobResult → ℕ → Job → Job
set_succeeded result now j = record j {
  status = succeeded;
  result = some result;
  error = none;
  lease_expires_at = none;
  finished_at = some now;
}

unfoldable pub record_complete : ℕ → ℕ → ℕ → JobResult → Option Job → Tx (Option Job)
record_complete id vm now result none = pure none
record_complete id vm now result (some job) = do
  stop_agent now id Tables.succeeded
  append_event_
      (job_status_event job.run_id job.id none succeeded (some vm) none (some result.summary))
  pure (some job)

unfoldable pub complete : ℕ → ℕ → JobResult → ℕ → Tx (Option Job)
complete id vm result now = do
  rows ← update_jobs (has_id_and id (holds_lease vm)) (set_succeeded result now)
  record_complete id vm now result (head? rows)

-- `attempts >= max_attempts`: the attempts are used up. The reaper writes the same columns.
unfoldable pub set_failed : (Job → Text) → ℕ → Job → Job
set_failed why now j =
    let spent = leb j.max_attempts j.attempts in
    record j {
      status = if spent then failed else queued;
      vm_id = if spent then j.vm_id else none;
      lease_expires_at = none;
      error = some (why j);
      finished_at = if spent then some now else none;
    }

abbrev pub failed_or : JobStatus → AgentStatus → AgentStatus
failed_or failed other = Tables.failed
failed_or _ other = other

unfoldable pub record_fail : ℕ → ℕ → ℕ → Text → Option Job → Tx (Option Job)
record_fail id vm now error none = pure none
record_fail id vm now error (some job) = do
  stop_agent now id (failed_or job.status Tables.retrying)
  append_event_ (
      job_status_event job.run_id job.id none job.status (some vm) (some job.attempts) (some error))
  pure (some job)

unfoldable pub fail : ℕ → ℕ → Text → ℕ → Tx (Option Job)
fail id vm error now = do
  rows ← update_jobs (has_id_and id (holds_lease vm)) (set_failed (λ _. error) now)
  record_fail id vm now error (head? rows)

-- One round of the recursive query: the rows whose parent is in the working table.
abbrev pub parent_in : List ℕ → Job → Bool
parent_in ids j = elim j.parent_job_id [ none ↦ false | some p ↦ has p ids ]

unfoldable pub children_of : List Job → List ℕ → List ℕ
children_of jobs ids = map (λ (j : Job). j.id) (select (parent_in ids) jobs)

-- WITH RECURSIVE ... UNION ALL: rounds until the working table is empty.
unfoldable pub closure : ℕ → List Job → List ℕ → List ℕ
closure zero jobs ids = []
closure (suc fuel) jobs [] = []
closure (suc fuel) jobs (i ∷ ids) = (i ∷ ids) ++ closure fuel jobs (children_of jobs (i ∷ ids))

-- A job's ancestors are other jobs, so as many rounds as there are jobs reach every descendant.
unfoldable pub subtree : List Job → ℕ → List ℕ
subtree jobs id =
    closure (length jobs) jobs (map (λ (j : Job). j.id) (select (λ j. j.id == id) jobs))

unfoldable pub set_cancelled : Text → ℕ → Job → Job
set_cancelled reason now j = record j {
  status = cancelled;
  lease_expires_at = none;
  finished_at = some now;
  error = some reason;
}

-- Sorting by (runId, id), as `localeCompare` orders them.
abbrev pub sorts_before : Job → Job → Bool
sorts_before a b = ltb a.run_id b.run_id || (a.run_id == b.run_id && leb a.id b.id)

unfoldable pub insert_sorted : (Job → Job → Bool) → Job → List Job → List Job
insert_sorted le j [] = j ∷ []
insert_sorted le j (k ∷ ks) = if le j k then j ∷ k ∷ ks else k ∷ insert_sorted le j ks

unfoldable pub sort_by : (Job → Job → Bool) → List Job → List Job
sort_by le [] = []
sort_by le (j ∷ js) = insert_sorted le j (sort_by le js)

abbrev pub ids_of : List Job → List ℕ
ids_of = map (λ (j : Job). j.id)

unfoldable pub cancel_agents : ℕ → List Job → Tx (Unit {0})
cancel_agents now [] = pure tt
cancel_agents now (j ∷ js) =
    update_agents (λ a. has a.job_id (ids_of (j ∷ js)))
      (λ a. record a { status = Tables.cancelled; stopped_at = some now })

unfoldable pub cancel_subtree : ℕ → Text → ℕ → Tx (List Job)
cancel_subtree id reason now db =
    (do
      rows ←
          update_jobs (λ j. has j.id (subtree db.jobs id) && not (is_job_terminal j.status))
            (set_cancelled reason now)
      cancel_agents now rows
      for_each (sort_by sorts_before rows) (λ j.
          append_event_ (job_status_event j.run_id j.id none cancelled none none (some reason)))
      pure rows)
      db

unfoldable pub get_job : ℕ → List Job → Option Job
get_job id jobs = row_of (λ j. j.id) id jobs

unfoldable pub list_jobs : ℕ → List Job → List Job
list_jobs run_id jobs =
    sort_by (λ a b. leb a.created_at b.created_at) (select (λ j. j.run_id == run_id) jobs)
