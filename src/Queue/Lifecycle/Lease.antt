-- ===== src/Queue/Lifecycle/Lease.antt =====
-- A lease decides who may act on a job: the VM that holds it, and no other.
use kapi_final.Base.{
  ℕ, ◌+◌, ◌≡◌, ◌≢◌, ◌==◌, ◌≤◌, ◌<◌, refl, ◌∙◌, ap, Bool, true, false, Option, none, some, [], ◌∷◌,
  IsKeyed, row_of, row_of-hit, row_of-miss, update_where, update-miss, find-key_and, returning,
  returning-none, head?, head-returning_key, arith, keep_if, ◌&&◌,
}
use kapi_final.Protocol.Text.{Text, queued, failed, succeeded}
use kapi_final.Protocol.Jobs.{Job, JobResult, orchestrator}
use kapi_final.Protocol.Events.{EventInput, AgentEvent, job_status, of_job}
use kapi_final.Db.Tables.{Db, Run, AgentStatus}
use kapi_final.Db.Tables
use kapi_final.Db.Tx.{pure, update_jobs, update_agents, done, bind_done}
use kapi_final.Queue.Events.{append_then, appended, job_status_event, non_empty}
use kapi_final.Queue.Lifecycle.{
  heartbeat, beat_agents, mark_running, record_running, complete, record_complete, fail,
  record_fail, stop_agent, has_id_and, holds_lease, is_vm, is_claimed, set_succeeded, set_failed,
  failed_or,
}

abbrev pub job_key : Job → ℕ
job_key j = j.id

abbrev pub run_key : Run → ℕ
run_key r = r.id

module _ (id : ℕ) (q : Job → Bool) (f : Job → Job) (db : Db) (d : IsKeyed job_key db.jobs) where
  update_jobs_miss :
      keep_if q (row_of job_key id db.jobs) ≡ none → update_jobs (has_id_and id q) f db ≡ done [] db
  unfolding update_jobs
  update_jobs_miss h =
      let none_found = find-key_and job_key id q db.jobs d ∙ h in
      rw (
        returning-none (λ j. j.id == id && q j) f db.jobs none_found,
        update-miss job_key id q f db.jobs d h,
      )

  update_jobs_hit :
      {j : Job}
      → row_of job_key id db.jobs ≡ some j
      → q j ≡ true
      → head? (returning (has_id_and id q) f db.jobs) ≡ some (f j)
  update_jobs_hit e t = head-returning_key job_key id q f db.jobs d ∙ ground arith

-- Under a primary key, a VM that does not hold a job's lease changes nothing: its heartbeat is
-- answered by false, its complete, fail and start by null, and the database stays as it is.
pub not_holder :
    (id vm : ℕ) (db : Db) (seconds now : ℕ) (r : JobResult) (error : Text)
    → IsKeyed job_key db.jobs
    → keep_if (holds_lease vm) (row_of job_key id db.jobs) ≡ none
    → (heartbeat id vm seconds now db ≡ done false db)
      × (complete id vm r now db ≡ done none db)
      × (fail id vm error now db ≡ done none db)
      × (mark_running id vm db ≡ done none db)
unfolding heartbeat beat_agents mark_running record_running complete record_complete fail
    record_fail pure
not_holder id vm db seconds now r error d h = (
  bind_done _ _ db (update_jobs_miss id (holds_lease vm) _ db d h),
  bind_done _ _ db (update_jobs_miss id (holds_lease vm) _ db d h),
  bind_done _ _ db (update_jobs_miss id (holds_lease vm) _ db d h),
  bind_done _ _ db (
      update_jobs_miss id (λ j. is_vm j.vm_id vm && is_claimed j.status) _ db d
        (narrower (row_of job_key id db.jobs) h)),
)
  where
    narrower :
        (o : Option Job)
        → keep_if (holds_lease vm) o ≡ none
        → keep_if (λ j. is_vm j.vm_id vm && is_claimed j.status) o ≡ none
    narrower none e = refl
    narrower (some j) e = ground arith

abbrev written : (Job → Job) → ℕ → ℕ → Db → Db
written f id vm db = record db { jobs = update_where (has_id_and id (holds_lease vm)) f db.jobs }

-- The event of an end, and the database once the row, the agent and the event are written.
abbrev ended : (f : Job → Job) (id vm now : ℕ) → AgentStatus → EventInput → Run → Db → Db
ended f id vm now status e r db = appended e r (record db {
  jobs = update_where (has_id_and id (holds_lease vm)) f db.jobs;
  agents =
      update_where (λ a. a.job_id == id) (λ a. record a { status = status; stopped_at = some now })
        db.agents;
})

abbrev succeeded_event : Job → ℕ → JobResult → EventInput
succeeded_event j vm r =
    job_status_event j.run_id j.id none succeeded (some vm) none (some r.summary)

abbrev failed_event : Job → ℕ → Text → EventInput
failed_event k vm error =
    job_status_event k.run_id k.id none k.status (some vm) (some k.attempts) (some error)

module _ (id vm now : ℕ) (db : Db) (j : Job) (r : Run) (d : IsKeyed job_key db.jobs)
    (own : row_of job_key id db.jobs ≡ some j) (held : holds_lease vm j ≡ true)
    (known : row_of run_key j.run_id db.runs ≡ some r) where
  complete_done :
      (result : JobResult)
      → complete id vm result now db
        ≡ done (some (set_succeeded result now j)) (
            ended
              (set_succeeded result now)
              id
              vm
              now
              Tables.succeeded
              (succeeded_event j vm result)
              r
              db)
  unfolding complete record_complete update_jobs stop_agent update_agents set_succeeded
      job_status_event
  complete_done result =
      bind_done (update_jobs (has_id_and id (holds_lease vm)) (set_succeeded result now)) _ db refl
      ∙ (ap (λ o. record_complete id vm now result o (written (set_succeeded result now) id vm db))
            (update_jobs_hit id (holds_lease vm) (set_succeeded result now) db d own held)
          ∙ (bind_done (stop_agent now id Tables.succeeded) _ _ refl
              ∙ append_then (succeeded_event j vm result) _ _ known))

  fail_done :
      (error : Text)
      → let k = set_failed (λ _. error) now j in
        fail id vm error now db
        ≡ done (some k) (
            ended
              (set_failed (λ _. error) now)
              id
              vm
              now
              (failed_or k.status Tables.retrying)
              (failed_event k vm error)
              r
              db)
  unfolding fail record_fail update_jobs stop_agent update_agents set_failed job_status_event
  fail_done error =
      let k = set_failed (λ _. error) now j in
      bind_done (update_jobs (has_id_and id (holds_lease vm)) (set_failed (λ _. error) now)) _ db
        refl
      ∙ (ap (λ o. record_fail id vm now error o (written (set_failed (λ _. error) now) id vm db))
            (update_jobs_hit id (holds_lease vm) (set_failed (λ _. error) now) db d own held)
          ∙ (bind_done (stop_agent now id (failed_or k.status Tables.retrying)) _ _ refl
              ∙ append_then (failed_event k vm error) _ _ known))

-- The event of a completion, with the number that the run gives next.
abbrev pub completed_event : Job → ℕ → JobResult → Run → AgentEvent
completed_event j vm result r = record {
  run_id = j.run_id;
  job_id = some j.id;
  seq = r.event_seq + 1;
  kind = job_status;
  sender = orchestrator;
  recipient = none;
  payload = of_job (record {
    status = succeeded;
    from = none;
    vm_id = some vm;
    attempts = none;
    detail = non_empty (some result.summary);
  });
}

-- Where the VM holds the lease and the run exists, complete leaves the job's row succeeded, with
-- the result, no error, no lease and its time of finish, and keeps its payload and attempts; it
-- changes no other job, and writes the event with the run's next number.
pub complete_lem :
    (id vm now : ℕ) (db : Db) (j : Job) (r : Run) (result : JobResult)
    → IsKeyed job_key db.jobs
    → row_of job_key id db.jobs ≡ some j
    → holds_lease vm j ≡ true
    → row_of run_key j.run_id db.runs ≡ some r
    → (k : Job) × (db' : Db) × (complete id vm result now db ≡ done (some k) db')
      × (row_of job_key id db'.jobs ≡ some k)
      × ((k.status ≡ succeeded)
          × (k.result ≡ some result)
          × (k.error ≡ none)
          × (k.lease_expires_at ≡ none)
          × (k.finished_at ≡ some now))
      × ((k.id ≡ j.id)
          × (k.run_id ≡ j.run_id)
          × (k.attempts ≡ j.attempts)
          × (k.payload ≡ j.payload))
      × ((i : ℕ) → i ≢ id → row_of job_key i db'.jobs ≡ row_of job_key i db.jobs)
      × (db'.events ≡ completed_event j vm result r ∷ db.events)
unfolding set_succeeded job_status_event
complete_lem id vm now db j r result d own held known = (
  set_succeeded result now j,
  ended (set_succeeded result now) id vm now Tables.succeeded (succeeded_event j vm result) r db,
  complete_done id vm now db j r d own held known result,
  row_of-hit job_key id (holds_lease vm) (set_succeeded result now) db.jobs (λ y. refl) own held,
  (refl, refl, refl, refl, refl),
  (refl, refl, refl, refl),
  (λ i n.
      row_of-miss job_key id i (holds_lease vm) (set_succeeded result now) db.jobs (λ y. refl) n),
  refl,
)

-- Where the VM holds the lease and the run exists, fail puts the job back in the queue, free of
-- its VM, while it has an attempt left, and else fails it for good; no other job changes.
pub fail_lem :
    (id vm now : ℕ) (db : Db) (j : Job) (r : Run) (error : Text)
    → IsKeyed job_key db.jobs
    → row_of job_key id db.jobs ≡ some j
    → holds_lease vm j ≡ true
    → row_of run_key j.run_id db.runs ≡ some r
    → (k : Job) × (db' : Db) × (fail id vm error now db ≡ done (some k) db')
      × (row_of job_key id db'.jobs ≡ some k)
      × (j.attempts < j.max_attempts
          → (k.status ≡ queued) × (k.vm_id ≡ none) × (k.lease_expires_at ≡ none))
      × (j.max_attempts ≤ j.attempts → (k.status ≡ failed) × (k.finished_at ≡ some now))
      × (k.attempts ≡ j.attempts)
      × (k.error ≡ some error)
      × ((i : ℕ) → i ≢ id → row_of job_key i db'.jobs ≡ row_of job_key i db.jobs)
unfolding set_failed
fail_lem id vm now db j r error d own held known =
    let f = set_failed (λ _. error) now in
    let k = f j in
    (
      k,
      ended f id vm now (failed_or k.status Tables.retrying) (failed_event k vm error) r db,
      fail_done id vm now db j r d own held known error,
      row_of-hit job_key id (holds_lease vm) f db.jobs (λ y. refl) own held,
      (λ h. ground arith),
      (λ h. ground arith),
      refl,
      refl,
      (λ i n. row_of-miss job_key id i (holds_lease vm) f db.jobs (λ y. refl) n),
    )
