-- ===== src/ControlPlane/RunLifecycle.antt =====
-- apps/control-plane/src/run-lifecycle.ts: the one place where `runs.status` changes.
use kapi_final.Base.{
  ℕ, ◌==◌, leb, Option, none, some, Bool, true, false, not, ◌&&◌, ◌||◌, List, [], ◌∷◌, head?, any,
  has, length, if◌then◌else◌,
}
use kapi_final.Protocol.Text.{JobStatus, Text, lit, captain_ended}
use kapi_final.Protocol.Text
use kapi_final.Protocol.Jobs.{Job, JobResult, orchestrator, is_job_terminal}
use kapi_final.Protocol.Events.{
  EventInput, RunStatus, run_status, of_run, completed, failed, cancelled,
}
use kapi_final.Protocol.Events
use kapi_final.Db.Tables.{Db, Run, ScheduleStatus, captain}
use kapi_final.Db.Tables
use kapi_final.Db.Tx.{
  Tx, ◌>>=◌, ◌>>◌, pure, update_jobs, update_agents, update_runs, update_schedules, insert_message,
  for_each, after,
}
use kapi_final.Queue.Events.{append_event, append_event_, job_status_event}
use kapi_final.Queue.Lifecycle.{closure, children_of, set_cancelled, ids_of, sort_by}
use kapi_final.Invariant.Steps.{is_run_terminal}

unfoldable pub run_event : ℕ → Option ℕ → RunStatus → Option Text → EventInput
run_event run_id job_id status summary = record {
  run_id = run_id;
  job_id = job_id;
  kind = run_status;
  sender = orchestrator;
  recipient = none;
  payload = of_run status summary;
}

abbrev pub is_run_queued : RunStatus → Bool
is_run_queued Events.queued = true
is_run_queued _ = false

unfoldable pub announce_start : ℕ → ℕ → List Run → Tx (Option ℕ)
announce_start run_id job_id [] = pure none
announce_start run_id job_id (_ ∷ _) = do
  seq ← append_event (run_event run_id (some job_id) Events.running none)
  pure (some seq)

unfoldable pub start_run : ℕ → ℕ → Tx (Option ℕ)
start_run run_id job_id = do
  claimed ←
      update_runs (λ r. r.id == run_id && is_run_queued r.status)
        (λ r. record r { status = Events.running })
  announce_start run_id job_id claimed

abbrev pub run_status_of : JobStatus → RunStatus
run_status_of Text.succeeded = completed
run_status_of _ = failed

abbrev pub schedule_status_of : RunStatus → ScheduleStatus
schedule_status_of completed = Tables.completed
schedule_status_of cancelled = Tables.cancelled
schedule_status_of _ = Tables.failed

-- a ?? b
abbrev pub or_else {ℓ} : {A : Type ℓ} → Option A → Option A → Option A
or_else none b = b
or_else (some a) b = some a

abbrev pub or_text : Option Text → Text → Text
or_text none t = t
or_text (some s) t = s

abbrev pub result_summary : Option JobResult → Option Text
result_summary none = none
result_summary (some r) = some r.summary

-- job.result?.summary ?? job.error ?? `the captain ${job.status}`
abbrev pub closing_summary : Job → Text
closing_summary job =
    or_text (or_else (result_summary job.result) job.error) (captain_ended job.status)

-- WITH RECURSIVE descendants: the strict subtree.
unfoldable pub descendants : List Job → ℕ → List ℕ
descendants jobs id = closure (length jobs) jobs (children_of jobs (id ∷ []))

abbrev pub open_run : ℕ → Run → Bool
open_run id r = r.id == id && not (is_run_terminal r.status)

-- UPDATE agents ... WHERE job_id = ANY($1) AND stopped_at IS NULL, and an event for each job.
abbrev pub is_null {ℓ} : {A : Type ℓ} → Option A → Bool
is_null none = true
is_null (some _) = false

unfoldable pub close_jobs : ℕ → ℕ → Text → List Job → Tx (Unit {0})
close_jobs now run_id reason [] = pure tt
close_jobs now run_id reason (j ∷ js) = do
  update_agents (λ a. has a.job_id (ids_of (j ∷ js)) && is_null a.stopped_at)
      (λ a. record a { status = Tables.cancelled; stopped_at = some now })
  for_each (sort_by (λ a b. leb a.id b.id) (j ∷ js)) (λ k.
      append_event_ (job_status_event run_id k.id none Text.cancelled none none (some reason)))

unfoldable pub note_schedule : Option ℕ → ScheduleStatus → Option Text → Tx (Unit {0})
note_schedule none status error = pure tt
note_schedule (some id) status error =
    update_schedules (λ s. s.id == id)
      (λ s. record s { last_status = some status; last_error = error })

unfoldable pub close_run : RunStatus → Option Text → ℕ → Run → Run
close_run status error now r = record r {
  status = status;
  error = or_else error r.error;
  finished_at = some now;
}

-- The rest of `finishRun`, over the row that was claimed.
unfoldable pub write_back : Job → Option Run → Tx (Option ℕ)
write_back job none = pure none
write_back job (some run) = do
  insert_message (record {
    thread_id = run.thread_id;
    role = captain;
    content = closing_summary job;
    run_id = some job.run_id;
  })
  note_schedule run.schedule_id (schedule_status_of (run_status_of job.status)) job.error
  seq ←
      append_event
        (run_event job.run_id (some job.id) (run_status_of job.status) (some (closing_summary job)))
  pure (some seq)

abbrev pub root_finished : Text
root_finished = lit "root captain finished"

unfoldable pub finish_run : ℕ → Job → Tx (Option ℕ)
finish_run now job db =
    (do
      closed ←
          update_jobs
            (λ j.
              (has j.id (descendants db.jobs job.id) && not (is_job_terminal j.status))
              && any (open_run job.run_id) db.runs)
            (set_cancelled root_finished now)
      close_jobs now job.run_id root_finished closed
      claimed ←
          update_runs (open_run job.run_id) (close_run (run_status_of job.status) job.error now)
      write_back job (head? claimed))
      db

-- UPDATE runs ... error = COALESCE(error, $2)
unfoldable pub cancel_row : Text → ℕ → Run → Run
cancel_row reason now r = record r {
  status = cancelled;
  error = or_else r.error (some reason);
  finished_at = some now;
}

unfoldable pub cancel_work : ℕ → Text → ℕ → Option Run → Tx ℕ
cancel_work run_id reason now none = pure 0
cancel_work run_id reason now (some run) = do
  rows ←
      update_jobs (λ j. j.run_id == run_id && not (is_job_terminal j.status))
        (set_cancelled reason now)
  close_jobs now run_id reason rows
  note_schedule run.schedule_id Tables.cancelled (some reason)
  append_event_ (run_event run_id none cancelled (some reason))
  pure (length rows)

unfoldable pub cancel_run : ℕ → Text → ℕ → Tx ℕ
cancel_run run_id reason now = do
  claimed ← update_runs (open_run run_id) (cancel_row reason now)
  cancel_work run_id reason now (head? claimed)

-- A root that ended; `finishRun` is a transaction of its own, and its error is only logged.
unfoldable pub on_reap : ℕ → List Job → Db → Db
on_reap now [] db = db
on_reap now (j ∷ js) db = on_reap now js (
    if not (is_null j.parent_job_id) || not (is_job_terminal j.status)
    then db
    else after (finish_run now j db) db)
