-- ===== src/Queue/Lifecycle/Stored.antt =====
-- packages/queue/src/lifecycle.ts: a job that enqueue stores.
use kapi_final.Base.{
  ℕ, ◌==◌, ◌≡◌, refl, ◌∙◌, none, some, ◌∷◌, arith, row_of, row_of-update, row_of_sound,
  All-everywhere, update_where,
}
use kapi_final.Protocol.Text.{queued}
use kapi_final.Protocol.Jobs.{Job, JobSpec}
use kapi_final.Db.Tables.{Db, Run}
use kapi_final.Db.Tx.{pure, done, insert_job, update_runs, bind_done}
use kapi_final.Queue.Events.{
  append_event, append_event_, append_event_done, appended, bump, job_status_event,
}
use kapi_final.Queue.Lifecycle.{enqueue_in, new_job, count_spawn}
use kapi_final.Invariant.Whole.{job_id, run_id}

-- The row of the run after an update of it.
pub row_of-own :
    (f : Run → Run) (id : ℕ) (db : Db) {x : Run}
    → ((r : Run) → (f r).id ≡ r.id)
    → row_of run_id id db.runs ≡ some x
    → row_of run_id id (update_where (λ r. r.id == id) f db.runs) ≡ some (f x)
row_of-own f id db h e = ground (
  arith,
  row_of-update run_id (λ r. r.id == id) f id db.runs (All-everywhere db.runs (λ r _. h r)),
  row_of_sound run_id id db.runs e,
)

pub insert_free :
    (j : Job) (db : Db)
    → row_of job_id j.id db.jobs ≡ none
    → insert_job j db ≡ done j (record db { jobs = j ∷ db.jobs })
unfolding insert_job
insert_free j db h = ground arith

-- The job's row, its event, and one more of its run's spawns.
pub enqueue_in_done :
    (id now : ℕ) (s : JobSpec) (db : Db) {x : Run}
    → row_of job_id id db.jobs ≡ none
    → row_of run_id s.run_id db.runs ≡ some x
    → (db' : Db) × (enqueue_in id now s db ≡ done (new_job id now s) db')
      × (db'.jobs ≡ new_job id now s ∷ db.jobs)
      × (row_of run_id s.run_id db'.runs ≡ some (count_spawn (bump x)))
      × (db'.schedules ≡ db.schedules)
      × (db'.artifacts ≡ db.artifacts)
unfolding enqueue_in update_runs pure job_status_event
enqueue_in_done id now s db {x} free own =
    let j = new_job id now s in
    let db1 = record db { jobs = j ∷ db.jobs } in
    let e = job_status_event s.run_id id none queued none none none in
    let db2 = appended e x db1 in
    let own2 = row_of-own bump s.run_id db1 (λ _. refl) own in
    let db3 = record db2 { runs = update_where (λ r. r.id == s.run_id) count_spawn db2.runs } in
    let whole =
      bind_done (insert_job j) _ db (insert_free j db free)
      ∙ (bind_done (append_event_ e) _ db1
            (bind_done (append_event e) (λ _. pure tt) db1 (append_event_done e db1 own))
          ∙ bind_done (update_runs (λ r. r.id == s.run_id) count_spawn) (λ _. pure j) db2 refl) in
    (db3, whole, refl, row_of-own count_spawn s.run_id db2 (λ _. refl) own2, refl, refl)
