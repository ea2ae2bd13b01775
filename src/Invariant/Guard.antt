-- ===== src/Invariant/Guard.antt =====
-- A property of the database that each single statement keeps. One proof of its fields gives
-- the property after every transaction.
use kapi_final.Base.{
  ℕ, ◌<◌, ◌≡◌, Bool, true, List, All, All-everywhere, IsKeyed, update_where, ◌∷◌, any, row_of, none,
  some, Option, false,
}
use kapi_final.Protocol.Jobs.{Job, JobSpec}
use kapi_final.Protocol.Events.{EventInput}
use kapi_final.Db.Tables.{Db, Agent, Run, Message, Schedule, Thread, Usage, Reservation, Artifacts}
use kapi_final.Db.Tx.{
  Keeps, update_agents, update_runs, update_schedules, insert_job, insert_message, update_jobs,
  update_artifacts, update_reservations, upsert_agent, update_threads, insert_schedule,
  insert_usage,
}
use kapi_final.Queue.Events.{append_event}
use kapi_final.Queue.Lifecycle.{new_job}
use kapi_final.ControlPlane.Scheduler.{is_active_for}
use kapi_final.Invariant.Steps.{JobStep, RunStep}

-- No run of the schedule is queued or running.
abbrev pub CanOpen : Option ℕ → List Run → Type 0
CanOpen none runs = Unit
CanOpen (some s) runs = any (is_active_for s) runs ≡ false

pub record Guard (P : Db → Type 0) : Type 0 where
  pub keyed : (db : Db) → P db → IsKeyed (λ (j : Job). j.id) db.jobs
  pub jobs :
      (p : Job → Bool) (f : Job → Job) (db : Db)
      → All (λ j. p j ≡ true → JobStep j (f j)) db.jobs
      → P db
      → P (record db { jobs = update_where p f db.jobs })
  pub insert :
      (id now : ℕ) (s : JobSpec) → 0 < s.max_attempts → Keeps P (insert_job (new_job id now s))
  pub agents : (p : Agent → Bool) (f : Agent → Agent) → Keeps P (update_agents p f)
  pub append : (e : EventInput) → Keeps P (append_event e)
  pub runs :
      (p : Run → Bool) (f : Run → Run)
      → ((r : Run) → p r ≡ true → RunStep r (f r))
      → Keeps P (update_runs p f)
  pub schedules : (p : Schedule → Bool) (f : Schedule → Schedule) → Keeps P (update_schedules p f)
  pub artifacts : (f : Artifacts → Artifacts) → Keeps P (update_artifacts f)
  pub reservations : (f : List Reservation → List Reservation) → Keeps P (update_reservations f)
  pub upsert : (a : Agent) (f : Agent → Agent) → Keeps P (upsert_agent a f)
  pub threads : (f : List Thread → List Thread) → Keeps P (update_threads f)
  pub add_schedule : (s : Schedule) → Keeps P (insert_schedule s)
  -- A new run: its id is free, no event is written, and its schedule has no run that is not over.
  pub opens :
      (r : Run) (db : Db)
      → row_of (λ (x : Run). x.id) r.id db.runs ≡ none
      → r.event_seq ≡ 0
      → CanOpen r.schedule_id db.runs
      → P db
      → P (record db { runs = r ∷ db.runs })
  pub staff : (agents : List Agent) (db : Db) → P db → P (record db { agents = agents })
  pub usage : (u : Usage) → Keeps P (insert_usage u)
  pub message : (m : Message) → Keeps P (insert_message m)

module _ {P : Db → Type 0} (g : Guard P) where
  -- An UPDATE that steps every row that it may meet.
  pub update_jobs-Keeps :
      (p : Job → Bool) (f : Job → Job)
      → ((j : Job) → p j ≡ true → JobStep j (f j))
      → Keeps P (update_jobs p f)
  unfolding update_jobs
  update_jobs-Keeps p f h = record { apply = λ db k. g.jobs p f db (All-everywhere db.jobs h) k }
