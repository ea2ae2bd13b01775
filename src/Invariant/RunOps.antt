-- ===== src/Invariant/RunOps.antt =====
-- Every operation of the run lifecycle keeps what each of its statements keeps.
use kapi_final.Base.{
  ℕ, refl, Option, none, some, List, [], ◌∷◌, head?, arith, not, ◌||◌, Bool-cases, inl, inr,
}
use kapi_final.Protocol.Text.{Text}
use kapi_final.Protocol.Jobs.{Job, is_job_terminal}
use kapi_final.Db.Tables.{Db, Run, ScheduleStatus}
use kapi_final.Db.Tx.{
  Keeps, Keeps-bind, Keeps-pure, Keeps-for_each, Keeps-after, Holds-first, update_jobs, after,
}
use kapi_final.Queue.Lifecycle.{set_cancelled}
use kapi_final.ControlPlane.RunLifecycle.{
  start_run, announce_start, finish_run, close_jobs, note_schedule, write_back, close_run,
  cancel_run, cancel_work, cancel_row, on_reap, root_finished, is_null,
}
use kapi_final.Invariant.Steps.{cancels}
use kapi_final.Invariant.Guard.{Guard, update_jobs-Keeps}
use kapi_final.Invariant.QueueOps.{append_event_-Keeps}

module _ {P : Db → Type 0} (g : Guard P) where
  announce_start-Keeps :
      (run_id job_id : ℕ) (rows : List Run) → Keeps P (announce_start run_id job_id rows)
  unfolding announce_start
  announce_start-Keeps run_id job_id [] = Keeps-pure none
  announce_start-Keeps run_id job_id (r ∷ rs) = search (Keeps-bind, Keeps-pure, g.append)

  pub start_run-Keeps : (run_id job_id : ℕ) → Keeps P (start_run run_id job_id)
  unfolding start_run
  start_run-Keeps run_id job_id =
      Keeps-bind
        (g.runs _ _ (λ r h. record {
          same_id = refl;
          same_seq = refl;
          same_schedule = refl;
          ended = ground arith;
        }))
        (announce_start-Keeps run_id job_id)

  close_jobs-Keeps :
      (now run_id : ℕ) (reason : Text) (rows : List Job)
      → Keeps P (close_jobs now run_id reason rows)
  unfolding close_jobs
  close_jobs-Keeps now run_id reason [] = Keeps-pure tt
  close_jobs-Keeps now run_id reason (j ∷ js) =
      Keeps-bind (g.agents _ _) (λ _. Keeps-for_each _ (λ k. append_event_-Keeps g _))

  note_schedule-Keeps :
      (id : Option ℕ) (s : ScheduleStatus) (e : Option Text) → Keeps P (note_schedule id s e)
  unfolding note_schedule
  note_schedule-Keeps none s e = Keeps-pure tt
  note_schedule-Keeps (some id) s e = g.schedules _ _

  write_back-Keeps : (job : Job) (run : Option Run) → Keeps P (write_back job run)
  unfolding write_back
  write_back-Keeps job none = Keeps-pure none
  write_back-Keeps job (some run) = Keeps-bind (g.message _) λ _.
      Keeps-bind (note_schedule-Keeps _ _ _)
        λ _. Keeps-bind (g.append _) λ seq. Keeps-pure (some seq)

  pub finish_run-Keeps : (now : ℕ) (job : Job) → Keeps P (finish_run now job)
  unfolding finish_run close_run
  finish_run-Keeps now job = record {
    apply = λ db h.
        Holds-first (update_jobs _ (set_cancelled root_finished now)) _ db
          ((update_jobs-Keeps g _ _ (λ j t. cancels _ now (ground arith))).apply db h)
          (λ rows. Keeps-bind (close_jobs-Keeps now job.run_id root_finished rows) λ _.
            Keeps-bind
              (g.runs _ _ (λ r t. record {
                same_id = refl;
                same_seq = refl;
                same_schedule = refl;
                ended = ground arith;
              }))
              λ claimed. write_back-Keeps job (head? claimed));
  }

  cancel_work-Keeps :
      (run_id : ℕ) (reason : Text) (now : ℕ) (run : Option Run)
      → Keeps P (cancel_work run_id reason now run)
  unfolding cancel_work
  cancel_work-Keeps run_id reason now none = Keeps-pure 0
  cancel_work-Keeps run_id reason now (some run) =
      Keeps-bind (update_jobs-Keeps g _ _ (λ j t. cancels reason now (ground arith))) λ rows.
        Keeps-bind (close_jobs-Keeps now run_id reason rows) λ _.
          Keeps-bind (note_schedule-Keeps _ _ _)
            λ _. Keeps-bind (append_event_-Keeps g _) λ _. Keeps-pure _

  pub cancel_run-Keeps :
      (run_id : ℕ) (reason : Text) (now : ℕ) → Keeps P (cancel_run run_id reason now)
  unfolding cancel_run cancel_row
  cancel_run-Keeps run_id reason now =
      Keeps-bind
        (g.runs _ _ (λ r t. record {
          same_id = refl;
          same_seq = refl;
          same_schedule = refl;
          ended = ground arith;
        }))
        (λ claimed. cancel_work-Keeps run_id reason now (head? claimed))

  pub on_reap-Keeps : (now : ℕ) (jobs : List Job) (db : Db) → P db → P (on_reap now jobs db)
  unfolding on_reap
  on_reap-Keeps now [] db h = h
  on_reap-Keeps now (j ∷ js) db h =
      elim (Bool-cases (not (is_null j.parent_job_id) || not (is_job_terminal j.status))) [
        | inl t ↦ rw t (on_reap-Keeps now js db h)
        | inr t ↦ rw t (
            on_reap-Keeps now js (after (finish_run now j db) db)
              (Keeps-after (finish_run-Keeps now j) h))
      ]
