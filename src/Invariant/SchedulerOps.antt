-- ===== src/Invariant/SchedulerOps.antt =====
-- Opening runs, by a user's message or by the scheduler, keeps what each statement keeps.
use kapi_final.Base.{
  ℕ, ◌≡◌, refl, false, Bool-cases, inl, inr, Option, none, some, List, [], ◌∷◌, any, find, row_of,
  arith,
}
use kapi_final.Db.Tables.{Db, Run, Project, Schedule}
use kapi_final.Db.Tx.{
  Keeps, Keeps-bind, Keeps-pure, Keeps-fail_with, Holds, Holds-first, insert_run, is_taken, done,
  throw, query, ◌>>=◌, Outcome, Keeps-query, update_schedules,
}
use kapi_final.Db.Handler.{Served, served, crashed, left_by, Serves, Serves-commit, commit}
use kapi_final.ControlPlane.RunService.{
  Spelling, StartRunInput, StartedRun, start_in, new_run, captain_spec,
}
use kapi_final.ControlPlane.Scheduler.{
  Supply, claim_one, claim_row, claim_due, note_claim, open_for, opening, has_active, tick, tick_on,
  with_claim, run_now, run_row, note_run, Claimed, ScheduleInput, SchedulePatch, owned,
}
use kapi_final.ControlPlane.Scheduler.Crud.{
  create, saved, store_schedule, update, update_known, write_plan, rename_thread, remove, set_plan,
}
use kapi_final.Invariant.Guard.{Guard, CanOpen}
use kapi_final.Invariant.QueueOps.{enqueue_in-Keeps}

-- A run that may be inserted has a free key.
pub taken-free :
    (r : Run) (runs : List Run)
    → is_taken r runs ≡ false
    → row_of (λ (x : Run). x.id) r.id runs ≡ none
unfolding any row_of find
taken-free r [] h = refl
taken-free r (x ∷ xs) h = ground (arith, taken-free r xs)

module _ {P : Db → Type 0} (g : Guard P) where
  insert_run-Holds :
      (r : Run) (db : Db)
      → r.event_seq ≡ 0
      → CanOpen r.schedule_id db.runs
      → P db
      → Holds P (insert_run r db)
  unfolding insert_run
  insert_run-Holds r db z can p = elim (Bool-cases (is_taken r db.runs)) [
    | inl t ↦ rw t tt
    | inr t ↦ rw t (g.opens r db (taken-free r db.runs t) z can p)
  ]

  pub start_in-Holds :
      (sp : Spelling) (run_id job_id now : ℕ) (input : StartRunInput) (db : Db)
      → CanOpen input.schedule_id db.runs
      → P db
      → Holds P (start_in sp run_id job_id now input db)
  unfolding start_in query new_run ◌>>=◌ captain_spec
  start_in-Holds sp run_id job_id now input db can p =
      Holds-first (insert_run (new_run run_id input)) _ db
        (insert_run-Holds (new_run run_id input) db refl can p)
        (λ run.
          Keeps-bind (g.message _)
            λ _. Keeps-bind (enqueue_in-Keeps g job_id now _ (omega arith)) λ _. Keeps-pure _)

  pub open_for-Keeps :
      (u : Supply) (s : Schedule) (p : Project) (for : ℕ) → Keeps P (open_for u s p for)
  unfolding open_for
  open_for-Keeps u s p for = record {
    apply = λ db h. elim (Bool-cases (has_active s.id db)) [
      | inl t ↦ rw t h
      | inr t ↦ rw t (
          Holds-first (start_in u.spelling u.run_id u.job_id u.clock (opening s p for)) _ db
            (start_in-Holds u.spelling u.run_id u.job_id u.clock (opening s p for) db t h)
            (λ r. Keeps-pure _))
    ];
  }

  note_claim-Keeps :
      (u : Supply) (s : Schedule) (due next : ℕ) (r : Option StartedRun)
      → Keeps P (note_claim u s due next r)
  unfolding note_claim
  note_claim-Keeps u s due next none = Keeps-bind (g.schedules _ _) (λ _. Keeps-pure _)
  note_claim-Keeps u s due next (some r) = Keeps-bind (g.schedules _ _) (λ _. Keeps-pure _)

  claim_due-Keeps :
      (u : Supply) (s : Schedule) (due : ℕ) (p : Option Project) (next : Option ℕ)
      → Keeps P (claim_due u s due p next)
  unfolding claim_due
  claim_due-Keeps u s due none next = Keeps-pure none
  claim_due-Keeps u s due (some p) none = Keeps-fail_with _
  claim_due-Keeps u s due (some p) (some next) =
      Keeps-bind (open_for-Keeps u s p due) (note_claim-Keeps u s due next)

  claim_row-Keeps : (u : Supply) (s : Option Schedule) → Keeps P (claim_row u s)
  unfolding claim_row
  claim_row-Keeps u none = record { apply = λ db h. h }
  claim_row-Keeps u (some s) = record { apply = λ db h. (claim_due-Keeps u s _ _ _).apply db h }

  pub claim_one-Keeps : (u : Supply) (now : ℕ) → Keeps P (claim_one u now)
  unfolding claim_one
  claim_one-Keeps u now = Keeps-bind (Keeps-query _) (claim_row-Keeps u)

  tick_on-left :
      (db : Db) (o : Outcome (Option Claimed)) (next : Db → Served (List Claimed))
      → P db
      → Holds P o
      → ((d : Db) → P d → P (left_by (next d)))
      → P (left_by (tick_on db o next))
  tick_on-left db (throw e) next p h k = p
  tick_on-left db (done none d) next p h k = h
  tick_on-left db (done (some c) d) next p h k = claimed (next d) (k d h)
    where
      claimed : (s : Served (List Claimed)) → P (left_by s) → P (left_by (with_claim c s))
      claimed (served cs d) h = h
      claimed (crashed e d) h = h

  pub tick-Serves : (us : List Supply) (now : ℕ) → Serves P (tick us now)
  unfolding tick
  tick-Serves [] now = record { apply = λ db h. h }
  tick-Serves (u ∷ us) now = record {
    apply = λ db h.
        tick_on-left db (claim_one u now db) (tick us now) h ((claim_one-Keeps u now).apply db h)
          (tick-Serves us now).apply;
  }

  note_run-Keeps : (u : Supply) (id : ℕ) (r : Option StartedRun) → Keeps P (note_run u id r)
  unfolding note_run
  note_run-Keeps u id none = Keeps-pure _
  note_run-Keeps u id (some r) = Keeps-bind (g.schedules _ _) (λ _. Keeps-pure _)

  run_row-Keeps :
      (u : Supply) (id now : ℕ) (s : Option Schedule) (p : Option Project)
      → Keeps P (run_row u id now s p)
  unfolding run_row
  run_row-Keeps u id now none p = Keeps-pure _
  run_row-Keeps u id now (some s) none = Keeps-pure _
  run_row-Keeps u id now (some s) (some p) =
      Keeps-bind (open_for-Keeps u s p now) (note_run-Keeps u id)

  pub run_now-Keeps : (u : Supply) (id owner now : ℕ) → Keeps P (run_now u id owner now)
  unfolding run_now
  run_now-Keeps u id owner now = record { apply = λ db h. (run_row-Keeps u id now _ _).apply db h }

  store_schedule-Keeps : (s : Schedule) → Keeps P (store_schedule s)
  unfolding store_schedule
  store_schedule-Keeps s =
      Keeps-bind (g.threads _) λ _. Keeps-bind (g.add_schedule s) λ _. Keeps-pure s

  saved-Serves :
      (id thread project : ℕ) (input : ScheduleInput) (next : Option (Option ℕ))
      → Serves P (saved id thread project input next)
  saved-Serves id thread project input none = record { apply = λ db h. h }
  saved-Serves id thread project input (some next) = record {
    apply = λ db h. (Serves-commit (store_schedule-Keeps _)).apply db h;
  }

  pub create-Serves :
      (next : ℕ → ℕ → ℕ → Option ℕ) (id thread now : ℕ) (project : Project) (input : ScheduleInput)
      → Serves P (create next id thread now project input)
  unfolding create
  create-Serves next id thread now project input = saved-Serves id thread project.id input _

  rename_thread-Keeps : (s : Option Schedule) → Keeps P (rename_thread s)
  unfolding rename_thread
  rename_thread-Keeps none = Keeps-pure none
  rename_thread-Keeps (some s) = Keeps-bind (g.threads _) (λ _. Keeps-pure _)

  write_plan-Serves :
      (id owner : ℕ) (m : Schedule) (next : Option (Option ℕ))
      → Serves P (write_plan id owner m next)
  unfolding write_plan commit update_schedules
  write_plan-Serves id owner m none = record { apply = λ db h. h }
  write_plan-Serves id owner m (some next) = record {
    apply = λ db h.
        (Serves-commit (rename_thread-Keeps _)).apply _
          ((g.schedules (owned id owner db) (set_plan m next)).apply db h);
  }

  update_known-Serves :
      (next : ℕ → ℕ → ℕ → Option ℕ) (id owner now : ℕ) (patch : SchedulePatch) (s : Option Schedule)
      → Serves P (update_known next id owner now patch s)
  unfolding update_known
  update_known-Serves next id owner now patch none = record { apply = λ db h. h }
  update_known-Serves next id owner now patch (some s) = record {
    apply = λ db h. (write_plan-Serves id owner _ _).apply db h;
  }

  pub update-Serves :
      (next : ℕ → ℕ → ℕ → Option ℕ) (id owner now : ℕ) (patch : SchedulePatch)
      → Serves P (update next id owner now patch)
  unfolding update
  update-Serves next id owner now patch = record {
    apply = λ db h. (update_known-Serves next id owner now patch _).apply db h;
  }

  pub remove-Keeps : (id owner clock : ℕ) → Keeps P (remove id owner clock)
  unfolding remove
  remove-Keeps id owner clock = record {
    apply = λ db h. (Keeps-bind (g.schedules _ _) (λ _. Keeps-pure _)).apply db h;
  }
