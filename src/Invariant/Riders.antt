-- ===== src/Invariant/Riders.antt =====
-- Properties of the jobs and runs that hold beside the invariant. A job, or a run, that is over
-- stays as it is: no step leads out.
use mathlib.Core.Option
use kapi_final.Base.{
  ℕ, ◌≡◌, ◌==◌, refl, sym, ◌∙◌, ap, Bool, true, none, some, List, ◌∷◌, All, All-everywhere, row_of,
  row_of-update, row_of-cons, update_where, arith, Option-cases, inl, inr, All-mem, find-mem,
}
use kapi_final.Protocol.Jobs.{Job, is_job_terminal}
use kapi_final.Protocol.Events.{RunStatus}
use kapi_final.Db.Tables.{Db, Run}
use kapi_final.Db.Tx.{
  Keeps, Holds, Outcome, done, throw, update_agents, update_runs, update_schedules, insert_message,
  Tx, update_artifacts, update_reservations, update_threads, insert_schedule,
}
use kapi_final.Queue.Events.{bump}
use kapi_final.Invariant.Steps.{JobStep, is_run_terminal}
use kapi_final.Invariant.Guard.{Guard, CanOpen}
use kapi_final.Invariant.JobRows.{JobStep-terminal}
use kapi_final.Invariant.Stream.{append_event-Keeps}
use kapi_final.Invariant.Whole.{
  Inv, Inv-Guard, job_id, run_id, insert_job-Keeps, upsert_agent-Keeps, insert_usage-Keeps,
  steps_keep,
}

pub record Rides (Q : List Job → List Run → Type 0) : Type 0 where
  pub jobs :
      (p : Job → Bool) (f : Job → Job) (jobs : List Job) (runs : List Run)
      → All (λ j. p j ≡ true → JobStep j (f j)) jobs
      → Q jobs runs
      → Q (update_where p f jobs) runs
  pub insert :
      (j : Job) (jobs : List Job) (runs : List Run)
      → row_of job_id j.id jobs ≡ none
      → Q jobs runs
      → Q (j ∷ jobs) runs
  pub runs :
      (p : Run → Bool) (f : Run → Run) (jobs : List Job) (runs : List Run)
      → ((r : Run)
          → p r ≡ true
          → ((f r).id ≡ r.id)
            × (is_run_terminal r.status ≡ true → (f r).status ≡ r.status)
            × ((f r).schedule_id ≡ r.schedule_id))
      → Q jobs runs
      → Q jobs (update_where p f runs)
  pub opens :
      (r : Run) (jobs : List Job) (runs : List Run)
      → row_of run_id r.id runs ≡ none
      → CanOpen r.schedule_id runs
      → Q jobs runs
      → Q jobs (r ∷ runs)

abbrev pub With : (List Job → List Run → Type 0) → Db → Type 0
With Q db = Inv db × Q db.jobs db.runs

both :
    {A : Type 0} (Q : Db → Type 0) (o : Outcome A)
    → Holds Inv o
    → Holds Q o
    → Holds (λ db. Inv db × Q db) o
both Q (done a db) h k = (h, k)
both Q (throw e) h k = tt

-- What a statement keeps beside the invariant.
pub beside_any :
    {A : Type 0} (Q : Db → Type 0) {m : Tx A}
    → Keeps Inv m
    → Keeps Q m
    → Keeps (λ db. Inv db × Q db) m
beside_any Q {m = m} k l = record {
  apply = λ db h. both Q (m db) (k.apply db h.0) (l.apply db h.1);
}

module _ {Q : List Job → List Run → Type 0} (q : Rides Q) where
  beside :
      {A : Type 0} {m : Tx A} → Keeps Inv m → Keeps (λ db. Q db.jobs db.runs) m → Keeps (With Q) m
  beside k l = beside_any (λ db. Q db.jobs db.runs) k l

  pub With-Guard : Guard (With Q)
  unfolding update_agents update_runs update_schedules insert_message update_artifacts
      update_reservations update_threads insert_schedule
  With-Guard = record {
    keyed = λ db v. (v.0).keyed;
    jobs = λ p f db h v. (Inv-Guard.jobs p f db h v.0, q.jobs p f db.jobs db.runs h v.1);
    insert = λ id now s h.
        beside (Inv-Guard.insert id now s h)
          (insert_job-Keeps _ (λ db free v. q.insert _ db.jobs db.runs free v));
    agents = λ p f. beside (Inv-Guard.agents p f) (record { apply = λ db v. v });
    append = λ e. beside (Inv-Guard.append e) (
        append_event-Keeps e
          (λ db x h v. q.runs _ bump db.jobs db.runs (λ r t. (refl, (λ u. refl), refl)) v));
    runs = λ p f h. beside (Inv-Guard.runs p f h) (record {
      apply = λ db v.
          q.runs p f db.jobs db.runs
            (λ r t. ((h r t).same_id, (h r t).ended, (h r t).same_schedule)) v;
    });
    schedules = λ p f. beside (Inv-Guard.schedules p f) (record { apply = λ db v. v });
    artifacts = λ f. beside (Inv-Guard.artifacts f) (record { apply = λ db v. v });
    reservations = λ f. beside (Inv-Guard.reservations f) (record { apply = λ db v. v });
    upsert = λ a f. beside (Inv-Guard.upsert a f) (upsert_agent-Keeps a f (λ db agents v. v));
    threads = λ f. beside (Inv-Guard.threads f) (record { apply = λ db v. v });
    add_schedule = λ s. beside (Inv-Guard.add_schedule s) (record { apply = λ db v. v });
    opens = λ r db free zero can v.
        (Inv-Guard.opens r db free zero can v.0, q.opens r db.jobs db.runs free can v.1);
    staff = λ agents db v. (Inv-Guard.staff agents db v.0, v.1);
    usage = λ u. beside (Inv-Guard.usage u) (insert_usage-Keeps u (λ db us v. v));
    message = λ m. beside (Inv-Guard.message m) (record { apply = λ db v. v });
  }

-- A job that is over.
pub record IsOver (id : ℕ) (j : Job) (jobs : List Job) (runs : List Run) : Type 0 where
  pub row : row_of job_id id jobs ≡ some j
  pub over : is_job_terminal j.status ≡ true

pub IsOver-Rides : (id : ℕ) (j : Job) → Rides (IsOver id j)
unfolding row_of
IsOver-Rides id j = record {
  jobs = λ p f jobs runs h v. record {
    row =
        let still : p j ≡ true → f j ≡ j = λ t.
          absurd (
            JobStep-terminal (All-mem _ jobs h (find-mem (λ x. x.id == id) jobs v.row) t) v.over) in
        ground (arith, row_of-update job_id p f id jobs (steps_keep p f jobs h), v.row, still);
    over = v.over;
  };
  insert = λ k jobs runs free v. record {
    row =
        let other : k.id ≡ id → none ≡ some j =
          λ e. sym free ∙ (ap (λ i. row_of job_id i jobs) e ∙ v.row) in
        ground (arith, row_of-cons job_id id k jobs, v.row, other);
    over = v.over;
  };
  runs = λ p f jobs runs h v. record { row = v.row; over = v.over };
  opens = λ r jobs runs free can v. record { row = v.row; over = v.over };
}

-- The status of a run, once it is over.
pub record IsClosed (id : ℕ) (s : RunStatus) (jobs : List Job) (runs : List Run) : Type 0 where
  pub status : Option.map (λ (r : Run). r.status) (row_of run_id id runs) ≡ some s
  pub over : is_run_terminal s ≡ true

pub IsClosed-Rides : (id : ℕ) (s : RunStatus) → Rides (IsClosed id s)
IsClosed-Rides id s = record {
  jobs = λ p f jobs runs h v. record { status = v.status; over = v.over };
  insert = λ k jobs runs free v. record { status = v.status; over = v.over };
  runs = λ p f jobs runs h v. record {
    status = elim (Option-cases (row_of run_id id runs)) [
      | inl e ↦ absurd (ground (arith, v.status))
      | inr (r, e) ↦ ground (
        arith,
        row_of-update run_id p f id runs (All-everywhere runs (λ x t. (h x t).0)),
        v.status,
        v.over,
        h r,
      )
    ];
    over = v.over;
  };
  opens = λ r jobs runs free can v. record {
    status =
        let other : r.id ≡ id → row_of run_id id runs ≡ none =
          λ e. ap (λ i. row_of run_id i runs) (sym e) ∙ free in
        ground (arith, row_of-cons run_id id r runs, v.status, other);
    over = v.over;
  };
}
