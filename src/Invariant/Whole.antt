-- ===== src/Invariant/Whole.antt =====
-- The invariant of the database, and the properties that ride on it.
use kapi_final.Base.{
  ℕ, ◌==◌, ◌≡◌, refl, sym, Bool, true, false, Option, none, some, List, [], ◌∷◌, All, row_of, arith,
  IsKeyed, update_where, if◌then◌else◌, ap, ◌∙◌, IsKeyed-update,
}
use kapi_final.Protocol.Jobs.{Job}
use kapi_final.Db.Tables.{Db, Run, Agent, Usage}
use kapi_final.Db.Tx.{
  Keeps, Holds, done, throw, insert_job, update_agents, update_runs, update_schedules,
  insert_message, duplicate_key, update_artifacts, update_reservations, upsert_agent,
  update_threads, insert_schedule, insert_usage,
}
use kapi_final.Invariant.Steps.{JobStep}
use kapi_final.Invariant.Guard.{Guard}
use kapi_final.Invariant.JobRows.{
  IsWellFormed, new_job-IsWellFormed, JobStep-IsWellFormed, JobStep-IsSameJob,
}
use kapi_final.Invariant.Stream.{
  IsGapless, IsGapless-append, IsGapless-open, append_event-Keeps, seq_of-update, countdown,
}

abbrev pub job_id : Job → ℕ
job_id j = j.id

abbrev pub run_id : Run → ℕ
run_id r = r.id

-- Jobs have a primary key and well formed rows, and each run's events are numbered with no gap.
pub record Inv (db : Db) : Type 0 where
  pub keyed : IsKeyed job_id db.jobs
  pub rows : All IsWellFormed db.jobs
  pub gapless : IsGapless db.runs db.events

-- An insertion either meets a taken key and throws, or adds a row with a new one.
pub insert_job-Keeps :
    {P : Db → Type 0} (j : Job)
    → ((db : Db) → row_of job_id j.id db.jobs ≡ none → P db → P (record db { jobs = j ∷ db.jobs }))
    → Keeps P (insert_job j)
unfolding insert_job
insert_job-Keeps {P} j h = record { apply = λ db p. split db p (row_of job_id j.id db.jobs) refl }
  where
    split :
        (db : Db)
        → P db
        → (o : Option Job) → row_of job_id j.id db.jobs ≡ o
        → Holds P (elim o [
          | none ↦ done j (record db { jobs = j ∷ db.jobs })
          | some _ ↦ throw (duplicate_key j.id)
        ])
    split db p none q = h db q p
    split db p (some x) q = tt

pub upsert_agent-Keeps :
    {P : Db → Type 0} (a : Agent) (f : Agent → Agent)
    → ((db : Db) (agents : List Agent) → P db → P (record db { agents = agents }))
    → Keeps P (upsert_agent a f)
unfolding upsert_agent
upsert_agent-Keeps {P} a f h = record {
  apply = λ db p. split db p (row_of (λ (x : Agent). x.job_id) a.job_id db.agents);
}
  where
    split :
        (db : Db)
        → P db
        → (o : Option Agent)
        → Holds P (elim o [
          | none ↦ done tt (record db { agents = a ∷ db.agents })
          | some _ ↦
              done tt (record db { agents = update_where (λ x. x.job_id == a.job_id) f db.agents })
        ])
    split db p none = h db _ p
    split db p (some x) = h db _ p

pub insert_usage-Keeps :
    {P : Db → Type 0} (u : Usage)
    → ((db : Db) (ledger : List Usage) → P db → P (record db { ledger = ledger }))
    → Keeps P (insert_usage u)
unfolding insert_usage
insert_usage-Keeps {P} u h = record { apply = λ db p. ground (arith, h db (u ∷ db.ledger) p, p) }

-- A step on the rows that an update meets leaves their keys alone.
pub steps_keep :
    (p : Job → Bool) (f : Job → Job) (jobs : List Job)
    → All (λ j. p j ≡ true → JobStep j (f j)) jobs
    → All (λ j. p j ≡ true → (f j).id ≡ j.id) jobs
steps_keep p f [] h = tt
steps_keep p f (j ∷ js) h = (λ t. (JobStep-IsSameJob (h.0 t)).id, steps_keep p f js h.1)

rows_step :
    (p : Job → Bool) (f : Job → Job) (jobs : List Job)
    → All (λ j. p j ≡ true → JobStep j (f j)) jobs
    → All IsWellFormed jobs
    → All IsWellFormed (update_where p f jobs)
unfolding update_where
rows_step p f [] h w = tt
rows_step p f (j ∷ js) h w = (row (p j) (h.0) w.0, rows_step p f js h.1 w.1)
  where
    row :
        (b : Bool)
        → (b ≡ true → JobStep j (f j))
        → IsWellFormed j
        → IsWellFormed (if b then f j else j)
    row true s v = JobStep-IsWellFormed (s refl) v
    row false s v = v

pub Inv-Guard : Guard Inv
unfolding update_agents update_runs update_schedules insert_message update_artifacts
    update_reservations update_threads insert_schedule
Inv-Guard = record {
  keyed = λ db v. v.keyed;
  jobs = λ p f db h v. record {
    keyed = IsKeyed-update job_id p f db.jobs (steps_keep p f db.jobs h) v.keyed;
    rows = rows_step p f db.jobs h v.rows;
    gapless = v.gapless;
  };
  insert = λ id now s h. insert_job-Keeps _ λ db free v. record {
    keyed = (free, v.keyed);
    rows = (new_job-IsWellFormed id now s h, v.rows);
    gapless = v.gapless;
  };
  agents = λ p f. record {
    apply = λ db v. record { keyed = v.keyed; rows = v.rows; gapless = v.gapless };
  };
  append = λ e. append_event-Keeps e λ db x h v. record {
    keyed = v.keyed;
    rows = v.rows;
    gapless = IsGapless-append e db.runs db.events x h v.gapless;
  };
  runs = λ p f h. record {
    apply = λ db v. record {
      keyed = v.keyed;
      rows = v.rows;
      gapless = λ r.
          v.gapless r
          ∙ ap countdown
              (sym (seq_of-update p f r db.runs (λ x t. ((h x t).same_id, (h x t).same_seq))));
    };
  };
  schedules = λ p f. record {
    apply = λ db v. record { keyed = v.keyed; rows = v.rows; gapless = v.gapless };
  };
  artifacts = λ f. record {
    apply = λ db v. record { keyed = v.keyed; rows = v.rows; gapless = v.gapless };
  };
  reservations = λ f. record {
    apply = λ db v. record { keyed = v.keyed; rows = v.rows; gapless = v.gapless };
  };
  upsert = λ a f.
      upsert_agent-Keeps a f
        λ db agents v. record { keyed = v.keyed; rows = v.rows; gapless = v.gapless };
  threads = λ f. record {
    apply = λ db v. record { keyed = v.keyed; rows = v.rows; gapless = v.gapless };
  };
  add_schedule = λ s. record {
    apply = λ db v. record { keyed = v.keyed; rows = v.rows; gapless = v.gapless };
  };
  opens = λ r db free zero _ v. record {
    keyed = v.keyed;
    rows = v.rows;
    gapless = IsGapless-open r db.runs db.events free zero v.gapless;
  };
  staff = λ agents db v. record { keyed = v.keyed; rows = v.rows; gapless = v.gapless };
  usage = λ u.
      insert_usage-Keeps u
        λ db us v. record { keyed = v.keyed; rows = v.rows; gapless = v.gapless };
  message = λ m. record {
    apply = λ db v. record { keyed = v.keyed; rows = v.rows; gapless = v.gapless };
  };
}
