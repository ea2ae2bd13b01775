-- ===== src/ControlPlane/Spawn/Batch.antt =====
-- A batch of requests to spawn: as many as the budget allows are accepted, in order.
use kapi_final.Base.{
  ℕ, zero, suc, ◌+◌, ◌-◌, ◌*◌, ◌≡◌, ◌≢◌, ltb, refl, ap, ◌∙◌, none, some, List, [], ◌∷◌, map, take,
  drop, length, arith, row_of, row_of-cons, if◌then◌else◌, All,
}
use kapi_final.Protocol.Jobs.{Job}
use kapi_final.Protocol.AgentApi.{
  SpawnRequest, SpawnedAgent, SpawnRefusal, Reason, run_over, too_deep, budget_used,
}
use kapi_final.Db.Tables.{Db, Run}
use kapi_final.Db.Tx.{◌>>=◌, pure, done, bind_done}
use kapi_final.Queue.Lifecycle.{new_job}
use kapi_final.Invariant.Steps.{is_run_terminal}
use kapi_final.Invariant.Whole.{job_id, run_id}
use kapi_final.ControlPlane.Spawn.{
  SpawnCall, Batch, spawn_each, spawn_one, refusal, refused_for, to_spawned, with_spawned,
  with_refused,
}
use kapi_final.ControlPlane.Spawn.Accepted.{spawn_one_done, child, charged}

-- How many requests are accepted at most, and why the others are not.
abbrev pub allowed : SpawnCall → Run → ℕ → ℕ
allowed c run remaining =
    if is_run_terminal run.status
    then 0
    else if ltb run.max_spawn_depth c.depth
    then 0
    else remaining

abbrev pub reason : SpawnCall → Run → Reason
reason c run =
    if is_run_terminal run.status
    then run_over run.status
    else if ltb run.max_spawn_depth c.depth
    then too_deep c.depth run.max_spawn_depth
    else budget_used run.max_total_spawns

refusal-zero :
    (c : SpawnCall) (run : Run) (n : ℕ)
    → allowed c run n ≡ 0
    → refusal c run n ≡ some (reason c run)
unfolding refusal
refusal-zero c run n e = ground arith

refusal-suc :
    (c : SpawnCall) (run : Run) (n k : ℕ)
    → allowed c run n ≡ suc k
    → (refusal c run n ≡ none) × (allowed c run (n - 1) ≡ k)
unfolding refusal
refusal-suc c run n k e = ground arith

abbrev pub Wanted : Type 0
Wanted = List (ℕ × SpawnRequest)

-- The ids are new to the table and to each other.
abbrev pub AreFresh : Wanted → List Job → Type 0
AreFresh [] jobs = Unit
AreFresh ((id, _) ∷ ws) jobs =
    (row_of job_id id jobs ≡ none) × All (λ (v : ℕ × SpawnRequest). v.0 ≢ id) ws × AreFresh ws jobs

AreFresh-cons :
    (ws : Wanted) (j : Job) (jobs : List Job)
    → All (λ (v : ℕ × SpawnRequest). v.0 ≢ j.id) ws
    → AreFresh ws jobs
    → AreFresh ws (j ∷ jobs)
AreFresh-cons [] j jobs n f = tt
AreFresh-cons ((id, w) ∷ ws) j jobs n (free, distinct, f) = (
  ground (arith, row_of-cons job_id id j jobs, free, n.0),
  distinct,
  AreFresh-cons ws j jobs n.1 f,
)

abbrev pub accepted : SpawnCall → Wanted → List SpawnedAgent
accepted c = map (λ (v : ℕ × SpawnRequest). to_spawned (child c v.0 v.1))

abbrev pub declined : Reason → Wanted → List SpawnRefusal
declined why = map (λ (v : ℕ × SpawnRequest). refused_for v.1 why)

-- The table of jobs with the children in front, the last one first.
abbrev pub enlist : SpawnCall → Wanted → List Job → List Job
enlist c [] jobs = jobs
enlist c ((id, w) ∷ ws) jobs = enlist c ws (child c id w ∷ jobs)

abbrev pub charged_for : ℕ → Run → Run
charged_for n x = record x { total_spawns = x.total_spawns + n; event_seq = x.event_seq + 2 * n }

charged_for-suc : (n : ℕ) (x : Run) → charged_for n (charged x) ≡ charged_for (suc n) x
charged_for-suc n x = ground arith

module _ (c : SpawnCall) (run : Run) where
  -- What the first `k` accepted of the requests leave behind.
  pub record IsBatch (k : ℕ) (ws : Wanted) (x : Run) (db : Db) (b : Batch) (db' : Db) : Type 0 where
    pub batch : b ≡ (accepted c (take k ws), declined (reason c run) (drop k ws))
    pub jobs : db'.jobs ≡ enlist c (take k ws) db.jobs
    pub charge : row_of run_id c.run_id db'.runs ≡ some (charged_for (length (take k ws)) x)
    pub kept : db'.artifacts ≡ db.artifacts

  pub refused_then :
      (id : ℕ) (w : SpawnRequest) (ws : Wanted) (remaining : ℕ) {why : Reason}
      → refusal c run remaining ≡ some why
      → spawn_each c run remaining ((id, w) ∷ ws)
        ≡ (spawn_each c run remaining ws >>= λ b. pure (with_refused (refused_for w why) b))
  unfolding spawn_each
  refused_then id w ws remaining h = λ i. elim (h i) [
    | some why ↦ spawn_each c run remaining ws >>= λ b. pure (with_refused (refused_for w why) b)
    | none ↦ spawn_one c id w >>= λ a.
        spawn_each c run (remaining - 1) ws >>= λ b. pure (with_spawned a b)
  ]

  pub accepted_then :
      (id : ℕ) (w : SpawnRequest) (ws : Wanted) (remaining : ℕ)
      → refusal c run remaining ≡ none
      → spawn_each c run remaining ((id, w) ∷ ws) ≡ (
          spawn_one c id w >>= λ a.
          spawn_each c run (remaining - 1) ws >>= λ b. pure (with_spawned a b))
  unfolding spawn_each
  accepted_then id w ws remaining h = λ i. elim (h i) [
    | some why ↦ spawn_each c run remaining ws >>= λ b. pure (with_refused (refused_for w why) b)
    | none ↦ spawn_one c id w >>= λ a.
        spawn_each c run (remaining - 1) ws >>= λ b. pure (with_spawned a b)
  ]

  pub spawn_each_done :
      (ws : Wanted) (remaining k : ℕ) (db : Db) {x : Run}
      → allowed c run remaining ≡ k
      → AreFresh ws db.jobs
      → row_of run_id c.run_id db.runs ≡ some x
      → (b : Batch) × (db' : Db) × (spawn_each c run remaining ws db ≡ done b db')
        × IsBatch k ws x db b db'
  unfolding spawn_each pure new_job
  spawn_each_done [] remaining zero db e f own = (
    ([], []),
    db,
    refl,
    record { batch = refl; jobs = refl; charge = own ∙ ground arith; kept = refl },
  )
  spawn_each_done [] remaining (suc n) db e f own = (
    ([], []),
    db,
    refl,
    record { batch = refl; jobs = refl; charge = own ∙ ground arith; kept = refl },
  )
  spawn_each_done ((id, w) ∷ ws) remaining zero db e f own =
      let (b, db', p, i) = spawn_each_done ws remaining zero db e f.2 own in
      (
        with_refused (refused_for w (reason c run)) b,
        db',
        ap (λ t. t db) (refused_then id w ws remaining (refusal-zero c run remaining e))
            ∙ bind_done (spawn_each c run remaining ws) _ db p,
        record {
          batch = ap (with_refused (refused_for w (reason c run))) i.batch;
          jobs = i.jobs;
          charge = i.charge;
          kept = i.kept;
        },
      )
  spawn_each_done ((id, w) ∷ ws) remaining (suc n) db {x} e f own =
      let (db1, p1, j1, o1, a1) = spawn_one_done c id w db f.0 own in
      let (none_now, next) = refusal-suc c run remaining n e in
      let (b, db2, p2, i) =
        spawn_each_done ws (remaining - 1) n db1 next
          (rw j1 (AreFresh-cons ws (child c id w) db.jobs f.1 f.2)) o1 in
      (
        with_spawned (to_spawned (child c id w)) b,
        db2,
        ap (λ t. t db) (accepted_then id w ws remaining none_now)
            ∙ (bind_done (spawn_one c id w) _ db p1
                ∙ bind_done (spawn_each c run (remaining - 1) ws) _ db1 p2),
        record {
          batch = ap (with_spawned (to_spawned (child c id w))) i.batch;
          jobs = i.jobs ∙ ap (enlist c (take n ws)) j1;
          charge = i.charge ∙ ap some (charged_for-suc (length (take n ws)) x);
          kept = i.kept ∙ a1;
        },
      )
