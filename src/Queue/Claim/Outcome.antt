-- ===== src/Queue/Claim/Outcome.antt =====
-- What a claim does, on every branch.
use mathlib.Core.List.{Memᴰ}
use mathlib.Core.Option
use kapi_final.Base.{
  ℕ, ◌≡◌, ◌==◌, ◌≢◌, ◌+◌, ◌*◌, ◌⊎◌, ◌∙◌, ◌∷◌, refl, ap, arith, ==_iff, row_of-update, row_of_sound,
  All-everywhere, Bool, true, false, none, some, List, All, IsKeyed, row_of, row_of-mem, All-mem,
  update_where, returning, head?, head-returning, Option-cases, inl, inr, update-nothing,
  returning-nothing,
}
use kapi_final.Protocol.Text.{queued, claimed}
use kapi_final.Base.Optional.{or_else}
use kapi_final.Protocol.Jobs.{Job, orchestrator}
use kapi_final.Protocol.Events.{EventInput, AgentEvent, job_status, of_job}
use kapi_final.Db.Tables.{Db, Run}
use kapi_final.Db.Tx.{◌>>=◌, pure, update_jobs, done}
use kapi_final.Queue.Events.{append_then, appended, job_status_event}
use kapi_final.Queue.Claim.{ClaimOptions, claim, claimable, pick, before, set_claimed, record_claim}
use kapi_final.Queue.Claim.Order.{pick-first, pick-none, pick-mem}

abbrev job_key : Job → ℕ
job_key j = j.id

abbrev run_key : Run → ℕ
run_key r = r.id

abbrev pub claim_event : ClaimOptions → Job → EventInput
claim_event o k =
    job_status_event k.run_id k.id (some queued) claimed (some o.vm_id) (some (k.attempts + 1)) none

abbrev pub taken : ClaimOptions → ℕ → Job → Db → Db
taken o now k db = record db { jobs = update_where (λ j. j.id == k.id) (set_claimed o now) db.jobs }

-- The database once `k` is claimed and the event with the next number of its run is written.
abbrev pub after_claim : ClaimOptions → ℕ → Job → Run → Db → Db
after_claim o now k r db = appended (claim_event o k) r (taken o now k db)

claim-none :
    (o : ClaimOptions) (locked : ℕ → Bool) (now : ℕ) (db : Db)
    → pick o locked db.jobs ≡ none
    → claim o locked now db ≡ done none db
unfolding claim ◌>>=◌ update_jobs record_claim pure
claim-none o locked now db e =
    rw e (
      rw
        (returning-nothing (set_claimed o now) db.jobs, update-nothing (set_claimed o now) db.jobs))

head_claimed :
    (o : ClaimOptions) (now : ℕ) (jobs : List Job) (k : Job)
    → IsKeyed job_key jobs
    → Memᴰ k jobs
    → head? (returning (λ j. j.id == k.id) (set_claimed o now) jobs) ≡ some (set_claimed o now k)
unfolding row_of
head_claimed o now jobs k d m =
    head-returning (λ j. j.id == k.id) (set_claimed o now) jobs
    ∙ ap (Option.map (set_claimed o now)) (row_of-mem job_key jobs d m)

claim-some :
    (o : ClaimOptions) (locked : ℕ → Bool) (now : ℕ) (db : Db) (k : Job) (r : Run)
    → IsKeyed job_key db.jobs
    → Memᴰ k db.jobs
    → pick o locked db.jobs ≡ some k
    → row_of run_key k.run_id db.runs ≡ some r
    → claim o locked now db ≡ done (some (set_claimed o now k)) (after_claim o now k r db)
unfolding claim ◌>>=◌ update_jobs record_claim pure set_claimed job_status_event
claim-some o locked now db k r d m e f = rw e (
    rw (head_claimed o now db.jobs k d m)
      (append_then (claim_event o k) (some (set_claimed o now k)) (taken o now k db) f))

-- Each job's run is there, as the foreign key says.
abbrev pub HasRuns : Db → Type 0
HasRuns db = All (λ (k : Job). (r : Run) × (row_of run_key k.run_id db.runs ≡ some r)) db.jobs

-- The row of a job that is leased: to the caller, for the time it asked for, with one more attempt.
pub record IsLeased (o : ClaimOptions) (now : ℕ) (k c : Job) : Type 0 where
  pub same_id : c.id ≡ k.id
  pub same_run : c.run_id ≡ k.run_id
  pub same_work : c.payload ≡ k.payload
  pub status : c.status ≡ claimed
  pub holder : c.vm_id ≡ some o.vm_id
  pub lease : c.lease_expires_at ≡ some (now + o.lease_seconds * 1000)
  pub attempts : c.attempts ≡ k.attempts + 1
  pub started : c.started_at ≡ some (or_else k.started_at now)

-- The event of a claim, with the number that the run gives next.
abbrev pub claimed_event : ClaimOptions → Job → Run → AgentEvent
claimed_event o k r = record {
  run_id = k.run_id;
  job_id = some k.id;
  seq = r.event_seq + 1;
  kind = job_status;
  sender = orchestrator;
  recipient = none;
  payload = of_job (record {
    status = claimed;
    from = some queued;
    vm_id = some o.vm_id;
    attempts = some (k.attempts + 1);
    detail = none;
  });
}

-- What a claim of the row `k` gives and leaves.
pub record IsClaimed (o : ClaimOptions) (now : ℕ) (k : Job) (r : Run) (db : Db) (c : Job) (db' : Db)
    : Type 0 where
  pub leased : IsLeased o now k c
  pub row : row_of job_key k.id db'.jobs ≡ some c
  pub others : (i : ℕ) → i ≢ k.id → row_of job_key i db'.jobs ≡ row_of job_key i db.jobs
  pub event : db'.events ≡ claimed_event o k r ∷ db.events

claimed-IsLeased : (o : ClaimOptions) (now : ℕ) (k : Job) → IsLeased o now k (set_claimed o now k)
unfolding set_claimed
claimed-IsLeased o now k = record {
  same_id = refl;
  same_run = refl;
  same_work = refl;
  status = refl;
  holder = refl;
  lease = refl;
  attempts = refl;
  started = ground arith;
}

after_claim-IsClaimed :
    (o : ClaimOptions) (now : ℕ) (k : Job) (r : Run) (db : Db)
    → IsKeyed job_key db.jobs
    → Memᴰ k db.jobs
    → IsClaimed o now k r db (set_claimed o now k) (after_claim o now k r db)
unfolding set_claimed job_status_event
after_claim-IsClaimed o now k r db d m =
    let moved = λ (i : ℕ).
      row_of-update job_key (λ j. j.id == k.id) (set_claimed o now) i db.jobs
        (All-everywhere db.jobs (λ x _. refl)) in
    record {
      leased = claimed-IsLeased o now k;
      row = ground (arith, moved k.id, row_of-mem job_key db.jobs d m, ==_iff k.id k.id);
      others = λ i n. elim (Option-cases (row_of job_key i db.jobs)) [
        | inl e ↦ ground (arith, moved i, e)
        | inr (x, e) ↦
            ground (arith, moved i, e, row_of_sound job_key i db.jobs e, ==_iff x.id k.id, n)
      ];
      event = refl;
    }

-- Nothing may be claimed, and nothing changes; or the first row that may be claimed is.
abbrev pub ClaimOutcome : ClaimOptions → (ℕ → Bool) → ℕ → Db → Type 0
ClaimOutcome o locked now db =
    ((claim o locked now db ≡ done none db)
      × ((j : Job) → Memᴰ j db.jobs → claimable o locked db.jobs j ≡ false))
    ⊎ ((k : Job) × (r : Run) × Memᴰ k db.jobs
        × (claimable o locked db.jobs k ≡ true)
        × ((j : Job) → Memᴰ j db.jobs → claimable o locked db.jobs j ≡ true → before j k ≡ false)
        × (row_of run_key k.run_id db.runs ≡ some r)
        × (c : Job) × (db' : Db) × (claim o locked now db ≡ done (some c) db')
        × IsClaimed o now k r db c db')

-- Where jobs have a primary key and each job's run is there, a claim either finds no row that may
-- be claimed and changes nothing, or takes a row that no other such row comes before by priority
-- and age: the row is claimed, with the caller's VM, a lease to the end of the time asked for,
-- one more attempt and a time of start, no other row changes, and the event takes the run's next
-- number.
pub claim_lem :
    (o : ClaimOptions) (locked : ℕ → Bool) (now : ℕ) (db : Db)
    → IsKeyed job_key db.jobs
    → HasRuns db
    → ClaimOutcome o locked now db
claim_lem o locked now db d runs = elim (Option-cases (pick o locked db.jobs)) [
  | inl e ↦ inl (claim-none o locked now db e, λ j m. pick-none o locked db.jobs e m)
  | inr (k, e) ↦
      let (m, t) = pick-mem o locked db.jobs e in
      let (r, f) = All-mem _ db.jobs runs m in
      inr (
        k,
        r,
        m,
        t,
        (λ j n u. pick-first o locked db.jobs e n u),
        f,
        set_claimed o now k,
        after_claim o now k r db,
        claim-some o locked now db k r d m e f,
        after_claim-IsClaimed o now k r db d m,
      )
]
