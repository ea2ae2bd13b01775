-- ===== src/ControlPlane/Scheduler/Claiming.antt =====
-- What one transaction of the scheduler does.
use kapi_final.Base.{
  ℕ, ◌==◌, ◌≡◌, ◌≤◌, refl, subst, All, leb, leb→le, ap, sym, ◌∙◌, Bool, true, false, Option, none,
  some, List, [], ◌∷◌, arith, row_of, row_of-cons, update_where, select, if◌then◌else◌, Bool-cases,
  inl, inr,
}
use kapi_final.Db.Tables.{Db, Run, Project, Schedule, started, skipped_overlap}
use kapi_final.Protocol.Text.{queued}
use kapi_final.Db.Tx.{
  ◌>>=◌, pure, query, done, insert_message, insert_run, is_taken, update_schedules, bind_done,
}
use kapi_final.Queue.Lifecycle.{enqueue_in, new_job}
use kapi_final.Invariant.Whole.{job_id, run_id}
use kapi_final.Queue.Lifecycle.Stored.{enqueue_in_done}
use kapi_final.ControlPlane.RunService.{
  StartRunInput, StartedRun, start_in, new_run, captain_spec, thread_history, goal_message,
}
use kapi_final.ControlPlane.Scheduler.{
  Supply, Claimed, ran, skipped, claim_one, claim_row, claim_due, note_claim, open_for, opening,
  has_active, earliest, is_due, time_of, sooner, note_skip, note_start, project_of,
}

-- A run that is opened, with its first job.
pub record IsOpened (u : Supply) (input : StartRunInput) (db : Db) (r : StartedRun) (db' : Db)
    : Type 0 where
  pub first : r.0 ≡ new_run u.run_id input
  pub run : row_of run_id u.run_id db'.runs ≡ some (record r.0 { total_spawns = 1; event_seq = 1 })
  pub jobs : db'.jobs ≡ r.1 ∷ db.jobs
  pub of_run : (r.1).run_id ≡ u.run_id
  pub waits : (r.1).status ≡ queued
  pub schedules : db'.schedules ≡ db.schedules

insert_run_done :
    (r : Run) (db : Db)
    → is_taken r db.runs ≡ false
    → insert_run r db ≡ done r (record db { runs = r ∷ db.runs })
unfolding insert_run
insert_run_done r db h = rw h

start_in_done :
    (u : Supply) (input : StartRunInput) (db : Db)
    → is_taken (new_run u.run_id input) db.runs ≡ false
    → row_of job_id u.job_id db.jobs ≡ none
    → (r : StartedRun) × (db' : Db) × (start_in u.spelling u.run_id u.job_id u.clock input db
        ≡ done r db')
      × IsOpened u input db r db'
unfolding start_in query insert_message pure new_job captain_spec new_run
start_in_done u input db open_key free =
    let r = new_run u.run_id input in
    let turns = thread_history u.spelling (input.thread).id db in
    let db1 = record db { runs = r ∷ db.runs } in
    let m = goal_message input u.run_id in
    let db2 = record db1 { messages = m ∷ db.messages } in
    let spec = captain_spec u.spelling input turns u.run_id in
    let own : row_of run_id u.run_id db2.runs ≡ some r =
      ground (arith, row_of-cons run_id u.run_id r db.runs) in
    let (db3, stored, jobs, row, same, _) = enqueue_in_done u.job_id u.clock spec db2 free own in
    let whole =
      bind_done (query (thread_history u.spelling (input.thread).id)) _ db refl
      ∙ (bind_done (insert_run r) _ db (insert_run_done r db open_key)
          ∙ (bind_done (insert_message m) _ db1 refl
              ∙ bind_done (enqueue_in u.job_id u.clock spec) (λ j. pure (r, j)) db2 stored)) in
    (
      (r, new_job u.job_id u.clock spec),
      db3,
      whole,
      record {
        first = refl;
        run = row;
        jobs = jobs;
        of_run = refl;
        waits = refl;
        schedules = same;
      },
    )

-- None of the schedules comes before the one that is picked.
abbrev pub IsFirst : Option Schedule → List Schedule → Type 0
IsFirst none ss = All (λ _. ⊥) ss
IsFirst (some s) ss = All (λ t. time_of s.next_run_at ≤ time_of t.next_run_at) ss

All-le :
    (n m : ℕ) (ss : List Schedule)
    → n ≤ m
    → All (λ t. m ≤ time_of t.next_run_at) ss
    → All (λ t. n ≤ time_of t.next_run_at) ss
All-le n m [] h a = tt
All-le n m (s ∷ ss) h a = (omega (arith, a.0), All-le n m ss h a.1)

none_sooner :
    (n : ℕ) (ss : List Schedule) → IsFirst none ss → All (λ t. n ≤ time_of t.next_run_at) ss
none_sooner n [] a = tt
none_sooner n (s ∷ ss) a = absurd (a.0)

sooner-IsFirst :
    (s : Schedule) (o : Option Schedule) (ss : List Schedule)
    → IsFirst o ss
    → IsFirst (some (sooner s o)) (s ∷ ss)
sooner-IsFirst s none ss a = (omega arith, none_sooner _ ss a)
sooner-IsFirst s (some t) ss a = pick (leb (time_of s.next_run_at) (time_of t.next_run_at)) refl
  where
    pick :
        (b : Bool)
        → leb (time_of s.next_run_at) (time_of t.next_run_at) ≡ b
        → IsFirst (some (if b then s else t)) (s ∷ ss)
    pick true e = (omega arith, All-le _ _ ss (leb→le _ _ e) a)
    pick false e = (ground arith, a)

earliest-IsFirst : (ss : List Schedule) → IsFirst (earliest ss) ss
unfolding earliest
earliest-IsFirst [] = tt
earliest-IsFirst (s ∷ ss) = sooner-IsFirst s (earliest ss) ss (earliest-IsFirst ss)

abbrev pub noted : (Schedule → Schedule) → ℕ → Db → Db
noted f id db = record db { schedules = update_where (λ x. x.id == id) f db.schedules }

-- The row of a schedule that is passed over, and of one whose run was opened.
abbrev pub passed_over : (due next clock : ℕ) → Schedule → Schedule
passed_over due next clock x = record x {
  last_scheduled_at = some due;
  last_skipped_at = some clock;
  last_status = some skipped_overlap;
  next_run_at = some next;
}

abbrev pub has_opened : (due next clock : ℕ) → Schedule → Schedule
has_opened due next clock x = record x {
  last_run_at = some clock;
  last_scheduled_at = some due;
  last_status = some started;
  last_error = none;
  next_run_at = some next;
}

-- The run stands for the time that was due, and waits to start; its first job is queued.
pub record IsFor (s : Schedule) (p : Project) (due : ℕ) (r : StartedRun) : Type 0 where
  pub of_schedule : (r.0).schedule_id ≡ some s.id
  pub of_time : (r.0).scheduled_for ≡ some due
  pub of_project : (r.0).project_id ≡ p.id
  pub goal : (r.0).goal ≡ s.goal
  pub first_job : (r.1).run_id ≡ (r.0).id
  pub first_waits : (r.1).status ≡ queued

-- What a claim may do for a schedule that is due.
pub data IsClaim (u : Supply) (s : Schedule) (p : Project) (due next : ℕ) (db : Db)
    : Claimed → Db → Type 0 where
  passes_over :
      has_active s.id db ≡ true
      → IsClaim u s p due next db (skipped s.id) (noted (passed_over due next u.clock) s.id db)
  opens_run :
      has_active s.id db ≡ false
      → (r : StartedRun) (db' : Db) → IsOpened u (opening s p due) db r db'
      → IsFor s p due r
      → IsClaim u s p due next db (ran r) (noted (has_opened due next u.clock) s.id db')

opened-IsFor :
    (u : Supply) (s : Schedule) (p : Project) (due : ℕ) (r : StartedRun) {db db' : Db}
    → IsOpened u (opening s p due) db r db'
    → IsFor s p due r
unfolding new_run
opened-IsFor u s p due r o = record {
  of_schedule = ap (λ (x : Run). x.schedule_id) o.first;
  of_time = ap (λ (x : Run). x.scheduled_for) o.first;
  of_project = ap (λ (x : Run). x.project_id) o.first;
  goal = ap (λ (x : Run). x.goal) o.first;
  first_job = o.of_run ∙ sym (ap (λ (x : Run). x.id) o.first);
  first_waits = o.waits;
}

claim_due_done :
    (u : Supply) (s : Schedule) (p : Project) (due next : ℕ) (db : Db)
    → is_taken (new_run u.run_id (opening s p due)) db.runs ≡ false
    → row_of job_id u.job_id db.jobs ≡ none
    → (c : Claimed) × (db' : Db) × (claim_due u s due (some p) (some next) db ≡ done (some c) db')
      × IsClaim u s p due next db c db'
unfolding claim_due note_claim update_schedules pure ◌>>=◌ note_skip note_start
claim_due_done u s p due next db key free = elim (Bool-cases (has_active s.id db)) [
  | inl t ↦ (
    skipped s.id,
    _,
    bind_done (open_for u s p due) (note_claim u s due next) db (open_busy t),
    passes_over t,
  )
  | inr t ↦
      let (r, db', e, o) = start_in_done u (opening s p due) db key free in
      (
        ran r,
        _,
        bind_done (open_for u s p due) (note_claim u s due next) db (open_free t r db' e),
        opens_run t r db' o (opened-IsFor u s p due r o),
      )
]
  where
    open_busy : has_active s.id db ≡ true → open_for u s p due db ≡ done none db
    open_busy t = unfold open_for in rw t refl

    open_free :
        has_active s.id db ≡ false
        → (r : StartedRun) (db' : Db)
        → start_in u.spelling u.run_id u.job_id u.clock (opening s p due) db ≡ done r db'
        → open_for u s p due db ≡ done (some r) db'
    open_free t r db' e =
        unfold open_for in
        rw t (
          bind_done (start_in u.spelling u.run_id u.job_id u.clock (opening s p due))
            (λ r. pure (some r)) db e)

-- Where the run's and the job's fresh ids are free, no run of the schedule stands for that time,
-- its project exists and the cron expression can be read, a claim of the schedule that is due
-- first commits. If one of its runs is not over, it is passed over, and its row says so and when.
-- Else a run of the schedule's project and goal is opened for the time that was due, with a
-- queued first job, and the row says when. Either way just that schedule's row changes, it was
-- scheduled at the time that was due, and it is next due at the parser's next time. No schedule
-- that could be taken was due before it.
pub claim_one_lem :
    (u : Supply) (now next : ℕ) (db : Db) {s : Schedule} {p : Project}
    → earliest (select (is_due u.locked now db) db.schedules) ≡ some s
    → project_of s.project_id db ≡ some p
    → u.next_occurrence s.cron s.timezone (time_of s.next_run_at) ≡ some next
    → is_taken (new_run u.run_id (opening s p (time_of s.next_run_at))) db.runs ≡ false
    → row_of job_id u.job_id db.jobs ≡ none
    → (c : Claimed) × (db' : Db) × (claim_one u now db ≡ done (some c) db')
      × IsClaim u s p (time_of s.next_run_at) next db c db'
      × IsFirst (some s) (select (is_due u.locked now db) db.schedules)
unfolding claim_one claim_row query
claim_one_lem u now next db {s} {p} first project later key free =
    let due = time_of s.next_run_at in
    let (c, db', e, i) = claim_due_done u s p due next db key free in
    let found_in = λ (d : Db). select (is_due u.locked now d) d.schedules in
    let found = λ (d : Db). earliest (found_in d) in
    (
      c,
      db',
      bind_done (query found) (claim_row u) db (ap (λ o. done o db) first)
          ∙ (ap (λ q. claim_due u s due q (u.next_occurrence s.cron s.timezone due) db) project
              ∙ (ap (λ n. claim_due u s due (some p) n db) later ∙ e)),
      i,
      subst (λ o. IsFirst o (found_in db)) first (earliest-IsFirst (found_in db)),
    )
