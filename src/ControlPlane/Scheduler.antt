-- ===== src/ControlPlane/Scheduler.antt =====
-- apps/control-plane/src/scheduler.ts: schedules, and the worker that opens a run for each occurrence
-- that is due. `next_occurrence` is the cron parser's: none where it throws. A statement's now() is
-- the transaction's time, `clock`.
pub mod Claiming
pub mod Crud
use kapi_final.Base.{
  ℕ, ◌==◌, String, Bool, true, false, not, ◌&&◌, leb, Option, none, some, List, [], ◌∷◌, any,
  select, head?, row_of, if◌then◌else◌,
}
use kapi_final.Db.Tables.{Db, Run, Project, Thread, Schedule, started, skipped_overlap, system}
use kapi_final.Db.Tx.{
  Tx, Outcome, done, throw, ◌>>=◌, ◌>>◌, pure, fail_with, query, update_schedules, bad_schedule,
}
use kapi_final.Db.Handler.{Handler, Served, served, crashed}
use kapi_final.Invariant.Steps.{is_run_terminal}
use kapi_final.ControlPlane.RunService.{Spelling, StartRunInput, StartedRun, start_in}

-- What a transaction of the scheduler is given: the time, the fresh ids, the parser, and the
-- schedules that other transactions hold locked.
pub record Supply : Type 0 where
  pub spelling : Spelling
  pub next_occurrence : (cron timezone after : ℕ) → Option ℕ
  pub locked : ℕ → Bool
  pub clock : ℕ
  pub run_id : ℕ
  pub job_id : ℕ

pub record ScheduleInput : Type 0 where
  pub name : String
  pub cron : ℕ
  pub timezone : ℕ
  pub goal : String
  pub enabled : Option Bool

-- Partial<ScheduleInput>
pub record SchedulePatch : Type 0 where
  pub name : Option String
  pub cron : Option ℕ
  pub timezone : Option ℕ
  pub goal : Option String
  pub enabled : Option Bool

abbrev pub project_of : ℕ → Db → Option Project
project_of id db = row_of (λ (p : Project). p.id) id db.projects

abbrev pub owns : ℕ → Option Project → Bool
owns owner none = false
owns owner (some p) = p.owner_id == owner

abbrev pub is_live : Schedule → Bool
is_live s = elim s.deleted_at [ none ↦ true | some _ ↦ false ]

-- runs WHERE schedule_id = $1 AND status NOT IN ('completed','failed','cancelled')
unfoldable pub is_active_for : ℕ → Run → Bool
is_active_for s r = elim r.schedule_id [
  | none ↦ false
  | some t ↦ t == s && not (is_run_terminal r.status)
]

abbrev pub has_active : ℕ → Db → Bool
has_active s db = any (is_active_for s) db.runs

abbrev due_by : ℕ → Option ℕ → Bool
due_by now none = false
due_by now (some t) = leb t now

abbrev pub exists_project : ℕ → Db → Bool
exists_project id db = elim (project_of id db) [ none ↦ false | some _ ↦ true ]

-- The rows that the worker may take: SKIP LOCKED.
unfoldable pub is_due : (ℕ → Bool) → ℕ → Db → Schedule → Bool
is_due locked now db s =
    ((s.enabled && is_live s) && due_by now s.next_run_at)
    && (exists_project s.project_id db && not (locked s.id))

abbrev pub time_of : Option ℕ → ℕ
time_of none = 0
time_of (some t) = t

abbrev pub sooner : Schedule → Option Schedule → Schedule
sooner s none = s
sooner s (some t) = if leb (time_of s.next_run_at) (time_of t.next_run_at) then s else t

-- ORDER BY next_run_at ASC LIMIT 1
unfoldable pub earliest : List Schedule → Option Schedule
earliest [] = none
earliest (s ∷ ss) = some (sooner s (earliest ss))

abbrev thread_for : Schedule → Thread
thread_for s = record { id = s.thread_id; project_id = s.project_id; title = some s.name }

abbrev pub opening : Schedule → Project → ℕ → StartRunInput
opening s p for = record {
  thread = thread_for s;
  project = p;
  goal = s.goal;
  budgets = none;
  message_role = some system;
  schedule_id = some s.id;
  scheduled_for = some for;
}

unfoldable pub note_skip : (due next clock : ℕ) → Schedule → Schedule
note_skip due next clock s = record s {
  last_scheduled_at = some due;
  last_skipped_at = some clock;
  last_status = some skipped_overlap;
  next_run_at = some next;
}

unfoldable pub note_start : (due next clock : ℕ) → Schedule → Schedule
note_start due next clock s = record s {
  last_run_at = some clock;
  last_scheduled_at = some due;
  last_status = some started;
  last_error = none;
  next_run_at = some next;
}

pub data Claimed : Type 0 where
  ran : StartedRun → Claimed
  skipped : ℕ → Claimed

-- Opens the run of a schedule, if none of its runs is active.
unfoldable pub open_for : Supply → Schedule → Project → ℕ → Tx (Option StartedRun)
open_for u s p for db =
    if has_active s.id db
    then done none db
    else (start_in u.spelling u.run_id u.job_id u.clock (opening s p for) >>= λ r. pure (some r)) db

unfoldable pub note_claim :
    Supply → Schedule → (due next : ℕ) → Option StartedRun → Tx (Option Claimed)
note_claim u s due next none =
    update_schedules (λ x. x.id == s.id) (note_skip due next u.clock) >> pure (some (skipped s.id))
note_claim u s due next (some r) =
    update_schedules (λ x. x.id == s.id) (note_start due next u.clock) >> pure (some (ran r))

unfoldable pub claim_due : Supply → Schedule → ℕ → Option Project → Option ℕ → Tx (Option Claimed)
claim_due u s due none next = pure none
claim_due u s due (some p) none = fail_with bad_schedule
claim_due u s due (some p) (some next) = open_for u s p due >>= note_claim u s due next

unfoldable pub claim_row : Supply → Option Schedule → Tx (Option Claimed)
claim_row u none db = done none db
claim_row u (some s) db =
    let due = time_of s.next_run_at in
    claim_due u s due (project_of s.project_id db) (u.next_occurrence s.cron s.timezone due) db

-- #claimOne
unfoldable pub claim_one : Supply → ℕ → Tx (Option Claimed)
claim_one u now =
    query (λ db. earliest (select (is_due u.locked now db) db.schedules)) >>= claim_row u

abbrev pub with_claim : Claimed → Served (List Claimed) → Served (List Claimed)
with_claim c (served cs db) = served (c ∷ cs) db
with_claim c (crashed e db) = crashed e db

abbrev pub tick_on : Db → Outcome (Option Claimed) → Handler (List Claimed) → Served (List Claimed)
tick_on db (throw e) next = crashed e db
tick_on db (done none db') next = served [] db'
tick_on db (done (some c) db') next = with_claim c (next db')

-- `tick`, one transaction after the other; an error in one ends it. `limit` is the length of the
-- list of what each is given.
unfoldable pub tick : List Supply → ℕ → Handler (List Claimed)
tick [] now db = served [] db
tick (u ∷ us) now db = tick_on db (claim_one u now db) (tick us now)

abbrev pub owned : ℕ → ℕ → Db → Schedule → Bool
owned id owner db s = s.id == id && (owns owner (project_of s.project_id db) && is_live s)

pub data Ran : Type 0 where
  not_found : Ran
  busy : Ran
  opened : StartedRun → Ran

abbrev note_manual : ℕ → Schedule → Schedule
note_manual clock s = record s {
  last_run_at = some clock;
  last_status = some started;
  last_error = none;
}

unfoldable pub note_run : Supply → ℕ → Option StartedRun → Tx Ran
note_run u id none = pure busy
note_run u id (some r) = update_schedules (λ x. x.id == id) (note_manual u.clock) >> pure (opened r)

unfoldable pub run_row : Supply → (id now : ℕ) → Option Schedule → Option Project → Tx Ran
run_row u id now (some s) (some p) = open_for u s p now >>= note_run u id
run_row u id now _ _ = pure not_found

abbrev pub project_of_row : Option Schedule → Db → Option Project
project_of_row none db = none
project_of_row (some s) db = project_of s.project_id db

-- runNow
unfoldable pub run_now : Supply → (id owner now : ℕ) → Tx Ran
run_now u id owner now db =
    let row = head? (select (owned id owner db) db.schedules) in
    run_row u id now row (project_of_row row db) db
