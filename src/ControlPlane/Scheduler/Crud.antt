-- ===== src/ControlPlane/Scheduler/Crud.antt =====
-- apps/control-plane/src/scheduler.ts: create, update and remove. The parser runs before the first
-- statement, and its error reaches the caller.
use kapi_final.Base.{
  ℕ, ◌==◌, Bool, true, false, Option, none, some, List, [], ◌∷◌, head?, select, update_where,
  returning,
}
use kapi_final.Db.Tables.{Project, Thread, Schedule}
use kapi_final.Db.Tx.{
  Tx, ◌>>◌, pure, update_schedules, insert_schedule, update_threads, bad_schedule,
}
use kapi_final.Db.Handler.{Handler, commit, served, crashed}
use kapi_final.ControlPlane.Scheduler.{ScheduleInput, SchedulePatch, owned}

abbrev coalesce {ℓ} : {A : Type ℓ} → Option A → A → A
coalesce none d = d
coalesce (some a) d = a

unfoldable pub new_schedule : (id thread project : ℕ) → ScheduleInput → Option ℕ → Schedule
new_schedule id thread project input next = record {
  id = id;
  project_id = project;
  thread_id = thread;
  name = input.name;
  cron = input.cron;
  timezone = input.timezone;
  goal = input.goal;
  enabled = coalesce input.enabled true;
  last_run_at = none;
  last_scheduled_at = none;
  last_skipped_at = none;
  last_status = none;
  last_error = none;
  next_run_at = next;
  deleted_at = none;
}

unfoldable pub store_schedule : Schedule → Tx Schedule
store_schedule s = do
  update_threads
      (λ ts. record { id = s.thread_id; project_id = s.project_id; title = some s.name } ∷ ts)
  insert_schedule s
  pure s

-- The next run of a schedule: none if it is off, and no answer where the parser throws.
unfoldable pub planned : (ℕ → ℕ → ℕ → Option ℕ) → Bool → (cron timezone now : ℕ) → Option (Option ℕ)
planned next false cron timezone now = some none
planned next true cron timezone now = elim (next cron timezone now) [
  | none ↦ none
  | some t ↦ some (some t)
]

abbrev pub saved : (id thread project : ℕ) → ScheduleInput → Option (Option ℕ) → Handler Schedule
saved id thread project input none db = crashed bad_schedule db
saved id thread project input (some next) db =
    commit (store_schedule (new_schedule id thread project input next)) db

unfoldable pub create :
    (ℕ → ℕ → ℕ → Option ℕ) → (id thread now : ℕ) → Project → ScheduleInput → Handler Schedule
create next id thread now project input =
    saved id thread project.id input
      (planned next (coalesce input.enabled true) input.cron input.timezone now)

-- { ...current, ...patch }
unfoldable pub merged : Schedule → SchedulePatch → Schedule
merged s p = record s {
  name = coalesce p.name s.name;
  cron = coalesce p.cron s.cron;
  timezone = coalesce p.timezone s.timezone;
  goal = coalesce p.goal s.goal;
  enabled = coalesce p.enabled s.enabled;
}

unfoldable pub set_plan : Schedule → Option ℕ → Schedule → Schedule
set_plan m next s = record s {
  name = m.name;
  cron = m.cron;
  timezone = m.timezone;
  goal = m.goal;
  enabled = m.enabled;
  next_run_at = next;
  last_error = none;
}

abbrev retitle : Schedule → Thread → Thread
retitle s t = record t { title = some s.name }

unfoldable pub rename_thread : Option Schedule → Tx (Option Schedule)
rename_thread none = pure none
rename_thread (some s) =
    update_threads (update_where (λ t. t.id == s.thread_id) (retitle s)) >> pure (some s)

unfoldable pub write_plan :
    (id owner : ℕ) → Schedule → Option (Option ℕ) → Handler (Option Schedule)
write_plan id owner m none db = crashed bad_schedule db
write_plan id owner m (some next) db =
    let rows = returning (owned id owner db) (set_plan m next) db.schedules in
    elim (commit (update_schedules (owned id owner db) (set_plan m next)) db) [
      | served _ db' ↦ commit (rename_thread (head? rows)) db'
      | crashed e db' ↦ crashed e db'
    ]

unfoldable pub update_known :
    (ℕ → ℕ → ℕ → Option ℕ)
    → (id owner now : ℕ) → SchedulePatch
    → Option Schedule
    → Handler (Option Schedule)
update_known next id owner now patch none db = served none db
update_known next id owner now patch (some current) db =
    let m = merged current patch in
    write_plan id owner m (planned next m.enabled m.cron m.timezone now) db

unfoldable pub update :
    (ℕ → ℕ → ℕ → Option ℕ) → (id owner now : ℕ) → SchedulePatch → Handler (Option Schedule)
update next id owner now patch db =
    update_known next id owner now patch (head? (select (owned id owner db) db.schedules)) db

abbrev put_away : ℕ → Schedule → Schedule
put_away clock s = record s { enabled = false; next_run_at = none; deleted_at = some clock }

abbrev non_empty {ℓ} : {A : Type ℓ} → List A → Bool
non_empty [] = false
non_empty (_ ∷ _) = true

unfoldable pub remove : (id owner clock : ℕ) → Tx Bool
remove id owner clock db =
    (update_schedules (owned id owner db) (put_away clock)
        >> pure (non_empty (select (owned id owner db) db.schedules)))
      db
