-- ===== src/Trace/Safety.antt =====
-- What holds after every sequence of transactions.
use mathlib.Core.Option
use kapi_final.Base.{ℕ, ◌≡◌, ◌≤◌, true, some, List, row_of}
use kapi_final.Protocol.Jobs.{Job, is_job_terminal}
use kapi_final.Protocol.Events.{RunStatus}
use kapi_final.Db.Tables.{Db, Run}
use kapi_final.Invariant.Steps.{is_run_terminal}
use kapi_final.Invariant.Whole.{Inv, Inv-Guard, job_id, run_id}
use kapi_final.Invariant.Riders.{With-Guard, IsOver-Rides, IsClosed-Rides}
use kapi_final.Invariant.Exclusive.{active_runs, IsExclusive-Rides}
use kapi_final.Trace.{Call, run, run-Guard}

-- Whatever transactions of the queue, the run lifecycle, the scheduler, the accounting, the
-- provisioner, the reconciler and the admission of model calls run, whatever GitHub delivers and
-- whatever requests agents make, in whatever order, from a database that satisfies the invariant,
-- every job row stays well formed (attempts within the limit; a holder and a lease exactly while
-- claimed or running; a queued job free with an attempt left; a finishing time exactly when
-- over), job ids stay distinct, and each run's events are numbered without a gap up to its
-- cursor.
pub run-Inv : (cs : List Call) (db : Db) → Inv db → Inv (run cs db)
run-Inv cs db v = run-Guard Inv-Guard cs db v

-- From a database that satisfies the invariant, a job that has succeeded, failed or been
-- cancelled is never changed again in any column, whatever transactions and agents' requests
-- follow.
pub run-terminal_job :
    (cs : List Call) (db : Db) (id : ℕ) (j : Job)
    → Inv db
    → row_of job_id id db.jobs ≡ some j
    → is_job_terminal j.status ≡ true
    → row_of job_id id (run cs db).jobs ≡ some j
run-terminal_job cs db id j v e t =
    (run-Guard (With-Guard (IsOver-Rides id j)) cs db (v, record { row = e; over = t })).1.row

-- From a database that satisfies the invariant, a run that is completed, failed or cancelled
-- keeps that status, whatever transactions and agents' requests follow.
pub run-terminal_run :
    (cs : List Call) (db : Db) (id : ℕ) (s : RunStatus)
    → Inv db
    → Option.map (λ (r : Run). r.status) (row_of run_id id db.runs) ≡ some s
    → is_run_terminal s ≡ true
    → Option.map (λ (r : Run). r.status) (row_of run_id id (run cs db).runs) ≡ some s
run-terminal_run cs db id s v e t =
    let kept =
      run-Guard (With-Guard (IsClosed-Rides id s)) cs db (v, record { status = e; over = t }) in
    (kept.1).status

-- From a database that satisfies the invariant and in which no schedule has two runs that are not
-- over, none ever has, whatever transactions, ticks of the scheduler and requests follow.
pub run-exclusive :
    (cs : List Call) (db : Db)
    → Inv db
    → ((s : ℕ) → active_runs s db.runs ≤ 1)
    → (s : ℕ) → active_runs s (run cs db).runs ≤ 1
run-exclusive cs db v h s =
    (run-Guard (With-Guard IsExclusive-Rides) cs db (v, record { one = h })).1.one s
