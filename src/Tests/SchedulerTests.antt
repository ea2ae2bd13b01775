-- ===== src/Tests/SchedulerTests.antt =====
-- The scheduler's theorems at one schedule that is due, and a second run of it that is not opened.
use kapi_final.Base.{
  ℕ, ◌+◌, ◌≡◌, ◌≤◌, refl, true, false, none, some, [], ◌∷◌, row_of, find, any, select, arith,
}
use kapi_final.Protocol.Context.{null}
use kapi_final.Db.Tables.{Db, Budgets, Project, Schedule}
use kapi_final.Db.Tx.{done}
use kapi_final.ControlPlane.RunService.{Spelling, new_run}
use kapi_final.ControlPlane.Scheduler.{Supply, Claimed, claim_one, is_due, earliest}
use kapi_final.ControlPlane.Scheduler.Claiming.{IsClaim, claim_one_lem}
use kapi_final.Invariant.Whole.{Inv}
use kapi_final.Invariant.Exclusive.{active_runs}
use kapi_final.Invariant.Stream.{seqs, seq_of, countdown}
use kapi_final.Trace.{ticks, runs_schedule, run}
use kapi_final.Trace.Safety.{run-exclusive}

abbrev no_budgets : Budgets
no_budgets = record {
  max_concurrent_vms = none;
  max_total_spawns = none;
  max_spawn_depth = none;
  max_tokens = some 5000;
  max_llm_requests = none;
  max_vm_seconds = none;
  max_usd_cents = none;
}

abbrev the_project : Project
the_project = record {
  id = 1;
  owner_id = 9;
  repo_url = "https://example.org/a.git";
  default_branch = "main";
  budgets = no_budgets;
}

abbrev nightly : Schedule
nightly = record {
  id = 4;
  project_id = 1;
  thread_id = 2;
  name = "nightly";
  cron = 0;
  timezone = 0;
  goal = "tidy up";
  enabled = true;
  last_run_at = none;
  last_scheduled_at = none;
  last_skipped_at = none;
  last_status = none;
  last_error = none;
  next_run_at = some 100;
  deleted_at = none;
}

abbrev planned_db : Db
planned_db = record {
  projects = the_project ∷ [];
  threads = record { id = 2; project_id = 1; title = some "nightly" } ∷ [];
  jobs = [];
  agents = [];
  runs = [];
  events = [];
  messages = [];
  schedules = nightly ∷ [];
  reservations = [];
  ledger = [];
  artifacts = record { receipts = []; verdicts = []; usage = [] };
}

abbrev plain : Spelling
plain = record { spell = λ _. []; left = λ cs. cs; array = λ _. null }

-- Every hundred ticks of the clock.
abbrev supplied : ℕ → Supply
supplied k = record {
  spelling = plain;
  next_occurrence = λ _ _ after. some (after + 100);
  locked = λ _. false;
  clock = 150;
  run_id = k;
  job_id = k;
}

claim_one_lem_example :
    (c : Claimed) × (db' : Db) × (claim_one (supplied 20) 150 planned_db ≡ done (some c) db')
    × IsClaim (supplied 20) nightly the_project 100 200 planned_db c db'
unfolding earliest select is_due row_of find any new_run
claim_one_lem_example =
    let r = claim_one_lem (supplied 20) 150 200 planned_db refl refl refl refl refl in
    (r.0, r.1, r.2, r.3)

planned-Inv : Inv planned_db
unfolding row_of find seqs seq_of countdown
planned-Inv = record { keyed = tt; rows = tt; gapless = λ r. refl }

none_active : (s : ℕ) → active_runs s planned_db.runs ≤ 1
unfolding active_runs select
none_active s = omega arith

run-exclusive_example :
    active_runs 4
      (run
        (ticks (supplied 20 ∷ supplied 21 ∷ []) 150 ∷ runs_schedule (supplied 22) 4 9 160 ∷ [])
        planned_db).runs
    ≤ 1
run-exclusive_example =
    run-exclusive
      (ticks (supplied 20 ∷ supplied 21 ∷ []) 150 ∷ runs_schedule (supplied 22) 4 9 160 ∷ [])
      planned_db planned-Inv none_active 4
