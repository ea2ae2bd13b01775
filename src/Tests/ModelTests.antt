-- ===== src/Tests/ModelTests.antt =====
-- A model call of the sample's captain, whose run has a project.
use kapi_final.Base.{◌≡◌, refl, true, false, none, some, [], ◌∷◌, row_of, find, select, arith}
use kapi_final.Db.Tables.{Db, Project}
use kapi_final.Db.Handler.{elapse, served, left_by, commit, answer, ◌>>=◌}
use kapi_final.Db.Tx
use kapi_final.Queue.Lifecycle.{get_job}
use kapi_final.ControlPlane.Admission.{
  held, active, is_busy, is_spent, insert_reservation, admit, reserve_for, reserve_run,
  reserve_model_call, charge_of, settle_charge, charge_in, settle_model_call,
}
use kapi_final.ControlPlane.Admission.Ledger.{IsWithin}
use kapi_final.ControlPlane.ModelCall.{
  ModelCall, generated, answered, context, dispatch, reserve_for_call, model_call,
}
use kapi_final.ControlPlane.ModelCall.Ends.{EndedBy, model_call-Ended}
use kapi_final.ControlPlane.ModelCall.Within.{StaysWithin, model_call-IsWithin}
use kapi_final.Tests.Samples.{sample}

abbrev project : Project
project = record {
  id = 1;
  owner_id = 9;
  repo_url = "https://example.org/a.git";
  default_branch = "main";
  budgets = record {
    max_concurrent_vms = none;
    max_total_spawns = none;
    max_spawn_depth = none;
    max_tokens = none;
    max_llm_requests = none;
    max_vm_seconds = none;
    max_usd_cents = none;
  };
}

abbrev base : Db
base = record sample { projects = project ∷ [] }

base-IsWithin : IsWithin base
unfolding row_of find held
base-IsWithin id r e = ground (arith, e)

-- A call that reports 450 of its 600 tokens, while a schedule is removed.
abbrev the_call : ModelCall
the_call = record {
  run_id = 1;
  job_id = 7;
  id = 40;
  token_allowance = 600;
  now = 1000;
  limits = record { run_limit = 1; user_limit = 2; lifetime_ms = 180000 };
  connected = true;
  generate = λ _ _. generated (some 450);
  meanwhile = λ d. record d { schedules = [] };
}

the_call-StaysWithin : StaysWithin the_call
the_call-StaysWithin requests tokens n e = ground (arith, e)

model_call-Ended_example : EndedBy the_call base (model_call the_call base)
unfolding row_of find
model_call-Ended_example = model_call-Ended the_call base refl (λ d. (refl, refl))

model_call-IsWithin_example : IsWithin (left_by (model_call the_call base))
unfolding row_of find
model_call-IsWithin_example =
    model_call-IsWithin the_call base refl (λ d. (refl, refl)) the_call-StaysWithin (λ d w. w)
      base-IsWithin

-- The reply has the usage, and the run may ask again.
the_reply : (db : Db) × (model_call the_call base ≡ served (answered (some 450) false) db)
unfolding model_call context commit answer ◌>>=◌ dispatch elapse reserve_for_call Tx.◌>>=◌ Tx.pure
    Tx.query Tx.update_runs Tx.update_artifacts Tx.update_reservations reserve_model_call
    reserve_run reserve_for admit insert_reservation settle_model_call settle_charge charge_in
    charge_of is_busy is_spent active held row_of find get_job select
the_reply = (_, refl)
