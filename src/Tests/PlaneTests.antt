-- ===== src/Tests/PlaneTests.antt =====
-- The theorems on the control plane's handlers, at the sample database.
use mathlib.Core.List.{Memᴰ}
use kapi_final.Base.{
  ℕ, ◌≡◌, ◌≤◌, refl, none, some, [], ◌∷◌, length, row_of, find, select, any, arith, String, ◌+◌,
  ◌==◌, if◌then◌else◌,
}
use kapi_final.Base.Int.{pos}
use kapi_final.Protocol.Jobs.{JobKind, backend, AgentId}
use kapi_final.Protocol.Events.{AgentEvent, agent_message, of_agent}
use kapi_final.Protocol.AgentApi.{SpawnRequest}
use kapi_final.Db.Tables.{Db, Run}
use kapi_final.Db.Tx.{done, throw, conflict, after}
use kapi_final.Queue.Lifecycle.{get_job}
use kapi_final.Invariant.Whole.{run_id}
use kapi_final.ControlPlane.Spawn.{SpawnCall, spawn, saved_receipt}
use kapi_final.ControlPlane.Spawn.Batch.{AreFresh}
use kapi_final.ControlPlane.Spawn.Request.{answer, spawn_lem, spawn_again, spawn_within}
use kapi_final.ControlPlane.Admission.{Limits, held, reserve_model_call, settle_model_call}
use kapi_final.ControlPlane.Admission.Ledger.{IsWithin}
use kapi_final.ControlPlane.Admission.Admits.{ReserveOutcome, reserve_model_call_lem}
use kapi_final.ControlPlane.Admission.Receipts.{settle_twice}
use kapi_final.ControlPlane.AgentTx.{Claims}
use kapi_final.ControlPlane.AgentApi.Inbox.{
  inbox, is_for, addresses, by_seq, insert_event_sorted, inbox_skips_nothing,
}
use kapi_final.Tests.Samples.{sample, sample_run}

abbrev want : String → SpawnRequest
want s = record {
  kind = JobKind.build;
  role = backend;
  instruction = s;
  acceptance = [];
  touches = [];
  depends_on = [];
  priority = pos 0;
  secrets = [];
  context = [];
}

-- Two agents are asked for, and the budget of the sample run has room for one.
abbrev call : SpawnCall
call = record {
  job_id = 7;
  run_id = 1;
  depth = 1;
  now = 500;
  inherited = [];
  operation = some 77;
  fingerprint = 11;
  agents = (20, want "api") ∷ (21, want "ui") ∷ [];
}

call_fresh : AreFresh call.agents sample.jobs
unfolding row_of find
call_fresh = (refl, ((λ e. ground (arith, e)), tt), (refl, tt, tt))

spawn_lem_example : (db' : Db) × (spawn call sample ≡ done (some (answer call sample_run)) db')
unfolding row_of find saved_receipt
spawn_lem_example = let s = spawn_lem call sample_run sample refl refl call_fresh in (s.0, s.1)

spawn_again_example :
    (db' : Db) × (spawn call sample ≡ done (some (answer call sample_run)) db')
    × (spawn (record call { fingerprint = 12 }) db' ≡ (
        if 12 == call.fingerprint
        then done (some (answer call sample_run)) db'
        else throw conflict))
unfolding row_of find saved_receipt
spawn_again_example =
    spawn_again call sample_run sample refl refl call_fresh (record call { fingerprint = 12 }) 77
      refl refl refl

spawn_within_example :
    (db' : Db) × (s : Run) × (spawn call sample ≡ done (some (answer call sample_run)) db')
    × (row_of run_id 1 db'.runs ≡ some s)
    × (s.total_spawns ≤ s.max_total_spawns)
    × (length (answer call sample_run).spawned + length (answer call sample_run).refused ≡ 2)
unfolding row_of find saved_receipt
spawn_within_example = spawn_within call sample_run sample refl refl call_fresh (omega arith)

abbrev limits : Limits
limits = record { run_limit = 1; user_limit = 2; lifetime_ms = 180000 }

sample-IsWithin : IsWithin sample
unfolding row_of find held
sample-IsWithin id r e = ground (arith, e)

-- With 600 tokens of the run held by a call.
abbrev reserved : Db
reserved = record sample {
  reservations =
      record { id = 40; run_id = 1; user_id = 3; tokens = 600; expires_at = 181000 } ∷ [];
}

settle_twice_example :
    settle_model_call 40 none (after (settle_model_call 40 (some 450) reserved) reserved)
    ≡ done tt (after (settle_model_call 40 (some 450) reserved) reserved)
settle_twice_example = settle_twice 40 450 none reserved

abbrev token : Claims
token = record { run_id = 1; job_id = 8; vm_id = 6 }

abbrev to_eight : ℕ → AgentEvent
to_eight n = record {
  run_id = 1;
  job_id = some 7;
  seq = n;
  kind = agent_message;
  sender = AgentId.agent 7;
  recipient = some (AgentId.agent 8);
  payload = of_agent [];
}

inbox_skips_nothing_example :
    Memᴰ (to_eight 3) (inbox token 2 sample.jobs (to_eight 4 ∷ to_eight 3 ∷ []))
unfolding row_of find is_for addresses get_job inbox by_seq insert_event_sorted select any
inbox_skips_nothing_example =
    inbox_skips_nothing token 2 sample.jobs (to_eight 4 ∷ to_eight 3 ∷ []) (to_eight 3)
      (Memᴰ.tail (Memᴰ.head refl)) refl (omega arith)

reserve_model_call_lem_example :
    ReserveOutcome limits 40 3 600 1000 sample_run sample
      (reserve_model_call limits 40 1 3 600 1000 sample)
unfolding row_of find
reserve_model_call_lem_example = reserve_model_call_lem limits 40 3 600 1000 sample_run sample refl
