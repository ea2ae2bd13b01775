-- ===== src/ControlPlane/Spawn/Accepted.antt =====
-- One request to spawn that is accepted.
use kapi_final.Base.{ℕ, ◌≡◌, refl, ◌∙◌, none, some, ◌∷◌, row_of}
use kapi_final.Protocol.Jobs.{Job}
use kapi_final.Protocol.AgentApi.{SpawnRequest}
use kapi_final.Protocol.Text.{queued}
use kapi_final.Protocol.Context.{spread}
use kapi_final.Db.Tables.{Db, Run}
use kapi_final.Db.Tx.{◌>>◌, pure, done, bind_done}
use kapi_final.Queue.Events.{append_event_, appended, append_then, bump}
use kapi_final.Queue.Lifecycle.{enqueue_in, new_job, count_spawn, distinct}
use kapi_final.Queue.Lifecycle.Stored.{row_of-own, enqueue_in_done}
use kapi_final.Invariant.Whole.{job_id, run_id}
use kapi_final.ControlPlane.Spawn.{SpawnCall, spawn_one, spec_of, spawn_event, to_spawned}

-- The row of the run after one spawn: two events, and one more spawned.
abbrev pub charged : Run → Run
charged x = bump (count_spawn (bump x))

-- The row of a job that was asked for: queued under the caller's job in the caller's run, with no
-- secret named twice and the caller's context below the request's.
abbrev pub child : SpawnCall → ℕ → SpawnRequest → Job
child c id w = record {
  id = id;
  run_id = c.run_id;
  parent_job_id = some c.job_id;
  kind = w.kind;
  role = w.role;
  status = queued;
  payload = record {
    instruction = w.instruction;
    acceptance = w.acceptance;
    touches = w.touches;
    secrets = distinct w.secrets;
    context = spread c.inherited w.context;
  };
  result = none;
  vm_id = none;
  lease_expires_at = none;
  attempts = 0;
  max_attempts = 3;
  priority = w.priority;
  depends_on = w.depends_on;
  error = none;
  created_at = c.now;
  started_at = none;
  finished_at = none;
}

module _ (c : SpawnCall) (id : ℕ) (w : SpawnRequest) (db : Db) {x : Run}
    (free : row_of job_id id db.jobs ≡ none) (own : row_of run_id c.run_id db.runs ≡ some x) where
  pub spawn_one_done :
      (db' : Db) × (spawn_one c id w db ≡ done (to_spawned (child c id w)) db')
      × (db'.jobs ≡ child c id w ∷ db.jobs)
      × (row_of run_id c.run_id db'.runs ≡ some (charged x))
      × (db'.artifacts ≡ db.artifacts)
  unfolding spawn_one spec_of spawn_event to_spawned pure new_job
  spawn_one_done =
      let j = child c id w in
      let (db3, stored, jobs, own3, _, same) = enqueue_in_done id c.now (spec_of c w) db free own in
      let db4 = appended (spawn_event c j) (count_spawn (bump x)) db3 in
      let rest = λ (a : Job). append_event_ (spawn_event c a) >> pure (to_spawned a) in
      let whole =
        bind_done (enqueue_in id c.now (spec_of c w)) rest db stored
        ∙ append_then (spawn_event c j) (to_spawned j) db3 own3 in
      (db4, whole, jobs, row_of-own bump c.run_id db3 (λ _. refl) own3, same)
