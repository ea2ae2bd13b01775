-- ===== src/ControlPlane/Spawn/Request.antt =====
-- A whole request to spawn, and the same request sent again.
use kapi_final.Queue.Lifecycle.Secrets.{IsSetOf, distinct-IsSetOf}
use kapi_final.Base.{
  All, All-everywhere, ℕ, ◌-◌, ◌+◌, ◌≡◌, ◌≤◌, refl, sym, ap, ◌∙◌, Option, none, some, take, drop,
  length, arith, row_of, row_of-cons, length-take, length-map, length-take-drop, ==_iff, ◌==◌,
  if◌then◌else◌,
}
use kapi_final.Protocol.AgentApi.{SpawnRequest, SpawnResponse}
use kapi_final.Db.Tables.{Db, Run, SpawnReceipt}
use kapi_final.Db.Tx.{pure, done, throw, conflict, fail_with, bind_done, query, update_artifacts}
use kapi_final.Invariant.Whole.{run_id}
use kapi_final.ControlPlane.Spawn.{
  SpawnCall, spawn, spawn_run, spawn_once, spawn_fresh, spawn_each, save_receipt, saved_receipt,
  response_of, remember, to_spawned, refused_for,
}
use kapi_final.ControlPlane.Spawn.Accepted.{child}
use kapi_final.ControlPlane.Spawn.Batch.{
  allowed, reason, AreFresh, accepted, declined, enlist, charged_for, spawn_each_done, Wanted,
}

abbrev pub budget_left : Run → ℕ
budget_left r = r.max_total_spawns - r.total_spawns

-- The requests that are accepted, and the others.
abbrev pub taken : SpawnCall → Run → Wanted
taken c r = take (allowed c r (budget_left r)) c.agents

abbrev pub left_out : SpawnCall → Run → Wanted
left_out c r = drop (allowed c r (budget_left r)) c.agents

abbrev pub answer : SpawnCall → Run → SpawnResponse
answer c r = response_of c r (accepted c (taken c r), declined (reason c r) (left_out c r))

-- What a first request leaves: the jobs, the charge to the run, and the receipt to be found again.
pub record IsSpawned (c : SpawnCall) (r : Run) (db db' : Db) : Type 0 where
  pub jobs : db'.jobs ≡ enlist c (taken c r) db.jobs
  pub secrets :
      All
        (λ (v : ℕ × SpawnRequest). IsSetOf (v.1).secrets ((child c v.0 v.1).payload).secrets)
        (taken c r)
  pub charge : row_of run_id c.run_id db'.runs ≡ some (charged_for (length (taken c r)) r)
  pub receipt : saved_receipt c.operation (db'.artifacts).receipts ≡ (elim c.operation [
    | none ↦ none
    | some op ↦ some (record { operation = op; fingerprint = c.fingerprint; response = answer c r })
  ])

save_done :
    (o : Option ℕ) (fingerprint : ℕ) (a : SpawnResponse) (db : Db)
    → (db' : Db) × (save_receipt o fingerprint a db ≡ done tt db')
      × (db'.jobs ≡ db.jobs)
      × (db'.runs ≡ db.runs)
      × (saved_receipt o (db'.artifacts).receipts ≡ (elim o [
        | none ↦ none
        | some op ↦ some (record { operation = op; fingerprint = fingerprint; response = a })
      ]))
unfolding save_receipt update_artifacts pure saved_receipt
save_done none fingerprint a db = (db, refl, refl, refl, refl)
save_done (some op) fingerprint a db =
    let r : SpawnReceipt = record { operation = op; fingerprint = fingerprint; response = a } in
    (
      record db { artifacts = remember r db.artifacts },
      refl,
      refl,
      refl,
      ground (arith, row_of-cons (λ (x : SpawnReceipt). x.operation) op r (db.artifacts).receipts),
    )

-- A request whose run exists goes on with what is saved under its id.
spawn-spawn_once :
    (c : SpawnCall) (r : Run) (db : Db)
    → row_of run_id c.run_id db.runs ≡ some r
    → spawn c db ≡ spawn_once c r (saved_receipt c.operation (db.artifacts).receipts) db
unfolding spawn spawn_run query
spawn-spawn_once c r db own =
    bind_done (query (λ d. row_of run_id c.run_id d.runs)) (spawn_run c) db refl
    ∙ (ap (λ o. spawn_run c o db) own
        ∙ bind_done (query (λ d. saved_receipt c.operation (d.artifacts).receipts)) (spawn_once c r)
            db refl)

module _ (c : SpawnCall) (r : Run) (db : Db) (own : row_of run_id c.run_id db.runs ≡ some r)
    (new : saved_receipt c.operation (db.artifacts).receipts ≡ none)
    (fresh : AreFresh c.agents db.jobs) where
  -- Where the run exists, no receipt is saved under the request's id and the fresh ids are free
  -- and distinct, a request to spawn commits: it accepts the requests in order, as many as the
  -- run has budget left for, and none if the run is over or the depth passes the limit; it
  -- refuses the others with the reason; just the accepted ones become jobs, queued under the
  -- caller's job with what was asked for and each secret once, and are charged to the run; and
  -- the receipt, if the request has an id, can be found again.
  pub spawn_lem : (db' : Db) × (spawn c db ≡ done (some (answer c r)) db') × IsSpawned c r db db'
  unfolding spawn_once spawn_fresh pure
  spawn_lem =
      let (b, db1, p, i) = spawn_each_done c r c.agents (budget_left r) _ db refl fresh own in
      let (db2, q, j, o, s) = save_done c.operation c.fingerprint (answer c r) db1 in
      let all =
        bind_done (spawn_each c r (budget_left r) c.agents) _ db (p ∙ ap (λ x. done x db1) i.batch)
        ∙ bind_done (save_receipt c.operation c.fingerprint (answer c r)) (λ _. pure (answer c r))
            db1 q in
      (
        db2,
        spawn-spawn_once c r db own
            ∙ (ap (λ o. spawn_once c r o db) new
                ∙ bind_done (spawn_fresh c r) (λ a. pure (some a)) db all),
        record {
          secrets = All-everywhere (taken c r) (λ v. distinct-IsSetOf (v.1).secrets);
          jobs = j ∙ i.jobs;
          charge = ap (row_of run_id c.run_id) o ∙ i.charge;
          receipt = s;
        },
      )

  abbrev receipt_of : ℕ → SpawnReceipt
  receipt_of op = record { operation = op; fingerprint = c.fingerprint; response = answer c r }

  found :
      (again : SpawnCall) (op : ℕ) (db' : Db)
      → IsSpawned c r db db'
      → c.operation ≡ some op
      → again.operation ≡ some op
      → saved_receipt again.operation (db'.artifacts).receipts ≡ some (receipt_of op)
  found again op db' i o o' =
      ap (λ k. saved_receipt k (db'.artifacts).receipts) (o' ∙ sym o)
      ∙ (i.receipt ∙ ap (λ k. elim k [ none ↦ none | some op ↦ some (receipt_of op) ]) o)

  -- Where the run exists, no receipt is saved under the request's id and the fresh ids are free
  -- and distinct: once a request with an id has committed, a request of the same run and id,
  -- whatever its depth and time, gets the first one's answer and leaves the database as it is if
  -- its content is the same, and else throws a conflict.
  pub spawn_again :
      (again : SpawnCall) (op : ℕ)
      → again.run_id ≡ c.run_id
      → c.operation ≡ some op
      → again.operation ≡ some op
      → (db' : Db) × (spawn c db ≡ done (some (answer c r)) db')
        × (spawn again db' ≡ (
            if again.fingerprint == c.fingerprint
            then done (some (answer c r)) db'
            else throw conflict))
  unfolding spawn_once pure fail_with
  spawn_again again op same_run o o' =
      let (db', e, i) = spawn_lem in
      let own' = ap (λ k. row_of run_id k db'.runs) same_run ∙ i.charge in
      (
        db',
        e,
        spawn-spawn_once again _ db' own'
            ∙ (ap (λ s. spawn_once again (charged_for (length (taken c r)) r) s db')
                  (found again op db' i o o')
                ∙ ground (arith, ==_iff c.fingerprint again.fingerprint)),
      )

  -- Where the run exists, no receipt is saved under the request's id and the fresh ids are free
  -- and distinct: a run that has not spawned more than it may has not after the request either,
  -- and each request is accepted or refused.
  pub spawn_within :
      r.total_spawns ≤ r.max_total_spawns
      → (db' : Db) × (s : Run) × (spawn c db ≡ done (some (answer c r)) db')
        × (row_of run_id c.run_id db'.runs ≡ some s)
        × (s.total_spawns ≤ s.max_total_spawns)
        × (length (answer c r).spawned + length (answer c r).refused ≡ length c.agents)
  spawn_within h =
      let (db', e, i) = spawn_lem in
      let k = allowed c r (budget_left r) in
      (
        db',
        _,
        e,
        i.charge,
        ground (arith, h, length-take k c.agents),
        omega (
          arith,
          length-map (λ (v : ℕ × SpawnRequest). to_spawned (child c v.0 v.1)) (taken c r),
          length-map (λ (v : ℕ × SpawnRequest). refused_for v.1 (reason c r)) (left_out c r),
          length-take-drop k c.agents,
        ),
      )
