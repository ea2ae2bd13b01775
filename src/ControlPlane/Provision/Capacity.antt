-- ===== src/ControlPlane/Provision/Capacity.antt =====
-- A provision, from its reservation to its end, never takes a run past its VMs at a time.
use kapi_final.Base.{
  ℕ, ◌≤◌, ◌≡◌, true, false, Bool, List, [], ◌∷◌, select, update_where, IsKeyed, arith,
  if◌then◌else◌,
}
use kapi_final.Db.Tables.{Db, Agent, agent_start_failed}
use kapi_final.Db.Tx.{Keeps, pure, update_agents, ◌>>=◌}
use kapi_final.Db.Handler.{
  Handler, Serves, Serves-bind, Serves-elapse, Serves-answer, Serves-commit, commit, answer,
  left_by,
}
use kapi_final.Db.Handler
use kapi_final.ControlPlane.Provisioner.{
  live_agents, is_live_in, attach, awaits_vm, hold_unknown, release_agent, reserve_slot,
}
use kapi_final.ControlPlane.Provisioner.Slots.{WithinSlots, SameRun, agent_key, reserve_slot-Holds}
use kapi_final.ControlPlane.Provision.{
  Attempt, Created, created, create_failed, start_agent, on_created, create_vm, provision, no_slot,
  provisioned, not_started, slot_expired,
}

-- An update that starts no agent.
abbrev IsCalm : (Agent → Agent) → Type 0
IsCalm f = (k : ℕ) (a : Agent) → is_live_in k (f a) ≡ true → is_live_in k a ≡ true

live-calm :
    (k : ℕ) (q : Agent → Bool) (f : Agent → Agent) (agents : List Agent)
    → IsCalm f
    → live_agents k (update_where q f agents) ≤ live_agents k agents
unfolding live_agents update_where select
live-calm k q f [] h = omega arith
live-calm k q f (a ∷ as') h = ground (arith, live-calm k q f as' h, h k a)

calm-WithinSlots :
    (q : Agent → Bool) (f : Agent → Agent) (db : Db)
    → IsCalm f
    → WithinSlots db
    → WithinSlots (record db { agents = update_where q f db.agents })
calm-WithinSlots q f db h w = λ k r e. omega (arith, live-calm k q f db.agents h, w k r e)

attach-Keeps : (job vm provider now : ℕ) → Keeps WithinSlots (attach job vm provider now)
unfolding attach update_agents pure ◌>>=◌
attach-Keeps job vm provider now = record {
  apply = λ db w. calm-WithinSlots (awaits_vm job) _ db (λ k a h. h) w;
}

hold-Keeps : (job reservation : ℕ) → Keeps WithinSlots (hold_unknown job reservation)
unfolding hold_unknown update_agents
hold-Keeps job reservation = record { apply = λ db w. calm-WithinSlots _ _ db (λ k a h. h) w }

release-Keeps :
    (p : Attempt)
    → Keeps WithinSlots (release_agent (p.job).id p.now agent_start_failed p.is_destroyed)
unfolding release_agent update_agents
release-Keeps p = record {
  apply = λ db w. calm-WithinSlots _ _ db (λ k a h. absurd (ground arith)) w;
}

module _ (p : Attempt) (creating : (db : Db) → WithinSlots db → WithinSlots (p.while_creating db))
    (starting : (db : Db) → WithinSlots db → WithinSlots (p.while_starting db)) where
  start-Serves : (vm : ℕ) → Serves WithinSlots (start_agent p vm)
  unfolding start_agent
  start-Serves vm = Serves-bind (Serves-elapse p.while_starting starting) (λ _. by_start p.starts)
    where
      by_start :
          (b : Bool)
          → Serves WithinSlots (
              if b
              then answer (provisioned vm)
              else (Handler.◌>>◌
                  (commit (release_agent (p.job).id p.now agent_start_failed p.is_destroyed))
                  (answer (not_started vm))))
      by_start true = Serves-answer _
      by_start false = Serves-bind (Serves-commit (release-Keeps p)) (λ _. Serves-answer _)

  created-Serves : (o : Created) → Serves WithinSlots (on_created p o)
  unfolding on_created
  created-Serves create_failed =
      Serves-bind (Serves-commit (hold-Keeps (p.job).id p.vm_id)) (λ _. Serves-answer _)
  created-Serves (created vm) =
      Serves-bind (Serves-commit (attach-Keeps (p.job).id vm p.provider p.now)) by_slot
    where
      by_slot :
          (ok : Bool)
          → Serves WithinSlots (if ok then start_agent p vm else answer (slot_expired vm))
      by_slot true = start-Serves vm
      by_slot false = Serves-answer _

  reserved-Serves : (ok : Bool) → Serves WithinSlots (if ok then create_vm p else answer no_slot)
  unfolding create_vm
  reserved-Serves true =
      Serves-bind (Serves-elapse p.while_creating creating) (λ _. created-Serves p.creation)
  reserved-Serves false = Serves-answer _

  -- If no run has more agents that have not stopped than it may have VMs at a time, agents have a
  -- primary key and the job's agent is of the job's run, then no run has more after the provision
  -- of a VM for the job, however it ends, where what else happens meanwhile keeps this.
  pub provision-WithinSlots :
      (db : Db)
      → IsKeyed agent_key db.agents
      → SameRun (p.job).id (p.job).run_id db.agents
      → WithinSlots db
      → WithinSlots (left_by (provision p db))
  unfolding provision commit Handler.◌>>=◌
  provision-WithinSlots db keyed same within =
      let o = reserve_slot p.limits p.vm_id p.provider p.now p.job db in
      let held = reserve_slot-Holds p.limits p.vm_id p.provider p.now p.job db keyed same within in
      (Serves-bind {m = commit (λ _. o)} (Serves-commit (record { apply = λ _ _. held }))
          reserved-Serves).apply
        db within
