-- ===== src/ControlPlane/Provision/Placement.antt =====
-- Where the VM of a provision ends up.
use kapi_final.Base.{
  ℕ, ◌≡◌, ◌==◌, ◌&&◌, refl, sym, ap, ◌∙◌, true, false, Bool, none, some, List, [], ◌∷◌, select,
  row_of, update_where, update-none, head-select, head?, find-key_and, IsKeyed-update, row_of-hit,
  keep_if, row_of-update, row_of_sound, ==_iff, ◌⊎◌, All-everywhere, Option-cases, Bool-cases, inl,
  inr, IsKeyed, arith, if◌then◌else◌,
}
use kapi_final.Protocol.Jobs.{Job}
use kapi_final.Db.Tables.{Db, Agent, agent_start_failed}
use kapi_final.Db.Tx.{done, pure, update_agents}
use kapi_final.Db.Tx
use kapi_final.Db.Handler
use kapi_final.Db.Handler.{Handler, Served, served, crashed, commit, answer, elapse, ◌>>=◌}
use kapi_final.ControlPlane.Provisioner.{
  attach, awaits_vm, is_provisioning, is_null, non_empty, hold_unknown, release_agent, reserve_slot,
  take_slot, take_row, reservation, reserve_again, may_reuse, is_full, is_waiting, may_start,
  run_of,
}
use kapi_final.ControlPlane.Provisioner.Slots.{agent_key}
use kapi_final.ControlPlane.Provision.{
  Attempt, Created, created, create_failed, Provisioned, start_agent, on_created, create_vm,
  provision, no_slot, provisioned, not_started, slot_expired, answer_lost,
}

-- The job's row has the VM, or what is left of it after its release.
pub record HasVm (p : Attempt) (vm : ℕ) (db : Db) : Type 0 where
  pub row : Agent
  pub found : row_of agent_key (p.job).id db.agents ≡ some row
  pub vm_id : row.vm_id ≡ some vm
  pub provider : row.provider ≡ some p.provider

pub record IsReleased (p : Attempt) (vm : ℕ) (db : Db) : Type 0 where
  pub row : Agent
  pub found : row_of agent_key (p.job).id db.agents ≡ some row
  pub stopped : row.stopped_at ≡ some p.now
  pub vm_id : row.vm_id ≡ (if p.is_destroyed then none else some vm)

abbrev pub Placed : Attempt → Db → Provisioned → Db → Type 0
Placed p db (provisioned vm) db' = (p.creation ≡ created vm) × HasVm p vm db'
Placed p db (not_started vm) db' = (p.creation ≡ created vm) × IsReleased p vm db'
Placed p db (slot_expired vm) db' =
    (p.creation ≡ created vm) × (select (awaits_vm (p.job).id) db'.agents ≡ [])
Placed p db answer_lost db' = p.creation ≡ create_failed
Placed p db no_slot db' = db' ≡ db

abbrev pub PlacedBy : Attempt → Db → Served Provisioned → Type 0
PlacedBy p db (served r db') = Placed p db r db'
PlacedBy p db (crashed e db') = ⊥

-- While the agent starts, the job's row stays as it is.
abbrev pub LeavesAgent : Attempt → Type 0
LeavesAgent p =
    (d : Db)
    → row_of agent_key (p.job).id (p.while_starting d).agents ≡ row_of agent_key (p.job).id d.agents

-- While the VM is created, the agents keep their primary key.
abbrev pub KeepsKeys : Attempt → Type 0
KeepsKeys p = (d : Db) → IsKeyed agent_key d.agents → IsKeyed agent_key (p.while_creating d).agents

some_row : {A : Type 0} (xs : List A) → non_empty xs ≡ true → (x : A) × (head? xs ≡ some x)
some_row [] e = absurd (cc)
some_row (x ∷ xs) e = (x, refl)

no_row : {A : Type 0} (xs : List A) → non_empty xs ≡ false → xs ≡ []
no_row [] e = refl
no_row (x ∷ xs) e = absurd (cc)

abbrev is_open : Agent → Bool
is_open a = is_provisioning a.status && is_null a.stopped_at

-- A row that awaits the VM is the job's row, and is updated.
attached_row :
    (job : ℕ) (f : Agent → Agent) (agents : List Agent)
    → ((a : Agent) → agent_key (f a) ≡ agent_key a)
    → IsKeyed agent_key agents
    → non_empty (select (awaits_vm job) agents) ≡ true
    → (a : Agent) × (row_of agent_key job (update_where (awaits_vm job) f agents) ≡ some (f a))
attached_row job f agents h keyed t =
    let (a, e) = some_row (select (awaits_vm job) agents) t in
    let kept : keep_if is_open (row_of agent_key job agents) ≡ some a =
      sym (find-key_and agent_key job is_open agents keyed)
      ∙ (sym (head-select (awaits_vm job) agents) ∙ e) in
    elim (Option-cases (row_of agent_key job agents)) [
      | inl n ↦ absurd (cc (kept, ap (keep_if is_open) n))
      | inr (b, r) ↦ elim (Bool-cases (is_open b)) [
        | inl q ↦ (b, row_of-hit agent_key job is_open f agents h r q)
        | inr q ↦ absurd (ground (arith, kept, r, q))
      ]
    ]

reserve_cases :
    (p : Attempt) (db : Db)
    → IsKeyed agent_key db.agents
    → (reserve_slot p.limits p.vm_id p.provider p.now p.job db ≡ done false db)
      ⊎ ((d : Db) × (reserve_slot p.limits p.vm_id p.provider p.now p.job db ≡ done true d)
          × IsKeyed agent_key d.agents)
unfolding reserve_slot take_slot take_row reservation reserve_again
reserve_cases p db keyed = elim (Bool-cases (is_full p.limits (p.job).run_id db)) [
  | inl t ↦ inl (rw t refl)
  | inr t ↦ elim (Bool-cases (is_waiting (row_of (λ (j : Job). j.id) (p.job).id db.jobs))) [
    | inr u ↦ inl (rw t (rw u refl))
    | inl u ↦ elim (Bool-cases (may_start (run_of (p.job).run_id db) db)) [
      | inr v ↦ inl (rw t (rw u (rw v refl)))
      | inl v ↦ elim (Option-cases (row_of agent_key (p.job).id db.agents)) [
        | inl n ↦ inr (
          record db { agents = reservation p.vm_id p.provider p.now p.job ∷ db.agents },
          rw t (rw u (rw v (rw n refl))),
          (n, keyed),
        )
        | inr (b, e) ↦ elim (Bool-cases (may_reuse b)) [
          | inl w ↦ inr (
            record db {
              agents =
                  update_where (λ (x : Agent). x.job_id == (p.job).id) (reserve_again p.vm_id p.now)
                    db.agents;
            },
            rw t (rw u (rw v (rw e (rw w refl)))),
            IsKeyed-update agent_key _ _ db.agents (All-everywhere db.agents (λ a _. refl)) keyed,
          )
          | inr w ↦ inl (rw t (rw u (rw v (rw e (rw w refl)))))
        ]
      ]
    ]
  ]
]

module _ (p : Attempt) (db : Db) where
  closed-IsReleased :
      (vm : ℕ) (d : Db)
      → HasVm p vm d
      → IsReleased p vm (record d {
        agents =
            update_where
              (λ (a : Agent). a.job_id == (p.job).id)
              (λ a. record a {
                status = agent_start_failed;
                stopped_at = some p.now;
                vm_id = if p.is_destroyed then none else a.vm_id;
              })
              d.agents;
      })
  closed-IsReleased vm d h =
      let close : Agent → Agent = λ a. record a {
        status = agent_start_failed;
        stopped_at = some p.now;
        vm_id = if p.is_destroyed then none else a.vm_id;
      } in
      let moved =
        row_of-update agent_key (λ (a : Agent). a.job_id == (p.job).id) close (p.job).id d.agents
          (All-everywhere d.agents (λ a _. refl)) in
      record {
        row = close h.row;
        found = ground (
          arith,
          moved,
          h.found,
          row_of_sound agent_key (p.job).id d.agents h.found,
          ==_iff (h.row).job_id (p.job).id,
        );
        stopped = refl;
        vm_id = ap (λ v. if p.is_destroyed then none else v) h.vm_id;
      }

  start-Placed :
      (vm : ℕ) (d : Db)
      → HasVm p vm d
      → LeavesAgent p
      → p.creation ≡ created vm
      → PlacedBy p db (start_agent p vm d)
  unfolding start_agent elapse commit answer ◌>>=◌ release_agent update_agents
  start-Placed vm d h l e = by_start p.starts
    where
      later : HasVm p vm (p.while_starting d)
      later = record { row = h.row; found = l d ∙ h.found; vm_id = h.vm_id; provider = h.provider }

      by_start :
          (b : Bool)
          → PlacedBy p db (
              (if b
                  then answer (provisioned vm)
                  else (Handler.◌>>◌
                      (commit (release_agent (p.job).id p.now agent_start_failed p.is_destroyed))
                      (answer (not_started vm))))
                (p.while_starting d))
      by_start true = (e, later)
      by_start false = (e, closed-IsReleased vm (p.while_starting d) later)

  created-Placed :
      (o : Created) (d : Db)
      → IsKeyed agent_key d.agents
      → LeavesAgent p
      → p.creation ≡ o
      → PlacedBy p db (on_created p o d)
  unfolding on_created commit answer ◌>>=◌ hold_unknown update_agents attach Tx.◌>>=◌ Tx.pure
  created-Placed create_failed d keyed l e = e
  created-Placed (created vm) d keyed l e =
      elim (Bool-cases (non_empty (select (awaits_vm (p.job).id) d.agents))) [
        | inl t ↦
            let (a, r) = attached_row (p.job).id attaching d.agents (λ a. refl) keyed t in
            let own : HasVm p vm
                (record d { agents = update_where (awaits_vm (p.job).id) attaching d.agents }) =
              record { row = attaching a; found = r; vm_id = refl; provider = refl } in
            rw (t, PlacedBy) (start-Placed vm _ own l e)
        | inr t ↦
            let none_waits = no_row _ t in
            let same : update_where (awaits_vm (p.job).id) attaching d.agents ≡ d.agents =
              update-none (awaits_vm (p.job).id) attaching d.agents
                (sym (head-select (awaits_vm (p.job).id) d.agents) ∙ ap head? none_waits) in
            rw (t, PlacedBy) (e, ap (select (awaits_vm (p.job).id)) same ∙ none_waits)
      ]
    where
      attaching : Agent → Agent
      attaching a = record a {
        vm_id = some vm;
        provider = some p.provider;
        accounted_through = some p.now;
      }

  -- Where agents have a primary key, which what happens while the VM is created keeps, and the
  -- job's row stays as it is while the agent starts, a provision does not crash. With no slot it
  -- changes nothing. If it ends with a VM, the provider gave that VM, and the job's row has it
  -- with its provider. If the agent does not start, the provider gave the VM too, and the job's
  -- row is stopped and keeps the VM exactly where its end is not confirmed. A VM is sent back as
  -- expired only if the provider gave it and no row of the job awaits one; and the answer counts
  -- as lost only if the creation failed.
  pub provision-Placed :
      IsKeyed agent_key db.agents → KeepsKeys p → LeavesAgent p → PlacedBy p db (provision p db)
  unfolding provision create_vm elapse commit answer ◌>>=◌
  provision-Placed keyed keys l = elim (reserve_cases p db keyed) [
    | inl q ↦ rw (q, PlacedBy) refl
    | inr (d, q, k) ↦
        rw (q, PlacedBy) (created-Placed p.creation (p.while_creating d) (keys d k) l refl)
  ]
