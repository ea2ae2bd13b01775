-- ===== src/ControlPlane/Provisioner/Slots.antt =====
-- A reservation never takes a run past the number of VMs that it may have at a time.
use kapi_final.Base.{
  ℕ, suc, ◌≤◌, ◌<◌, ◌≡◌, ◌==◌, refl, sym, ap, ◌∙◌, subst, true, not, Bool-cases, inl, inr, Option,
  none, some, some-injective, List, [], ◌∷◌, select, row_of, update_where, update-none, IsKeyed,
  All, ltb→lt, and_left, and_right, arith, ==_iff, row_of_sound,
}
use kapi_final.Protocol.Jobs.{Job}
use kapi_final.Db.Tables.{Db, Agent, Run}
use kapi_final.Db.Tx.{Holds}
use kapi_final.Invariant.Whole.{run_id}
use kapi_final.ControlPlane.Provisioner.{
  Limits, live_agents, has_capacity, reservation, reserve_again, may_reuse, take_row, take_slot,
  may_start, is_full, reserve_slot, is_waiting, run_of,
}

abbrev pub agent_key : Agent → ℕ
agent_key a = a.job_id

-- No run has more agents that have not stopped than it may have VMs at a time.
abbrev pub WithinSlots : Db → Type 0
WithinSlots db =
    (k : ℕ) (r : Run)
    → row_of run_id k db.runs ≡ some r
    → live_agents k db.agents ≤ r.max_concurrent_vms

-- The agent of a job is of the job's run.
abbrev pub SameRun : (job run : ℕ) → List Agent → Type 0
SameRun job run agents = All (λ a. a.job_id ≡ job → a.run_id ≡ run) agents

-- An update of one row adds at most one.
live-update :
    (k id vm now : ℕ) (agents : List Agent)
    → IsKeyed agent_key agents
    → live_agents k (update_where (λ (x : Agent). x.job_id == id) (reserve_again vm now) agents)
      ≤ suc (live_agents k agents)
unfolding live_agents update_where select reserve_again row_of
live-update k id vm now [] u = omega arith
live-update k id vm now (a ∷ as') u = elim (Bool-cases (a.job_id == id)) [
  | inl t ↦
      let rest : update_where (λ (x : Agent). x.job_id == id) (reserve_again vm now) as' ≡ as' =
        update-none (λ (x : Agent). x.job_id == id) (reserve_again vm now) as'
          (subst (λ i. row_of agent_key i as' ≡ none) ((==_iff _ _).0 t) u.0) in
      simp (t, rest) (ground arith)
  | inr t ↦ simp t (ground (arith, live-update k id vm now as' u.1))
]

-- It adds none for another run.
live-other :
    (k id vm now run : ℕ) (agents : List Agent)
    → SameRun id run agents
    → (k ≡ run → ⊥)
    → live_agents k (update_where (λ (x : Agent). x.job_id == id) (reserve_again vm now) agents)
      ≡ live_agents k agents
unfolding live_agents update_where select reserve_again
live-other k id vm now run [] same ne = refl
live-other k id vm now run (a ∷ as') same ne =
    ground (arith, live-other k id vm now run as' same.1 ne, same.0)

module _ (job : Job) (vm provider now : ℕ) (db : Db) (r : Run) (keyed : IsKeyed agent_key db.agents)
    (same : SameRun job.id job.run_id db.agents) (own : row_of run_id job.run_id db.runs ≡ some r)
    (room : live_agents job.run_id db.agents < r.max_concurrent_vms) (within : WithinSlots db) where
  -- The list of agents after, with at most one more live in the job's run.
  grown :
      (agents : List Agent)
      → live_agents job.run_id agents ≤ suc (live_agents job.run_id db.agents)
      → ((k : ℕ) → (k ≡ job.run_id → ⊥) → live_agents k agents ≡ live_agents k db.agents)
      → WithinSlots (record db { agents = agents })
  grown agents one others k x e = elim (Bool-cases (k == job.run_id)) [
    | inl t ↦
        let q : k ≡ job.run_id = (==_iff _ _).0 t in
        let row : r ≡ x =
          some-injective r x (sym own ∙ (ap (λ i. row_of run_id i db.runs) (sym q) ∙ e)) in
        let most = ap (λ (y : Run). y.max_concurrent_vms) row in
        subst (λ i. live_agents i agents ≤ x.max_concurrent_vms) (sym q)
          (omega (arith, one, room, most))
    | inr t ↦
        let more = others k (λ q. absurd (ground (arith, t, q))) in
        omega (arith, more, within k x e)
  ]

  take_row-Holds :
      (o : Option Agent)
      → Holds WithinSlots (take_row vm now (reservation vm provider now job) o db)
  unfolding take_row reservation
  take_row-Holds none =
      grown (reservation vm provider now job ∷ db.agents)
        (unfold live_agents select in ground arith)
        (λ k ne. unfold live_agents select in ground (arith, ne))
  take_row-Holds (some b) = elim (Bool-cases (may_reuse b)) [
    | inl t ↦ simp t (
        grown (update_where (λ (x : Agent). x.job_id == job.id) (reserve_again vm now) db.agents)
          (live-update job.run_id job.id vm now db.agents keyed)
          (λ k ne. live-other k job.id vm now job.run_id db.agents same ne))
    | inr t ↦ simp t within
  ]

may_start_room :
    (db : Db) (id : ℕ) (o : Option Run)
    → row_of run_id id db.runs ≡ o
    → may_start o db ≡ true
    → (r : Run) × (row_of run_id id db.runs ≡ some r)
      × (live_agents id db.agents < r.max_concurrent_vms)
unfolding may_start has_capacity
may_start_room db id none e h = absurd (cc)
may_start_room db id (some r) e h =
    let same : r.id ≡ id = row_of_sound run_id id db.runs e in
    (
      r,
      e,
      subst (λ i. live_agents i db.agents < r.max_concurrent_vms) same
          (ltb→lt (live_agents r.id db.agents) r.max_concurrent_vms
            (and_left _ _ (and_left _ _ (and_right _ _ h)))),
    )

-- If no run has more agents that have not stopped than it may have VMs at a time, agents have a
-- primary key and the job's agent is of the job's run, then no run has more after the reservation
-- of a slot.
pub reserve_slot-Holds :
    (limits : Limits) (vm provider now : ℕ) (job : Job) (db : Db)
    → IsKeyed agent_key db.agents
    → SameRun job.id job.run_id db.agents
    → WithinSlots db
    → Holds WithinSlots (reserve_slot limits vm provider now job db)
unfolding reserve_slot take_slot
reserve_slot-Holds limits vm provider now job db keyed same within =
    elim (Bool-cases (is_full limits job.run_id db)) [
      | inl t ↦ simp t within
      | inr t ↦
          simp t (elim (Bool-cases (not (is_waiting (row_of (λ (j : Job). j.id) job.id db.jobs)))) [
            | inl u ↦ simp u within
            | inr u ↦ simp u (elim (Bool-cases (may_start (run_of job.run_id db) db)) [
              | inl v ↦
                  let (r, own, room) = may_start_room db job.run_id (run_of job.run_id db) refl v in
                  simp v (take_row-Holds job vm provider now db r keyed same own room within _)
              | inr v ↦ simp v within
            ])
          ])
    ]
