-- ===== src/Invariant/QueueOps.antt =====
-- Every operation of packages/queue keeps what each of its statements keeps.
use mathlib.Core.List.{Memᴰ}
use kapi_final.Base.{
  ℕ, ◌<◌, ◌≡◌, refl, Bool, true, false, Option, none, some, List, [], ◌∷◌, All, IsKeyed, head?,
  All-of_mem, mem_unique, ==_iff, arith, and_left,
}
use kapi_final.Protocol.Text.{Text}
use kapi_final.Protocol.Jobs.{Job, JobSpec, JobResult}
use kapi_final.Protocol.Events.{EventInput}
use kapi_final.Db.Tables.{Db}
use kapi_final.Db.Tx.{Keeps, Keeps-bind, Keeps-pure, Keeps-for_each, Holds-first, update_jobs}
use kapi_final.Queue.Events.{append_event_}
use kapi_final.Queue.Claim.{
  ClaimOptions, claim, claimable, pick, id_is, record_claim, set_claimed, is_queued,
}
use kapi_final.Queue.Claim.Order.{pick-mem}
use kapi_final.Queue.Lifecycle.{
  enqueue_in, heartbeat, beat_agents, mark_running, record_running, complete, record_complete, fail,
  record_fail, cancel_subtree, cancel_agents, stop_agent, count_spawn, set_cancelled,
}
use kapi_final.Invariant.Steps.{JobStep, claims, beats, starts, completes, fails, cancels}
use kapi_final.Invariant.Guard.{Guard, update_jobs-Keeps}

claimable-queued :
    (o : ClaimOptions) (locked : ℕ → Bool) (jobs : List Job) (j : Job)
    → claimable o locked jobs j ≡ true
    → is_queued j.status ≡ true
unfolding claimable
claimable-queued o locked jobs j h = and_left _ _ h

-- So with a primary key the UPDATE of a claim meets a queued row only.
pub claim_steps :
    (o : ClaimOptions) (locked : ℕ → Bool) (now : ℕ) (jobs : List Job)
    → IsKeyed (λ (j : Job). j.id) jobs
    → All (λ j. id_is (pick o locked jobs) j ≡ true → JobStep j (set_claimed o now j)) jobs
claim_steps o locked now jobs keyed = All-of_mem _ jobs (λ j m. step j m (pick o locked jobs) refl)
  where
    step :
        (j : Job)
        → Memᴰ j jobs
        → (k : Option Job) → pick o locked jobs ≡ k
        → id_is k j ≡ true
        → JobStep j (set_claimed o now j)
    step j m none e h = cc
    step j m (some k) e h =
        let (n, t) = pick-mem o locked jobs e in
        let same = mem_unique (λ (x : Job). x.id) jobs keyed m n ((==_iff _ _).0 h) in
        claims o now (rw same (claimable-queued o locked jobs k t))

module _ {P : Db → Type 0} (g : Guard P) where
  pub append_event_-Keeps : (e : EventInput) → Keeps P (append_event_ e)
  append_event_-Keeps e = search (Keeps-bind, Keeps-pure, g.append e)

  pub stop_agent-Keeps : (now id : ℕ) (s : _) → Keeps P (stop_agent now id s)
  unfolding stop_agent
  stop_agent-Keeps now id s = g.agents _ _

  record_complete-Keeps :
      (id vm now : ℕ) (r : JobResult) (o : Option Job) → Keeps P (record_complete id vm now r o)
  unfolding record_complete
  record_complete-Keeps id vm now r none = Keeps-pure none
  record_complete-Keeps id vm now r (some j) =
      search (Keeps-bind, Keeps-pure, append_event_-Keeps, stop_agent-Keeps)

  pub complete-Keeps : (id vm : ℕ) (r : JobResult) (now : ℕ) → Keeps P (complete id vm r now)
  unfolding complete
  complete-Keeps id vm r now =
      Keeps-bind (update_jobs-Keeps g _ _ (λ j h. completes r now (ground arith)))
        (λ rows. record_complete-Keeps id vm now r (head? rows))

  record_fail-Keeps :
      (id vm now : ℕ) (error : Text) (o : Option Job) → Keeps P (record_fail id vm now error o)
  unfolding record_fail
  record_fail-Keeps id vm now error none = Keeps-pure none
  record_fail-Keeps id vm now error (some j) =
      search (Keeps-bind, Keeps-pure, append_event_-Keeps, stop_agent-Keeps)

  pub fail-Keeps : (id vm : ℕ) (error : Text) (now : ℕ) → Keeps P (fail id vm error now)
  unfolding fail
  fail-Keeps id vm error now =
      Keeps-bind (update_jobs-Keeps g _ _ (λ j h. fails _ now (ground arith)))
        (λ rows. record_fail-Keeps id vm now error (head? rows))

  record_running-Keeps : (vm : ℕ) (o : Option Job) → Keeps P (record_running vm o)
  unfolding record_running
  record_running-Keeps vm none = Keeps-pure none
  record_running-Keeps vm (some j) = search (Keeps-bind, Keeps-pure, append_event_-Keeps)

  pub mark_running-Keeps : (id vm : ℕ) → Keeps P (mark_running id vm)
  unfolding mark_running
  mark_running-Keeps id vm =
      Keeps-bind (update_jobs-Keeps g _ _ (λ j h. starts (ground arith)))
        (λ rows. record_running-Keeps vm (head? rows))

  beat_agents-Keeps : (id vm now : ℕ) (rows : List Job) → Keeps P (beat_agents id vm now rows)
  unfolding beat_agents
  beat_agents-Keeps id vm now [] = Keeps-pure false
  beat_agents-Keeps id vm now (j ∷ js) = Keeps-bind (g.agents _ _) (λ _. Keeps-pure true)

  pub heartbeat-Keeps : (id vm seconds now : ℕ) → Keeps P (heartbeat id vm seconds now)
  unfolding heartbeat
  heartbeat-Keeps id vm seconds now =
      Keeps-bind (update_jobs-Keeps g _ _ (λ j h. beats now seconds (ground arith)))
        (beat_agents-Keeps id vm now)

  pub enqueue_in-Keeps :
      (id now : ℕ) (s : JobSpec) → 0 < s.max_attempts → Keeps P (enqueue_in id now s)
  unfolding enqueue_in
  enqueue_in-Keeps id now s h = Keeps-bind (g.insert id now s h) λ job.
      Keeps-bind (append_event_-Keeps _) λ _.
        Keeps-bind
          (g.runs _ count_spawn (λ r _. record {
            same_id = refl;
            same_seq = refl;
            same_schedule = refl;
            ended = λ _. refl;
          }))
          λ _. Keeps-pure job

  record_claim-Keeps : (o : ClaimOptions) (k : Option Job) → Keeps P (record_claim o k)
  unfolding record_claim
  record_claim-Keeps o none = Keeps-pure none
  record_claim-Keeps o (some j) = search (Keeps-bind, Keeps-pure, append_event_-Keeps)

  pub claim-Keeps : (o : ClaimOptions) (locked : ℕ → Bool) (now : ℕ) → Keeps P (claim o locked now)
  unfolding claim update_jobs
  claim-Keeps o locked now = record {
    apply = λ db h.
        Holds-first (update_jobs (id_is (pick o locked db.jobs)) (set_claimed o now)) _ db
          (g.jobs _ _ db (claim_steps o locked now db.jobs (g.keyed db h)) h)
          (λ rows. record_claim-Keeps o (head? rows));
  }

  cancel_agents-Keeps : (now : ℕ) (rows : List Job) → Keeps P (cancel_agents now rows)
  unfolding cancel_agents
  cancel_agents-Keeps now [] = Keeps-pure tt
  cancel_agents-Keeps now (j ∷ js) = g.agents _ _

  pub cancel_subtree-Keeps :
      (id : ℕ) (reason : Text) (now : ℕ) → Keeps P (cancel_subtree id reason now)
  unfolding cancel_subtree
  cancel_subtree-Keeps id reason now = record {
    apply = λ db h.
        Holds-first (update_jobs _ (set_cancelled reason now)) _ db
          ((update_jobs-Keeps g _ _ (λ j t. cancels reason now (ground arith))).apply db h)
          (λ rows.
            Keeps-bind (cancel_agents-Keeps now rows)
              λ _. Keeps-bind (Keeps-for_each _ (λ j. append_event_-Keeps _)) λ _. Keeps-pure rows);
  }
