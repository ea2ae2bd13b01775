-- ===== src/Invariant/AgentOps.antt =====
-- The handlers of the agent API keep what each of their statements keeps.
pub mod Routes
use kapi_final.Base.{
  ℕ, true, false, Bool, Option, none, some, List, [], ◌∷◌, ◌==◌, String, Bool-cases, inl, inr, not,
  ◌&&◌,
}
use kapi_final.Protocol.Text.{Text}
use kapi_final.Protocol.Review.{ReviewVerdict}
use kapi_final.Protocol.Jobs.{Job, JobResult, is_job_terminal}
use kapi_final.Protocol.AgentApi.{SpawnRequest}
use kapi_final.Db.Tables.{Db}
use kapi_final.Db.Tx.{Keeps, Keeps-bind, Keeps-pure, Keeps-query}
use kapi_final.Db.Handler.{Serves, Serves-bind, Serves-answer, Serves-commit}
use kapi_final.ControlPlane.RunLifecycle.{is_null}
use kapi_final.ControlPlane.AgentTx.{Claims, Posted, append_all, record_verdict}
use kapi_final.ControlPlane.AgentApi.{
  agent_claim, enrol, agent_start, after_start, agent_heartbeat, agent_events, agent_cancel_child,
  cancel_known, cancel_own, agent_complete, Report, settle, reported, close_root, agent_spawn,
}
use kapi_final.Invariant.Guard.{Guard}
use kapi_final.Invariant.QueueOps.{
  append_event_-Keeps, claim-Keeps, heartbeat-Keeps, mark_running-Keeps, complete-Keeps, fail-Keeps,
  cancel_subtree-Keeps,
}
use kapi_final.Invariant.RunOps.{start_run-Keeps, finish_run-Keeps}
use kapi_final.Invariant.SpawnOps.{spawn-Keeps}

module _ {P : Db → Type 0} (g : Guard P) where
  enrol-Serves : (c : Claims) (now : ℕ) (o : Option Job) → Serves P (enrol c now o)
  unfolding enrol
  enrol-Serves c now none = Serves-answer none
  enrol-Serves c now (some j) =
      Serves-bind (Serves-commit (g.upsert _ _)) (λ _. Serves-answer (some j))

  pub agent_claim-Serves :
      (c : Claims) (locked : ℕ → Bool) (seconds now : ℕ)
      → Serves P (agent_claim c locked seconds now)
  unfolding agent_claim
  agent_claim-Serves c locked seconds now =
      Serves-bind (Serves-commit (claim-Keeps g _ locked now)) (enrol-Serves c now)

  after_start-Serves : (c : Claims) (o : Option Job) → Serves P (after_start c o)
  unfolding after_start
  after_start-Serves c none = Serves-answer false
  after_start-Serves c (some j) = Serves-bind (Serves-commit (g.agents _ _)) λ _.
      Serves-bind (Serves-commit (start_run-Keeps g c.run_id c.job_id)) (λ _. Serves-answer true)

  pub agent_start-Serves : (c : Claims) → Serves P (agent_start c)
  unfolding agent_start
  agent_start-Serves c =
      Serves-bind (Serves-commit (mark_running-Keeps g c.job_id c.vm_id)) (after_start-Serves c)

  pub agent_heartbeat-Serves :
      (c : Claims) (seconds now : ℕ) → Serves P (agent_heartbeat c seconds now)
  unfolding agent_heartbeat
  agent_heartbeat-Serves c seconds now =
      Serves-bind (Serves-commit (heartbeat-Keeps g c.job_id c.vm_id seconds now))
        λ ok. Serves-bind (Serves-commit (Keeps-query _)) (λ j. Serves-answer _)

  append_all-Keeps : (c : Claims) (n : ℕ) (es : List Posted) → Keeps P (append_all c n es)
  unfolding append_all
  append_all-Keeps c n [] = Keeps-pure n
  append_all-Keeps c n (e ∷ es) = Keeps-bind (g.append _) (λ m. append_all-Keeps c m es)

  pub agent_events-Serves : (c : Claims) (es : List Posted) → Serves P (agent_events c es)
  unfolding agent_events
  agent_events-Serves c es =
      Serves-bind (Serves-commit (Keeps-query _)) (λ n. Serves-commit (append_all-Keeps c n es))

  cancel_own-Serves :
      (c : Claims) (id : ℕ) (why : Text) (now : ℕ) (b : Bool) → Serves P (cancel_own c id why now b)
  unfolding cancel_own
  cancel_own-Serves c id why now false = Serves-answer _
  cancel_own-Serves c id why now true =
      Serves-bind (Serves-commit (cancel_subtree-Keeps g id why now)) (λ _. Serves-answer _)

  cancel_known-Serves :
      (c : Claims) (id : ℕ) (why : Text) (now : ℕ) (o : Option Job)
      → Serves P (cancel_known c id why now o)
  unfolding cancel_known
  cancel_known-Serves c id why now none = Serves-answer _
  cancel_known-Serves c id why now (some j) = elim (Bool-cases (not (j.run_id == c.run_id))) [
    | inl e ↦ rw e (Serves-answer _)
    | inr e ↦ rw e (Serves-bind (Serves-commit (Keeps-query _)) (cancel_own-Serves c id why now))
  ]

  pub agent_cancel_child-Serves :
      (c : Claims) (id : ℕ) (why : Text) (now : ℕ) → Serves P (agent_cancel_child c id why now)
  unfolding agent_cancel_child
  agent_cancel_child-Serves c id why now =
      Serves-bind (Serves-commit (Keeps-query _)) (cancel_known-Serves c id why now)

  record_verdict-Keeps : (c : Claims) (o : Option ReviewVerdict) → Keeps P (record_verdict c o)
  unfolding record_verdict
  record_verdict-Keeps c none = Keeps-pure tt
  record_verdict-Keeps c (some v) = Keeps-bind (g.artifacts _) (λ _. append_event_-Keeps g _)

  close_root-Serves : (now : ℕ) (j : Job) → Serves P (close_root now j)
  unfolding close_root
  close_root-Serves now j =
      elim (Bool-cases (is_null j.parent_job_id && is_job_terminal j.status)) [
        | inl e ↦
            rw e (Serves-bind (Serves-commit (finish_run-Keeps g now j)) (λ _. Serves-answer tt))
        | inr e ↦ rw e (Serves-answer tt)
      ]

  reported-Serves :
      (c : Claims) (now : ℕ) (r : Option JobResult) (o : Option Job) → Serves P (reported c now r o)
  unfolding reported
  reported-Serves c now r none = Serves-answer none
  reported-Serves c now r (some j) =
      Serves-bind (Serves-commit (record_verdict-Keeps c _))
        λ _. Serves-bind (close_root-Serves now j) (λ _. Serves-answer _)

  settle-Keeps :
      (c : Claims) (now : ℕ) (r : Option JobResult) (e : Option Text) → Keeps P (settle c now r e)
  unfolding settle
  settle-Keeps c now r none = complete-Keeps g c.job_id c.vm_id _ now
  settle-Keeps c now r (some e) = fail-Keeps g c.job_id c.vm_id e now

  pub agent_complete-Serves :
      (c : Claims) (now : ℕ) (report : Report) → Serves P (agent_complete c now report)
  unfolding agent_complete
  agent_complete-Serves c now report =
      Serves-bind (Serves-commit (settle-Keeps c now _ _)) (reported-Serves c now _)

  pub agent_spawn-Serves :
      (operation : ℕ → String → ℕ) (fingerprint : List SpawnRequest → ℕ) (c : Claims) (now : ℕ)
      (request : Option String) (agents : List (ℕ × SpawnRequest))
      → Serves P (agent_spawn operation fingerprint c now request agents)
  unfolding agent_spawn
  agent_spawn-Serves operation fingerprint c now request agents =
      Serves-bind (Serves-commit (Keeps-query _)) (λ k. Serves-commit (spawn-Keeps g k))
