-- ===== src/Invariant/SpawnOps.antt =====
-- Spawning keeps what each of their statements keeps.
use kapi_final.Base.{
  ℕ, ◌-◌, sym, subst, Option, none, some, List, [], ◌∷◌, arith, Option-cases, inl, inr, ◌==◌,
  Bool-cases,
}
use kapi_final.Protocol.AgentApi.{SpawnRequest, SpawnResponse}
use kapi_final.Db.Tables.{Db, Run, SpawnReceipt}
use kapi_final.Db.Tx.{Keeps, Keeps-bind, Keeps-pure, Keeps-query, Keeps-fail_with}
use kapi_final.ControlPlane.Spawn.{
  SpawnCall, spawn, spawn_run, spawn_once, spawn_fresh, spawn_each, spawn_one, save_receipt,
  refusal, spec_of,
}
use kapi_final.ControlPlane.Spawn.Batch.{refused_then, accepted_then}
use kapi_final.Invariant.Guard.{Guard}
use kapi_final.Invariant.QueueOps.{append_event_-Keeps, enqueue_in-Keeps}

module _ {P : Db → Type 0} (g : Guard P) where
  spawn_one-Keeps : (c : SpawnCall) (id : ℕ) (w : SpawnRequest) → Keeps P (spawn_one c id w)
  unfolding spawn_one spec_of
  spawn_one-Keeps c id w =
      Keeps-bind (enqueue_in-Keeps g id c.now _ (omega arith))
        (λ j. Keeps-bind (append_event_-Keeps g _) (λ _. Keeps-pure _))

  spawn_each-Keeps :
      (c : SpawnCall) (run : Run) (n : ℕ) (ws : List (ℕ × SpawnRequest))
      → Keeps P (spawn_each c run n ws)
  unfolding spawn_each
  spawn_each-Keeps c run n [] = Keeps-pure _
  spawn_each-Keeps c run n ((id, w) ∷ ws) = elim (Option-cases (refusal c run n)) [
    | inl e ↦ subst (Keeps P) (sym (accepted_then c run id w ws n e)) (
        Keeps-bind (spawn_one-Keeps c id w)
          λ a. Keeps-bind (spawn_each-Keeps c run (n - 1) ws) (λ b. Keeps-pure _))
    | inr (why, e) ↦
        subst (Keeps P) (sym (refused_then c run id w ws n e))
          (Keeps-bind (spawn_each-Keeps c run n ws) (λ b. Keeps-pure _))
  ]

  save_receipt-Keeps : (o : Option ℕ) (f : ℕ) (a : SpawnResponse) → Keeps P (save_receipt o f a)
  unfolding save_receipt
  save_receipt-Keeps none f a = Keeps-pure tt
  save_receipt-Keeps (some op) f a = g.artifacts _

  spawn_once-Keeps :
      (c : SpawnCall) (run : Run) (o : Option SpawnReceipt) → Keeps P (spawn_once c run o)
  unfolding spawn_once spawn_fresh
  spawn_once-Keeps c run none =
      Keeps-bind
        (Keeps-bind (spawn_each-Keeps c run _ c.agents)
          (λ b. Keeps-bind (save_receipt-Keeps _ _ _) (λ _. Keeps-pure _)))
        (λ a. Keeps-pure _)
  spawn_once-Keeps c run (some s) = elim (Bool-cases (s.fingerprint == c.fingerprint)) [
    | inl e ↦ rw e (Keeps-pure _)
    | inr e ↦ rw e (Keeps-fail_with _)
  ]

  spawn_run-Keeps : (c : SpawnCall) (o : Option Run) → Keeps P (spawn_run c o)
  unfolding spawn_run
  spawn_run-Keeps c none = Keeps-pure none
  spawn_run-Keeps c (some run) = Keeps-bind (Keeps-query _) (spawn_once-Keeps c run)

  pub spawn-Keeps : (c : SpawnCall) → Keeps P (spawn c)
  unfolding spawn
  spawn-Keeps c = Keeps-bind (Keeps-query _) (spawn_run-Keeps c)
