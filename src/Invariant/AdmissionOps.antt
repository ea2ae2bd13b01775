-- ===== src/Invariant/AdmissionOps.antt =====
-- Reserving a model call, settling it and keeping a late VM keep what each statement keeps.
use kapi_final.Base.{
  ℕ, refl, Bool, true, false, Option, none, some, List, [], ◌∷◌, row_of, if◌then◌else◌,
}
use kapi_final.Db.Tables.{Db, Run, Reservation, UsageReceipt}
use kapi_final.Db.Tx.{Tx, Keeps, Keeps-bind, Keeps-pure, Keeps-query, Keeps-fail_with}
use kapi_final.ControlPlane.Admission.{
  Limits, Charge, is_busy, is_spent, insert_reservation, admit, reserve_for, reserve_run,
  reserve_model_call, charge_run, settle_charge, settle_model_call, settle_all,
  settle_expired_model_calls, reconcile_found, reconcile_model_usage,
}
use kapi_final.ControlPlane.Provision.{keep_late}
use kapi_final.Invariant.Steps.{is_run_terminal}
use kapi_final.Invariant.Guard.{Guard}

Keeps-if :
    {P : Db → Type 0} {A : Type 0} (b : Bool) {m n : Tx A}
    → Keeps P m
    → Keeps P n
    → Keeps P (if b then m else n)
Keeps-if true h k = h
Keeps-if false h k = k

module _ {P : Db → Type 0} (g : Guard P) where
  insert-Keeps : (r : Reservation) (o : Option Reservation) → Keeps P (insert_reservation r o)
  unfolding insert_reservation
  insert-Keeps r none = g.reservations _
  insert-Keeps r (some x) = Keeps-fail_with _

  admit-Keeps :
      (l : Limits) (id user tokens now : ℕ) (r : Run) (rs : List Reservation)
      → Keeps P (admit l id user tokens now r rs)
  unfolding admit
  admit-Keeps l id user tokens now r rs = Keeps-bind (insert-Keeps _ _) λ _.
      Keeps-bind
        (g.runs _ _ (λ x t. record {
          same_id = refl;
          same_seq = refl;
          same_schedule = refl;
          ended = λ _. refl;
        }))
        λ _. Keeps-pure id

  reserve_run-Keeps :
      (l : Limits) (id user tokens now : ℕ) (o : Option Run) (rs : List Reservation)
      → Keeps P (reserve_run l id user tokens now o rs)
  unfolding reserve_run reserve_for
  reserve_run-Keeps l id user tokens now none rs = Keeps-fail_with _
  reserve_run-Keeps l id user tokens now (some r) rs =
      Keeps-if (is_run_terminal r.status) (Keeps-fail_with _) (
        Keeps-if (is_busy l r.id user now rs) (Keeps-fail_with _) (
          Keeps-if (is_spent r tokens rs) (Keeps-fail_with _)
            (admit-Keeps l id user tokens now r rs)))

  pub reserve_model_call-Keeps :
      (l : Limits) (id run user tokens now : ℕ)
      → Keeps P (reserve_model_call l id run user tokens now)
  unfolding reserve_model_call
  reserve_model_call-Keeps l id run user tokens now = record {
    apply = λ db h.
        (reserve_run-Keeps l id user tokens now (row_of (λ (r : Run). r.id) run db.runs)
            db.reservations).apply
          db h;
  }

  settle_charge-Keeps :
      (id : ℕ) (measured : Option ℕ) (o : Option Charge) → Keeps P (settle_charge id measured o)
  unfolding settle_charge charge_run
  settle_charge-Keeps id measured none = Keeps-pure tt
  settle_charge-Keeps id measured (some c) =
      Keeps-bind
        (g.runs _ _ (λ x t. record {
          same_id = refl;
          same_seq = refl;
          same_schedule = refl;
          ended = λ _. refl;
        }))
        λ _. Keeps-bind (g.artifacts _) λ _. g.reservations _

  pub settle_model_call-Keeps :
      (id : ℕ) (measured : Option ℕ) → Keeps P (settle_model_call id measured)
  unfolding settle_model_call
  settle_model_call-Keeps id measured = Keeps-bind (Keeps-query _) (settle_charge-Keeps id measured)

  settle_all-Keeps : (rs : List Reservation) → Keeps P (settle_all rs)
  unfolding settle_all
  settle_all-Keeps [] = Keeps-pure tt
  settle_all-Keeps (r ∷ rs) =
      Keeps-bind (settle_model_call-Keeps r.id none) (λ _. settle_all-Keeps rs)

  pub settle_expired-Keeps : (now : ℕ) → Keeps P (settle_expired_model_calls now)
  unfolding settle_expired_model_calls
  settle_expired-Keeps now =
      Keeps-bind (Keeps-query _) (λ rs. Keeps-bind (settle_all-Keeps rs) (λ _. Keeps-pure _))

  found-Keeps : (id tokens : ℕ) (o : Option UsageReceipt) → Keeps P (reconcile_found id tokens o)
  unfolding reconcile_found
  found-Keeps id tokens none = Keeps-pure false
  found-Keeps id tokens (some u) =
      Keeps-bind (settle_model_call-Keeps id (some tokens)) (λ _. Keeps-pure true)

  pub reconcile_usage-Keeps : (id tokens : ℕ) → Keeps P (reconcile_model_usage id tokens)
  unfolding reconcile_model_usage
  reconcile_usage-Keeps id tokens = Keeps-bind (Keeps-query _) (found-Keeps id tokens)

  pub keep_late-Keeps : (job vm reservation now : ℕ) → Keeps P (keep_late job vm reservation now)
  unfolding keep_late
  keep_late-Keeps job vm reservation now = record {
    apply = λ db h. (Keeps-bind (g.agents _ _) (λ _. Keeps-pure _)).apply db h;
  }
