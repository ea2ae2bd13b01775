-- ===== src/ControlPlane/ModelCall/Within.antt =====
-- A model call, its reservation and its settlement together, keeps the runs within their tokens.
use kapi_final.Base.{
  ℕ, ◌≡◌, ◌≤◌, refl, ap, subst, ◌∙◌, Bool, true, false, Option, none, some, row_of, arith, inl, inr,
  Bool-cases, if◌then◌else◌,
}
use kapi_final.Protocol.Jobs.{Job}
use kapi_final.Db.Tables.{Db}
use kapi_final.Db.Tx.{
  Error, run_missing, duplicate_key, conflict, not_admitted, bad_schedule, throw, query, Holds,
}
use kapi_final.Db.Handler.{elapse, commit, answer, left_by, ◌>>=◌}
use kapi_final.Queue.Lifecycle.{get_job}
use kapi_final.ControlPlane.AgentApi.{is_cancelled}
use kapi_final.ControlPlane.Admission.{call_of}
use kapi_final.ControlPlane.Admission.Ledger.{
  IsWithin, IsCoveredIn, reserve-IsWithin, settle-IsWithin,
}
use kapi_final.ControlPlane.ModelCall.{
  ModelCall, RunContext, Generated, generated, over_budget, generate_failed, generate_for, usage_in,
  no_credential, dispatch, on_reservation, reserve_for_call, on_job, on_context, context,
  model_call,
}
use kapi_final.ControlPlane.ModelCall.Settled.{IsReserved, settle-IsSettled, reserve-IsReserved}
use kapi_final.ControlPlane.ModelCall.Ends.{LeavesCall, meanwhile-IsReserved}

-- The model reports no more tokens than the call reserved.
abbrev pub StaysWithin : ModelCall → Type 0
StaysWithin c =
    (requests tokens n : ℕ)
    → c.generate requests tokens ≡ generated (some n)
    → n ≤ c.token_allowance

abbrev pub KeepsWithin : ModelCall → Type 0
KeepsWithin c = (d : Db) → IsWithin d → IsWithin (c.meanwhile d)

module _ (c : ModelCall) (leaves : LeavesCall c) (sized : StaysWithin c)
    (keeps : KeepsWithin c) where
  covered :
      (measured : Option ℕ) (d : Db)
      → ((n : ℕ) → measured ≡ some n → n ≤ c.token_allowance)
      → IsReserved c.id c.run_id c.token_allowance d
      → IsCoveredIn c.id measured d
  covered none d h r = let (x, e, own, t) = r.row in rw (r.uncharged) (rw e (omega arith))
  covered (some n) d h r =
      let (x, e, own, t) = r.row in
      let fits : n ≤ x.tokens = omega (arith, h n refl, t) in rw (r.uncharged) (rw e fits)

  usage_bounded :
      (x : RunContext) (g : Generated)
      → generate_for c x ≡ g
      → (n : ℕ) → usage_in g ≡ some n
      → n ≤ c.token_allowance
  usage_bounded x (generated u) e n k = sized _ _ n (e ∙ ap generated k)
  usage_bounded x over_budget e n k = absurd (cc)
  usage_bounded x generate_failed e n k = absurd (cc)

  dispatch-IsWithin :
      (x : RunContext) (d : Db)
      → IsReserved c.id c.run_id c.token_allowance d
      → IsWithin d
      → IsWithin (left_by (dispatch c x c.id d))
  unfolding dispatch elapse commit answer ◌>>=◌
  dispatch-IsWithin x d r w =
      let g = generate_for c x in
      let late = meanwhile-IsReserved c d leaves r in
      let (d', e, s) =
        settle-IsSettled c.id c.run_id c.token_allowance (usage_in g) (c.meanwhile d) late in
      let kept =
        settle-IsWithin c.id (usage_in g) (c.meanwhile d)
          (covered (usage_in g) (c.meanwhile d) (usage_bounded x g refl) late) (keeps d w) in
      rw (e, left_by) (subst (Holds IsWithin) e kept)

  thrown-IsWithin :
      (x : RunContext) (e : Error) (db : Db)
      → IsWithin db
      → IsWithin (left_by (on_reservation c x (throw e) db))
  thrown-IsWithin x (not_admitted b) db w = w
  thrown-IsWithin x (run_missing r) db w = w
  thrown-IsWithin x (duplicate_key k) db w = w
  thrown-IsWithin x conflict db w = w
  thrown-IsWithin x bad_schedule db w = w

  reserve_for_call-IsWithin :
      (x : RunContext) (db : Db)
      → row_of call_of c.id (db.artifacts).usage ≡ none
      → IsWithin db
      → IsWithin (left_by (reserve_for_call c x db))
  unfolding reserve_for_call
  reserve_for_call-IsWithin x db u w =
      let kept = reserve-IsWithin c.limits c.id x.user_id c.token_allowance c.now c.run_id db w in
      elim (reserve-IsReserved c.limits c.id c.run_id x.user_id c.token_allowance c.now db u) [
        | inl (e, q) ↦ rw q (thrown-IsWithin x e db w)
        | inr (d, q, r) ↦ rw q (dispatch-IsWithin x d r (subst (Holds IsWithin) q kept))
      ]

  job-IsWithin :
      (x : RunContext) (o : Option Job) (db : Db)
      → row_of call_of c.id (db.artifacts).usage ≡ none
      → IsWithin db
      → IsWithin (left_by (on_job c x o db))
  unfolding answer
  job-IsWithin x none db u w = w
  job-IsWithin x (some j) db u w = elim (Bool-cases (is_cancelled j.status)) [
    | inl t ↦ rw t w
    | inr t ↦ rw t (by_connection c.connected)
  ]
    where
      by_connection :
          (b : Bool)
          → IsWithin (left_by ((if b then reserve_for_call c x else answer no_credential) db))
      by_connection true = reserve_for_call-IsWithin x db u w
      by_connection false = w

  context-IsWithin :
      (o : Option RunContext) (db : Db)
      → row_of call_of c.id (db.artifacts).usage ≡ none
      → IsWithin db
      → IsWithin (left_by (on_context c o db))
  unfolding answer commit query ◌>>=◌
  context-IsWithin none db u w = w
  context-IsWithin (some x) db u w = job-IsWithin x (get_job c.job_id db.jobs) db u w

-- If every run's spent and reserved tokens are within its limit, no receipt is saved under the
-- call's id, and the model reports at most the tokens that the call reserves, then they still are
-- after a model call, however it ends, where what else happens meanwhile keeps this and leaves
-- the call's reservation and receipt alone.
pub model_call-IsWithin :
    (c : ModelCall) (db : Db)
    → row_of call_of c.id (db.artifacts).usage ≡ none
    → LeavesCall c
    → StaysWithin c
    → KeepsWithin c
    → IsWithin db
    → IsWithin (left_by (model_call c db))
unfolding model_call commit query ◌>>=◌
model_call-IsWithin c db u l s k w = context-IsWithin c l s k (context c.run_id db) db u w
