-- ===== src/ControlPlane/ModelCall/Ends.antt =====
-- How a model call ends, and what it leaves behind.
use kapi_final.Base.{
  ◌≡◌, refl, ◌∙◌, true, false, Bool, Option, none, some, row_of, inl, inr, Bool-cases,
  if◌then◌else◌,
}
use kapi_final.Protocol.Jobs.{Job}
use kapi_final.Db.Tables.{Db}
use kapi_final.Db.Tx.{
  Error, run_missing, duplicate_key, conflict, not_admitted, bad_schedule, throw, query,
}
use kapi_final.Db.Handler.{elapse, Served, served, crashed, commit, answer, ◌>>=◌}
use kapi_final.Queue.Lifecycle.{get_job}
use kapi_final.ControlPlane.AgentApi.{is_cancelled}
use kapi_final.ControlPlane.Admission.{call_of}
use kapi_final.ControlPlane.Admission.Ledger.{reservation_id}
use kapi_final.ControlPlane.ModelCall.{
  ModelCall, CallReply, RunContext, Generated, generated, over_budget, generate_failed, answered,
  exhausted, broken, refused, no_run, no_job, no_credential, generate_for, usage_in, reply_for,
  dispatch, on_reservation, reserve_for_call, on_job, on_context, context, model_call,
}
use kapi_final.ControlPlane.ModelCall.Settled.{
  IsReserved, IsSettled, settle-IsSettled, reserve-IsReserved,
}

-- What else happens leaves the call's reservation and its receipt alone.
abbrev pub LeavesCall : ModelCall → Type 0
LeavesCall c =
    (d : Db)
    → (row_of reservation_id c.id (c.meanwhile d).reservations
        ≡ row_of reservation_id c.id d.reservations)
      × (row_of call_of c.id ((c.meanwhile d).artifacts).usage
          ≡ row_of call_of c.id (d.artifacts).usage)

-- The call is settled if the model was asked, and else nothing has changed.
abbrev pub Ended : ModelCall → Db → CallReply → Db → Type 0
Ended c db (answered u b) db' = IsSettled c.id c.run_id c.token_allowance u db'
Ended c db exhausted db' = IsSettled c.id c.run_id c.token_allowance none db'
Ended c db broken db' = IsSettled c.id c.run_id c.token_allowance none db'
Ended c db (refused b) db' = db' ≡ db
Ended c db no_run db' = db' ≡ db
Ended c db no_job db' = db' ≡ db
Ended c db no_credential db' = db' ≡ db

abbrev pub EndedBy : ModelCall → Db → Served CallReply → Type 0
EndedBy c db (served r db') = Ended c db r db'
EndedBy c db (crashed e db') = db' ≡ db

module _ (c : ModelCall) where
  dispatched-Ended :
      (x : RunContext) (g : Generated) (db db' : Db)
      → IsSettled c.id c.run_id c.token_allowance (usage_in g) db'
      → Ended c db (reply_for x g) db'
  dispatched-Ended x (generated u) db db' s = s
  dispatched-Ended x over_budget db db' s = s
  dispatched-Ended x generate_failed db db' s = s

  thrown-Ended :
      (x : RunContext) (e : Error) (db : Db) → EndedBy c db (on_reservation c x (throw e) db)
  thrown-Ended x (not_admitted b) db = refl
  thrown-Ended x (run_missing r) db = refl
  thrown-Ended x (duplicate_key k) db = refl
  thrown-Ended x conflict db = refl
  thrown-Ended x bad_schedule db = refl

  pub meanwhile-IsReserved :
      (d : Db)
      → LeavesCall c
      → IsReserved c.id c.run_id c.token_allowance d
      → IsReserved c.id c.run_id c.token_allowance (c.meanwhile d)
  meanwhile-IsReserved d l r =
      let (x, e, own, sized) = r.row in
      record { row = (x, (l d).0 ∙ e, own, sized); uncharged = (l d).1 ∙ r.uncharged }

  dispatch-Ended :
      (x : RunContext) (db d : Db)
      → LeavesCall c
      → IsReserved c.id c.run_id c.token_allowance d
      → EndedBy c db (dispatch c x c.id d)
  unfolding dispatch elapse commit answer ◌>>=◌
  dispatch-Ended x db d l r =
      let u = usage_in (generate_for c x) in
      let (d', e, s) =
        settle-IsSettled c.id c.run_id c.token_allowance u (c.meanwhile d)
          (meanwhile-IsReserved d l r) in
      rw (e, EndedBy) (dispatched-Ended x (generate_for c x) db d' s)

  reserve-Ended :
      (x : RunContext) (db : Db)
      → row_of call_of c.id (db.artifacts).usage ≡ none
      → LeavesCall c
      → EndedBy c db (reserve_for_call c x db)
  unfolding reserve_for_call
  reserve-Ended x db u l =
      elim (reserve-IsReserved c.limits c.id c.run_id x.user_id c.token_allowance c.now db u) [
        | inl (e, q) ↦ rw q (thrown-Ended x e db)
        | inr (d, q, r) ↦ rw q (dispatch-Ended x db d l r)
      ]

  job-Ended :
      (x : RunContext) (o : Option Job) (db : Db)
      → row_of call_of c.id (db.artifacts).usage ≡ none
      → LeavesCall c
      → EndedBy c db (on_job c x o db)
  unfolding answer
  job-Ended x none db u l = refl
  job-Ended x (some j) db u l = elim (Bool-cases (is_cancelled j.status)) [
    | inl t ↦ rw t refl
    | inr t ↦ rw t (by_connection c.connected)
  ]
    where
      by_connection :
          (b : Bool) → EndedBy c db ((if b then reserve_for_call c x else answer no_credential) db)
      by_connection true = reserve-Ended x db u l
      by_connection false = refl

  context-Ended :
      (o : Option RunContext) (db : Db)
      → row_of call_of c.id (db.artifacts).usage ≡ none
      → LeavesCall c
      → EndedBy c db (on_context c o db)
  unfolding answer commit query ◌>>=◌
  context-Ended none db u l = refl
  context-Ended (some x) db u l = job-Ended x (get_job c.job_id db.jobs) db u l

  -- Where no receipt is saved under the call's id, and what else happens meanwhile leaves the
  -- call's reservation and receipt alone: a model call that is refused, or whose reservation
  -- throws, changes nothing; and any other, whether the model answers, runs out of the budget or
  -- fails, gives its reservation back and leaves a receipt of the usage that the model reports,
  -- or else of the tokens reserved.
  pub model_call-Ended :
      (db : Db)
      → row_of call_of c.id (db.artifacts).usage ≡ none
      → LeavesCall c
      → EndedBy c db (model_call c db)
  unfolding model_call commit query ◌>>=◌
  model_call-Ended db u l = context-Ended (context c.run_id db) db u l
