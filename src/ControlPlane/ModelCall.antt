-- ===== src/ControlPlane/ModelCall.antt =====
-- apps/control-plane/src/model-proxy.ts: POST /agent/model, one model call. The request is read, its
-- tokens are estimated and the job's token is checked before. What the router gives is a function of
-- the budget it is made with; what else happens to the database while it works is `meanwhile`.
pub mod Settled
pub mod Ends
pub mod Within
use kapi_final.Base.{ℕ, ◌+◌, ◌-◌, leb, ltb, Bool, Option, none, some, row_of, if◌then◌else◌}
use kapi_final.Protocol.Jobs.{Job}
use kapi_final.Db.Tables.{Db, Run, Project}
use kapi_final.Db.Tx.{not_admitted, Outcome, done, throw, query}
use kapi_final.Db.Handler.{Handler, served, crashed, commit, answer, elapse, ◌>>=◌, ◌>>◌}
use kapi_final.Queue.Lifecycle.{get_job}
use kapi_final.ControlPlane.Scheduler.{project_of}
use kapi_final.ControlPlane.AgentApi.{is_cancelled}
use kapi_final.ControlPlane.Admission.{Limits, reserve_model_call, settle_model_call}

-- RunContext
pub record RunContext : Type 0 where
  pub run_id : ℕ
  pub project_id : ℕ
  pub user_id : ℕ
  pub llm_requests : ℕ
  pub llm_tokens : ℕ
  pub max_requests : ℕ
  pub max_tokens : ℕ

abbrev pub context_of : Run → Option Project → Option RunContext
context_of r none = none
context_of r (some p) = some (record {
  run_id = r.id;
  project_id = r.project_id;
  user_id = p.owner_id;
  llm_requests = r.llm_requests;
  llm_tokens = r.llm_tokens;
  max_requests = r.max_llm_requests;
  max_tokens = r.max_tokens;
})

unfoldable pub context : ℕ → Db → Option RunContext
context id db = elim (row_of (λ (r : Run). r.id) id db.runs) [
  | none ↦ none
  | some r ↦ context_of r (project_of r.project_id db)
]

-- What router.generate gives: an answer, with the tokens it reports, if it does; BudgetExceededError;
-- or another error.
pub data Generated : Type 0 where
  generated : Option ℕ → Generated
  over_budget generate_failed : Generated

pub data CallReply : Type 0 where
  no_run no_job no_credential : CallReply
  -- 429, retryable or not
  refused : Bool → CallReply
  -- the usage, and budgetExhausted
  answered : Option ℕ → Bool → CallReply
  exhausted broken : CallReply

pub record ModelCall : Type 0 where
  pub run_id : ℕ
  pub job_id : ℕ
  pub id : ℕ
  pub token_allowance : ℕ
  pub now : ℕ
  pub limits : Limits
  -- whether credentialFor has a credential
  pub connected : Bool
  pub generate : (max_requests max_tokens : ℕ) → Generated
  pub meanwhile : Db → Db

-- Math.max(1, n)
abbrev pub at_least_one : ℕ → ℕ
at_least_one n = if ltb n 1 then 1 else n

abbrev pub generate_for : ModelCall → RunContext → Generated
generate_for c x =
    c.generate (at_least_one (x.max_requests - x.llm_requests))
      (at_least_one (x.max_tokens - x.llm_tokens))

abbrev pub usage_in : Generated → Option ℕ
usage_in (generated u) = u
usage_in over_budget = none
usage_in generate_failed = none

abbrev pub reply_for : RunContext → Generated → CallReply
reply_for x (generated u) = answered u (leb x.max_requests (x.llm_requests + 1))
reply_for x over_budget = exhausted
reply_for x generate_failed = broken

-- router.generate, and then the settlement, on each branch.
unfoldable pub dispatch : ModelCall → RunContext → ℕ → Handler CallReply
dispatch c x id =
    elapse c.meanwhile
    >> (commit (settle_model_call id (usage_in (generate_for c x))) >>= λ _.
        answer (reply_for x (generate_for c x)))

abbrev pub on_reservation : ModelCall → RunContext → Outcome ℕ → Handler CallReply
on_reservation c x (done id db') db = dispatch c x id db'
on_reservation c x (throw (not_admitted busy)) db = served (refused busy) db
on_reservation c x (throw e) db = crashed e db

unfoldable pub reserve_for_call : ModelCall → RunContext → Handler CallReply
reserve_for_call c x db =
    on_reservation c x
      (reserve_model_call c.limits c.id c.run_id x.user_id c.token_allowance c.now db) db

abbrev pub on_job : ModelCall → RunContext → Option Job → Handler CallReply
on_job c x none = answer no_job
on_job c x (some j) =
    if is_cancelled j.status
    then answer no_job
    else if c.connected
    then reserve_for_call c x
    else answer no_credential

abbrev pub on_context : ModelCall → Option RunContext → Handler CallReply
on_context c none = answer no_run
on_context c (some x) = commit (query (λ db. get_job c.job_id db.jobs)) >>= λ j. on_job c x j

unfoldable pub model_call : ModelCall → Handler CallReply
model_call c = commit (query (context c.run_id)) >>= λ x. on_context c x
