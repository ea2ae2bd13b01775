-- ===== src/ControlPlane/AgentTx.antt =====
-- apps/control-plane/src/agent-api.ts: the transactions that its handlers write out themselves.
use kapi_final.Base.{ℕ, ◌==◌, Option, none, some, List, [], ◌∷◌, if◌then◌else◌}
use kapi_final.Protocol.Context.{Context}
use kapi_final.Protocol.Review.{ReviewVerdict}
use kapi_final.Protocol.Jobs.{AgentId, agent}
use kapi_final.Protocol.Events.{EventInput, EventKind, review_verdict, of_agent, of_review}
use kapi_final.Db.Tx.{Tx, ◌>>=◌, ◌>>◌, pure, update_artifacts}
use kapi_final.Queue.Events.{append_event, append_event_}

-- JobTokenClaims
pub record Claims : Type 0 where
  pub run_id : ℕ
  pub job_id : ℕ
  pub vm_id : ℕ

-- POST /agent/events: the run and the sender come from the token.
pub record Posted : Type 0 where
  pub kind : EventKind
  pub recipient : Option AgentId
  pub payload : Context

unfoldable pub posted_event : Claims → Posted → EventInput
posted_event c e = record {
  run_id = c.run_id;
  job_id = some c.job_id;
  kind = e.kind;
  sender = agent c.job_id;
  recipient = e.recipient;
  payload = of_agent e.payload;
}

unfoldable pub append_all : Claims → ℕ → List Posted → Tx ℕ
append_all c seq [] = pure seq
append_all c seq (e ∷ es) = append_event (posted_event c e) >>= λ n. append_all c n es

abbrev pub store_verdict : ℕ → ReviewVerdict → List (ℕ × ReviewVerdict) → List (ℕ × ReviewVerdict)
store_verdict job v [] = (job, v) ∷ []
store_verdict job v ((k, w) ∷ vs) =
    if k == job then (k, v) ∷ vs else (k, w) ∷ store_verdict job v vs

unfoldable pub verdict_event : Claims → ReviewVerdict → EventInput
verdict_event c v = record {
  run_id = c.run_id;
  job_id = some c.job_id;
  kind = review_verdict;
  sender = agent c.job_id;
  recipient = some AgentId.captain;
  payload = of_review v c.job_id;
}

unfoldable pub record_verdict : Claims → Option ReviewVerdict → Tx (Unit {0})
record_verdict c none = pure tt
record_verdict c (some v) =
    update_artifacts (λ a. record a { verdicts = store_verdict c.job_id v a.verdicts })
    >> (append_event_ (verdict_event c v))
