-- ===== src/Tests/LlmTests.antt =====
-- The model router's theorems, and those of reviews and retries, at concrete inputs.
use kapi_final.Base.{
  ℕ, ◌+◌, ◌≡◌, ◌≤◌, ◌<◌, ◌↔◌, refl, true, false, none, some, [], ◌∷◌, String, inl, arith,
}
use kapi_final.Protocol.Text.{lit}
use kapi_final.Protocol.Review.{
  ReviewVerdict, approve, major, nit, normalise_verdict, blocking_findings, normalise_verdict_lem,
}
use kapi_final.Db.Tx.{Tx, pure}
use kapi_final.Db.Retry.{
  retry_deadlocked_transaction, runs, deadlocks_then, outcome, retry_survives,
}
use kapi_final.Llm.Types.{codex, Candidate, CallError, classify_failure, says_quota, says_missing}
use kapi_final.Llm.Budget.{BudgetTracker, spend, spend_within}
use kapi_final.Llm.Catalog.{includes}
use kapi_final.Llm.Router.{Router, CallResult, value, refused, got, all_failed, logged, try_each}
use kapi_final.Llm.Router.Failover.{try_each-auth, try_each-survives}
use kapi_final.Tests.Samples.{sample}

abbrev tracker : BudgetTracker
tracker = record {
  budget = record { max_requests = 2; max_tokens = 100 };
  used = record { input_tokens = 0; output_tokens = 0; requests = 0 };
}

abbrev router : Router
router = record {
  opts = record { has_token = true; pin = none; env_models = λ _. none; quota_cooldown_ms = 60000 };
  budget = tracker;
  cooldown = [];
  missing_models = [];
  dead_codex = false;
  cursor = λ _. 0;
}

abbrev model : String → Candidate
model m = record { provider = codex; model_id = m }

abbrev status_error : ℕ → CallError
status_error n = record { status = some n; message = [] }

-- The first model is out of quota, the second answers.
abbrev answer : Candidate → CallResult ℕ
answer c = elim (includes c.model_id ("one" ∷ [])) [
  | true ↦ refused (status_error 429)
  | false ↦ value 42
]

abbrev unauthorised : Candidate → CallResult ℕ
unauthorised c = refused (status_error 401)

abbrev seven : Tx ℕ
seven = pure 7

spend_within_example :
    let t = (spend tracker ((60, 30) ∷ (20, 50) ∷ [])).used in
    (t.requests ≤ 2) × (t.input_tokens + t.output_tokens < 100 + 90)
spend_within_example =
    spend_within 90 tracker ((60, 30) ∷ (20, 50) ∷ []) (omega arith, (omega arith, tt))
      (omega arith) (omega arith)

try_each-survives_example :
    (try_each answer router 1000 [] (model "one" ∷ model "two" ∷ model "three" ∷ [])).1
    ≡ got 42 (model "two")
unfolding classify_failure
try_each-survives_example =
    try_each-survives answer router 1000 [] (model "one" ∷ []) (model "three" ∷ []) (model "two") 42
      ((status_error 429, refl, inl refl), tt) refl refl

try_each-auth_example : try_each unauthorised router 1000 [] (model "one" ∷ model "two" ∷ []) ≡ (
  record router { dead_codex = true },
  all_failed (logged (model "one") (status_error 401) ∷ []),
)
unfolding classify_failure says_quota says_missing
try_each-auth_example =
    try_each-auth unauthorised router 1000 [] (model "one") (model "two" ∷ []) (status_error 401)
      refl refl refl

-- One model rests until 5000, and the cursor has moved.
abbrev resting : Router
resting = record router { cooldown = ("gpt-5.6-sol", 5000) ∷ []; cursor = λ _. 1 }

-- Approved, with a finding that blocks.
abbrev verdict : ReviewVerdict
verdict = record {
  decision = approve;
  summary = lit "fine";
  findings =
      record { severity = nit; file = none; issue = "a name"; suggestion = none }
      ∷ record { severity = major; file = some "a.ts"; issue = "a leak"; suggestion = none }
      ∷ [];
  acceptance_met = true ∷ [];
}

normalise_verdict_lem_example :
    let w = normalise_verdict verdict in
    ((w.decision ≡ approve) ↔ (blocking_findings verdict ≡ []))
    × (w.findings ≡ verdict.findings)
    × (w.summary ≡ verdict.summary)
    × (w.acceptance_met ≡ verdict.acceptance_met)
    × (normalise_verdict w ≡ w)
normalise_verdict_lem_example = normalise_verdict_lem verdict

retry_survives_example :
    retry_deadlocked_transaction false seven 3 (deadlocks_then 2 (runs ∷ [])) sample
    ≡ outcome 3 (seven sample)
retry_survives_example = retry_survives seven 3 2 [] sample (omega arith)
