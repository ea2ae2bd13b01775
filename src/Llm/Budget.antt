-- ===== src/Llm/Budget.antt =====
-- packages/llm/src/budget.ts: a hard ceiling on what one run may spend, checked before each request.
use kapi_final.Base.{
  ℕ, ◌+◌, ◌≤◌, ◌<◌, leb, Option, none, some, List, [], ◌∷◌, if◌then◌else◌, arith, ◌-◌, All,
}

pub record Budget : Type 0 where
  pub max_requests : ℕ
  pub max_tokens : ℕ

pub record Usage : Type 0 where
  pub input_tokens : ℕ
  pub output_tokens : ℕ
  pub requests : ℕ

pub record BudgetTracker : Type 0 where
  pub budget : Budget
  pub used : Usage

pub record BudgetSnapshot : Type 0 where
  pub usage : Usage
  pub total_tokens : ℕ
  pub max_requests : ℕ
  pub max_tokens : ℕ

unfoldable pub snapshot : BudgetTracker → BudgetSnapshot
snapshot t = record {
  usage = t.used;
  total_tokens = (t.used).input_tokens + (t.used).output_tokens;
  max_requests = (t.budget).max_requests;
  max_tokens = (t.budget).max_tokens;
}

-- `Math.max(0, …)`: subtraction stops at 0.
unfoldable pub remaining_requests : BudgetTracker → ℕ
remaining_requests t = (t.budget).max_requests - (t.used).requests

pub data Exceeded : Type 0 where
  request_budget token_budget : BudgetSnapshot → Exceeded

-- `none` is the return; otherwise the error that is thrown.
unfoldable pub assert_affordable : BudgetTracker → Option Exceeded
unfolding snapshot
assert_affordable t =
    let snap = snapshot t in
    if leb snap.max_requests (snap.usage).requests
    then some (request_budget snap)
    else if leb snap.max_tokens snap.total_tokens
    then some (token_budget snap)
    else none

-- A missing count of requests is 1; a missing count of tokens is 0, which the caller writes.
unfoldable pub record_usage : ℕ → ℕ → ℕ → BudgetTracker → BudgetTracker
record_usage input output requests t = record t {
  used = record {
    input_tokens = (t.used).input_tokens + input;
    output_tokens = (t.used).output_tokens + output;
    requests = (t.used).requests + requests;
  };
}

-- A call is made if the budget allows it, and its usage is recorded after.
unfoldable pub spend : BudgetTracker → List (ℕ × ℕ) → BudgetTracker
spend t [] = t
spend t ((input, output) ∷ calls) =
    let next = record_usage input output 1 t in
    elim (assert_affordable t) [ none ↦ spend next calls | some _ ↦ t ]

-- However many calls are tried in turn, each one checked against the budget first and recorded
-- after, the requests made stay within the limit if they were.
spend-requests-le :
    (t : BudgetTracker) (calls : List (ℕ × ℕ))
    → (t.used).requests ≤ (t.budget).max_requests
    → ((spend t calls).used).requests ≤ (t.budget).max_requests
unfolding spend assert_affordable record_usage
spend-requests-le t [] h = h
spend-requests-le t ((i, o) ∷ calls) h =
    ground (arith, spend-requests-le (record_usage i o 1 t) calls)

abbrev pub tokens : BudgetTracker → ℕ
tokens t = (t.used).input_tokens + (t.used).output_tokens

-- If each of the calls uses at most n tokens, the tokens used pass the limit by less than n, if
-- they did before.
spend-tokens-lt :
    (n : ℕ) (t : BudgetTracker) (calls : List (ℕ × ℕ))
    → All (λ (c : ℕ × ℕ). c.0 + c.1 ≤ n) calls
    → tokens t < (t.budget).max_tokens + n
    → tokens (spend t calls) < (t.budget).max_tokens + n
unfolding spend assert_affordable record_usage
spend-tokens-lt n t [] a h = h
spend-tokens-lt n t ((i, o) ∷ calls) a h =
    ground (arith, spend-tokens-lt n (record_usage i o 1 t) calls a.1)

-- However many calls are tried in turn, each one checked against the budget first and recorded
-- after, the requests made stay within the limit, and where each call uses at most n tokens the
-- tokens used pass their limit by less than n, if both did before.
pub spend_within :
    (n : ℕ) (t : BudgetTracker) (calls : List (ℕ × ℕ))
    → All (λ (c : ℕ × ℕ). c.0 + c.1 ≤ n) calls
    → (t.used).requests ≤ (t.budget).max_requests
    → tokens t < (t.budget).max_tokens + n
    → (((spend t calls).used).requests ≤ (t.budget).max_requests)
      × (tokens (spend t calls) < (t.budget).max_tokens + n)
spend_within n t calls a r h = (spend-requests-le t calls r, spend-tokens-lt n t calls a h)
