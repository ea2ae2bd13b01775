-- ===== src/Llm/Router.antt =====
-- packages/llm/src/router.ts: candidates for a call, and failing over from one to the next. The
-- credential (`codexToken`) is there or not; a model call is a parameter, a function of the
-- candidate that gives a value or an error. Time stands still within one call.
pub mod Failover
pub mod Ordering
use text.Mathlib.Text.{◌==◌ as str_eq}
use kapi_final.Base.{
  ℕ, ◌+◌, ◌%◌, ◌==◌, leb, ltb, Bool, true, false, not, ◌||◌, Option, none, some, List, [], ◌∷◌,
  ◌++◌, map, select, take, drop, length, String, if◌then◌else◌,
}
use kapi_final.Llm.Types.{
  ModelTier, codex, Candidate, FailureKind, quota, missing, auth, transient, fatal, CallError,
  classify_failure,
}
use kapi_final.Llm.Types
use kapi_final.Llm.Budget.{BudgetTracker, Exceeded, assert_affordable}
use kapi_final.Llm.Catalog.{models_for, includes}

pub record RouterOptions : Type 0 where
  pub has_token : Bool
  pub pin : Option Candidate
  -- envModels of each tier.
  pub env_models : ModelTier → Option (List String)
  pub quota_cooldown_ms : ℕ

-- The private fields. There is one provider, so a model's name is its key.
pub record Router : Type 0 where
  pub opts : RouterOptions
  pub budget : BudgetTracker
  pub cooldown : List (String × ℕ)
  pub missing_models : List String
  pub dead_codex : Bool
  pub cursor : ModelTier → ℕ

abbrev pub tier_eq : ModelTier → ModelTier → Bool
tier_eq Types.reasoning Types.reasoning = true
tier_eq Types.coding Types.coding = true
tier_eq Types.cheap Types.cheap = true
tier_eq _ _ = false

-- `this.#cooldown.get(id) ?? 0`; a later `set` of the same key stands in front.
unfoldable pub cooldown_until : List (String × ℕ) → String → ℕ
cooldown_until [] m = 0
cooldown_until ((k, t) ∷ rest) m = if str_eq k m then t else cooldown_until rest m

-- [...healthy.slice(i), ...healthy.slice(0, i)]
unfoldable pub rotate : ℕ → List String → List String
rotate i ms = drop i ms ++ take i ms

unfoldable pub healthy : Router → ℕ → List String → List String
healthy r now = select (λ m. leb (cooldown_until r.cooldown m) now)

unfoldable pub cooling : Router → ℕ → List String → List String
cooling r now = select (λ m. ltb now (cooldown_until r.cooldown m))

abbrev pub with_provider : List String → List Candidate
with_provider = map (λ m. record { provider = codex; model_id = m })

unfoldable pub visible : Router → ModelTier → List String
visible r tier =
    select (λ m. not (includes m r.missing_models))
      (models_for ((r.opts).env_models tier) codex tier)

abbrev advance : Router → ModelTier → ℕ → Router
advance r tier i = record r { cursor = λ t. if tier_eq t tier then i + 1 else r.cursor t }

-- The loop over the one key: the router with its cursor moved, and the candidates in order.
unfoldable pub rotated :
    Router → ModelTier → ℕ → List String → List String → Router × List Candidate
rotated r tier now [] cold = (r, with_provider cold)
rotated r tier now (m ∷ ms) cold =
    let i = r.cursor tier % length (m ∷ ms) in
    (advance r tier i, with_provider (rotate i (m ∷ ms) ++ cold))

abbrev pub pinned : Bool → Candidate → List Candidate
pinned true c = c ∷ []
pinned false c = []

unfoldable pub unpinned : Router → ModelTier → ℕ → Router × List Candidate
unpinned r tier now =
    let models = visible r tier in
    if not (r.opts).has_token || r.dead_codex
    then (r, [])
    else rotated r tier now (healthy r now models) (cooling r now models)

unfoldable pub candidates : Router → ModelTier → ℕ → Router × List Candidate
candidates r tier now = elim (r.opts).pin [
  | some c ↦ (r, pinned (r.opts).has_token c)
  | none ↦ unpinned r tier now
]

unfoldable pub penalise : Router → ℕ → Candidate → FailureKind → Router
penalise r now c quota = record r {
  cooldown = (c.model_id, now + (r.opts).quota_cooldown_ms) ∷ r.cooldown;
}
penalise r now c missing = record r { missing_models = c.model_id ∷ r.missing_models }
penalise r now c auth = record r { dead_codex = true }
penalise r now c transient = r
penalise r now c fatal = r

pub record AttemptLog : Type 0 where
  pub candidate : Candidate
  pub error : CallError
  pub classified : FailureKind

-- What a model call does. The budget's error comes from a call that records its usage.
pub data CallResult (A : Type 0) : Type 0 where
  value : A → CallResult A
  over_budget : Exceeded → CallResult A
  refused : CallError → CallResult A

pub data Routed (A : Type 0) : Type 0 where
  got : A → Candidate → Routed A
  exceeded : Exceeded → Routed A
  not_connected : Routed A
  rejected : List AttemptLog → Routed A
  all_failed : List AttemptLog → Routed A

abbrev pub skipped : Router → Candidate → Bool
skipped r c = r.dead_codex || includes c.model_id r.missing_models

abbrev pub is_fatal : FailureKind → Bool
is_fatal fatal = true
is_fatal _ = false

abbrev pub logged : Candidate → CallError → AttemptLog
logged c e = record { candidate = c; error = e; classified = classify_failure e }

module _ {A : Type 0} (call : Candidate → CallResult A) where
  -- The loop; the attempts are kept in order.
  unfoldable pub try_each : Router → ℕ → List AttemptLog → List Candidate → Router × Routed A
  try_each r now attempts [] = (r, all_failed attempts)
  try_each r now attempts (c ∷ cs) =
      let skip = try_each r now attempts cs in
      let next = λ (e : CallError).
        try_each (penalise r now c (classify_failure e)) now (attempts ++ logged c e ∷ []) cs in
      if skipped r c then skip else elim (call c) [
        | value v ↦ (r, got v c)
        | over_budget x ↦ (r, exceeded x)
        | refused e ↦
            let after = next e in
            if is_fatal (classify_failure e)
            then (r, rejected (attempts ++ logged c e ∷ []))
            else after
      ]

  unfoldable pub try_some : Router → ℕ → List Candidate → Router × Routed A
  try_some r now [] = (r, not_connected)
  try_some r now (c ∷ cs) = try_each r now [] (c ∷ cs)

  unfoldable pub with_failover : Router → ModelTier → ℕ → Router × Routed A
  with_failover r tier now = elim (assert_affordable r.budget) [
    | some x ↦ (r, exceeded x)
    | none ↦ let (s, cs) = candidates r tier now in try_some s now cs
  ]
