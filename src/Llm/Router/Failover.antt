-- ===== src/Llm/Router/Failover.antt =====
-- What failing over promises.
use mathlib.Core.List.{Memᴰ}
use kapi_final.Base.{
  ℕ, ◌≡◌, ◌⊎◌, refl, sym, ap, ◌∙◌, true, false, List, [], ◌∷◌, ◌++◌, All, arith, Bool-cases, inl,
  inr, if◌then◌else◌,
}
use kapi_final.Llm.Types.{
  Candidate, FailureKind, quota, missing, auth, transient, fatal, CallError, classify_failure,
}
use kapi_final.Llm.Budget.{Exceeded}
use kapi_final.Llm.Router.{
  Router, CallResult, value, over_budget, refused, got, exceeded, rejected, all_failed, try_each,
  penalise, skipped, AttemptLog, logged, is_fatal,
}

abbrev outcome {ℓ} : {A : Type ℓ} → Router × A → A
outcome x = x.1

module _ {A : Type 0} (call : Candidate → CallResult A) where
  module _ (r : Router) (now : ℕ) (attempts : List AttemptLog) (d : Candidate)
      (cs : List Candidate) where
    step_skipped :
        skipped r d ≡ true → try_each call r now attempts (d ∷ cs) ≡ try_each call r now attempts cs
    unfolding try_each
    step_skipped s = rw s

    step_value :
        (v : A)
        → skipped r d ≡ false
        → call d ≡ value v
        → try_each call r now attempts (d ∷ cs) ≡ (r, got v d)
    unfolding try_each
    step_value v s f = rw s (rw f)

    step_over :
        (x : Exceeded)
        → skipped r d ≡ false
        → call d ≡ over_budget x
        → try_each call r now attempts (d ∷ cs) ≡ (r, exceeded x)
    unfolding try_each
    step_over x s f = rw s (rw f)

    step_refused :
        (e : CallError)
        → skipped r d ≡ false
        → call d ≡ refused e
        → try_each call r now attempts (d ∷ cs) ≡ (
            if is_fatal (classify_failure e)
            then (r, rejected (attempts ++ logged d e ∷ []))
            else try_each call
                (penalise r now d (classify_failure e))
                now
                (attempts ++ logged d e ∷ [])
                cs)
    unfolding try_each
    step_refused e s f = rw s (rw f)

  -- With the credential rejected, nothing more is called.
  try_each-dead :
      (r : Router) (now : ℕ) (attempts : List AttemptLog) (cs : List Candidate)
      → r.dead_codex ≡ true
      → try_each call r now attempts cs ≡ (r, all_failed attempts)
  unfolding try_each
  try_each-dead r now attempts [] h = refl
  try_each-dead r now attempts (c ∷ cs) h = ground (arith, try_each-dead r now attempts cs)

  -- If a candidate that is not skipped fails with a rejected credential, the credential counts as
  -- dead and failing over ends with that attempt as the last, whatever candidates follow.
  pub try_each-auth :
      (r : Router) (now : ℕ) (attempts : List AttemptLog) (c : Candidate) (cs : List Candidate)
      (e : CallError)
      → skipped r c ≡ false
      → call c ≡ refused e
      → classify_failure e ≡ auth
      → try_each call r now attempts (c ∷ cs)
        ≡ (record r { dead_codex = true }, all_failed (attempts ++ logged c e ∷ []))
  unfolding try_each penalise
  try_each-auth r now attempts c cs e s f k =
      let dead = record r { dead_codex = true } in
      ground (arith, try_each-dead dead now (attempts ++ logged c e ∷ []) cs refl)

  -- A result of failing over comes from one of the candidates, and is what the call gave for it.
  pub try_each-got :
      (r : Router) (now : ℕ) (attempts : List AttemptLog) (cs : List Candidate) {v : A}
      {c : Candidate}
      → (try_each call r now attempts cs).1 ≡ got v c
      → Memᴰ c cs × (call c ≡ value v)
  try_each-got r now attempts [] e = unfold try_each in cc
  try_each-got r now attempts (d ∷ cs) {v} {c} e = elim (Bool-cases (skipped r d)) [
    | inl s ↦
        later (
          try_each-got r now attempts cs
            (sym (ap outcome (step_skipped r now attempts d cs s)) ∙ e))
    | inr s ↦ by_call s (λ k ats. try_each-got (penalise r now d k) now ats cs) (call d) refl
  ]
    where
      later : Memᴰ c cs × (call c ≡ value v) → Memᴰ c (d ∷ cs) × (call c ≡ value v)
      later (m, f) = (Memᴰ.tail m, f)

      same : (w : A) → call d ≡ value w → (d ≡ c) × (w ≡ v) → Memᴰ c (d ∷ cs) × (call c ≡ value v)
      same w f pq = (Memᴰ.head (sym pq.0), cc)

      unless_fatal :
          (k : FailureKind) (x : CallError)
          → outcome (
              if is_fatal k
              then (r, rejected (attempts ++ logged d x ∷ []))
              else try_each call (penalise r now d k) now (attempts ++ logged d x ∷ []) cs)
            ≡ got v c
          → ((try_each call (penalise r now d k) now (attempts ++ logged d x ∷ []) cs).1 ≡ got v c
              → Memᴰ c cs × (call c ≡ value v))
          → Memᴰ c (d ∷ cs) × (call c ≡ value v)
      unless_fatal quota x q go = later (go q)
      unless_fatal missing x q go = later (go q)
      unless_fatal auth x q go = later (go q)
      unless_fatal transient x q go = later (go q)
      unless_fatal fatal x q go = absurd (cc q)

      by_call :
          skipped r d ≡ false
          → ((k : FailureKind) (ats : List AttemptLog)
              → (try_each call (penalise r now d k) now ats cs).1 ≡ got v c
              → Memᴰ c cs × (call c ≡ value v))
          → (o : CallResult A) → call d ≡ o
          → Memᴰ c (d ∷ cs) × (call c ≡ value v)
      by_call s rest (value w) f =
          let q = sym (ap outcome (step_value r now attempts d cs w s f)) ∙ e in
          same w f (cc q, cc q)
      by_call s rest (over_budget x) f =
          absurd (cc (ap outcome (step_over r now attempts d cs x s f)))
      by_call s rest (refused x) f =
          unless_fatal (classify_failure x) x
            (sym (ap outcome (step_refused r now attempts d cs x s f)) ∙ e)
            (rest (classify_failure x) (attempts ++ logged d x ∷ []))

  -- A failure after which another candidate may still answer: out of quota, or a passing fault.
  abbrev pub CanFailOver : Candidate → Type 0
  CanFailOver c =
      (e : CallError) × (call c ≡ refused e)
      × ((classify_failure e ≡ quota) ⊎ (classify_failure e ≡ transient))

  -- If every candidate before one only fails by its quota or by a passing fault, and that one is
  -- not skipped and answers, failing over gives its answer.
  pub try_each-survives :
      (r : Router) (now : ℕ) (attempts : List AttemptLog) (before rest : List Candidate)
      (c : Candidate) (v : A)
      → All CanFailOver before
      → skipped r c ≡ false
      → call c ≡ value v
      → (try_each call r now attempts (before ++ c ∷ rest)).1 ≡ got v c
  try_each-survives r now attempts [] rest c v h s f =
      ap outcome (step_value r now attempts c rest v s f)
  try_each-survives r now attempts (d ∷ ds) rest c v h s f = elim (Bool-cases (skipped r d)) [
    | inl t ↦
        ap outcome (step_skipped r now attempts d (ds ++ c ∷ rest) t)
        ∙ try_each-survives r now attempts ds rest c v h.1 s f
    | inr t ↦
        ap outcome (step_refused r now attempts d (ds ++ c ∷ rest) (h.0).0 t (h.0).1)
        ∙ survive (classify_failure (h.0).0) (h.0).2
            (λ k n. try_each-survives (penalise r now d k) now _ ds rest c v h.1 n f)
  ]
    where
      survive :
          (k : FailureKind)
          → (k ≡ quota) ⊎ (k ≡ transient)
          → ((j : FailureKind)
              → skipped (penalise r now d j) c ≡ false
              → (try_each call
                  (penalise r now d j)
                  now
                  (attempts ++ logged d (h.0).0 ∷ [])
                  (ds ++ c ∷ rest)).1
                ≡ got v c)
          → outcome (
              if is_fatal k
              then (r, rejected (attempts ++ logged d (h.0).0 ∷ []))
              else try_each call
                  (penalise r now d k)
                  now
                  (attempts ++ logged d (h.0).0 ∷ [])
                  (ds ++ c ∷ rest))
            ≡ got v c
      survive quota e go = go quota (unfold penalise in s)
      survive transient e go = go transient (unfold penalise in s)
      survive missing (inl e) go = cc
      survive missing (inr e) go = cc
      survive auth (inl e) go = cc
      survive auth (inr e) go = cc
      survive fatal (inl e) go = cc
      survive fatal (inr e) go = cc
