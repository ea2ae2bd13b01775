-- ===== src/Queue/Claim/Order.antt =====
-- The order in which jobs are claimed, and that the first of it is picked.
use mathlib.Core.List.{Memᴰ}
use mathlib.Core.List.Memᴰ.{not-nil}
use kapi_final.Base.{
  ℕ, ◌≡◌, ◌⊎◌, refl, Bool, true, false, Option, none, some, List, [], ◌∷◌, All, select, mem-select,
  select-mem, All-mem, All-of_mem, arith, Bool-cases, inl, inr, subst, some-injective,
}
use kapi_final.Protocol.Jobs.{Job}
use kapi_final.Queue.Claim.{ClaimOptions, before, better, best, pick, claimable}

before_asymm : (a b : Job) → before a b ≡ true → before b a ≡ false
unfolding before
before_asymm a b h = ground arith

before_cotrans : (a b c : Job) → before a b ≡ false → before b c ≡ false → before a c ≡ false
unfolding before
before_cotrans a b c h k = ground arith

before_irrefl : (a : Job) → before a a ≡ false
unfolding before
before_irrefl a = ground arith

-- Nothing of the list comes before `k`.
abbrev pub IsFirst : Job → List Job → Type 0
IsFirst k = All (λ x. before x k ≡ false)

chosen : (j b k : Job) → better j (some b) ≡ k → before b j ≡ true → b ≡ k
chosen j b k e t = ground arith

kept : (j b k : Job) → better j (some b) ≡ k → before b j ≡ false → j ≡ k
kept j b k e f = ground arith

better-IsFirst :
    (j b k : Job) (js : List Job) → better j (some b) ≡ k → IsFirst b js → IsFirst k (j ∷ js)
better-IsFirst j b k js e h = elim (Bool-cases (before b j)) [
  | inl t ↦ subst (λ x. IsFirst x (j ∷ js)) (chosen j b k e t) (before_asymm b j t, h)
  | inr f ↦
      subst (λ x. IsFirst x (j ∷ js)) (kept j b k e f)
        (before_irrefl j, All-of_mem _ js (λ x m. before_cotrans x b j (All-mem _ js h m) f))
]

-- The best of a list is first in it.
best-IsFirst : (js : List Job) {k : Job} → best js ≡ some k → IsFirst k js
unfolding best
best-IsFirst [] e = cc
best-IsFirst (j ∷ []) {k} e =
    subst (λ x. IsFirst x (j ∷ [])) (some-injective j k e) (before_irrefl j, tt)
best-IsFirst (j ∷ i ∷ js) {k} e =
    better-IsFirst j (better i (best js)) k (i ∷ js) (some-injective _ k e)
      (best-IsFirst (i ∷ js) refl)

best-some : (js : List Job) → best js ≡ none → js ≡ []
unfolding best
best-some [] e = refl
best-some (j ∷ js) e = cc

-- The row that a claim picks comes first among all that it may claim.
pub pick-first :
    (o : ClaimOptions) (locked : ℕ → Bool) (jobs : List Job) {k x : Job}
    → pick o locked jobs ≡ some k
    → Memᴰ x jobs
    → claimable o locked jobs x ≡ true
    → before x k ≡ false
unfolding pick
pick-first o locked jobs e m t =
    All-mem _ _ (best-IsFirst (select (claimable o locked jobs) jobs) e)
      (select-mem (claimable o locked jobs) jobs m t)

-- A claim picks no row only if there is none that it may claim.
pub pick-none :
    (o : ClaimOptions) (locked : ℕ → Bool) (jobs : List Job) {x : Job}
    → pick o locked jobs ≡ none
    → Memᴰ x jobs
    → claimable o locked jobs x ≡ false
unfolding pick
pick-none o locked jobs {x} e m = elim (Bool-cases (claimable o locked jobs x)) [
  | inl t ↦
      absurd
        (not-nil (subst (Memᴰ x) (best-some _ e) (select-mem (claimable o locked jobs) jobs m t)))
  | inr f ↦ f
]

better_cases : (j : Job) (o : Option Job) → (better j o ≡ j) ⊎ (o ≡ some (better j o))
better_cases j none = inl refl
better_cases j (some b) = ground arith

pub best-mem : (js : List Job) {k : Job} → best js ≡ some k → Memᴰ k js
unfolding best
best-mem [] e = cc
best-mem (j ∷ js) {k} e = elim (better_cases j (best js)) [
  | inl own ↦ Memᴰ.head (cc)
  | inr rest ↦ Memᴰ.tail (best-mem js (cc))
]

-- The row that a claim picks is in the table and may be claimed.
pub pick-mem :
    (o : ClaimOptions) (locked : ℕ → Bool) (jobs : List Job) {k : Job}
    → pick o locked jobs ≡ some k
    → Memᴰ k jobs × (claimable o locked jobs k ≡ true)
unfolding pick
pick-mem o locked jobs e =
    mem-select (claimable o locked jobs) jobs (best-mem (select (claimable o locked jobs) jobs) e)
