-- ===== src/Queue/Lifecycle/Secrets.antt =====
-- The secrets that enqueueIn keeps, [...new Set(secrets)] in lifecycle.ts: each once.
use text.Mathlib.Text.{◌==◌ as str_eq}
use text.Mathlib.TextEquality.{eq_iff}
use kapi_final.Base.{
  ◌≡◌, ◌∙◌, refl, Bool, false, not, List, [], ◌∷◌, String, any, select, select-All, All, All-of_mem,
  mem-select, Bool-cases, inl, inr, arith,
}
use kapi_final.Queue.Lifecycle.{distinct}

abbrev pub has_text : String → List String → Bool
has_text s = any (λ u. str_eq u s)

abbrev pub NoneTwice : List String → Type 0
NoneTwice [] = Unit
NoneTwice (t ∷ ts) = All (λ u. str_eq u t ≡ false) ts × NoneTwice ts

-- The texts of a list, none of them twice.
pub record IsSetOf (ts us : List String) : Type 0 where
  pub none_twice : NoneTwice us
  pub same : (s : String) → has_text s us ≡ has_text s ts

select-NoneTwice : (p : String → Bool) (ts : List String) → NoneTwice ts → NoneTwice (select p ts)
unfolding select
select-NoneTwice p [] h = tt
select-NoneTwice p (t ∷ ts) h = elim (Bool-cases (p t)) [
  | inl e ↦ rw e (select-All p _ ts h.0, select-NoneTwice p ts h.1)
  | inr e ↦ rw e (select-NoneTwice p ts h.1)
]

others_keep :
    (s t : String) (us : List String)
    → str_eq t s ≡ false
    → has_text s (select (λ u. not (str_eq u t)) us) ≡ has_text s us
unfolding any select
others_keep s t [] h = refl
others_keep s t (u ∷ us) h =
    ground (arith, h, eq_iff u t, eq_iff u s, eq_iff t s, others_keep s t us h)

distinct-same : (s : String) (ts : List String) → has_text s (distinct ts) ≡ has_text s ts
unfolding distinct any
distinct-same s [] = refl
distinct-same s (t ∷ ts) = elim (Bool-cases (str_eq t s)) [
  | inl e ↦ rw e refl
  | inr e ↦ rw e (others_keep s t (distinct ts) e ∙ distinct-same s ts)
]

distinct-NoneTwice : (ts : List String) → NoneTwice (distinct ts)
unfolding distinct
distinct-NoneTwice [] = tt
distinct-NoneTwice (t ∷ ts) = (
  All-of_mem _ _ (λ u m.
      let kept = (mem-select (λ u. not (str_eq u t)) (distinct ts) m).1 in ground (arith, kept)),
  select-NoneTwice _ (distinct ts) (distinct-NoneTwice ts),
)

pub distinct-IsSetOf : (ts : List String) → IsSetOf ts (distinct ts)
distinct-IsSetOf ts = record { none_twice = distinct-NoneTwice ts; same = λ s. distinct-same s ts }
