-- ===== src/Llm/Catalog.antt =====
-- packages/llm/src/catalog.ts: which models a tier may use.
use text.Mathlib.Text.{◌==◌ as str_eq}
use text.Mathlib.TextPositions.{eq_refl}
use kapi_final.Base.{
  ◌≡◌, Bool, true, false, not, ◌||◌, Option, none, some, List, [], ◌∷◌, ◌++◌, select, select_sound,
  select-All, All, String, arith,
}
use kapi_final.Llm.Types.{ModelTier, ProviderId, codex}

abbrev pub includes : String → List String → Bool
includes m [] = false
includes m (x ∷ xs) = str_eq x m || includes m xs

-- One flagship model for every tier.
unfoldable pub catalog : ProviderId → ModelTier → List String
catalog codex tier = "gpt-5.6-sol" ∷ []

abbrev pub first_or : List String → List String → List String → List String
first_or [] joined all = all
first_or (p ∷ ps) joined all = joined

-- `override` is `envModels(tier)`, the list in the environment: it only reorders what is there.
unfoldable pub models_for : Option (List String) → ProviderId → ModelTier → List String
models_for none provider tier = catalog provider tier
models_for (some override) provider tier =
    let all = catalog provider tier in
    let picked = select (λ m. includes m all) override in
    first_or picked (picked ++ select (λ m. not (includes m picked)) all) all

includes_head : (m : String) (xs : List String) → includes m (m ∷ xs) ≡ true
includes_head m xs = rw (eq_refl m)

includes_tail :
    (m x : String) (xs : List String) → includes m xs ≡ true → includes m (x ∷ xs) ≡ true
includes_tail m x xs h = ground arith

includes-All :
    (xs ys : List String)
    → ((m : String) → includes m ys ≡ true → includes m xs ≡ true)
    → All (λ m. includes m xs ≡ true) ys
includes-All xs [] h = tt
includes-All xs (y ∷ ys) h =
    (h y (includes_head y ys), includes-All xs ys (λ m t. h m (includes_tail m y ys t)))

All-append {ℓ κ} :
    {A : Type ℓ} (P : A → Type κ) (xs ys : List A) → All P xs → All P ys → All P (xs ++ ys)
All-append P [] ys a b = b
All-append P (x ∷ xs) ys a b = (a.0, All-append P xs ys a.1 b)

first_or-All {κ} :
    (P : String → Type κ) (picked joined all : List String)
    → All P joined
    → All P all
    → All P (first_or picked joined all)
first_or-All P [] joined all a b = b
first_or-All P (p ∷ ps) joined all a b = a

-- Whatever list the environment gives, only models of the provider's own catalog are offered for
-- a tier.
pub models_for-catalog :
    (override : Option (List String)) (provider : ProviderId) (tier : ModelTier)
    → All (λ m. includes m (catalog provider tier) ≡ true) (models_for override provider tier)
unfolding models_for
models_for-catalog none provider tier =
    includes-All (catalog provider tier) (catalog provider tier) (λ m h. h)
models_for-catalog (some override) provider tier =
    let all = catalog provider tier in
    let own = includes-All all all (λ m h. h) in
    let P = λ (m : String). includes m all ≡ true in
    first_or-All P (select (λ m. includes m all) override) _ all
      (All-append P _ _ (select_sound (λ m. includes m all) override)
        (select-All (λ m. not (includes m (select (λ k. includes k all) override))) P all own))
      own
