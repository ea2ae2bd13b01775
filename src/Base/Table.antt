-- ===== src/Base/Table.antt =====
-- A table is the list of its rows. The statements of SQL that the program sends: SELECT, and UPDATE
-- with its RETURNING rows, each over the rows that a WHERE clause keeps.
use Prim.Native.Nat.{ℕ, suc}
use mathlib.Core.Path.{◌≡◌, refl, ap, subst, ◌∙◌}
use mathlib.Core.Logic.{inl, inr, ◌≢◌}
use mathlib.Core.List.{List, [], ◌∷◌, map}
use mathlib.Core.Bool.{Bool, true, false, ◌||◌, ◌&&◌}
use mathlib.Core.Option.{Option, none, some}
use mathlib.Core.Option
use native.Mathlib.Omega.{arith}
use kapi_final.Base.Tests.{if◌then◌else◌, Bool-cases, Option-cases, ◌==◌, ==_iff}
use kapi_final.Base.Lists.{length, head?, All}

module _ {ℓ} {A : Type ℓ} where
  unfoldable pub select : (A → Bool) → List A → List A
  select p [] = []
  select p (x ∷ xs) = let rest = select p xs in if p x then x ∷ rest else rest

  unfoldable pub any : (A → Bool) → List A → Bool
  any p [] = false
  any p (x ∷ xs) = p x || any p xs

  -- The first row that meets the test.
  unfoldable pub find : (A → Bool) → List A → Option A
  find p [] = none
  find p (x ∷ xs) = let rest = find p xs in if p x then some x else rest

  -- UPDATE ... SET f WHERE p.
  unfoldable pub update_where : (A → Bool) → (A → A) → List A → List A
  update_where p f [] = []
  update_where p f (x ∷ xs) = (if p x then f x else x) ∷ update_where p f xs

  -- The rows that the same UPDATE returns.
  unfoldable pub returning : (A → Bool) → (A → A) → List A → List A
  returning p f xs = map f (select p xs)

  -- Keep a row that meets a test.
  abbrev pub keep_if : (A → Bool) → Option A → Option A
  keep_if p none = none
  keep_if p (some x) = if p x then some x else none

module _ {ℓ} {A : Type ℓ} (p : A → Bool) where
  pub head-select : (xs : List A) → head? (select p xs) ≡ find p xs
  unfolding select find
  head-select [] = refl
  head-select (x ∷ xs) = ground (arith, head-select xs)

  pub head-returning :
      (f : A → A) (xs : List A) → head? (returning p f xs) ≡ Option.map f (find p xs)
  unfolding returning select find
  head-returning f [] = refl
  head-returning f (x ∷ xs) = ground (arith, head-returning f xs)

  pub find_sound : (xs : List A) {x : A} → find p xs ≡ some x → p x ≡ true
  unfolding find
  find_sound [] e = cc
  find_sound (y ∷ xs) {x} e = elim (Bool-cases (p y)) [
    | inl h ↦ ground arith
    | inr h ↦ find_sound xs (ground arith)
  ]

  pub find-All {κ} : (P : A → Type κ) (xs : List A) {x : A} → All P xs → find p xs ≡ some x → P x
  unfolding find
  find-All P [] a e = cc
  find-All P (y ∷ xs) {x} a e = elim (Bool-cases (p y)) [
    | inl h ↦ subst P (ground arith) a.0
    | inr h ↦ find-All P xs a.1 (ground arith)
  ]

  pub any-find : (xs : List A) → find p xs ≡ none → any p xs ≡ false
  unfolding any find
  any-find [] e = refl
  any-find (x ∷ xs) e = ground (arith, any-find xs)

  pub select-All {κ} : (P : A → Type κ) (xs : List A) → All P xs → All P (select p xs)
  unfolding select
  select-All P [] a = tt
  select-All P (x ∷ xs) a = elim (Bool-cases (p x)) [
    | inl h ↦ rw h (a.0, select-All P xs a.1)
    | inr h ↦ rw h (select-All P xs a.1)
  ]

  pub select_sound : (xs : List A) → All (λ x. p x ≡ true) (select p xs)
  unfolding select
  select_sound [] = tt
  select_sound (x ∷ xs) = elim (Bool-cases (p x)) [
    | inl h ↦ rw h (h, select_sound xs)
    | inr h ↦ rw h (select_sound xs)
  ]

  module _ (f : A → A) where
    pub length-update : (xs : List A) → length (update_where p f xs) ≡ length xs
    unfolding update_where
    length-update [] = refl
    length-update (x ∷ xs) = ap suc (length-update xs)

    -- A search by what the update leaves alone finds the same row, updated.
    pub find-update :
        (q : A → Bool) (xs : List A)
        → ((x : A) → q (f x) ≡ q x)
        → find q (update_where p f xs) ≡ Option.map (λ x. if p x then f x else x) (find q xs)
    unfolding find update_where
    find-update q [] h = refl
    find-update q (x ∷ xs) h = ground (arith, h x, find-update q xs h)

    pub update-All {κ} :
        (P : A → Type κ) (xs : List A)
        → ((x : A) → P x → p x ≡ true → P (f x))
        → All P xs
        → All P (update_where p f xs)
    unfolding update_where
    update-All P [] h a = tt
    update-All P (x ∷ xs) h a = elim (Bool-cases (p x)) [
      | inl t ↦ rw t (h x a.0 t, update-All P xs h a.1)
      | inr t ↦ rw t (a.0, update-All P xs h a.1)
    ]

-- A search finds the same row among those that it may find.
pub find-select {ℓ} :
    {A : Type ℓ} (p q : A → Bool) (xs : List A)
    → ((x : A) → p x ≡ true → q x ≡ true)
    → find p (select q xs) ≡ find p xs
unfolding find select
find-select p q [] h = refl
find-select p q (x ∷ xs) h = ground (arith, h x, find-select p q xs h)

-- An update that meets no row changes nothing and returns nothing.
pub update-nothing {ℓ} :
    {A : Type ℓ} (f : A → A) (xs : List A) → update_where (λ _. false) f xs ≡ xs
unfolding update_where
update-nothing f [] = refl
update-nothing f (x ∷ xs) = ap (◌∷◌ x) (update-nothing f xs)

pub returning-nothing {ℓ} :
    {A : Type ℓ} (f : A → A) (xs : List A) → returning (λ _. false) f xs ≡ []
unfolding returning select
returning-nothing f [] = refl
returning-nothing f (x ∷ xs) = returning-nothing f xs

pub update-none {ℓ} :
    {A : Type ℓ} (p : A → Bool) (f : A → A) (xs : List A)
    → find p xs ≡ none
    → update_where p f xs ≡ xs
unfolding find update_where
update-none p f [] e = refl
update-none p f (x ∷ xs) e = ground (arith, update-none p f xs)

pub returning-none {ℓ} :
    {A : Type ℓ} (p : A → Bool) (f : A → A) (xs : List A) → find p xs ≡ none → returning p f xs ≡ []
unfolding find returning select
returning-none p f [] e = refl
returning-none p f (x ∷ xs) e = ground (arith, returning-none p f xs)

pub All-everywhere {ℓ κ} : {A : Type ℓ} {P : A → Type κ} (xs : List A) → ((x : A) → P x) → All P xs
All-everywhere [] h = tt
All-everywhere (x ∷ xs) h = (h x, All-everywhere xs h)

module _ {ℓ} {A : Type ℓ} (key : A → ℕ) where
  -- The row of a key.
  unfoldable pub row_of : ℕ → List A → Option A
  row_of k xs = find (λ x. key x == k) xs

  pub row_of_sound : (k : ℕ) (xs : List A) {x : A} → row_of k xs ≡ some x → key x ≡ k
  unfolding row_of
  row_of_sound k xs e = (==_iff _ k).0 (find_sound (λ x. key x == k) xs e)

  -- On the rows that it meets an update leaves the keys alone.
  abbrev pub KeepsKey : (A → Bool) → (A → A) → List A → Type 0
  KeepsKey p f xs = All (λ x. p x ≡ true → key (f x) ≡ key x) xs

  -- Such an update acts on the row of a key, if that meets its condition.
  pub row_of-update :
      (p : A → Bool) (f : A → A) (k : ℕ) (xs : List A)
      → KeepsKey p f xs
      → row_of k (update_where p f xs) ≡ Option.map (λ x. if p x then f x else x) (row_of k xs)
  unfolding row_of find update_where
  row_of-update p f k [] h = refl
  row_of-update p f k (x ∷ xs) h = ground (arith, h.0, row_of-update p f k xs h.1)

  pub row_of-cons :
      (k : ℕ) (x : A) (xs : List A)
      → row_of k (x ∷ xs) ≡ (if key x == k then some x else row_of k xs)
  unfolding row_of find
  row_of-cons k x xs = ground arith

  -- A primary key: no two rows share a key.
  abbrev pub IsKeyed : List A → Type ℓ
  IsKeyed [] = Unit
  IsKeyed (x ∷ xs) = (row_of (key x) xs ≡ none) × IsKeyed xs

  pub IsKeyed-update :
      (p : A → Bool) (f : A → A) (xs : List A)
      → KeepsKey p f xs
      → IsKeyed xs
      → IsKeyed (update_where p f xs)
  unfolding update_where
  IsKeyed-update p f [] h d = tt
  IsKeyed-update p f (x ∷ xs) h d =
      (ground (arith, row_of-update p f (key x) xs h.1), IsKeyed-update p f xs h.1 d.1)

  -- Under a primary key a further condition only keeps or drops the row of the key.
  pub find-key_and :
      (k : ℕ) (q : A → Bool) (xs : List A)
      → IsKeyed xs
      → find (λ x. key x == k && q x) xs ≡ keep_if q (row_of k xs)
  unfolding find row_of
  find-key_and k q [] d = refl
  find-key_and k q (x ∷ xs) d =
      let same : key x ≡ k → row_of k xs ≡ none = λ e. subst (λ i. row_of i xs ≡ none) e d.0 in
      ground (arith, find-key_and k q xs d.1, same, ==_iff (key x) k)

  -- So the first row that a keyed UPDATE returns is the updated row of the key, if that qualifies.
  pub head-returning_key :
      (k : ℕ) (q : A → Bool) (f : A → A) (xs : List A)
      → IsKeyed xs
      → head? (returning (λ x. key x == k && q x) f xs) ≡ Option.map f (keep_if q (row_of k xs))
  head-returning_key k q f xs d =
      head-returning (λ x. key x == k && q x) f xs ∙ ap (Option.map f) (find-key_and k q xs d)

  -- No row qualifies: nothing changes.
  pub update-miss :
      (k : ℕ) (q : A → Bool) (f : A → A) (xs : List A)
      → IsKeyed xs
      → keep_if q (row_of k xs) ≡ none
      → update_where (λ x. key x == k && q x) f xs ≡ xs
  update-miss k q f xs d h = update-none (λ x. key x == k && q x) f xs (find-key_and k q xs d ∙ h)

  -- The row of the key qualifies: it is updated, and no other.
  pub row_of-hit :
      (k : ℕ) (q : A → Bool) (f : A → A) (xs : List A) {x : A}
      → ((y : A) → key (f y) ≡ key y)
      → row_of k xs ≡ some x
      → q x ≡ true
      → row_of k (update_where (λ y. key y == k && q y) f xs) ≡ some (f x)
  row_of-hit k q f xs {x} h e t =
      let moved = row_of-update (λ y. key y == k && q y) f k xs (All-everywhere xs (λ y _. h y)) in
      ground (arith, moved, row_of_sound k xs e)

  pub row_of-miss :
      (k i : ℕ) (q : A → Bool) (f : A → A) (xs : List A)
      → ((y : A) → key (f y) ≡ key y)
      → i ≢ k
      → row_of i (update_where (λ y. key y == k && q y) f xs) ≡ row_of i xs
  row_of-miss k i q f xs h n =
      let moved = row_of-update (λ y. key y == k && q y) f i xs (All-everywhere xs (λ y _. h y)) in
      elim (Option-cases (row_of i xs)) [
        | inl e ↦ ground (arith, moved)
        | inr (y, e) ↦ ground (arith, moved, row_of_sound i xs e)
      ]
