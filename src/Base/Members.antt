-- ===== src/Base/Members.antt =====
-- Membership in a table, as a derivation that can be matched.
use mathlib.Core.List.{Memᴰ}
use mathlib.Core.Path.{◌≡◌, refl, sym, ap, subst, ◌∙◌}
use mathlib.Core.Logic.{inl, inr}
use mathlib.Core.List.{List, [], ◌∷◌}
use mathlib.Core.Bool.{Bool, true}
use mathlib.Core.Option.{none, some, some-injective}
use native.Mathlib.Omega.{arith}
use Prim.Native.Nat.{ℕ}
use kapi_final.Base.Tests.{Bool-cases, ==_iff}
use kapi_final.Base.Lists.{All}
use kapi_final.Base.Table.{select, find, row_of, IsKeyed, any}

module _ {ℓ} {A : Type ℓ} where
  pub All-mem {κ} : (P : A → Type κ) {x : A} (xs : List A) → All P xs → Memᴰ x xs → P x
  All-mem P [] a m = elim m [ ]
  All-mem P (y ∷ ys) a (Memᴰ.head e) = subst P (sym e) a.0
  All-mem P (y ∷ ys) a (Memᴰ.tail m) = All-mem P ys a.1 m

  pub All-of_mem {κ} : (P : A → Type κ) (xs : List A) → ((x : A) → Memᴰ x xs → P x) → All P xs
  All-of_mem P [] h = tt
  All-of_mem P (x ∷ xs) h = (h x (Memᴰ.head refl), All-of_mem P xs (λ y m. h y (Memᴰ.tail m)))

  pub mem-select :
      (p : A → Bool) (xs : List A) {x : A} → Memᴰ x (select p xs) → Memᴰ x xs × (p x ≡ true)
  unfolding select
  mem-select p [] m = elim m [ ]
  mem-select p (y ∷ xs) {x} m = elim (Bool-cases (p y)) [
    | inl h ↦ first (mem-select p xs) (rw h at m) h
    | inr h ↦ let (n, t) = mem-select p xs (rw h at m) in (Memᴰ.tail n, t)
  ]
    where
      first :
          (Memᴰ x (select p xs) → Memᴰ x xs × (p x ≡ true))
          → Memᴰ x (y ∷ select p xs)
          → p y ≡ true
          → Memᴰ x (y ∷ xs) × (p x ≡ true)
      first rest (Memᴰ.head e) h = (Memᴰ.head e, ap p e ∙ h)
      first rest (Memᴰ.tail n) h = let (k, t) = rest n in (Memᴰ.tail k, t)

  pub select-mem :
      (p : A → Bool) (xs : List A) {x : A} → Memᴰ x xs → p x ≡ true → Memᴰ x (select p xs)
  unfolding select
  select-mem p [] m t = elim m [ ]
  select-mem p (y ∷ xs) (Memᴰ.head e) t = rw (sym (ap p e) ∙ t) (Memᴰ.head e)
  select-mem p (y ∷ xs) (Memᴰ.tail m) t = elim (Bool-cases (p y)) [
    | inl h ↦ rw h (Memᴰ.tail (select-mem p xs m t))
    | inr h ↦ rw h (select-mem p xs m t)
  ]

  pub find-mem : (p : A → Bool) (xs : List A) {x : A} → find p xs ≡ some x → Memᴰ x xs
  unfolding find
  find-mem p [] e = cc
  find-mem p (y ∷ xs) {x} e = elim (Bool-cases (p y)) [
    | inl h ↦ Memᴰ.head (ground arith)
    | inr h ↦ Memᴰ.tail (find-mem p xs (ground arith))
  ]

  pub any-mem : (p : A → Bool) (xs : List A) {x : A} → Memᴰ x xs → p x ≡ true → any p xs ≡ true
  unfolding any
  any-mem p [] m t = elim m [ ]
  any-mem p (y ∷ xs) (Memᴰ.head e) t = rw (sym (ap p e) ∙ t)
  any-mem p (y ∷ xs) (Memᴰ.tail m) t = ground (arith, any-mem p xs m t)

  module _ (key : A → ℕ) where
    -- Under a primary key the row of a member's key is that member.
    pub row_of-mem :
        (xs : List A) {x : A} → IsKeyed key xs → Memᴰ x xs → row_of key (key x) xs ≡ some x
    unfolding row_of find
    row_of-mem [] d m = elim m [ ]
    row_of-mem (y ∷ xs) {x} d (Memᴰ.head e) = rw e (ground (arith, ==_iff (key y) (key y)))
    row_of-mem (y ∷ xs) {x} d (Memᴰ.tail m) =
        let r = row_of-mem xs d.1 m in
        let same : key y ≡ key x → row_of key (key x) xs ≡ none =
          λ e. subst (λ i. row_of key i xs ≡ none) e d.0 in
        ground (arith, same, r, ==_iff (key y) (key x))

    pub mem_unique :
        (xs : List A) {x y : A} → IsKeyed key xs → Memᴰ x xs → Memᴰ y xs → key x ≡ key y → x ≡ y
    mem_unique xs {x} {y} d m n e =
        some-injective x y
          (sym (row_of-mem xs d m) ∙ (ap (λ k. row_of key k xs) e ∙ row_of-mem xs d n))
