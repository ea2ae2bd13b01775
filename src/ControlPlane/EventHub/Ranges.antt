-- ===== src/ControlPlane/EventHub/Ranges.antt =====
-- Runs of consecutive numbers.
use kapi_final.Base.{
  ℕ, zero, suc, ◌+◌, ◌-◌, ◌≤◌, ◌<◌, ◌≡◌, refl, ap, ◌∙◌, false, [], ◌∷◌, ◌++◌, has, length, arith,
}
use kapi_final.ControlPlane.EventHub.{
  span, hold, insert_number, sort_numbers, last_of, at_most, list_events,
}

pub length-span : (a k : ℕ) → length (span a k) ≡ k
length-span a zero = refl
length-span a (suc k) = omega (arith, length-span (a + 1) k)

pub span_snoc : (a k : ℕ) → span a k ++ (a + k + 1) ∷ [] ≡ span a (suc k)
span_snoc a zero = ap (λ n. n ∷ []) (omega arith)
span_snoc a (suc k) =
    let e : a + suc k + 1 ≡ a + 1 + k + 1 = omega arith in
    rw e (ap (◌∷◌ (a + 1)) (span_snoc (a + 1) k))

has-span : (a k n : ℕ) → a + k < n → has n (span a k) ≡ false
has-span a zero n h = refl
has-span a (suc k) n h = ground (arith, has-span (a + 1) k n (omega arith))

-- The next number, held with those before it.
pub hold-span : (a k : ℕ) → hold (a + k + 1) (span a k) ≡ span a (suc k)
hold-span a k = rw (has-span a k (a + k + 1) (omega arith)) (span_snoc a k)

insert_first : (a k : ℕ) → insert_number (a + 1) (span (a + 1) k) ≡ (a + 1) ∷ span (a + 1) k
unfolding insert_number
insert_first a zero = refl
insert_first a (suc k) = ground arith

pub sort-span : (a k : ℕ) → sort_numbers (span a k) ≡ span a k
unfolding sort_numbers
sort-span a zero = refl
sort-span a (suc k) = rw (sort-span (a + 1) k) (insert_first a k)

pub last_of-span : (d k : ℕ) → last_of d (span d k) ≡ d + k
last_of-span d zero = omega arith
last_of-span d (suc k) = last_of-span (d + 1) k ∙ omega arith

-- A page is a run that starts after the cursor, and a short one reaches the end.
pub list_events-span :
    (committed after : ℕ)
    → (k : ℕ) × (list_events committed after 1000 ≡ span after k)
      × (k < 1000 → committed ≤ after + k)
unfolding list_events
list_events-span committed after = (at_most 1000 (committed - after), refl, λ h. ground arith)
