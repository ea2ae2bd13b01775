-- ===== src/Tests/TokenTests.antt =====
-- Job tokens on a small platform: codes that have inverses, and a digest that is a sum.
use kapi_final.Base.{
  ℕ, zero, suc, ◌+◌, ◌-◌, ◌==◌, ◌≡◌, refl, ap, false, ◌||◌, Option, none, some, List, [], ◌∷◌, ◌++◌,
  map, length, take, drop, All, arith,
}
use kapi_final.Identity.JobToken.{
  Claims, Platform, ok, is_space, dot, mint, verify, signing_key, body_of, trim, trim_start,
  trim_end, is_empty,
}
use kapi_final.Identity.JobToken.RoundTrip.{IsSound, mint-verify, scheme}

abbrev write_exp : Option ℕ → List ℕ
write_exp none = []
write_exp (some e) = e ∷ []

abbrev read_exp : List ℕ → Option ℕ
read_exp [] = none
read_exp (e ∷ _) = some e

-- A string after its length.
abbrev write : List ℕ → List ℕ → List ℕ
write s rest = length s ∷ (s ++ rest)

abbrev head_of : List ℕ → List ℕ
head_of [] = []
head_of (n ∷ cs) = take n cs

abbrev rest_of : List ℕ → List ℕ
rest_of [] = []
rest_of (n ∷ cs) = drop n cs

abbrev write_claims : Claims → List ℕ
write_claims c = write c.job_id (write c.run_id (write c.vm_id (write_exp c.exp)))

abbrev read_claims : List ℕ → Option Claims
read_claims cs = some (record {
  job_id = head_of cs;
  run_id = head_of (rest_of cs);
  vm_id = head_of (rest_of (rest_of cs));
  exp = read_exp (rest_of (rest_of (rest_of cs)));
})

take_all : (xs ys : List ℕ) → take (length xs) (xs ++ ys) ≡ xs
take_all [] ys = refl
take_all (x ∷ xs) ys = ap (◌∷◌ x) (take_all xs ys)

drop_all : (xs ys : List ℕ) → drop (length xs) (xs ++ ys) ≡ ys
drop_all [] ys = refl
drop_all (x ∷ xs) ys = drop_all xs ys

read_write_exp : (o : Option ℕ) → read_exp (write_exp o) ≡ o
read_write_exp none = refl
read_write_exp (some e) = refl

read_write : (c : Claims) → read_claims (write_claims c) ≡ some c
read_write c = simp (take_all, drop_all, read_write_exp)

abbrev lift : List ℕ → List ℕ
lift = map (λ n. n + 100)

abbrev lower : List ℕ → List ℕ
lower = map (λ n. n - 100)

lower-lift : (b : List ℕ) → lower (lift b) ≡ b
lower-lift [] = refl
lower-lift (n ∷ ns) = ground (arith, lower-lift ns)

lifted : (b : List ℕ) → All (λ n. (n == dot || is_space n) ≡ false) (lift b)
lifted [] = tt
lifted (n ∷ ns) = (ground arith, lifted ns)

lift_nonempty : (b : List ℕ) → is_empty b ≡ false → is_empty (lift b) ≡ false
lift_nonempty [] h = h
lift_nonempty (n ∷ ns) h = refl

abbrev toy : Platform
toy = record {
  hmac = λ k t. (length k + length t) ∷ [];
  base64url = lift;
  from_base64url = lower;
  from_base64 = λ cs. cs;
  stringify = write_claims;
  parse = read_claims;
}

toy-IsSound : IsSound toy
toy-IsSound = record {
  decodes = lower-lift;
  parses = read_write;
  alphabet = lifted;
  nonempty = lift_nonempty;
  digest = λ k t. refl;
  object = λ c. refl;
}

abbrev repeat : ℕ → List ℕ
repeat zero = []
repeat (suc n) = 65 ∷ repeat n

abbrev scope : Claims
scope = record { job_id = 7 ∷ []; run_id = 1 ∷ []; vm_id = 5 ∷ []; exp = none }

mint-verify_example :
    (token : List ℕ) × (mint toy (some (repeat 32)) scope (some 60) 1000 ≡ ok token)
    × (verify toy (some (repeat 32)) (some token) 5000 ≡ ok (body_of scope (some 60) 1000))
    × (verify toy (some (repeat 32)) (some (scheme ++ token)) 5000
        ≡ ok (body_of scope (some 60) 1000))
unfolding signing_key trim trim_start trim_end
mint-verify_example =
    mint-verify toy (some (repeat 32)) (49 ∷ []) scope (some 60) 1000 5000 toy-IsSound refl refl
      (omega arith)
