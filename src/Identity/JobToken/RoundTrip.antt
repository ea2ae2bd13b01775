-- ===== src/Identity/JobToken/RoundTrip.antt =====
-- A token that was minted is accepted until it expires, and gives its claims back.
use kapi_final.Base.{
  ℕ, ◌+◌, ◌*◌, ◌/◌, ◌==◌, ◌≡◌, ◌≤◌, refl, some-injective, ap, ◌∙◌, subst, ltb, Bool, true, false,
  ◌||◌, Bool-cases, inl, inr, Option, none, some, List, [], ◌∷◌, ◌++◌, All, arith,
}
use kapi_final.Identity.JobToken.{
  Claims, Platform, ok, is_space, trim_start, put_char, trim_end, trim, after_word, bearer,
  drop_spaces, strip_bearer, cut_at, split_at, is_empty, same_bytes, signing_key, body_of, dot,
  sign, with_key, mint, check_claims, check_signed, check_parts, verify, is_letter, seconds_or,
}

-- What the platform documents: the two codes have inverses, and base64url has neither a dot nor a
-- space and leaves nothing out; a digest is not empty.
pub record IsSound (p : Platform) : Type 0 where
  pub decodes : (b : List ℕ) → p.from_base64url (p.base64url b) ≡ b
  pub parses : (c : Claims) → p.parse (p.stringify c) ≡ some c
  pub alphabet : (b : List ℕ) → All (λ n. (n == dot || is_space n) ≡ false) (p.base64url b)
  pub nonempty : (b : List ℕ) → is_empty b ≡ false → is_empty (p.base64url b) ≡ false
  pub digest : (k t : List ℕ) → is_empty (p.hmac k t) ≡ false
  pub object : (c : Claims) → is_empty (p.stringify c) ≡ false

abbrev NoSpace : List ℕ → Type 0
NoSpace cs = All (λ c. is_space c ≡ false) cs

trim_start_same : (cs : List ℕ) → NoSpace cs → trim_start cs ≡ cs
unfolding trim_start
trim_start_same [] h = refl
trim_start_same (c ∷ cs) h = simp (h.0)

put_char_same : (c : ℕ) (cs : List ℕ) → is_space c ≡ false → put_char c cs ≡ c ∷ cs
put_char_same c [] h = simp h
put_char_same c (d ∷ ds) h = refl

trim_end_same : (cs : List ℕ) → NoSpace cs → trim_end cs ≡ cs
unfolding trim_end
trim_end_same [] h = refl
trim_end_same (c ∷ cs) h = ap (put_char c) (trim_end_same cs h.1) ∙ put_char_same c cs h.0

trim_same : (cs : List ℕ) → NoSpace cs → trim cs ≡ cs
unfolding trim
trim_same cs h = ap trim_end (trim_start_same cs h) ∙ trim_end_same cs h

-- Without a space there is nothing to strip.
after_word-NoSpace :
    (ls cs rest : List ℕ) → NoSpace cs → after_word ls cs ≡ some rest → NoSpace rest
unfolding after_word
after_word-NoSpace [] cs rest h e = subst NoSpace (some-injective cs rest e) h
after_word-NoSpace (l ∷ ls) [] rest h e = absurd (cc)
after_word-NoSpace (l ∷ ls) (c ∷ cs) rest h e = elim (Bool-cases (is_letter l c)) [
  | inl t ↦ after_word-NoSpace ls cs rest h.1 (simp t at e)
  | inr t ↦ absurd (ground (arith, t, e))
]

strip_same : (cs : List ℕ) → NoSpace cs → strip_bearer cs ≡ cs
unfolding strip_bearer
strip_same cs h = kept (after_word bearer cs) (λ rest e. after_word-NoSpace bearer cs rest h e)
  where
    kept :
        (o : Option (List ℕ))
        → ((rest : List ℕ) → o ≡ some rest → NoSpace rest)
        → drop_spaces cs o ≡ cs
    kept none k = refl
    kept (some []) k = refl
    kept (some (c ∷ rest)) k = simp ((k (c ∷ rest) refl).0)

split_span :
    (xs ys : List ℕ)
    → All (λ n. (n == dot) ≡ false) xs
    → split_at dot (xs ++ dot ∷ ys) ≡ (xs, (split_at dot ys).0 ∷ (split_at dot ys).1)
unfolding split_at
split_span [] ys h = refl
split_span (x ∷ xs) ys h = ap (cut_at dot x) (split_span xs ys h.1) ∙ simp (h.0)

same_refl : (bs : List ℕ) → same_bytes bs bs ≡ true
same_refl [] = refl
same_refl (b ∷ bs) = ground (arith, same_refl bs)

nonempty_append : (xs ys : List ℕ) → is_empty xs ≡ false → is_empty (xs ++ ys) ≡ false
nonempty_append [] ys h = absurd (cc)
nonempty_append (x ∷ xs) ys h = refl

split_none : (xs : List ℕ) → All (λ n. (n == dot) ≡ false) xs → split_at dot xs ≡ (xs, [])
unfolding split_at
split_none [] h = refl
split_none (x ∷ xs) h = ap (cut_at dot x) (split_none xs h.1) ∙ simp (h.0)

or_left : (a b : Bool) → (a || b) ≡ false → a ≡ false
or_left false b e = refl
or_left true b e = absurd (cc)

or_right : (a b : Bool) → (a || b) ≡ false → b ≡ false
or_right false b e = e
or_right true b e = absurd (cc)

no_dots :
    (xs : List ℕ)
    → All (λ n. (n == dot || is_space n) ≡ false) xs
    → All (λ n. (n == dot) ≡ false) xs
no_dots [] h = tt
no_dots (x ∷ xs) h = (or_left _ _ h.0, no_dots xs h.1)

no_spaces : (xs : List ℕ) → All (λ n. (n == dot || is_space n) ≡ false) xs → NoSpace xs
no_spaces [] h = tt
no_spaces (x ∷ xs) h = (or_right _ _ h.0, no_spaces xs h.1)

NoSpace-append : (xs ys : List ℕ) → NoSpace xs → NoSpace ys → NoSpace (xs ++ ys)
NoSpace-append [] ys h k = k
NoSpace-append (x ∷ xs) ys h k = (h.0, NoSpace-append xs ys h.1 k)

-- "Bearer "
abbrev pub scheme : List ℕ
scheme = 66 ∷ 101 ∷ 97 ∷ 114 ∷ 101 ∷ 114 ∷ 32 ∷ []

strip_scheme : (cs : List ℕ) → NoSpace cs → strip_bearer (scheme ++ cs) ≡ cs
unfolding strip_bearer after_word
strip_scheme cs h = trim_start_same cs h

module _ (p : Platform) (sound : IsSound p) (secret : Option (List ℕ)) (key : List ℕ)
    (has_key : signing_key p secret ≡ ok key) (body : Claims) where
  token-NoSpace : NoSpace (sign p body key)
  unfolding sign
  token-NoSpace =
      NoSpace-append (p.base64url (p.stringify body))
        (dot ∷ p.base64url (p.hmac key (p.base64url (p.stringify body))))
        (no_spaces _ (sound.alphabet (p.stringify body)))
        (refl, no_spaces _ (sound.alphabet (p.hmac key (p.base64url (p.stringify body)))))

  token_parts : split_at dot (sign p body key) ≡ (
    p.base64url (p.stringify body),
    p.base64url (p.hmac key (p.base64url (p.stringify body))) ∷ [],
  )
  unfolding sign
  token_parts =
      let payload = p.base64url (p.stringify body) in
      let sig = p.base64url (p.hmac key payload) in
      split_span payload sig (no_dots payload (sound.alphabet (p.stringify body)))
      ∙ ap (λ (s : List ℕ × List (List ℕ)). (payload, s.0 ∷ s.1))
          (split_none sig (no_dots sig (sound.alphabet (p.hmac key payload))))

  signed :
      (now : ℕ)
      → check_parts p secret now (split_at dot (sign p body key)) ≡ check_claims now (some body)
  unfolding check_parts check_signed
  signed now =
      let payload = p.base64url (p.stringify body) in
      let mac = p.hmac key payload in
      ap (check_parts p secret now) token_parts
      ∙ simp (
        sound.nonempty (p.stringify body) (sound.object body),
        sound.nonempty mac (sound.digest key payload),
        has_key,
        sound.decodes mac,
        same_refl mac,
        sound.decodes (p.stringify body),
        sound.parses body,
      )

  verified :
      (raw : List ℕ) (now : ℕ)
      → strip_bearer raw ≡ sign p body key
      → verify p secret (some raw) now ≡ check_claims now (some body)
  unfolding verify
  verified raw now e =
      let same : trim (strip_bearer raw) ≡ sign p body key =
        ap trim e ∙ trim_same _ token-NoSpace in
      simp (same, token_nonempty) (signed now)
    where
      token_nonempty : is_empty (sign p body key) ≡ false
      token_nonempty =
          unfold sign in
          nonempty_append (p.base64url (p.stringify body)) _
            (sound.nonempty (p.stringify body) (sound.object body))

-- Where the platform's codes have inverses, base64url gives neither a dot nor a space, and the
-- key can be read, a token that was minted for claims whose three ids are not empty is accepted
-- until it expires, bare or after the scheme, and gives the claims back with the time of expiry.
pub mint-verify :
    (p : Platform) (secret : Option (List ℕ)) (key : List ℕ) (c : Claims) (ttl : Option ℕ)
    (minted now : ℕ)
    → IsSound p
    → signing_key p secret ≡ ok key
    → is_empty c.job_id || (is_empty c.run_id || is_empty c.vm_id) ≡ false
    → now ≤ (minted / 1000 + seconds_or ttl) * 1000
    → (token : List ℕ) × (mint p secret c ttl minted ≡ ok token)
      × (verify p secret (some token) now ≡ ok (body_of c ttl minted))
      × (verify p secret (some (scheme ++ token)) now ≡ ok (body_of c ttl minted))
unfolding mint check_claims
mint-verify p secret key c ttl minted now sound has_key scoped alive =
    let body = body_of c ttl minted in
    let t = token-NoSpace p sound secret key has_key body in
    let live : ltb ((minted / 1000 + seconds_or ttl) * 1000) now ≡ false = ground (arith, alive) in
    let good : check_claims now (some body) ≡ ok body = simp (scoped, live) in
    (
      sign p body key,
      ap (λ k. with_key k (λ x. ok (sign p body x))) has_key,
      verified p sound secret key has_key body _ now (strip_same _ t) ∙ good,
      verified p sound secret key has_key body _ now (strip_scheme _ t) ∙ good,
    )
