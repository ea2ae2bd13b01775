-- ===== src/Identity/JobToken.antt =====
-- packages/identity/src/job-token.ts. A string is the list of its code units, a buffer that of its
-- bytes. HMAC, base64, UTF-8 and JSON are the platform's: the fields of `Platform`.
pub mod RoundTrip
use kapi_final.Base.{
  ℕ, ◌+◌, ◌*◌, ◌/◌, ◌==◌, leb, ltb, Bool, true, false, ◌&&◌, ◌||◌, Option, none, some, List, [],
  ◌∷◌, ◌++◌, length, if◌then◌else◌,
}

-- What JSON.parse gives: a string that is missing is empty, and `exp` is none unless it is a number.
pub record Claims : Type 0 where
  pub job_id : List ℕ
  pub run_id : List ℕ
  pub vm_id : List ℕ
  pub exp : Option ℕ

pub record Platform : Type 0 where
  pub hmac : (key text : List ℕ) → List ℕ
  pub base64url : List ℕ → List ℕ
  pub from_base64url : List ℕ → List ℕ
  pub from_base64 : List ℕ → List ℕ
  -- JSON.stringify, in UTF-8, and its inverse; none where it throws.
  pub stringify : Claims → List ℕ
  pub parse : List ℕ → Option Claims

pub data TokenError : Type 0 where
  no_key bad_key missing malformed unsigned unreadable unscoped expired : TokenError

pub data Result (A : Type 0) : Type 0 where
  ok : A → Result A
  error : TokenError → Result A

abbrev pub is_space : ℕ → Bool
is_space c = c == 32 || (leb 9 c && leb c 13)

unfoldable pub trim_start : List ℕ → List ℕ
trim_start [] = []
trim_start (c ∷ cs) = let rest = trim_start cs in if is_space c then rest else c ∷ cs

-- The empty end of a string is cut.
abbrev pub put_char : ℕ → List ℕ → List ℕ
put_char c [] = if is_space c then [] else c ∷ []
put_char c (d ∷ ds) = c ∷ d ∷ ds

unfoldable pub trim_end : List ℕ → List ℕ
trim_end [] = []
trim_end (c ∷ cs) = put_char c (trim_end cs)

unfoldable pub trim : List ℕ → List ℕ
trim cs = trim_end (trim_start cs)

-- The letter in either case.
abbrev pub is_letter : ℕ → ℕ → Bool
is_letter l c = c == l || c + 32 == l

-- The rest after "Bearer", in any case, if the string starts with it.
unfoldable pub after_word : List ℕ → List ℕ → Option (List ℕ)
after_word [] cs = some cs
after_word (l ∷ ls) [] = none
after_word (l ∷ ls) (c ∷ cs) = let rest = after_word ls cs in if is_letter l c then rest else none

abbrev pub bearer : List ℕ
bearer = 98 ∷ 101 ∷ 97 ∷ 114 ∷ 101 ∷ 114 ∷ []

-- A space must follow the word.
abbrev pub drop_spaces : List ℕ → Option (List ℕ) → List ℕ
drop_spaces whole none = whole
drop_spaces whole (some []) = whole
drop_spaces whole (some (c ∷ cs)) = if is_space c then trim_start cs else whole

-- replace(/^Bearer\s+/i, "")
unfoldable pub strip_bearer : List ℕ → List ℕ
strip_bearer cs = drop_spaces cs (after_word bearer cs)

-- split("."): never empty.
abbrev pub cut_at : ℕ → ℕ → List ℕ × List (List ℕ) → List ℕ × List (List ℕ)
cut_at dot c (part, parts) = if c == dot then ([], part ∷ parts) else (c ∷ part, parts)

unfoldable pub split_at : ℕ → List ℕ → List ℕ × List (List ℕ)
split_at dot [] = ([], [])
split_at dot (c ∷ cs) = cut_at dot c (split_at dot cs)

abbrev pub second : List (List ℕ) → List ℕ
second [] = []
second (p ∷ ps) = p

-- "kapi/job-token/v1"
abbrev pub purpose : List ℕ
purpose =
    107 ∷ 97 ∷ 112 ∷ 105 ∷ 47 ∷ 106 ∷ 111 ∷ 98 ∷ 45 ∷ 116 ∷ 111 ∷ 107 ∷ 101 ∷ 110 ∷ 47 ∷ 118 ∷ 49
    ∷ []

abbrev pub is_empty : List ℕ → Bool
is_empty [] = true
is_empty (_ ∷ _) = false

abbrev pub same_bytes : List ℕ → List ℕ → Bool
same_bytes [] [] = true
same_bytes (a ∷ as') (b ∷ bs) = a == b && same_bytes as' bs
same_bytes _ _ = false

abbrev keyed : Platform → List ℕ → Result (List ℕ)
keyed p master = if length master == 32 then ok (p.hmac master purpose) else error bad_key

abbrev text_or_empty : Option (List ℕ) → List ℕ
text_or_empty none = []
text_or_empty (some s) = s

-- signingKey, from the variable KAPI_SECRET_KEY
unfoldable pub signing_key : Platform → Option (List ℕ) → Result (List ℕ)
signing_key p secret =
    let raw = trim (text_or_empty secret) in
    if is_empty raw then error no_key else keyed p (p.from_base64 raw)

abbrev pub seconds_or : Option ℕ → ℕ
seconds_or none = 6 * 60 * 60
seconds_or (some s) = s

abbrev pub body_of : Claims → (ttl : Option ℕ) → (now : ℕ) → Claims
body_of c ttl now = record c { exp = some (now / 1000 + seconds_or ttl) }

abbrev pub dot : ℕ
dot = 46

unfoldable pub sign : Platform → Claims → List ℕ → List ℕ
sign p body key =
    let payload = p.base64url (p.stringify body) in
    payload ++ dot ∷ p.base64url (p.hmac key payload)

abbrev pub with_key : {A : Type 0} → Result (List ℕ) → (List ℕ → Result A) → Result A
with_key (ok key) f = f key
with_key (error e) f = error e

-- mintJobToken; `exp` of the claims that are given is not read.
unfoldable pub mint :
    Platform → Option (List ℕ) → Claims → (ttl : Option ℕ) → (now : ℕ) → Result (List ℕ)
mint p secret c ttl now =
    with_key (signing_key p secret) (λ key. ok (sign p (body_of c ttl now) key))

abbrev is_expired : ℕ → Option ℕ → Bool
is_expired now none = true
is_expired now (some e) = ltb (e * 1000) now

unfoldable pub check_claims : ℕ → Option Claims → Result Claims
check_claims now none = error unreadable
check_claims now (some c) =
    if is_empty c.job_id || (is_empty c.run_id || is_empty c.vm_id)
    then error unscoped
    else if is_expired now c.exp
    then error expired
    else ok c

-- The comparison of the signatures, and the claims.
unfoldable pub check_signed : Platform → ℕ → (payload sig key : List ℕ) → Result Claims
check_signed p now payload sig key =
    if same_bytes (p.from_base64url sig) (p.hmac key payload)
    then check_claims now (p.parse (p.from_base64url payload))
    else error unsigned

unfoldable pub check_parts : Platform → Option (List ℕ) → ℕ → List ℕ × List (List ℕ) → Result Claims
check_parts p secret now (payload, rest) =
    if is_empty payload || is_empty (second rest)
    then error malformed
    else with_key (signing_key p secret) (check_signed p now payload (second rest))

-- verifyJobToken
unfoldable pub verify : Platform → Option (List ℕ) → Option (List ℕ) → (now : ℕ) → Result Claims
verify p secret token now =
    let raw = trim (strip_bearer (text_or_empty token)) in
    if is_empty raw then error missing else check_parts p secret now (split_at dot raw)
