-- ===== src/Llm/Types.antt =====
-- packages/llm/src/types.ts: why a model call failed.
use Prim.Native.Char.{code}
use kapi_final.Base.{
  ℕ, ◌+◌, ◌≡◌, ◌==◌, leb, Bool, true, false, ◌&&◌, ◌||◌, not, Option, none, some, List, [], ◌∷◌,
  map, String, if◌then◌else◌, refl,
}

pub data ModelTier : Type 0 where
  reasoning coding cheap : ModelTier

pub data ProviderId : Type 0 where
  codex : ProviderId

pub record Candidate : Type 0 where
  pub provider : ProviderId
  pub model_id : String

pub data FailureKind : Type 0 where
  quota missing auth transient fatal : FailureKind

-- What a provider's error shows: a status code and a message, by its code points.
pub record CallError : Type 0 where
  pub status : Option ℕ
  pub message : List ℕ

abbrev pub codes : String → List ℕ
codes String.[] = []
codes (String.◌∷◌ c s) = code c ∷ codes s

-- `toLowerCase`, on ASCII.
abbrev lower : ℕ → ℕ
lower c = if leb 65 c && leb c 90 then c + 32 else c

-- The remainder after a prefix.
unfoldable pub after_prefix : List ℕ → List ℕ → Option (List ℕ)
after_prefix [] s = some s
after_prefix (p ∷ ps) [] = none
after_prefix (p ∷ ps) (c ∷ s) = if p == c then after_prefix ps s else none

abbrev is_some : Option (List ℕ) → Bool
is_some none = false
is_some (some _) = true

-- /p/
unfoldable pub contains : List ℕ → List ℕ → Bool
contains p [] = is_some (after_prefix p [])
contains p (c ∷ s) = is_some (after_prefix p (c ∷ s)) || contains p s

-- A dot matches all but the ends of a line.
abbrev line_end : ℕ → Bool
line_end c = c == 10 || (c == 13 || (c == 0x2028 || c == 0x2029))

-- /^.?q/ and /^.*q/
unfoldable pub gap_then : List ℕ → List ℕ → Bool
gap_then q [] = is_some (after_prefix q [])
gap_then q (c ∷ s) =
    is_some (after_prefix q (c ∷ s)) || (not (line_end c) && is_some (after_prefix q s))

unfoldable pub later_then : List ℕ → List ℕ → Bool
later_then q [] = is_some (after_prefix q [])
later_then q (c ∷ s) = is_some (after_prefix q (c ∷ s)) || (not (line_end c) && later_then q s)

abbrev on_rest : (List ℕ → Bool) → Option (List ℕ) → Bool
on_rest f none = false
on_rest f (some s) = f s

-- /p.?q/ and /p.*q/, by `f` for what follows `p`.
unfoldable pub contains_then : List ℕ → (List ℕ → Bool) → List ℕ → Bool
contains_then p f [] = on_rest f (after_prefix p [])
contains_then p f (c ∷ s) = on_rest f (after_prefix p (c ∷ s)) || contains_then p f s

abbrev any_of : List String → List ℕ → Bool
any_of [] s = false
any_of (w ∷ ws) s = contains (codes w) s || any_of ws s

abbrev status_is : ℕ → Option ℕ → Bool
status_is n none = false
status_is n (some s) = s == n

unfoldable pub says_quota : List ℕ → Bool
unfolding contains contains_then gap_then later_then after_prefix
says_quota s =
    any_of ("quota" ∷ "resource_exhausted" ∷ "too many requests" ∷ []) s
    || contains_then (codes "rate") (gap_then (codes "limit")) s

unfoldable pub says_missing : List ℕ → Bool
unfolding contains contains_then gap_then later_then after_prefix
says_missing s = any_of ("not found" ∷ "does not exist" ∷ "unknown model" ∷ "no such model" ∷ []) s

unfoldable pub says_auth : List ℕ → Bool
unfolding contains contains_then gap_then later_then after_prefix
says_auth s =
    any_of ("unauthori" ∷ "permission denied" ∷ []) s
    || (contains_then (codes "invalid") (later_then (codes "api key")) s
        || contains_then (codes "invalid") (later_then (codes "token")) s)

unfoldable pub says_fatal : List ℕ → Bool
unfolding contains contains_then gap_then later_then after_prefix
says_fatal s =
    any_of ("unsupported" ∷ "schema" ∷ []) s
    || contains_then (codes "invalid") (gap_then (codes "request")) s

-- The last two tests of the source, a status of 500 or more and a network word, give what the end
-- of the function gives.
unfoldable pub classify_failure : CallError → FailureKind
classify_failure e =
    let s = map lower e.message in
    if status_is 429 e.status || says_quota s
    then quota
    else if status_is 404 e.status || says_missing s
    then missing
    else if status_is 401 e.status || (status_is 403 e.status || says_auth s)
    then auth
    else if status_is 400 e.status || (status_is 422 e.status || says_fatal s)
    then fatal
    else transient

rate_limited : classify_failure (record { status = none; message = codes "Rate-Limit hit" }) ≡ quota
unfolding classify_failure says_quota
rate_limited = refl

bad_key :
    classify_failure (record { status = none; message = codes "Invalid or bad API key" }) ≡ auth
unfolding classify_failure says_quota says_missing says_auth
bad_key = refl
