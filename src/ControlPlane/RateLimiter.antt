-- ===== src/ControlPlane/RateLimiter.antt =====
-- apps/control-plane/src/rate-limiter.ts: a fixed window per caller. The digest of an address is a
-- number; resolving the address and starting the cleanup in the background are left out.
use kapi_final.Base.{
  ℕ, ◌+◌, ◌-◌, ◌*◌, ◌/◌, ◌==◌, ◌≡◌, ◌≤◌, refl, leb, ltb, Bool, not, ◌&&◌, List, [], ◌∷◌, select,
  if◌then◌else◌, arith, ==_iff, All,
}

-- A row of api_rate_limits.
pub record Bucket : Type 0 where
  pub subject : ℕ
  pub start : ℕ
  pub count : ℕ

pub record Decision : Type 0 where
  pub allowed : Bool
  pub limit : ℕ
  pub remaining : ℕ
  pub reset_at : ℕ

abbrev is_bucket : ℕ → ℕ → Bucket → Bool
is_bucket subject start b = b.subject == subject && b.start == start

-- INSERT ... ON CONFLICT DO UPDATE SET count = count + 1
unfoldable pub count_up : (subject start : ℕ) → List Bucket → List Bucket
count_up subject start [] = record { subject = subject; start = start; count = 1 } ∷ []
count_up subject start (b ∷ bs) =
    if is_bucket subject start b
    then record b { count = b.count + 1 } ∷ bs
    else b ∷ count_up subject start bs

unfoldable pub count_of : (subject start : ℕ) → List Bucket → ℕ
count_of subject start [] = 0
count_of subject start (b ∷ bs) =
    if is_bucket subject start b then b.count else count_of subject start bs

unfoldable pub bucket_start : (window now : ℕ) → ℕ
bucket_start window now = now / window * window

unfoldable pub consume : (limit window subject now : ℕ) → List Bucket → Decision × List Bucket
consume limit window subject now bs =
    let start = bucket_start window now in
    let after = count_up subject start bs in
    let count = count_of subject start after in
    (
      record {
        allowed = leb count limit;
        limit = limit;
        remaining = limit - count;
        reset_at = start + window;
      },
      after,
    )

-- DELETE FROM api_rate_limits WHERE bucket_start < $1
unfoldable pub clean_up : ℕ → List Bucket → List Bucket
clean_up cutoff = select (λ b. not (ltb b.start cutoff))

pub data LimiterStep : Type 0 where
  consumes : (subject now : ℕ) → LimiterStep
  cleans : (cutoff : ℕ) → LimiterStep

-- How many calls of a subject in one window are allowed.
unfoldable pub allowed_calls : (limit window subject start : ℕ) → List LimiterStep → List Bucket → ℕ
allowed_calls limit window subject start [] bs = 0
allowed_calls limit window subject start (consumes s now ∷ steps) bs =
    let (d, after) = consume limit window s now bs in
    let counts = (s == subject && bucket_start window now == start) && d.allowed in
    (if counts then 1 else 0) + allowed_calls limit window subject start steps after
allowed_calls limit window subject start (cleans cutoff ∷ steps) bs =
    allowed_calls limit window subject start steps (clean_up cutoff bs)

count_of-count_up :
    (s a t b : ℕ) (bs : List Bucket)
    → count_of s a (count_up t b bs)
      ≡ (if t == s && b == a then count_of s a bs + 1 else count_of s a bs)
unfolding count_of count_up
count_of-count_up s a t b [] = ground arith
count_of-count_up s a t b (x ∷ bs) = ground (
  arith,
  count_of-count_up s a t b bs,
  ==_iff t s,
  ==_iff b a,
  ==_iff x.subject s,
  ==_iff x.start a,
  ==_iff x.subject t,
  ==_iff x.start b,
)

-- A cleanup before the window leaves its count alone.
count_of-clean_up :
    (s a cutoff : ℕ) (bs : List Bucket)
    → cutoff ≤ a
    → count_of s a (clean_up cutoff bs) ≡ count_of s a bs
unfolding count_of clean_up select
count_of-clean_up s a cutoff [] h = refl
count_of-clean_up s a cutoff (x ∷ bs) h =
    ground (arith, count_of-clean_up s a cutoff bs h, ==_iff x.start a)

abbrev pub SparesWindow : ℕ → LimiterStep → Type 0
SparesWindow start (consumes s now) = Unit
SparesWindow start (cleans cutoff) = cutoff ≤ start

-- Whatever calls come and whatever cleanups of earlier windows run between them, no more calls of
-- a subject are allowed in a window than the limit less those that its bucket counts already.
pub allowed_calls_le :
    (limit window subject start : ℕ) (steps : List LimiterStep) (bs : List Bucket)
    → All (SparesWindow start) steps
    → allowed_calls limit window subject start steps bs ≤ limit - count_of subject start bs
unfolding allowed_calls consume
allowed_calls_le limit window subject start [] bs h = omega arith
allowed_calls_le limit window subject start (consumes s now ∷ steps) bs h =
    let b = bucket_start window now in
    ground (
      arith,
      allowed_calls_le limit window subject start steps (count_up s b bs) h.1,
      count_of-count_up subject start s b bs,
      count_of-count_up s b s b bs,
      ==_iff s subject,
      ==_iff b start,
      ==_iff s s,
      ==_iff b b,
    )
allowed_calls_le limit window subject start (cleans cutoff ∷ steps) bs h = ground (
  arith,
  allowed_calls_le limit window subject start steps (clean_up cutoff bs) h.1,
  count_of-clean_up subject start cutoff bs h.0,
)
