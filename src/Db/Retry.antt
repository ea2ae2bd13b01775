-- ===== src/Db/Retry.antt =====
-- packages/db/src/index.ts: retryDeadlockedTransaction. What happens to each attempt is the
-- database's choice, a list: a deadlock rolls the attempt back whole, and the rest run as written.
use kapi_final.Base.{
  ℕ, zero, suc, ◌+◌, ◌≤◌, ◌<◌, ◌≡◌, ap, Bool, true, false, ◌||◌, List, [], ◌∷◌, leb, if◌then◌else◌,
  arith,
}
use kapi_final.Db.Tables.{Db}
use kapi_final.Db.Tx.{Tx, Outcome}

-- One attempt: it runs, or the server gives up on it with 40P01 or another error of its own.
pub data Attempt : Type 0 where
  runs deadlock broken : Attempt

pub data Retried (A : Type 0) : Type 0 where
  -- What `fn` did, in the attempt of this number.
  outcome : ℕ → Outcome A → Retried A
  -- The server's error reached the caller: was it a deadlock, and in which attempt.
  server_error : ℕ → Bool → Retried A

-- `attempt` counts from 1, and `fuel` is what `max_attempts` still allows.
retry_from : {A : Type 0} → Bool → Tx A → Db → ℕ → ℕ → List Attempt → Retried A
retry_from embedded fn db max attempt [] = outcome attempt (fn db)
retry_from embedded fn db max attempt (runs ∷ rest) = outcome attempt (fn db)
retry_from embedded fn db max attempt (broken ∷ rest) = server_error attempt false
retry_from embedded fn db max attempt (deadlock ∷ rest) =
    let again = retry_from embedded fn db max (attempt + 1) rest in
    if embedded || leb max attempt then server_error attempt true else again

pub retry_deadlocked_transaction : {A : Type 0} → Bool → Tx A → ℕ → List Attempt → Db → Retried A
unfolding retry_from
retry_deadlocked_transaction embedded fn max attempts db = retry_from embedded fn db max 1 attempts

abbrev used : {A : Type 0} → Retried A → ℕ
used (outcome n _) = n
used (server_error n _) = n

retry_from_bounded :
    {A : Type 0} (embedded : Bool) (fn : Tx A) (db : Db) (max attempt : ℕ) (xs : List Attempt)
    → attempt ≤ max
    → used (retry_from embedded fn db max attempt xs) ≤ max
unfolding retry_from
retry_from_bounded embedded fn db max attempt [] h = h
retry_from_bounded embedded fn db max attempt (runs ∷ xs) h = h
retry_from_bounded embedded fn db max attempt (broken ∷ xs) h = h
retry_from_bounded embedded fn db max attempt (deadlock ∷ xs) h =
    ground (arith, retry_from_bounded embedded fn db max (attempt + 1) xs)

-- However the server behaves, no more than `max` attempts are made, if at least one is allowed.
pub retry_bounded :
    {A : Type 0} (embedded : Bool) (fn : Tx A) (max : ℕ) (attempts : List Attempt) (db : Db)
    → 1 ≤ max
    → used (retry_deadlocked_transaction embedded fn max attempts db) ≤ max
unfolding retry_deadlocked_transaction
retry_bounded embedded fn max attempts db h = retry_from_bounded embedded fn db max 1 attempts h

abbrev pub deadlocks_then : ℕ → List Attempt → List Attempt
deadlocks_then zero rest = rest
deadlocks_then (suc k) rest = deadlock ∷ deadlocks_then k rest

retry_from_survives :
    {A : Type 0} (fn : Tx A) (db : Db) (max attempt k : ℕ) (rest : List Attempt)
    → attempt + k ≤ max
    → retry_from false fn db max attempt (deadlocks_then k (runs ∷ rest))
      ≡ outcome (attempt + k) (fn db)
unfolding retry_from
retry_from_survives fn db max attempt zero rest h = ap (λ n. outcome n (fn db)) (omega arith)
retry_from_survives fn db max attempt (suc k) rest h =
    ground (arith, retry_from_survives fn db max (attempt + 1) k rest)

-- On a served database, a transaction whose first attempts deadlock, fewer than the attempts
-- allowed, and that then runs, has the outcome of one run on the database as it was.
pub retry_survives :
    {A : Type 0} (fn : Tx A) (max k : ℕ) (rest : List Attempt) (db : Db)
    → k < max
    → retry_deadlocked_transaction false fn max (deadlocks_then k (runs ∷ rest)) db
      ≡ outcome (1 + k) (fn db)
unfolding retry_deadlocked_transaction
retry_survives fn max k rest db h = retry_from_survives fn db max 1 k rest (omega arith)
