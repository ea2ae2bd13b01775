-- ===== src/ControlPlane/Admission/Admits.antt =====
-- What a reservation of a model call does, on every branch.
use kapi_final.Base.{
  ℕ, ◌+◌, ◌==◌, ◌≡◌, ◌≢◌, ◌≤◌, ◌<◌, ◌⊎◌, refl, true, false, none, some, ◌∷◌, arith, row_of,
  row_of-update, row_of_sound, All-everywhere, update_where, ==_iff, Bool-cases, Option-cases, inl,
  inr, leb,
}
use kapi_final.Db.Tables.{Db, Run, Reservation}
use kapi_final.Db.Tx.{
  Outcome, done, throw, not_admitted, duplicate_key, ◌>>=◌, pure, fail_with, update_runs,
  update_reservations,
}
use kapi_final.Invariant.Steps.{is_run_terminal}
use kapi_final.Invariant.Whole.{run_id}
use kapi_final.ControlPlane.Admission.{
  Limits, active, held, is_busy, is_spent, insert_reservation, admit, reserve_for, reserve_run,
  reserve_model_call, count_request,
}
use kapi_final.ControlPlane.Admission.Ledger.{reserved, reservation_id}

-- The number of calls of the run, or of the user, that may be made at a time is reached.
abbrev pub IsCrowded : Limits → (run_id user_id now : ℕ) → Db → Type 0
IsCrowded l run_id user_id now db =
    (l.run_limit ≤ active (λ r. r.run_id == run_id) now db.reservations)
    ⊎ (l.user_limit ≤ active (λ r. r.user_id == user_id) now db.reservations)

-- The run has no request left, or not the tokens.
abbrev pub IsExhausted : Run → ℕ → Db → Type 0
IsExhausted r tokens db =
    (r.max_llm_requests ≤ r.llm_requests)
    ⊎ (r.max_tokens < r.llm_tokens + held r.id db.reservations + tokens)

-- What an admitted call leaves: the reservation, and one more request of the run.
pub record IsAdmitted (l : Limits) (id user tokens now : ℕ) (r : Run) (db db' : Db) : Type 0 where
  pub stored :
      db'.reservations
      ≡ record {
        id = id;
        run_id = r.id;
        user_id = user;
        tokens = tokens;
        expires_at = now + l.lifetime_ms;
      }
        ∷ db.reservations
  pub counted : row_of run_id r.id db'.runs ≡ some (record r { llm_requests = r.llm_requests + 1 })
  pub others : (i : ℕ) → i ≢ r.id → row_of run_id i db'.runs ≡ row_of run_id i db.runs
  pub uncharged : db'.artifacts ≡ db.artifacts

pub data ReserveOutcome (l : Limits) (id user tokens now : ℕ) (r : Run) (db : Db)
    : Outcome ℕ → Type 0 where
  over :
      is_run_terminal r.status ≡ true
      → ReserveOutcome l id user tokens now r db (throw (not_admitted false))
  crowded :
      is_run_terminal r.status ≡ false
      → IsCrowded l r.id user now db
      → ReserveOutcome l id user tokens now r db (throw (not_admitted true))
  exhausted :
      is_run_terminal r.status ≡ false
      → (IsCrowded l r.id user now db → ⊥)
      → IsExhausted r tokens db
      → ReserveOutcome l id user tokens now r db (throw (not_admitted false))
  taken :
      (x : Reservation)
      → row_of reservation_id id db.reservations ≡ some x
      → ReserveOutcome l id user tokens now r db (throw (duplicate_key id))
  admitted :
      is_run_terminal r.status ≡ false
      → (IsCrowded l r.id user now db → ⊥)
      → (IsExhausted r tokens db → ⊥)
      → row_of reservation_id id db.reservations ≡ none
      → (db' : Db) → IsAdmitted l id user tokens now r db db'
      → ReserveOutcome l id user tokens now r db (done id db')

module _ (l : Limits) (run user now : ℕ) (db : Db) where
  IsCrowded-of_busy : is_busy l run user now db.reservations ≡ true → IsCrowded l run user now db
  unfolding is_busy
  IsCrowded-of_busy h =
      elim (Bool-cases (leb l.run_limit (active (λ r. r.run_id == run) now db.reservations))) [
        | inl t ↦ inl (ground arith)
        | inr t ↦ inr (ground arith)
      ]

  is_busy-of_crowded : IsCrowded l run user now db → is_busy l run user now db.reservations ≡ true
  unfolding is_busy
  is_busy-of_crowded (inl h) = ground arith
  is_busy-of_crowded (inr h) = ground arith

module _ (r : Run) (tokens : ℕ) (db : Db) where
  IsExhausted-of_spent : is_spent r tokens db.reservations ≡ true → IsExhausted r tokens db
  unfolding is_spent
  IsExhausted-of_spent h = elim (Bool-cases (leb r.max_llm_requests r.llm_requests)) [
    | inl t ↦ inl (ground arith)
    | inr t ↦ inr (ground arith)
  ]

  is_spent-of_exhausted : IsExhausted r tokens db → is_spent r tokens db.reservations ≡ true
  unfolding is_spent
  is_spent-of_exhausted (inl h) = ground arith
  is_spent-of_exhausted (inr h) = ground arith

abbrev with_call : Limits → (id user tokens now : ℕ) → Run → Db → Db
with_call l id user tokens now r db = record db {
  runs = update_where (λ x. x.id == r.id) count_request db.runs;
  reservations = reserved l id user tokens now r ∷ db.reservations;
}

with_call-IsAdmitted :
    (l : Limits) (id user tokens now : ℕ) (r : Run) (db : Db)
    → row_of run_id r.id db.runs ≡ some r
    → IsAdmitted l id user tokens now r db (with_call l id user tokens now r db)
with_call-IsAdmitted l id user tokens now r db own =
    let moved = λ (i : ℕ).
      row_of-update run_id (λ x. x.id == r.id) count_request i db.runs
        (All-everywhere db.runs (λ x _. refl)) in
    record {
      stored = refl;
      counted = ground (arith, moved r.id, own, ==_iff r.id r.id);
      others = λ i n. elim (Option-cases (row_of run_id i db.runs)) [
        | inl e ↦ ground (arith, moved i, e)
        | inr (x, e) ↦
            ground (arith, moved i, e, row_of_sound run_id i db.runs e, ==_iff x.id r.id, n)
      ];
      uncharged = refl;
    }

-- Where the run exists, a reservation of a model call ends in one of five ways. It is not
-- admitted, for good, where the run is over, and for the moment where the calls of the run or of
-- the user that are under way reach their limit; then, again for good, where the run has no
-- request left or not the tokens, those that other calls hold included. It fails where the id is
-- taken. Else it commits: the reservation is stored with the run, the user, its tokens and the
-- time it expires, the run's row has one more request and nothing else changed, and no other run
-- changes.
pub reserve_model_call_lem :
    (l : Limits) (id user tokens now : ℕ) (r : Run) (db : Db)
    → row_of run_id r.id db.runs ≡ some r
    → ReserveOutcome l id user tokens now r db (reserve_model_call l id r.id user tokens now db)
unfolding reserve_model_call reserve_run reserve_for admit insert_reservation fail_with ◌>>=◌ pure
    update_runs update_reservations
reserve_model_call_lem l id user tokens now r db own =
    elim (Bool-cases (is_run_terminal r.status)) [
      | inl t ↦ rw own (rw t (over t))
      | inr t ↦ elim (Bool-cases (is_busy l r.id user now db.reservations)) [
        | inl b ↦ rw own (rw t (rw b (crowded t (IsCrowded-of_busy l r.id user now db b))))
        | inr b ↦
            let free : IsCrowded l r.id user now db → ⊥ =
              λ c. cc (b, is_busy-of_crowded l r.id user now db c) in
            elim (Bool-cases (is_spent r tokens db.reservations)) [
              | inl s ↦
                  rw own
                    (rw t (rw b (rw s (exhausted t free (IsExhausted-of_spent r tokens db s)))))
              | inr s ↦ elim (Option-cases (row_of reservation_id id db.reservations)) [
                | inr (x, e) ↦ rw own (rw t (rw b (rw s (rw e (taken x e)))))
                | inl e ↦ rw own (
                    rw t (
                      rw b (
                        rw s (
                          rw e (
                            admitted t free (λ x. cc (s, is_spent-of_exhausted r tokens db x)) e
                              (with_call l id user tokens now r db)
                              (with_call-IsAdmitted l id user tokens now r db own))))))
              ]
            ]
      ]
    ]
