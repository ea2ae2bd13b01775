-- ===== src/ControlPlane/Admission/Ledger.antt =====
-- The tokens of a run: what it has spent and what its calls hold stay within its budget.
use kapi_final.Base.{
  ℕ, ◌+◌, ◌==◌, ◌≡◌, ◌≤◌, refl, sym, ap, ◌∙◌, true, false, Bool, inl, inr, Option, Option-cases,
  none, some, List, [], ◌∷◌, select, if◌then◌else◌, arith, find, row_of, row_of_sound,
  row_of-update, All-everywhere, update_where, ==_iff,
}
use kapi_final.Db.Tables.{Db, Run, Reservation, UsageReceipt, UsageStatus, actual, estimated}
use kapi_final.Db.Tx.{
  Holds, ◌>>=◌, pure, update_runs, update_artifacts, update_reservations, query, fail_with,
  not_admitted,
}
use kapi_final.Invariant.Steps.{is_run_terminal}
use kapi_final.Invariant.Whole.{run_id}
use kapi_final.ControlPlane.Admission.{
  Limits, Charge, held, is_busy, is_spent, insert_reservation, reserve_for, reserve_run,
  reserve_model_call, call_of, without, charge_of, charge_in, charge_run, settle_charge,
  settle_model_call, count_request, or_tokens, is_actual, admit,
}

abbrev pub reservation_id : Reservation → ℕ
reservation_id r = r.id

-- No run has spent and reserved more tokens than it may.
abbrev pub IsWithin : Db → Type 0
IsWithin db =
    (id : ℕ) (r : Run)
    → row_of run_id id db.runs ≡ some r
    → r.llm_tokens + held id db.reservations ≤ r.max_tokens

held-without : (run id : ℕ) (rs : List Reservation) → held run (without id rs) ≤ held run rs
unfolding held without select
held-without run id [] = omega arith
held-without run id (r ∷ rs) = ground (arith, held-without run id rs)

-- A reservation that is taken away holds its tokens no longer.
held_own :
    (id : ℕ) (rs : List Reservation) {x : Reservation}
    → row_of reservation_id id rs ≡ some x
    → held x.run_id (without id rs) + x.tokens ≤ held x.run_id rs
unfolding held without select row_of find
held_own id [] e = absurd (ground arith)
held_own id (r ∷ rs) {x} e =
    ground (arith, held_own id rs {x = x}, held-without x.run_id id rs, ==_iff x.run_id x.run_id)

-- The actual usage that is reported, if any, is at most what was reserved or estimated for the call.
abbrev pub IsCovered : Option ℕ → Option UsageReceipt → Option Reservation → Type 0
IsCovered measured (some old) reserved = or_tokens measured old.tokens ≤ old.tokens
IsCovered measured none (some r) = or_tokens measured r.tokens ≤ r.tokens
IsCovered measured none none = Unit

abbrev pub IsCoveredIn : ℕ → Option ℕ → Db → Type 0
IsCoveredIn id measured db =
    IsCovered measured (row_of call_of id (db.artifacts).usage)
      (row_of reservation_id id db.reservations)

-- Such a charge is met by what the reservation gives back and what was charged before.
abbrev IsMet : ℕ → List Reservation → Option Charge → Type 0
IsMet id rs none = Unit
IsMet id rs (some c) = c.tokens + held c.run_id (without id rs) ≤ c.before + held c.run_id rs

charge_of-IsMet :
    (id : ℕ) (measured : Option ℕ) (rs : List Reservation) (old : Option UsageReceipt)
    → (reserved : Option Reservation) → row_of reservation_id id rs ≡ reserved
    → IsCovered measured old reserved
    → IsMet id rs (charge_of measured old reserved)
unfolding charge_of
charge_of-IsMet id measured rs (some old) reserved e h = by_status old.status
  where
    by_status :
        (s : UsageStatus)
        → IsMet id rs (
            if is_actual s
            then none
            else some (record {
              run_id = old.run_id;
              tokens = or_tokens measured old.tokens;
              before = old.tokens;
            }))
    by_status actual = tt
    by_status estimated = omega (arith, h, held-without old.run_id id rs)
charge_of-IsMet id measured rs none none e h = tt
charge_of-IsMet id measured rs none (some r) e h = omega (arith, h, held_own id rs e)

charged-IsWithin :
    (id : ℕ) (measured : Option ℕ) (o : Option Charge) (db : Db)
    → IsMet id db.reservations o
    → IsWithin db
    → Holds IsWithin (settle_charge id measured o db)
unfolding settle_charge ◌>>=◌ pure update_runs update_artifacts update_reservations charge_run
charged-IsWithin id measured none db m w = w
charged-IsWithin id measured (some c) db m w = λ k r e.
    let moved =
      row_of-update run_id (λ x. x.id == c.run_id) (charge_run c) k db.runs
        (All-everywhere db.runs (λ x _. refl)) in
    elim (Option-cases (row_of run_id k db.runs)) [
      | inl n ↦ absurd (ground (arith, moved))
      | inr (x, f) ↦
          let same : k ≡ c.run_id → held k db.reservations ≡ held c.run_id db.reservations =
            λ q. ap (λ i. held i db.reservations) q in
          let same' : k ≡ c.run_id
              → held k (without id db.reservations) ≡ held c.run_id (without id db.reservations) =
            λ q. ap (λ i. held i (without id db.reservations)) q in
          ground (
            arith,
            e,
            moved,
            f,
            w k x f,
            row_of_sound run_id k db.runs f,
            held-without k id db.reservations,
            m,
            same,
            same',
            ==_iff x.id c.run_id,
          )
    ]

-- If every run's spent and reserved tokens are within its limit, and the usage reported for a
-- call, if any, is at most what was reserved or estimated for it, they still are after the call
-- is settled.
pub settle-IsWithin :
    (id : ℕ) (measured : Option ℕ) (db : Db)
    → IsCoveredIn id measured db
    → IsWithin db
    → Holds IsWithin (settle_model_call id measured db)
unfolding settle_model_call charge_in query ◌>>=◌
settle-IsWithin id measured db h w =
    charged-IsWithin id measured (charge_in id measured db) db
      (charge_of-IsMet id measured db.reservations _ _ refl h) w

abbrev pub reserved : Limits → (id user_id tokens now : ℕ) → Run → Reservation
reserved l id user_id tokens now run = record {
  id = id;
  run_id = run.id;
  user_id = user_id;
  tokens = tokens;
  expires_at = now + l.lifetime_ms;
}

-- A reservation that the budget has room for.
reserved-IsWithin :
    (x : Reservation) (run : Run) (db : Db)
    → row_of run_id run.id db.runs ≡ some run
    → x.run_id ≡ run.id
    → run.llm_tokens + held run.id db.reservations + x.tokens ≤ run.max_tokens
    → IsWithin db
    → IsWithin (record db {
      runs = update_where (λ r. r.id == run.id) count_request db.runs;
      reservations = x ∷ db.reservations;
    })
unfolding held
reserved-IsWithin x run db own q room w = λ k r e.
    let moved =
      row_of-update run_id (λ y. y.id == run.id) count_request k db.runs
        (All-everywhere db.runs (λ y _. refl)) in
    elim (Option-cases (row_of run_id k db.runs)) [
      | inl n ↦ absurd (ground (arith, moved))
      | inr (y, f) ↦
          let here : k ≡ run.id → y ≡ run =
            λ h. cc (sym f ∙ (ap (λ i. row_of run_id i db.runs) h ∙ own)) in
          let same : k ≡ run.id → held k db.reservations ≡ held run.id db.reservations =
            λ h. ap (λ i. held i db.reservations) h in
          ground (
            arith,
            e,
            moved,
            f,
            w k y f,
            row_of_sound run_id k db.runs f,
            room,
            q,
            here,
            same,
            ==_iff x.run_id k,
            ==_iff y.id run.id,
          )
    ]

admit-IsWithin :
    (l : Limits) (id user_id tokens now : ℕ) (run : Run) (db : Db)
    → row_of run_id run.id db.runs ≡ some run
    → run.llm_tokens + held run.id db.reservations + tokens ≤ run.max_tokens
    → IsWithin db
    → Holds IsWithin (admit l id user_id tokens now run db.reservations db)
unfolding admit insert_reservation ◌>>=◌ pure update_runs update_reservations fail_with
admit-IsWithin l id user_id tokens now run db own room w =
    inserted (row_of reservation_id id db.reservations)
  where
    inserted :
        (o : Option Reservation)
        → Holds IsWithin (
            (insert_reservation (reserved l id user_id tokens now run) o >>= λ _.
            update_runs (λ r. r.id == run.id) count_request >>= λ _. pure id)
              db)
    inserted none = reserved-IsWithin (reserved l id user_id tokens now run) run db own refl room w
    inserted (some _) = tt

is_spent_room :
    (run : Run) (tokens : ℕ) (rs : List Reservation)
    → is_spent run tokens rs ≡ false
    → run.llm_tokens + held run.id rs + tokens ≤ run.max_tokens
unfolding is_spent
is_spent_room run tokens rs h = ground arith

-- If every run's spent and reserved tokens are within its limit, they still are after a
-- reservation, if that commits.
pub reserve-IsWithin :
    (l : Limits) (id user tokens now run : ℕ) (db : Db)
    → IsWithin db
    → Holds IsWithin (reserve_model_call l id run user tokens now db)
unfolding reserve_model_call reserve_run reserve_for fail_with
reserve-IsWithin l id user tokens now run db w = elim (Option-cases (row_of run_id run db.runs)) [
  | inl e ↦ rw e tt
  | inr (r, e) ↦ rw e (
      admitting r e (is_run_terminal r.status) (is_busy l r.id user now db.reservations)
        (is_spent r tokens db.reservations) refl)
]
  where
    admitting :
        (r : Run)
        → row_of run_id run db.runs ≡ some r
        → (over busy spent : Bool) → is_spent r tokens db.reservations ≡ spent
        → Holds IsWithin (
            (if over
                then fail_with {A = ℕ} (not_admitted false)
                else (if busy
                    then fail_with (not_admitted true)
                    else if spent
                    then fail_with (not_admitted false)
                    else admit l id user tokens now r db.reservations))
              db)
    admitting r e true busy spent q = tt
    admitting r e false true spent q = tt
    admitting r e false false true q = tt
    admitting r e false false false q =
        admit-IsWithin l id user tokens now r db
          (ap (λ i. row_of run_id i db.runs) (row_of_sound run_id run db.runs e) ∙ e)
          (is_spent_room r tokens db.reservations q) w
