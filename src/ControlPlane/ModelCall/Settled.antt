-- ===== src/ControlPlane/ModelCall/Settled.antt =====
-- A model call gives back what it reserved, however it ends.
use kapi_final.Base.{
  ℕ, ◌≡◌, ◌==◌, refl, true, false, Option, none, some, List, [], ◌∷◌, row_of, row_of_sound, find,
  select, arith, ==_iff, update_where, Option-cases, Bool-cases, inl, inr, ◌⊎◌,
}
use kapi_final.Db.Tables.{Db, Run, Reservation}
use kapi_final.Db.Tx.{
  done, throw, pure, query, update_runs, update_artifacts, update_reservations, fail_with,
  not_admitted, duplicate_key, after, ◌>>=◌, Error,
}
use kapi_final.Invariant.Steps.{is_run_terminal}
use kapi_final.Invariant.Whole.{run_id}
use kapi_final.ControlPlane.Admission.{
  Limits, Charge, is_busy, is_spent, reserve_model_call, reserve_run, reserve_for, admit,
  insert_reservation, settle_model_call, settle_charge, charge_in, charge_of, call_of, or_tokens,
  status_of, without, count_request,
}
use kapi_final.ControlPlane.Admission.Ledger.{reservation_id, reserved}
use kapi_final.ControlPlane.Admission.Receipts.{row_of-put_receipt}

without_own : (id : ℕ) (rs : List Reservation) → row_of reservation_id id (without id rs) ≡ none
unfolding without select row_of find
without_own id [] = refl
without_own id (r ∷ rs) = ground (arith, without_own id rs)

-- The call's reservation stands, and nothing is charged for it yet.
pub record IsReserved (id run tokens : ℕ) (db : Db) : Type 0 where
  pub row :
      (x : Reservation) × (row_of reservation_id id db.reservations ≡ some x)
      × (x.run_id ≡ run)
      × (x.tokens ≡ tokens)
  pub uncharged : row_of call_of id (db.artifacts).usage ≡ none

-- The call's reservation is given back, and its receipt says what it was charged.
pub record IsSettled (id run : ℕ) (tokens : ℕ) (measured : Option ℕ) (db : Db) : Type 0 where
  pub given_back : row_of reservation_id id db.reservations ≡ none
  pub receipt :
      row_of call_of id (db.artifacts).usage
      ≡ some (record {
        call = id;
        run_id = run;
        tokens = or_tokens measured tokens;
        status = status_of measured;
      })

pub settle-IsSettled :
    (id run tokens : ℕ) (measured : Option ℕ) (db : Db)
    → IsReserved id run tokens db
    → (db' : Db) × (settle_model_call id measured db ≡ done tt db')
      × IsSettled id run tokens measured db'
unfolding settle_model_call settle_charge charge_in charge_of ◌>>=◌ query update_runs
    update_artifacts update_reservations
settle-IsSettled id run tokens measured db h =
    let (x, e, r, t) = h.row in
    let c : Charge = record { run_id = run; tokens = or_tokens measured tokens; before = 0 } in
    let charged : charge_in id measured db ≡ some c = rw (h.uncharged) (rw e (rw r (rw t refl))) in
    (
      after (settle_charge id measured (some c) db) db,
      rw charged refl,
      record {
        given_back = without_own id db.reservations;
        receipt = row_of-put_receipt _ (db.artifacts).usage;
      },
    )

abbrev with_reservation : Limits → (id user_id tokens now : ℕ) → Run → Db → Db
with_reservation l id user_id tokens now r db = record db {
  runs = update_where (λ x. x.id == r.id) count_request db.runs;
  reservations = reserved l id user_id tokens now r ∷ db.reservations;
}

stored-IsReserved :
    (l : Limits) (id run user tokens now : ℕ) (r : Run) (db : Db)
    → row_of run_id run db.runs ≡ some r
    → row_of call_of id (db.artifacts).usage ≡ none
    → IsReserved id run tokens (with_reservation l id user tokens now r db)
unfolding row_of find
stored-IsReserved l id run user tokens now r db e u = record {
  row = (
    reserved l id user tokens now r,
    ground (arith, ==_iff id id),
    row_of_sound run_id run db.runs e,
    refl,
  );
  uncharged = u;
}

-- A reservation throws, or it is stored.
pub reserve-IsReserved :
    (l : Limits) (id run user tokens now : ℕ) (db : Db)
    → row_of call_of id (db.artifacts).usage ≡ none
    → ((e : Error) × (reserve_model_call l id run user tokens now db ≡ throw e))
      ⊎ ((db' : Db) × (reserve_model_call l id run user tokens now db ≡ done id db')
          × IsReserved id run tokens db')
unfolding reserve_model_call reserve_run reserve_for admit insert_reservation ◌>>=◌ pure fail_with
    update_runs update_reservations
reserve-IsReserved l id run user tokens now db u = elim (Option-cases (row_of run_id run db.runs)) [
  | inl n ↦ inl (not_admitted false, rw n refl)
  | inr (r, e) ↦ elim (Bool-cases (is_run_terminal r.status)) [
    | inl over ↦ inl (not_admitted false, rw e (rw over refl))
    | inr live ↦ elim (Bool-cases (is_busy l r.id user now db.reservations)) [
      | inl busy ↦ inl (not_admitted true, rw e (rw live (rw busy refl)))
      | inr idle ↦ elim (Bool-cases (is_spent r tokens db.reservations)) [
        | inl spent ↦ inl (not_admitted false, rw e (rw live (rw idle (rw spent refl))))
        | inr room ↦ elim (Option-cases (row_of reservation_id id db.reservations)) [
          | inr (x, taken) ↦
              inl (duplicate_key id, rw e (rw live (rw idle (rw room (rw taken refl)))))
          | inl free ↦ inr (
            with_reservation l id user tokens now r db,
            ground (arith, e, live, idle, room, free),
            stored-IsReserved l id run user tokens now r db e u,
          )
        ]
      ]
    ]
  ]
]
