-- ===== src/ControlPlane/Admission.antt =====
-- apps/control-plane/src/model-admission.ts: tokens are reserved before a model call and settled
-- after it. The limits, positive integers of the environment, are parameters; so is the lifetime of
-- a reservation. The lock row makes the transactions serial.
pub mod Ledger
pub mod Receipts
pub mod Admits
use kapi_final.Base.{
  ℕ, ◌+◌, ◌-◌, ◌==◌, leb, ltb, Bool, true, false, not, ◌&&◌, ◌||◌, Option, none, some, List, [],
  ◌∷◌, select, length, if◌then◌else◌, row_of, take,
}
use kapi_final.Db.Tables.{Db, Run, Reservation, UsageReceipt, UsageStatus, estimated, actual}
use kapi_final.Db.Tx.{
  Tx, ◌>>=◌, ◌>>◌, pure, query, fail_with, not_admitted, duplicate_key, update_runs,
  update_artifacts, update_reservations,
}
use kapi_final.Invariant.Steps.{is_run_terminal}

-- COALESCE(sum(tokens) FILTER (WHERE run_id = $1), 0): expired ones count too.
unfoldable pub held : ℕ → List Reservation → ℕ
held run [] = 0
held run (r ∷ rs) = (if r.run_id == run then r.tokens else 0) + held run rs

unfoldable pub active : (Reservation → Bool) → ℕ → List Reservation → ℕ
active p now rs = length (select (λ r. p r && ltb now r.expires_at) rs)

pub record Limits : Type 0 where
  pub run_limit : ℕ
  pub user_limit : ℕ
  pub lifetime_ms : ℕ

unfoldable pub is_busy : Limits → (run_id user_id now : ℕ) → List Reservation → Bool
is_busy l run_id user_id now rs =
    leb l.run_limit (active (λ r. r.run_id == run_id) now rs)
    || leb l.user_limit (active (λ r. r.user_id == user_id) now rs)

unfoldable pub is_spent : Run → ℕ → List Reservation → Bool
is_spent run tokens rs =
    leb run.max_llm_requests run.llm_requests
    || ltb run.max_tokens (run.llm_tokens + held run.id rs + tokens)

abbrev pub count_request : Run → Run
count_request r = record r { llm_requests = r.llm_requests + 1 }

-- INSERT INTO model_reservations: the primary key must be free.
unfoldable pub insert_reservation : Reservation → Option Reservation → Tx (Unit {0})
insert_reservation r none = update_reservations (λ rs. r ∷ rs)
insert_reservation r (some _) = fail_with (duplicate_key r.id)

unfoldable pub admit : Limits → (id user_id tokens now : ℕ) → Run → List Reservation → Tx ℕ
admit l id user_id tokens now run rs = do
  insert_reservation
      (record {
        id = id;
        run_id = run.id;
        user_id = user_id;
        tokens = tokens;
        expires_at = now + l.lifetime_ms;
      })
      (row_of (λ (x : Reservation). x.id) id rs)
  _ ← update_runs (λ r. r.id == run.id) count_request
  pure id

unfoldable pub reserve_for : Limits → (id user_id tokens now : ℕ) → Run → List Reservation → Tx ℕ
reserve_for l id user_id tokens now run rs =
    if is_busy l run.id user_id now rs
    then fail_with (not_admitted true)
    else if is_spent run tokens rs
    then fail_with (not_admitted false)
    else admit l id user_id tokens now run rs

unfoldable pub reserve_run :
    Limits → (id user_id tokens now : ℕ) → Option Run → List Reservation → Tx ℕ
reserve_run l id user_id tokens now none rs = fail_with (not_admitted false)
reserve_run l id user_id tokens now (some run) rs =
    if is_run_terminal run.status
    then fail_with (not_admitted false)
    else reserve_for l id user_id tokens now run rs

-- `id` is newId("call"). The result is the id; the tokens are the caller's.
unfoldable pub reserve_model_call : Limits → (id run_id user_id tokens now : ℕ) → Tx ℕ
reserve_model_call l id run_id user_id tokens now db =
    reserve_run l id user_id tokens now (row_of (λ (r : Run). r.id) run_id db.runs) db.reservations
      db

abbrev pub call_of : UsageReceipt → ℕ
call_of u = u.call

-- INSERT ... ON CONFLICT (id) DO UPDATE
unfoldable pub put_receipt : UsageReceipt → List UsageReceipt → List UsageReceipt
put_receipt u [] = u ∷ []
put_receipt u (v ∷ us) = if v.call == u.call then u ∷ us else v ∷ put_receipt u us

unfoldable pub without : ℕ → List Reservation → List Reservation
without id = select (λ r. not (r.id == id))

abbrev pub is_actual : UsageStatus → Bool
is_actual actual = true
is_actual estimated = false

-- What the settlement charges: the run, the tokens, and those that an earlier receipt has charged.
pub record Charge : Type 0 where
  pub run_id : ℕ
  pub tokens : ℕ
  pub before : ℕ

abbrev pub or_tokens : Option ℕ → ℕ → ℕ
or_tokens none t = t
or_tokens (some n) t = n

-- `none` is the early return: the receipt is final, or there is nothing to settle.
unfoldable pub charge_of : Option ℕ → Option UsageReceipt → Option Reservation → Option Charge
charge_of measured (some old) reserved =
    if is_actual old.status
    then none
    else some (record {
      run_id = old.run_id;
      tokens = or_tokens measured old.tokens;
      before = old.tokens;
    })
charge_of measured none none = none
charge_of measured none (some r) =
    some (record { run_id = r.run_id; tokens = or_tokens measured r.tokens; before = 0 })

abbrev pub status_of : Option ℕ → UsageStatus
status_of none = estimated
status_of (some _) = actual

-- llm_tokens + (tokens - before). The earlier charge is part of llm_tokens, so none is cut at 0.
unfoldable pub charge_run : Charge → Run → Run
charge_run c r = record r { llm_tokens = (r.llm_tokens + c.tokens) - c.before }

unfoldable pub settle_charge : ℕ → Option ℕ → Option Charge → Tx (Unit {0})
settle_charge id measured none = pure tt
settle_charge id measured (some c) = do
  _ ← update_runs (λ r. r.id == c.run_id) (charge_run c)
  update_artifacts (λ a. record a {
    usage =
        put_receipt
          (record { call = id; run_id = c.run_id; tokens = c.tokens; status = status_of measured })
          a.usage;
  })
  update_reservations (without id)

unfoldable pub charge_in : ℕ → Option ℕ → Db → Option Charge
charge_in id measured db =
    charge_of measured (row_of call_of id (db.artifacts).usage)
      (row_of (λ (r : Reservation). r.id) id db.reservations)

unfoldable pub settle_model_call : ℕ → Option ℕ → Tx (Unit {0})
settle_model_call id measured = query (charge_in id measured) >>= settle_charge id measured

-- Up to 100 reservations that have run out, each settled by a transaction of its own.
unfoldable pub settle_all : List Reservation → Tx (Unit {0})
settle_all [] = pure tt
settle_all (r ∷ rs) = settle_model_call r.id none >> settle_all rs

unfoldable pub settle_expired_model_calls : ℕ → Tx ℕ
settle_expired_model_calls now = do
  rows ← query (λ db. take 100 (select (λ r. ltb r.expires_at now) db.reservations))
  settle_all rows
  pure (length rows)

-- Operator's reconciliation: a settled receipt must be there.
unfoldable pub reconcile_found : ℕ → ℕ → Option UsageReceipt → Tx Bool
reconcile_found id tokens none = pure false
reconcile_found id tokens (some _) = settle_model_call id (some tokens) >> pure true

unfoldable pub reconcile_model_usage : ℕ → ℕ → Tx Bool
reconcile_model_usage id tokens =
    query (λ db. row_of call_of id (db.artifacts).usage) >>= reconcile_found id tokens
