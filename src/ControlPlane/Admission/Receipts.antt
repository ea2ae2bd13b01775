-- ===== src/ControlPlane/Admission/Receipts.antt =====
-- A call that is settled with its actual usage is settled for good.
use kapi_final.Base.{
  ℕ, ◌≡◌, refl, ap, ◌∙◌, true, Option, none, some, List, [], ◌∷◌, arith, row_of, find, ==_iff,
}
use kapi_final.Db.Tables.{Db, Reservation, UsageReceipt, actual}
use kapi_final.Db.Tx.{
  done, after, ◌>>=◌, pure, query, update_runs, update_artifacts, update_reservations,
}
use kapi_final.ControlPlane.Admission.{
  Charge, call_of, put_receipt, charge_of, charge_in, settle_charge, settle_model_call, is_actual,
}

pub row_of-put_receipt :
    (u : UsageReceipt) (us : List UsageReceipt) → row_of call_of u.call (put_receipt u us) ≡ some u
unfolding put_receipt row_of find
row_of-put_receipt u [] = ground (arith, ==_iff u.call u.call)
row_of-put_receipt u (v ∷ us) =
    ground (arith, row_of-put_receipt u us, ==_iff u.call u.call, ==_iff v.call u.call)

-- Whether there is something to settle does not depend on the usage.
nothing_to_charge :
    (m n : Option ℕ) (old : Option UsageReceipt) (reserved : Option Reservation)
    → charge_of m old reserved ≡ none
    → charge_of n old reserved ≡ none
unfolding charge_of
nothing_to_charge m n (some old) reserved h = ground arith
nothing_to_charge m n none none h = refl
nothing_to_charge m n none (some r) h = absurd (cc)

final_charge :
    (m : Option ℕ) (u : UsageReceipt) (reserved : Option Reservation) {o : Option UsageReceipt}
    → o ≡ some u
    → is_actual u.status ≡ true
    → charge_of m o reserved ≡ none
unfolding charge_of
final_charge m u reserved h k = ap (λ o. charge_of m o reserved) h ∙ ground (arith, k)

abbrev final : ℕ → Charge → UsageReceipt
final id c = record { call = id; run_id = c.run_id; tokens = c.tokens; status = actual }

-- After a settlement with the actual usage of a call, another settlement of that call, with or
-- without a usage, changes nothing.
pub settle_twice :
    (id tokens : ℕ) (again : Option ℕ) (db : Db)
    → let db' = after (settle_model_call id (some tokens) db) db in
      settle_model_call id again db' ≡ done tt db'
unfolding settle_model_call settle_charge charge_in query ◌>>=◌ pure update_runs update_artifacts
    update_reservations
settle_twice id tokens again db = by_charge (charge_in id (some tokens) db) refl
  where
    by_charge :
        (o : Option Charge)
        → charge_in id (some tokens) db ≡ o
        → let db' = after (settle_charge id (some tokens) o db) db in
          settle_model_call id again db' ≡ done tt db'
    by_charge none e =
        ap (λ c. settle_charge id again c db) (nothing_to_charge (some tokens) again _ _ e)
    by_charge (some c) e =
        let paid = after (settle_charge id (some tokens) (some c) db) db in
        ap (λ o. settle_charge id again o paid)
          (final_charge again (final id c) _ (row_of-put_receipt (final id c) _) refl)
