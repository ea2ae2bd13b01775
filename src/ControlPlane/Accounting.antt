-- ===== src/ControlPlane/Accounting.antt =====
-- apps/control-plane/src/accounting.ts: VM time. `price` is what an operator's rate makes of a
-- provider's seconds, in millionths of a dollar, rounded (`providerRate` and the product with it are
-- arithmetic on floats); none where no rate is set.
pub mod Books
use kapi_final.Base.{
  ℕ, ◌+◌, ◌-◌, ◌*◌, ◌/◌, ◌==◌, leb, Bool, true, false, not, ◌&&◌, Option, none, some, List, [], ◌∷◌,
  select, if◌then◌else◌,
}
use kapi_final.Db.Tables.{Db, Agent, Run, Usage, CostStatus, unavailable, known, partial_cost}
use kapi_final.Db.Tx.{
  Tx, Outcome, done, throw, ◌>>=◌, ◌>>◌, pure, query, insert_usage, update_agents, update_runs,
}
use kapi_final.Db.Handler.{Handler, Served, served, crashed}

pub record Meter : Type 0 where
  pub price : (provider seconds : ℕ) → Option ℕ
  pub locked : ℕ → Bool

abbrev pub time_or : ℕ → Option ℕ → ℕ
time_or d none = d
time_or d (some t) = t

-- LEAST(COALESCE(stopped_at, now), now)
unfoldable pub cap_of : ℕ → Agent → ℕ
cap_of now a = let stop = time_or now a.stopped_at in if leb stop now then stop else now

-- The provider and the time that an agent is metered from, if it is metered.
abbrev pub metered : Option ℕ → Option ℕ → Option (ℕ × ℕ)
metered (some p) (some t) = some (p, t)
metered _ _ = none

abbrev is_over_due : ℕ → Option (ℕ × ℕ) → Bool
is_over_due cap none = false
is_over_due cap (some (p, t)) = leb (t + 1000) cap

unfoldable pub is_owing : (ℕ → Bool) → ℕ → Agent → Bool
is_owing locked now a =
    is_over_due (cap_of now a) (metered a.provider a.accounted_through) && not (locked a.job_id)

abbrev pub sooner : Agent → Option Agent → Agent
sooner a none = a
sooner a (some b) =
    if leb (time_or 0 a.accounted_through) (time_or 0 b.accounted_through) then a else b

-- ORDER BY accounted_through ASC LIMIT 1
unfoldable pub longest : List Agent → Option Agent
longest [] = none
longest (a ∷ as') = some (sooner a (longest as'))

-- What is booked for a metered agent.
pub record Charge : Type 0 where
  pub job_id : ℕ
  pub run_id : ℕ
  pub provider : ℕ
  pub start : ℕ
  pub seconds : ℕ
  pub price : Option ℕ

abbrev pub end_of : Charge → ℕ
end_of c = c.start + c.seconds * 1000

abbrev pub micros_of : Charge → ℕ
micros_of c = time_or 0 c.price

abbrev pub is_known : Option ℕ → Bool
is_known none = false
is_known (some _) = true

unfoldable pub usage_of : Charge → Usage
usage_of c = record {
  run_id = c.run_id;
  job_id = c.job_id;
  provider = c.provider;
  quantity = c.seconds;
  usd_micros = micros_of c;
  cost_status = if is_known c.price then known else unavailable;
  period_start = c.start;
  period_end = end_of c;
}

-- The CASE of cost_status.
unfoldable pub next_status : (priced : Bool) (vm_seconds : ℕ) → CostStatus → CostStatus
next_status true n unavailable = if n == 0 then known else partial_cost
next_status true n known = known
next_status false n unavailable = unavailable
next_status _ n _ = partial_cost

unfoldable pub charge_row : Charge → Run → Run
charge_row c r = record r {
  vm_seconds = r.vm_seconds + c.seconds;
  usd_micros = r.usd_micros + micros_of c;
  usd_cents = (r.usd_micros + micros_of c) / 10000;
  cost_status = next_status (is_known c.price) r.vm_seconds r.cost_status;
}

unfoldable pub book : Charge → Tx (Option Charge)
book c = do
  insert_usage (usage_of c)
  update_agents (λ a. a.job_id == c.job_id) (λ a. record a { accounted_through = some (end_of c) })
  _ ← update_runs (λ r. r.id == c.run_id) (charge_row c)
  pure (some c)

unfoldable pub charge_for : Meter → ℕ → Agent → Option (ℕ × ℕ) → Option Charge
charge_for m now a none = none
charge_for m now a (some (p, t)) =
    let seconds = (cap_of now a - t) / 1000 in
    some (record {
      job_id = a.job_id;
      run_id = a.run_id;
      provider = p;
      start = t;
      seconds = seconds;
      price = m.price p seconds;
    })

-- if (seconds <= 0) return null
unfoldable pub book_some : Option Charge → Tx (Option Charge)
book_some none = pure none
book_some (some c) = if leb c.seconds 0 then pure none else book c

unfoldable pub settle_row : Meter → ℕ → Option Agent → Tx (Option Charge)
settle_row m now none = pure none
settle_row m now (some a) = book_some (charge_for m now a (metered a.provider a.accounted_through))

-- #settleOne
unfoldable pub settle_one : Meter → ℕ → Tx (Option Charge)
settle_one m now =
    query (λ db. longest (select (is_owing m.locked now) db.agents)) >>= settle_row m now

abbrev pub with_charge : Charge → Served (List Charge) → Served (List Charge)
with_charge c (served cs db) = served (c ∷ cs) db
with_charge c (crashed e db) = crashed e db

abbrev pub settle_on : Db → Outcome (Option Charge) → Handler (List Charge) → Served (List Charge)
settle_on db (throw e) next = crashed e db
settle_on db (done none db') next = served [] db'
settle_on db (done (some c) db') next = with_charge c (next db')

-- `settle`: the loop, with what each transaction is given.
unfoldable pub settle_usage : List Meter → ℕ → Handler (List Charge)
settle_usage [] now db = served [] db
settle_usage (m ∷ ms) now db = settle_on db (settle_one m now db) (settle_usage ms now)
