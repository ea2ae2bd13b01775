-- ===== src/ControlPlane/Accounting/Books.antt =====
-- The ledger and the runs' totals agree, and no second of an agent is booked twice.
use kapi_final.Base.{
  ℕ, ◌+◌, ◌-◌, ◌*◌, ◌/◌, ◌==◌, ◌≡◌, ◌≤◌, ◌<◌, refl, sym, ◌∙◌, subst, Bool, true, false, Bool-cases,
  inl, inr, Option, none, some, some-injective, List, [], ◌∷◌, any, select, select-All, All, leb,
  if◌then◌else◌, arith, ==_iff, update_where,
}
use kapi_final.Db.Tables.{Db, Agent, Run, Usage}
use kapi_final.Db.Tx.{
  Outcome, done, throw, Keeps, Holds, ◌>>=◌, pure, query, insert_usage, same_period, update_agents,
  update_runs, bind_done,
}
use kapi_final.Db.Handler.{Served, served, crashed, left_by}
use kapi_final.ControlPlane.Accounting.{
  Meter, Charge, end_of, usage_of, charge_row, book, charge_for, book_some, settle_row, settle_one,
  settle_usage, settle_on, with_charge, longest, sooner, is_owing, metered, cap_of, time_or,
}

unfoldable pub seconds_of : ℕ → List Usage → ℕ
seconds_of r [] = 0
seconds_of r (u ∷ us) = if u.run_id == r then u.quantity + seconds_of r us else seconds_of r us

unfoldable pub micros_in : ℕ → List Usage → ℕ
micros_in r [] = 0
micros_in r (u ∷ us) = if u.run_id == r then u.usd_micros + micros_in r us else micros_in r us

-- The job's rows end by then.
abbrev pub EndBy : (job t : ℕ) → List Usage → Type 0
EndBy job t us = All (λ u. u.job_id ≡ job → u.period_end ≤ t) us

abbrev pub Covers : List Usage → Agent → Type 0
Covers us a = (t : ℕ) → a.accounted_through ≡ some t → EndBy a.job_id t us

-- Newest first: a row begins when the earlier rows of its job have ended, and is as long as it says.
abbrev pub IsApart : List Usage → Type 0
IsApart [] = Unit
IsApart (u ∷ us) =
    (u.period_end ≡ u.period_start + u.quantity * 1000)
    × EndBy u.job_id u.period_start us
    × IsApart us

abbrev pub IsTotal : List Usage → Run → Type 0
IsTotal us r = (r.vm_seconds ≡ seconds_of r.id us) × (r.usd_micros ≡ micros_in r.id us)

pub record IsBooked (db : Db) : Type 0 where
  pub totals : All (IsTotal db.ledger) db.runs
  pub covered : All (Covers db.ledger) db.agents
  pub apart : IsApart db.ledger

EndBy-le : (job t s : ℕ) (us : List Usage) → t ≤ s → EndBy job t us → EndBy job s us
EndBy-le job t s [] h e = tt
EndBy-le job t s (u ∷ us) h e = ((λ q. omega (arith, e.0 q)), EndBy-le job t s us h e.1)

-- No row of the job ends later, so none is for the same period.
new_period :
    (u : Usage) (us : List Usage) (t : ℕ)
    → EndBy u.job_id t us
    → t < u.period_end
    → any (same_period u) us ≡ false
unfolding any
new_period u [] t e h = refl
new_period u (v ∷ us) t e h = ground (arith, e.0, new_period u us t e.1 h)

abbrev booked : Charge → Db → Db
booked c db = record db {
  ledger = usage_of c ∷ db.ledger;
  agents =
      update_where (λ a. a.job_id == c.job_id)
        (λ a. record a { accounted_through = some (end_of c) }) db.agents;
  runs = update_where (λ r. r.id == c.run_id) (charge_row c) db.runs;
}

insert_usage_done :
    (u : Usage) (db : Db)
    → any (same_period u) db.ledger ≡ false
    → insert_usage u db ≡ done tt (record db { ledger = u ∷ db.ledger })
unfolding insert_usage
insert_usage_done u db h = rw h refl

book_done :
    (c : Charge) (db : Db)
    → any (same_period (usage_of c)) db.ledger ≡ false
    → book c db ≡ done (some c) (booked c db)
unfolding book update_agents update_runs pure
book_done c db h =
    bind_done (insert_usage (usage_of c)) _ db (insert_usage_done (usage_of c) db h)
    ∙ (bind_done
          (update_agents (λ a. a.job_id == c.job_id)
            (λ a. record a { accounted_through = some (end_of c) }))
          _ (record db { ledger = usage_of c ∷ db.ledger }) refl
        ∙ bind_done (update_runs (λ r. r.id == c.run_id) (charge_row c)) (λ _. pure (some c)) _
            refl)

update_each :
    {A : Type 0} (P Q : A → Type 0) (p : A → Bool) (f : A → A) (xs : List A)
    → ((x : A) → P x → Q (if p x then f x else x))
    → All P xs
    → All Q (update_where p f xs)
unfolding update_where
update_each P Q p f [] h a = tt
update_each P Q p f (x ∷ xs) h a = (h x a.0, update_each P Q p f xs h a.1)

module _ (c : Charge) (db : Db) (some_time : 0 < c.seconds)
    (ended : EndBy c.job_id c.start db.ledger) where
  totals_after :
      (r : Run)
      → IsTotal db.ledger r
      → IsTotal (usage_of c ∷ db.ledger) (if r.id == c.run_id then charge_row c r else r)
  unfolding seconds_of micros_in charge_row usage_of
  totals_after r h = go (r.id == c.run_id) refl
    where
      go :
          (b : Bool)
          → (r.id == c.run_id) ≡ b
          → IsTotal (usage_of c ∷ db.ledger) (if b then charge_row c r else r)
      go true e = (ground (arith, e, h.0), ground (arith, e, h.1))
      go false e = (ground (arith, e, h.0), ground (arith, e, h.1))

  covered_after :
      (a : Agent)
      → Covers db.ledger a
      → Covers
          (usage_of c ∷ db.ledger)
          (if a.job_id == c.job_id then record a { accounted_through = some (end_of c) } else a)
  unfolding usage_of
  covered_after a h = go (a.job_id == c.job_id) refl
    where
      go :
          (b : Bool)
          → (a.job_id == c.job_id) ≡ b
          → Covers
              (usage_of c ∷ db.ledger)
              (if b then record a { accounted_through = some (end_of c) } else a)
      go true e t q =
          let end : end_of c ≡ t = some-injective (end_of c) t q in
          let late = EndBy-le c.job_id c.start t db.ledger (omega (arith, end)) ended in
          (
            (λ _. omega (arith, end)),
            subst (λ i. EndBy i t db.ledger) (sym ((==_iff a.job_id c.job_id).0 e)) late,
          )
      go false e t q = ((λ j. absurd (ground (arith, e, j))), h t q)

  book-Holds : IsBooked db → Holds IsBooked (book c db)
  unfolding usage_of
  book-Holds h =
      let new = new_period (usage_of c) db.ledger c.start ended (omega (arith, some_time)) in
      subst (Holds IsBooked) (sym (book_done c db new)) (record {
        totals =
            update_each (IsTotal db.ledger) (IsTotal (usage_of c ∷ db.ledger))
              (λ r. r.id == c.run_id) (charge_row c) db.runs totals_after h.totals;
        covered =
            update_each (Covers db.ledger) (Covers (usage_of c ∷ db.ledger))
              (λ a. a.job_id == c.job_id) (λ a. record a { accounted_through = some (end_of c) })
              db.agents covered_after h.covered;
        apart = (refl, ended, h.apart);
      })

charge-Holds :
    (m : Meter) (now : ℕ) (a : Agent) (p t : Option ℕ) (db : Db)
    → a.accounted_through ≡ t
    → Covers db.ledger a
    → IsBooked db
    → Holds IsBooked (book_some (charge_for m now a (metered p t)) db)
unfolding charge_for book_some pure
charge-Holds m now a none t db e k h = h
charge-Holds m now a (some p) none db e k h = h
charge-Holds m now a (some p) (some t) db e k h =
    let seconds = (cap_of now a - t) / 1000 in
    elim (Bool-cases (leb seconds 0)) [
      | inl z ↦ simp z h
      | inr z ↦ simp z (
          book-Holds
            (record {
              job_id = a.job_id;
              run_id = a.run_id;
              provider = p;
              start = t;
              seconds = seconds;
              price = m.price p seconds;
            })
            db (ground (arith, z)) (k t e) h)
    ]

sooner-All :
    (P : Agent → Type 0) (a : Agent) (o : Option Agent)
    → P a
    → ((b : Agent) → o ≡ some b → P b)
    → P (sooner a o)
sooner-All P a none h k = h
sooner-All P a (some b) h k =
    elim (Bool-cases (leb (time_or 0 a.accounted_through) (time_or 0 b.accounted_through))) [
      | inl t ↦ simp t h
      | inr t ↦ simp t (k b refl)
    ]

longest-All :
    (P : Agent → Type 0) (ss : List Agent) (a : Agent) → All P ss → longest ss ≡ some a → P a
unfolding longest
longest-All P [] a k e = absurd (cc)
longest-All P (x ∷ xs) a k e =
    subst P (some-injective (sooner x (longest xs)) a e)
      (sooner-All P x (longest xs) k.0 (λ b q. longest-All P xs b k.1 q))

settle_row-Holds :
    (m : Meter) (now : ℕ) (o : Option Agent) (db : Db)
    → ((a : Agent) → o ≡ some a → Covers db.ledger a)
    → IsBooked db
    → Holds IsBooked (settle_row m now o db)
unfolding settle_row pure
settle_row-Holds m now none db k h = h
settle_row-Holds m now (some a) db k h =
    charge-Holds m now a a.provider a.accounted_through db refl (k a refl) h

settle_one-Keeps : (m : Meter) (now : ℕ) → Keeps IsBooked (settle_one m now)
unfolding settle_one query ◌>>=◌
settle_one-Keeps m now = record {
  apply = λ db h.
      settle_row-Holds m now (longest (select (is_owing m.locked now) db.agents)) db
        (λ a e.
          longest-All (Covers db.ledger) (select (is_owing m.locked now) db.agents) a
            (select-All (is_owing m.locked now) (Covers db.ledger) db.agents h.covered) e)
        h;
}

settle_on-left :
    (db : Db) (o : Outcome (Option Charge)) (next : Db → Served (List Charge))
    → IsBooked db
    → Holds IsBooked o
    → ((d : Db) → IsBooked d → IsBooked (left_by (next d)))
    → IsBooked (left_by (settle_on db o next))
settle_on-left db (throw e) next p h k = p
settle_on-left db (done none d) next p h k = h
settle_on-left db (done (some c) d) next p h k = charged (next d) (k d h)
  where
    charged :
        (s : Served (List Charge)) → IsBooked (left_by s) → IsBooked (left_by (with_charge c s))
    charged (served cs d) h = h
    charged (crashed e d) h = h

-- If each run's seconds and millionths of a dollar are the sums of its rows in the ledger, every
-- metered agent's time reaches to the end of its job's rows, and each row begins after the job's
-- earlier rows end and is as long as it says, then all this still holds after a settlement,
-- however many agents it books and whatever rows are locked.
pub settle_usage-IsBooked :
    (ms : List Meter) (now : ℕ) (db : Db)
    → IsBooked db
    → IsBooked (left_by (settle_usage ms now db))
unfolding settle_usage
settle_usage-IsBooked [] now db h = h
settle_usage-IsBooked (m ∷ ms) now db h =
    settle_on-left db (settle_one m now db) (settle_usage ms now) h
      ((settle_one-Keeps m now).apply db h) (λ d k. settle_usage-IsBooked ms now d k)
