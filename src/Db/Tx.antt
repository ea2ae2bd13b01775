-- ===== src/Db/Tx.antt =====
-- A transaction as a function on the database. A statement that fails throws, and nothing of the
-- transaction stays (`handle.transaction`). Transactions are serial: the row locks that the
-- statements take make concurrent ones wait.
use kapi_final.Base.{
  ℕ, ◌==◌, Bool, Option, none, some, List, [], ◌∷◌, ◌≡◌, update_where, returning, row_of, any,
  false, ◌&&◌, ◌||◌, if◌then◌else◌,
}
use kapi_final.Protocol.Jobs.{Job}
use kapi_final.Protocol.Events.{AgentEvent}
use kapi_final.Db.Tables.{Db, Agent, Run, Message, Schedule, Thread, Usage, Reservation, Artifacts}

pub data Error : Type 0 where
  -- cannot append event: run does not exist
  run_missing : ℕ → Error
  -- a PRIMARY KEY is taken
  duplicate_key : ℕ → Error
  -- an HTTP 409 from within a transaction
  conflict : Error
  -- a model call is not admitted; true if a retry may help
  not_admitted : Bool → Error
  -- a cron expression or a time zone that cannot be read
  bad_schedule : Error

pub data Outcome (A : Type 0) : Type 0 where
  done : A → Db → Outcome A
  throw : Error → Outcome A

abbrev pub Tx : Type 0 → Type 0
Tx A = Db → Outcome A

infixl 5 ◌>>=◌ ◌>>◌
unfoldable pub ◌>>=◌ : {A B : Type 0} → Tx A → (A → Tx B) → Tx B
◌>>=◌ m f db = elim (m db) [ done a db' ↦ f a db' | throw e ↦ throw e ]

abbrev pub ◌>>◌ : {B : Type 0} → Tx (Unit {0}) → Tx B → Tx B
m >> k = m >>= λ _. k

unfoldable pub pure : {A : Type 0} → A → Tx A
pure a db = done a db

unfoldable pub fail_with : {A : Type 0} → Error → Tx A
fail_with e db = throw e

-- What the database is after a transaction, and what the caller gets.
abbrev pub after : {A : Type 0} → Outcome A → Db → Db
after (done a db') db = db'
after (throw e) db = db

abbrev pub result : {A : Type 0} → Outcome A → Option A
result (done a db) = some a
result (throw e) = none

-- UPDATE jobs ... RETURNING
unfoldable pub update_jobs : (Job → Bool) → (Job → Job) → Tx (List Job)
update_jobs p f db = done (returning p f db.jobs) (record db { jobs = update_where p f db.jobs })

unfoldable pub update_agents : (Agent → Bool) → (Agent → Agent) → Tx (Unit {0})
update_agents p f db = done tt (record db { agents = update_where p f db.agents })

unfoldable pub update_runs : (Run → Bool) → (Run → Run) → Tx (List Run)
update_runs p f db = done (returning p f db.runs) (record db { runs = update_where p f db.runs })

unfoldable pub update_schedules : (Schedule → Bool) → (Schedule → Schedule) → Tx (Unit {0})
update_schedules p f db = done tt (record db { schedules = update_where p f db.schedules })

-- INSERT INTO jobs: the primary key must be free.
unfoldable pub insert_job : Job → Tx Job
insert_job j db = elim (row_of (λ x. x.id) j.id db.jobs) [
  | none ↦ done j (record db { jobs = j ∷ db.jobs })
  | some _ ↦ throw (duplicate_key j.id)
]

unfoldable pub update_threads : (List Thread → List Thread) → Tx (Unit {0})
update_threads f db = done tt (record db { threads = f db.threads })

unfoldable pub insert_schedule : Schedule → Tx (Unit {0})
insert_schedule s db = done tt (record db { schedules = s ∷ db.schedules })

abbrev opt_eq : Option ℕ → Option ℕ → Bool
opt_eq (some a) (some b) = a == b
opt_eq _ _ = false

-- Nulls are distinct in a UNIQUE INDEX.
abbrev pub same_occurrence : Run → Run → Bool
same_occurrence r x = opt_eq x.schedule_id r.schedule_id && opt_eq x.scheduled_for r.scheduled_for

abbrev pub is_taken : Run → List Run → Bool
is_taken r runs = any (λ x. x.id == r.id || same_occurrence r x) runs

-- INSERT INTO runs: the primary key and (schedule_id, scheduled_for) must be free.
unfoldable pub insert_run : Run → Tx Run
insert_run r db =
    if is_taken r db.runs
    then throw (duplicate_key r.id)
    else done r (record db { runs = r ∷ db.runs })

unfoldable pub insert_event : AgentEvent → Tx (Unit {0})
insert_event e db = done tt (record db { events = e ∷ db.events })

unfoldable pub insert_message : Message → Tx (Unit {0})
insert_message m db = done tt (record db { messages = m ∷ db.messages })

unfoldable pub update_artifacts : (Artifacts → Artifacts) → Tx (Unit {0})
update_artifacts f db = done tt (record db { artifacts = f db.artifacts })

unfoldable pub update_reservations : (List Reservation → List Reservation) → Tx (Unit {0})
update_reservations f db = done tt (record db { reservations = f db.reservations })

abbrev pub same_period : Usage → Usage → Bool
same_period u v = v.job_id == u.job_id && v.period_end == u.period_end

-- INSERT INTO usage_ledger ... ON CONFLICT (job_id, kind, period_end) DO NOTHING
unfoldable pub insert_usage : Usage → Tx (Unit {0})
insert_usage u db =
    if any (same_period u) db.ledger
    then done tt db
    else done tt (record db { ledger = u ∷ db.ledger })

-- INSERT INTO agents ... ON CONFLICT (job_id) DO UPDATE
unfoldable pub upsert_agent : Agent → (Agent → Agent) → Tx (Unit {0})
upsert_agent a f db = elim (row_of (λ x. x.job_id) a.job_id db.agents) [
  | none ↦ done tt (record db { agents = a ∷ db.agents })
  | some _ ↦ done tt (record db { agents = update_where (λ x. x.job_id == a.job_id) f db.agents })
]

-- SELECT
unfoldable pub query : {A : Type 0} → (Db → A) → Tx A
query f db = done (f db) db

-- for (const x of xs) await body(x)
unfoldable pub for_each : {A : Type 0} → List A → (A → Tx (Unit {0})) → Tx (Unit {0})
for_each [] body = pure tt
for_each (x ∷ xs) body = body x >>= λ _. for_each xs body

-- A property of the database that a transaction keeps, if it commits.
abbrev pub Holds {ℓ} : {A : Type 0} → (Db → Type ℓ) → Outcome A → Type ℓ
Holds P (done a db) = P db
Holds P (throw e) = Unit

pub record Keeps {ℓ} {A : Type 0} (P : Db → Type ℓ) (m : Tx A) : Type ℓ where
  pub apply : (db : Db) → P db → Holds P (m db)

pub Holds-after {ℓ} :
    {A : Type 0} (P : Db → Type ℓ) (o : Outcome A) (db : Db) → P db → Holds P o → P (after o db)
Holds-after P (done a db') db h k = k
Holds-after P (throw e) db h k = h

module _ {ℓ} {P : Db → Type ℓ} where
  Holds-bind :
      {A B : Type 0} (f : A → Tx B) (o : Outcome A)
      → ((a : A) → Keeps P (f a))
      → Holds P o
      → Holds P (elim o [ done a db' ↦ f a db' | throw e ↦ throw e ])
  Holds-bind f (done a db) k h = (k a).apply db h
  Holds-bind f (throw e) k h = tt

  pub Keeps-bind :
      {A B : Type 0} {m : Tx A} {f : A → Tx B}
      → Keeps P m
      → ((a : A) → Keeps P (f a))
      → Keeps P (m >>= f)
  unfolding ◌>>=◌
  Keeps-bind {m = m} {f = f} km kf = record {
    apply = λ db h. Holds-bind f (m db) kf (km.apply db h);
  }

  pub Keeps-pure : {A : Type 0} (a : A) → Keeps P (pure a)
  unfolding pure
  Keeps-pure a = record { apply = λ db h. h }

  pub Keeps-fail_with : {A : Type 0} (e : Error) → Keeps {A = A} P (fail_with e)
  unfolding fail_with
  Keeps-fail_with e = record { apply = λ db h. tt }

  pub Keeps-query : {A : Type 0} (f : Db → A) → Keeps P (query f)
  unfolding query
  Keeps-query f = record { apply = λ db h. h }

  pub Keeps-for_each :
      {A : Type 0} (xs : List A) {body : A → Tx (Unit {0})}
      → ((x : A) → Keeps P (body x))
      → Keeps P (for_each xs body)
  unfolding for_each
  Keeps-for_each [] k = Keeps-pure tt
  Keeps-for_each (x ∷ xs) k = Keeps-bind (k x) (λ _. Keeps-for_each xs k)

  -- So the database satisfies it after the transaction, whether that commits or not.
  pub Keeps-after : {A : Type 0} {m : Tx A} → Keeps P m → {db : Db} → P db → P (after (m db) db)
  Keeps-after {m = m} k {db} h = Holds-after P (m db) db h (k.apply db h)

  -- A first statement that reads the database at hand.
  pub Holds-first :
      {A B : Type 0} (m : Tx A) (f : A → Tx B) (db : Db)
      → Holds P (m db)
      → ((a : A) → Keeps P (f a))
      → Holds P ((m >>= f) db)
  unfolding ◌>>=◌
  Holds-first m f db h kf = Holds-bind f (m db) kf h

-- What follows a statement that commits.
pub bind_done :
    {A B : Type 0} (m : Tx A) (f : A → Tx B) (db : Db) {a : A} {db' : Db}
    → m db ≡ done a db'
    → (m >>= f) db ≡ f a db'
unfolding ◌>>=◌
bind_done m f db h = λ i. elim (h i) [ done a db' ↦ f a db' | throw e ↦ throw e ]
