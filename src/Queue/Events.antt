-- ===== src/Queue/Events.antt =====
-- packages/queue/src/events.ts: appending to the stream of a run.
use kapi_final.Base.{
  ℕ, ◌==◌, ◌+◌, ◌≡◌, Option, none, some, ◌∷◌, head?, if◌then◌else◌, arith, row_of, update_where,
  head-returning,
}
use kapi_final.Protocol.Text.{JobStatus, Text, truthy}
use kapi_final.Protocol.Jobs.{orchestrator}
use kapi_final.Protocol.Events.{EventInput, AgentEvent, job_status, of_job}
use kapi_final.Db.Tables.{Db, Run}
use kapi_final.Db.Tx.{
  Tx, ◌>>=◌, ◌>>◌, pure, fail_with, update_runs, insert_event, run_missing, done, throw, bind_done,
}

abbrev pub bump : Run → Run
bump r = record r { event_seq = r.event_seq + 1 }

abbrev pub numbered : EventInput → ℕ → AgentEvent
numbered e n = record {
  run_id = e.run_id;
  job_id = e.job_id;
  seq = n;
  kind = e.kind;
  sender = e.sender;
  recipient = e.recipient;
  payload = e.payload;
}

-- The rest of `appendEvent`, over the row that the UPDATE returned.
unfoldable pub insert_numbered : EventInput → Option Run → Tx ℕ
insert_numbered e none = fail_with (run_missing e.run_id)
insert_numbered e (some r) = insert_event (numbered e r.event_seq) >> pure r.event_seq

unfoldable pub append_event : EventInput → Tx ℕ
append_event e = do
  bumped ← update_runs (λ r. r.id == e.run_id) bump
  insert_numbered e (head? bumped)

-- Appends where the sequence number is not used.
abbrev pub append_event_ : EventInput → Tx (Unit {0})
append_event_ e = append_event e >>= λ _. pure tt

abbrev pub non_empty : Option Text → Option Text
non_empty none = none
non_empty (some t) = if truthy t then some t else none

-- The event that every transition records; `actor` is the orchestrator everywhere.
unfoldable pub job_status_event :
    (run_id job_id : ℕ) (from : Option JobStatus) (status : JobStatus) (vm_id attempts : Option ℕ)
    (detail : Option Text)
    → EventInput
job_status_event run_id job_id from status vm_id attempts detail = record {
  run_id = run_id;
  job_id = some job_id;
  kind = job_status;
  sender = orchestrator;
  recipient = none;
  payload = of_job (record {
    status = status;
    from = from;
    vm_id = vm_id;
    attempts = attempts;
    detail = non_empty detail;
  });
}

-- What `appendEvent` does: it throws if the run is missing, and else takes the next number.
pub append_event_lem :
    (e : EventInput) (db : Db)
    → append_event e db ≡ (elim (row_of (λ (x : Run). x.id) e.run_id db.runs) [
      | none ↦ throw (run_missing e.run_id)
      | some r ↦ done (r.event_seq + 1) (record db {
        runs = update_where (λ x. x.id == e.run_id) bump db.runs;
        events = numbered e (r.event_seq + 1) ∷ db.events;
      })
    ])
unfolding append_event insert_numbered ◌>>=◌ update_runs insert_event pure fail_with row_of
append_event_lem e db = ground (arith, head-returning (λ (x : Run). x.id == e.run_id) bump db.runs)

-- The database after an append to the run of the row `r`.
abbrev pub appended : EventInput → Run → Db → Db
appended e r db = record db {
  runs = update_where (λ x. x.id == e.run_id) bump db.runs;
  events = numbered e (r.event_seq + 1) ∷ db.events;
}

pub append_event_done :
    (e : EventInput) (db : Db) {r : Run}
    → row_of (λ (x : Run). x.id) e.run_id db.runs ≡ some r
    → append_event e db ≡ done (r.event_seq + 1) (appended e r db)
append_event_done e db h = rw (append_event_lem e db) (rw h)

-- An append whose run exists, followed by a result.
pub append_then :
    {A : Type 0} (e : EventInput) (a : A) (db : Db) {r : Run}
    → row_of (λ (x : Run). x.id) e.run_id db.runs ≡ some r
    → (append_event_ e >> pure a) db ≡ done a (appended e r db)
unfolding pure
append_then e a db h =
    bind_done (append_event_ e) (λ _. pure a) db
      (bind_done (append_event e) (λ _. pure tt) db (append_event_done e db h))
