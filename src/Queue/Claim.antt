-- ===== src/Queue/Claim.antt =====
-- packages/queue/src/claim.ts: one job, leased to one VM.
pub mod Order
pub mod Outcome
use kapi_final.Base.{
  ℕ, ◌==◌, ◌+◌, ◌*◌, ltb, Option, none, some, Bool, true, false, not, ◌&&◌, ◌||◌, List, [], ◌∷◌,
  head?, any, has, select, if◌then◌else◌,
}
use kapi_final.Base.Int.{ltb_ℤ}
use kapi_final.Protocol.Text.{JobStatus, queued, claimed, succeeded}
use kapi_final.Protocol.Jobs.{Job, JobKind, kind_eq}
use kapi_final.Db.Tables.{Db}
use kapi_final.Db.Tx.{Tx, ◌>>=◌, ◌>>◌, pure, update_jobs}
use kapi_final.Queue.Events.{append_event_, job_status_event}

pub record ClaimOptions : Type 0 where
  pub vm_id : ℕ
  -- Empty means any.
  pub kinds : List JobKind
  pub run_id : Option ℕ
  pub job_id : Option ℕ
  pub lease_seconds : ℕ

abbrev pub is_queued : JobStatus → Bool
is_queued queued = true
is_queued _ = false

abbrev pub is_succeeded : JobStatus → Bool
is_succeeded succeeded = true
is_succeeded _ = false

-- cardinality($3) = 0 OR j.kind = ANY($3)
abbrev pub any_kind : JobKind → List JobKind → Bool
any_kind k [] = false
any_kind k (j ∷ ks) = kind_eq k j || any_kind k ks

abbrev pub kind_fits : List JobKind → JobKind → Bool
kind_fits [] k = true
kind_fits (j ∷ ks) k = any_kind k (j ∷ ks)

-- $n IS NULL OR x = $n
abbrev pub null_or : Option ℕ → ℕ → Bool
null_or none x = true
null_or (some k) x = x == k

-- EXISTS (SELECT 1 FROM jobs d WHERE d.id = ANY(j.depends_on) AND d.status <> 'succeeded')
unfoldable pub is_blocked : List Job → Job → Bool
is_blocked jobs j = any (λ d. has d.id j.depends_on && not (is_succeeded d.status)) jobs

-- The WHERE clause, and SKIP LOCKED: `locked` holds of the rows that another transaction has.
unfoldable pub claimable : ClaimOptions → (ℕ → Bool) → List Job → Job → Bool
claimable o locked jobs j =
    is_queued j.status
    && (kind_fits o.kinds j.kind
        && (null_or o.run_id j.run_id
            && (null_or o.job_id j.id && (not (is_blocked jobs j) && not (locked j.id)))))

-- ORDER BY priority DESC, created_at ASC: whether `a` comes strictly before `b`.
unfoldable pub before : Job → Job → Bool
before a b =
    ltb_ℤ b.priority a.priority
    || (not (ltb_ℤ a.priority b.priority) && ltb a.created_at b.created_at)

abbrev pub better : Job → Option Job → Job
better j none = j
better j (some k) = if before k j then k else j

-- LIMIT 1 of that order. Of equal rows SQL may take any; this is the first of the table.
unfoldable pub best : List Job → Option Job
best [] = none
best (j ∷ js) = some (better j (best js))

abbrev pub coalesce : Option ℕ → ℕ → Option ℕ
coalesce none now = some now
coalesce (some t) now = some t

unfoldable pub set_claimed : ClaimOptions → ℕ → Job → Job
set_claimed o now j = record j {
  status = claimed;
  vm_id = some o.vm_id;
  attempts = j.attempts + 1;
  lease_expires_at = some (now + o.lease_seconds * 1000);
  started_at = coalesce j.started_at now;
}

abbrev pub id_is : Option Job → Job → Bool
id_is none j = false
id_is (some k) j = j.id == k.id

unfoldable pub record_claim : ClaimOptions → Option Job → Tx (Option Job)
record_claim o none = pure none
record_claim o (some job) = do
  append_event_ (
      job_status_event job.run_id job.id (some queued) claimed (some o.vm_id) (some job.attempts)
        none)
  pure (some job)

unfoldable pub pick : ClaimOptions → (ℕ → Bool) → List Job → Option Job
pick o locked jobs = best (select (claimable o locked jobs) jobs)

unfoldable pub claim : ClaimOptions → (ℕ → Bool) → ℕ → Tx (Option Job)
claim o locked now db =
    (do
      rows ← update_jobs (id_is (pick o locked db.jobs)) (set_claimed o now)
      record_claim o (head? rows))
      db
