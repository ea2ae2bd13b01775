-- ===== src/Queue/Reaper.antt =====
-- packages/queue/src/reaper.ts: jobs whose lease ran out go back to the queue.
use kapi_final.Base.{
  ℕ, leb, ltb, Option, none, some, Bool, false, not, ◌&&◌, List, has, select, take,
}
use kapi_final.Protocol.Text.{Text, lease_expired, lit}
use kapi_final.Protocol.Jobs.{Job, is_job_leased}
use kapi_final.Db.Tables.{Db}
use kapi_final.Db.Tables
use kapi_final.Db.Tx.{Tx, ◌>>=◌, ◌>>◌, pure, update_jobs, for_each}
use kapi_final.Queue.Events.{append_event_, job_status_event}
use kapi_final.Queue.Lifecycle.{set_failed, stop_agent, failed_or, sort_by, sorts_before, ids_of}

abbrev pub past : Option ℕ → ℕ → Bool
past none now = false
past (some t) now = ltb t now

-- status IN ('claimed','running') AND lease_expires_at < now(), on the rows that are not locked.
unfoldable pub is_expired : (ℕ → Bool) → ℕ → Job → Bool
is_expired locked now j =
    is_job_leased j.status && (past j.lease_expires_at now && not (locked j.id))

abbrev pub or_zero : Option ℕ → ℕ
or_zero none = 0
or_zero (some t) = t

-- ORDER BY lease_expires_at ASC
abbrev pub expires_first : Job → Job → Bool
expires_first a b = leb (or_zero a.lease_expires_at) (or_zero b.lease_expires_at)

unfoldable pub expired : (ℕ → Bool) → ℕ → ℕ → List Job → List Job
expired locked limit now jobs =
    take limit (sort_by expires_first (select (is_expired locked now) jobs))

abbrev pub or_lease_expired : Option Text → Text
or_lease_expired none = lit "lease expired"
or_lease_expired (some t) = t

unfoldable pub reap : (ℕ → Bool) → ℕ → ℕ → Tx (List Job)
reap locked limit now db =
    (do
      rows ←
          update_jobs (λ j. has j.id (ids_of (expired locked limit now db.jobs)))
            (set_failed (λ j. lease_expired j.vm_id) now)
      for_each rows (λ j. stop_agent now j.id (failed_or j.status Tables.evicted))
      for_each (sort_by sorts_before rows) (λ j. append_event_ (
          job_status_event j.run_id j.id none j.status none (some j.attempts)
            (some (or_lease_expired j.error))))
      pure rows)
      db
