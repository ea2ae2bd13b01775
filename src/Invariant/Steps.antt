-- ===== src/Invariant/Steps.antt =====
-- The life of a job and of a run, as step relations on rows.
use kapi_final.Base.{ℕ, ◌≡◌, Bool, true, false}
use kapi_final.Protocol.Text.{Text}
use kapi_final.Protocol.Jobs.{Job, JobResult, is_job_leased, is_job_terminal}
use kapi_final.Protocol.Events.{RunStatus, completed, failed, cancelled}
use kapi_final.Db.Tables.{Run}
use kapi_final.Queue.Claim.{ClaimOptions, is_queued, set_claimed}
use kapi_final.Queue.Lifecycle.{
  extend_lease, is_claimed, set_running, set_succeeded, set_failed, set_cancelled,
}

-- What one statement may do to a row of `jobs`, and from which states.
pub data JobStep (j : Job) : Job → Type 0 where
  claims :
      (o : ClaimOptions) (now : ℕ) → is_queued j.status ≡ true → JobStep j (set_claimed o now j)
  beats : (now seconds : ℕ) → is_job_leased j.status ≡ true → JobStep j (extend_lease now seconds j)
  starts : is_claimed j.status ≡ true → JobStep j (set_running j)
  completes :
      (r : JobResult) (now : ℕ) → is_job_leased j.status ≡ true → JobStep j (set_succeeded r now j)
  fails :
      (why : Job → Text) (now : ℕ)
      → is_job_leased j.status ≡ true
      → JobStep j (set_failed why now j)
  cancels :
      (why : Text) (now : ℕ)
      → is_job_terminal j.status ≡ false
      → JobStep j (set_cancelled why now j)

-- NOT IN ('completed','failed','cancelled')
abbrev pub is_run_terminal : RunStatus → Bool
is_run_terminal completed = true
is_run_terminal failed = true
is_run_terminal cancelled = true
is_run_terminal _ = false

-- What a statement other than `appendEvent` may do to a row of `runs`.
pub record RunStep (r s : Run) : Type 0 where
  pub same_id : s.id ≡ r.id
  pub same_seq : s.event_seq ≡ r.event_seq
  pub same_schedule : s.schedule_id ≡ r.schedule_id
  pub ended : is_run_terminal r.status ≡ true → s.status ≡ r.status
