-- ===== src/Invariant/JobRows.antt =====
-- What holds of each row of `jobs`, and that every step of a job keeps it.
use kapi_final.Base.{ℕ, ◌≡◌, ◌≤◌, ◌<◌, Bool, true, false, Option, none, some, arith}
use kapi_final.Protocol.Jobs.{Job, JobSpec, is_job_leased, is_job_terminal}
use kapi_final.Queue.Claim.{is_queued, set_claimed}
use kapi_final.Queue.Lifecycle.{
  new_job, extend_lease, set_running, set_succeeded, set_failed, set_cancelled,
}
use kapi_final.Invariant.Steps.{JobStep, claims, beats, starts, completes, fails, cancels}

abbrev pub is_some {ℓ} : {A : Type ℓ} → Option A → Bool
is_some none = false
is_some (some _) = true

pub record IsWellFormed (j : Job) : Type 0 where
  -- Attempts count claims, and never pass the limit.
  pub allowed : 0 < j.max_attempts
  pub capped : j.attempts ≤ j.max_attempts
  -- A queued job belongs to no VM and has an attempt left.
  pub unowned : is_queued j.status ≡ true → j.vm_id ≡ none
  pub retryable : is_queued j.status ≡ true → j.attempts < j.max_attempts
  -- A leased job has a holder and a lease, after at least one claim.
  pub held : is_job_leased j.status ≡ true → is_some j.vm_id ≡ true
  pub leased : is_some j.lease_expires_at ≡ is_job_leased j.status
  pub tried : is_job_leased j.status ≡ true → 0 < j.attempts
  -- It has a finishing time exactly when it is over.
  pub finished : is_some j.finished_at ≡ is_job_terminal j.status

pub new_job-IsWellFormed :
    (id now : ℕ) (s : JobSpec) → 0 < s.max_attempts → IsWellFormed (new_job id now s)
unfolding new_job
new_job-IsWellFormed id now s h = ground arith

-- Each step of a job keeps its row well formed.
pub JobStep-IsWellFormed : {j k : Job} → JobStep j k → IsWellFormed j → IsWellFormed k
unfolding set_claimed extend_lease set_running set_succeeded set_failed set_cancelled
JobStep-IsWellFormed (claims o now h) w = ground arith
JobStep-IsWellFormed (beats now seconds h) w = ground arith
JobStep-IsWellFormed (starts h) w = ground arith
JobStep-IsWellFormed (completes r now h) w = ground arith
JobStep-IsWellFormed (fails why now h) w = ground arith
JobStep-IsWellFormed (cancels why now h) w = ground arith

-- The identity, owner and place of a job in its tree never change, and attempts never fall.
pub record IsSameJob (j k : Job) : Type 0 where
  pub id : k.id ≡ j.id
  pub run_id : k.run_id ≡ j.run_id
  pub parent : k.parent_job_id ≡ j.parent_job_id
  pub max : k.max_attempts ≡ j.max_attempts
  pub attempts : j.attempts ≤ k.attempts

pub JobStep-IsSameJob : {j k : Job} → JobStep j k → IsSameJob j k
unfolding set_claimed extend_lease set_running set_succeeded set_failed set_cancelled
JobStep-IsSameJob (claims o now h) = ground arith
JobStep-IsSameJob (beats now seconds h) = ground arith
JobStep-IsSameJob (starts h) = ground arith
JobStep-IsSameJob (completes r now h) = ground arith
JobStep-IsSameJob (fails why now h) = ground arith
JobStep-IsSameJob (cancels why now h) = ground arith

-- A job that is over takes no step.
pub JobStep-terminal : {j k : Job} → JobStep j k → is_job_terminal j.status ≡ true → ⊥
JobStep-terminal (claims o now h) t = ground arith
JobStep-terminal (beats now seconds h) t = ground arith
JobStep-terminal (starts h) t = ground arith
JobStep-terminal (completes r now h) t = ground arith
JobStep-terminal (fails why now h) t = ground arith
JobStep-terminal (cancels why now h) t = ground arith
