-- ===== src/Protocol/Jobs.antt =====
-- packages/protocol/src/jobs.ts and ids.ts: jobs as the queue keeps them, and agent addresses.
use kapi_final.Base.{ℕ, String, Bool, true, false, Option, List}
use kapi_final.Protocol.Context.{Context}
use kapi_final.Base.Int.{ℤ}
use kapi_final.Protocol.Text.{JobStatus, claimed, running, succeeded, failed, cancelled, Text}
use kapi_final.Protocol.Review.{ReviewVerdict}

pub data JobKind : Type 0 where
  captain build review : JobKind

abbrev pub kind_eq : JobKind → JobKind → Bool
kind_eq captain captain = true
kind_eq build build = true
kind_eq review review = true
kind_eq _ _ = false

pub data AgentRole : Type 0 where
  captain frontend backend database testing infra docs research review generalist : AgentRole

-- `isJobTerminal`: TERMINAL_JOB_STATUSES.includes.
abbrev pub is_job_terminal : JobStatus → Bool
is_job_terminal succeeded = true
is_job_terminal failed = true
is_job_terminal cancelled = true
is_job_terminal _ = false

-- `isJobLeased`: LEASED_JOB_STATUSES.includes.
abbrev pub is_job_leased : JobStatus → Bool
is_job_leased claimed = true
is_job_leased running = true
is_job_leased _ = false

pub record JobPayload : Type 0 where
  pub instruction : String
  pub acceptance : List String
  pub touches : List String
  pub secrets : List String
  pub context : Context

pub record JobResult : Type 0 where
  pub ok : Bool
  pub summary : Text
  pub files_changed : List String
  pub commits : List String
  pub branch : Option String
  pub pr_url : Option String
  pub review : Option ReviewVerdict
  pub error : Option Text

-- A row of `jobs`, which `toJob` reads field by field.
pub record Job : Type 0 where
  pub id : ℕ
  pub run_id : ℕ
  pub parent_job_id : Option ℕ
  pub kind : JobKind
  pub role : AgentRole
  pub status : JobStatus
  pub payload : JobPayload
  pub result : Option JobResult
  pub vm_id : Option ℕ
  pub lease_expires_at : Option ℕ
  pub attempts : ℕ
  pub max_attempts : ℕ
  pub priority : ℤ
  pub depends_on : List ℕ
  pub error : Option Text
  pub created_at : ℕ
  pub started_at : Option ℕ
  pub finished_at : Option ℕ

-- What a caller hands to `enqueue`, after `JobSpecSchema.parse` has put the defaults in.
pub record JobSpec : Type 0 where
  pub run_id : ℕ
  pub parent_job_id : Option ℕ
  pub kind : JobKind
  pub role : AgentRole
  pub payload : JobPayload
  pub depends_on : List ℕ
  pub priority : ℤ
  pub max_attempts : ℕ

-- ids.ts, `AgentIdSchema`: the four forms of an address.
pub data AgentId : Type 0 where
  orchestrator captain broadcast : AgentId
  agent : ℕ → AgentId

-- `isAgent`, and `jobIdOf`.
pub is_agent : AgentId → Bool
is_agent (agent _) = true
is_agent _ = false

pub job_id_of : AgentId → Option ℕ
job_id_of (agent j) = Option.some j
job_id_of _ = Option.none
