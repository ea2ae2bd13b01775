-- ===== src/Db/Tables.antt =====
-- packages/db/src/ddl.ts: the tables, with the columns that the modelled statements read or write.
-- A time is a number of milliseconds; a table is the list of its rows, newest event first.
use kapi_final.Base.{ℕ, String, Bool, Option, List}
use kapi_final.Protocol.Text.{Text}
use kapi_final.Protocol.Jobs.{AgentRole, Job}
use kapi_final.Protocol.Events.{RunStatus, AgentEvent}
use kapi_final.Protocol.Review.{ReviewVerdict}
use kapi_final.Protocol.AgentApi.{SpawnResponse}

pub data AgentStatus : Type 0 where
  starting provisioning claimed running succeeded failed retrying evicted cancelled provision_failed
        agent_start_failed provision_unknown provision_timeout provision_absent resource_stopped
        resource_missing :
      AgentStatus

pub record Agent : Type 0 where
  pub job_id : ℕ
  pub run_id : ℕ
  pub role : AgentRole
  pub status : AgentStatus
  pub vm_id : Option ℕ
  pub provider : Option ℕ
  pub last_heartbeat : Option ℕ
  pub stopped_at : Option ℕ
  pub reservation_id : Option ℕ
  pub accounted_through : Option ℕ

pub data CostStatus : Type 0 where
  unavailable known partial_cost : CostStatus

-- `budgets`, a JSON object; a key that is missing is null.
pub record Budgets : Type 0 where
  pub max_concurrent_vms : Option ℕ
  pub max_total_spawns : Option ℕ
  pub max_spawn_depth : Option ℕ
  pub max_tokens : Option ℕ
  pub max_llm_requests : Option ℕ
  pub max_vm_seconds : Option ℕ
  pub max_usd_cents : Option ℕ

pub record Project : Type 0 where
  pub id : ℕ
  pub owner_id : ℕ
  pub repo_url : String
  pub default_branch : String
  pub budgets : Budgets

pub record Thread : Type 0 where
  pub id : ℕ
  pub project_id : ℕ
  pub title : Option String

pub record Run : Type 0 where
  pub id : ℕ
  pub thread_id : ℕ
  pub project_id : ℕ
  pub goal : String
  pub status : RunStatus
  pub max_concurrent_vms : ℕ
  pub max_total_spawns : ℕ
  pub max_spawn_depth : ℕ
  pub max_tokens : ℕ
  pub max_llm_requests : ℕ
  pub max_vm_seconds : ℕ
  pub max_usd_cents : ℕ
  pub llm_requests : ℕ
  pub llm_tokens : ℕ
  pub total_spawns : ℕ
  pub vm_seconds : ℕ
  pub usd_micros : ℕ
  pub usd_cents : ℕ
  pub cost_status : CostStatus
  pub schedule_id : Option ℕ
  pub scheduled_for : Option ℕ
  pub event_seq : ℕ
  pub error : Option Text
  pub finished_at : Option ℕ

pub data MessageRole : Type 0 where
  user captain system : MessageRole

pub record Message : Type 0 where
  pub thread_id : ℕ
  pub role : MessageRole
  pub content : Text
  pub run_id : Option ℕ

pub data ScheduleStatus : Type 0 where
  started skipped_overlap completed failed cancelled : ScheduleStatus

pub record Schedule : Type 0 where
  pub id : ℕ
  pub project_id : ℕ
  pub thread_id : ℕ
  pub name : String
  pub cron : ℕ
  pub timezone : ℕ
  pub goal : String
  pub enabled : Bool
  pub last_run_at : Option ℕ
  pub last_scheduled_at : Option ℕ
  pub last_skipped_at : Option ℕ
  pub last_status : Option ScheduleStatus
  pub last_error : Option Text
  pub next_run_at : Option ℕ
  pub deleted_at : Option ℕ

pub record Reservation : Type 0 where
  pub id : ℕ
  pub run_id : ℕ
  pub user_id : ℕ
  pub tokens : ℕ
  pub expires_at : ℕ

-- The body of `spawn_<digest>`, an artifact that remembers a request to spawn.
pub record SpawnReceipt : Type 0 where
  pub operation : ℕ
  pub fingerprint : ℕ
  pub response : SpawnResponse

pub data UsageStatus : Type 0 where
  estimated actual : UsageStatus

-- The body of `model_usage_<call>`; the evidence is left out.
pub record UsageReceipt : Type 0 where
  pub call : ℕ
  pub run_id : ℕ
  pub tokens : ℕ
  pub status : UsageStatus

-- The table `artifacts`, by the three prefixes of its ids; `review_<job>` holds a verdict.
pub record Artifacts : Type 0 where
  pub receipts : List SpawnReceipt
  pub verdicts : List (ℕ × ReviewVerdict)
  pub usage : List UsageReceipt

-- A row of usage_ledger, of kind 'vm_seconds'.
pub record Usage : Type 0 where
  pub run_id : ℕ
  pub job_id : ℕ
  pub provider : ℕ
  pub quantity : ℕ
  pub usd_micros : ℕ
  pub cost_status : CostStatus
  pub period_start : ℕ
  pub period_end : ℕ

pub record Db : Type 0 where
  pub projects : List Project
  pub threads : List Thread
  pub jobs : List Job
  pub agents : List Agent
  pub runs : List Run
  pub events : List AgentEvent
  pub messages : List Message
  pub schedules : List Schedule
  pub reservations : List Reservation
  pub ledger : List Usage
  pub artifacts : Artifacts
