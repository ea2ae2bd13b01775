-- ===== src/Protocol/Events.antt =====
-- packages/protocol/src/events.ts: the append-only stream of a run.
use kapi_final.Base.{ℕ, String, Option, List}
use kapi_final.Protocol.Text.{JobStatus, Text}
use kapi_final.Protocol.Context.{Context}
use kapi_final.Protocol.Review.{ReviewVerdict}
use kapi_final.Protocol.Jobs.{JobKind, AgentRole, AgentId}

pub data EventKind : Type 0 where
  run_status job_status agent_spawned agent_message tool_call tool_result log ci_completed
        review_verdict :
      EventKind

-- Payload shape for `job.status`, the event a state replay depends on.
pub record JobStatusPayload : Type 0 where
  pub status : JobStatus
  pub from : Option JobStatus
  pub vm_id : Option ℕ
  pub attempts : Option ℕ
  pub detail : Option Text

pub data RunStatus : Type 0 where
  queued running completed failed cancelled : RunStatus

pub data CheckType : Type 0 where
  check_run check_suite : CheckType

-- github-webhook.ts, CompletedCheck: a check that GitHub ran to its end.
pub record CompletedCheck : Type 0 where
  pub check_type : CheckType
  pub check_id : Option ℕ
  pub name : String
  pub repository : String
  pub branch : Option String
  pub sha : Option String
  pub conclusion : Option String
  pub status : String
  pub url : Option String
  pub started_at : Option String
  pub completed_at : Option String
  pub login : Option String
  pub installation_id : Option ℕ
  pub check_runs : Option ℕ

-- The shapes that the control plane writes, and what an agent posts.
pub data EventPayload : Type 0 where
  of_job : JobStatusPayload → EventPayload
  of_run : RunStatus → Option Text → EventPayload
  of_spawn : ℕ → JobKind → AgentRole → String → List String → EventPayload
  of_review : ReviewVerdict → ℕ → EventPayload
  -- The check, the id of its delivery, and a line about it.
  of_ci : CompletedCheck → String → String → EventPayload
  of_agent : Context → EventPayload

-- What a caller passes to `appendEvent`.
pub record EventInput : Type 0 where
  pub run_id : ℕ
  pub job_id : Option ℕ
  pub kind : EventKind
  pub sender : AgentId
  pub recipient : Option AgentId
  pub payload : EventPayload

-- A row of `events`; its random id and time stamp are left out.
pub record AgentEvent : Type 0 where
  pub run_id : ℕ
  pub job_id : Option ℕ
  pub seq : ℕ
  pub kind : EventKind
  pub sender : AgentId
  pub recipient : Option AgentId
  pub payload : EventPayload
