-- ===== src/AgentCore/Messages.antt =====
-- packages/protocol/src/model-api.ts and packages/agent-core/src/types.ts: what passes between the
-- agent, its model and its tools. A path or a command is the list of its code units, and the rest of
-- a tool's input is a number.
use kapi_final.Base.{ℕ, String, Bool, true, false, Option, List}

pub record ToolCall : Type 0 where
  pub tool_call_id : ℕ
  pub tool_name : String
  pub path : Option (List ℕ)
  pub command : Option (List ℕ)
  -- input.summary
  pub summary : Option String
  pub rest : ℕ

pub record ModelResponse : Type 0 where
  pub text : String
  pub tool_calls : List ToolCall
  pub budget_exhausted : Bool

-- The part of a message that holds what a tool gave.
pub record ToolOutput : Type 0 where
  pub tool_call_id : ℕ
  pub tool_name : String
  pub value : String

pub data Part : Type 0 where
  text_part : String → Part
  tool_call : ToolCall → Part

-- A line of the summary: the tool, and its target if it names one.
pub record Action : Type 0 where
  pub tool_name : String
  pub detail : List ℕ

pub data WireMessage : Type 0 where
  user_text : String → WireMessage
  -- The user message that stands for the steps left out.
  user_summary : List Action → WireMessage
  -- The user message that asks to land, with the steps that are left.
  user_landing : ℕ → WireMessage
  assistant_text : String → WireMessage
  assistant_parts : List Part → WireMessage
  tool_results : List ToolOutput → WireMessage

abbrev pub is_assistant : WireMessage → Bool
is_assistant (assistant_text _) = true
is_assistant (assistant_parts _) = true
is_assistant _ = false

-- `meta` of a result, as far as the loop reads it.
pub record Meta : Type 0 where
  pub path : Option String
  pub files : List String
  pub sha : Option String
  pub branch : Option String
  pub pr_url : Option String
  pub verdict : ℕ

pub record ToolResult : Type 0 where
  pub output : String
  -- `outcome.ok !== false`
  pub ok : Bool
  pub info : Option Meta

pub record AgentTool : Type 0 where
  pub name : String
  pub terminal : Bool

-- The batch of calls that is being carried out.
pub record Pending : Type 0 where
  pub response : ModelResponse
  pub next : ℕ
  pub started : Bool
  pub results : List ToolOutput

-- The state of the loop that is saved; the workspace is captured by the caller.
pub record Checkpoint : Type 0 where
  pub step : ℕ
  pub messages : List WireMessage
  pub files_touched : List String
  pub commits : List String
  pub branch : Option String
  pub pr_url : Option String
  pub terminal_meta : Option Meta
  pub result_summary : String
  pub finished : Bool
  pub pending : Option Pending
  pub blocked_reason : Option String
