-- ===== src/Core/Conversation.antt =====
-- crates/core/src/ai_agent/mod.rs and crates/core/src/llm/provider/mod.rs: messages, calls of tools,
-- errors and the events of an execution. A JSON value is its text, as in `Intent`.
pub mod Helpers
pub mod Truncation
use ndc.Common.{ℕ, String, Bool, Option, List}
use ndc.Core.TaskState.{Timestamp}

pub data MessageRole : Type 0 where
  system user assistant tool : MessageRole

abbrev pub is_system : MessageRole → Bool
is_system MessageRole.system = Bool.true
is_system _ = Bool.false

pub record ToolCallFunction : Type 0 where
  pub name : String
  pub arguments : String

pub record ToolCall : Type 0 where
  pub id : String
  pub function : ToolCallFunction

pub record Message : Type 0 where
  pub role : MessageRole
  pub content : String
  pub name : Option String
  pub tool_calls : Option (List ToolCall)

pub record ToolResult : Type 0 where
  pub tool_call_id : String
  pub content : String
  pub is_error : Bool

pub record Usage : Type 0 where
  pub prompt_tokens : ℕ
  pub completion_tokens : ℕ
  pub total_tokens : ℕ

pub data AgentError : Type 0 where
  llm_error tool_error session_not_found verification_failed permission_denied : String → AgentError
  timeout max_tool_calls_exceeded : ℕ → AgentError
  invalid_request config_error other : String → AgentError
  cancelled : AgentError

pub record AgentToolCall : Type 0 where
  pub name : String
  pub arguments : String
  pub id : String

pub data AgentExecutionEventKind : Type 0 where
  workflow_stage step_start step_finish tool_call_start tool_call_end token_usage reasoning text :
      AgentExecutionEventKind
  verification permission_asked session_status error todo_state_change analysis_complete :
      AgentExecutionEventKind
  planning_complete todo_execution_start todo_execution_end report : AgentExecutionEventKind

pub data AgentWorkflowStage : Type 0 where
  load_context compress analysis planning executing verifying completing reporting :
      AgentWorkflowStage

abbrev pub total_stages : ℕ
total_stages = 8

abbrev pub as_str : AgentWorkflowStage → String
as_str load_context = "load_context"
as_str compress = "compress"
as_str analysis = "analysis"
as_str planning = "planning"
as_str executing = "executing"
as_str verifying = "verifying"
as_str completing = "completing"
as_str reporting = "reporting"

abbrev pub index : AgentWorkflowStage → ℕ
index load_context = 1
index compress = 2
index analysis = 3
index planning = 4
index executing = 5
index verifying = 6
index completing = 7
index reporting = 8

pub record AgentExecutionEvent : Type 0 where
  pub kind : AgentExecutionEventKind
  pub timestamp : Timestamp
  pub message : String
  pub round : ℕ
  pub tool_name : Option String
  pub tool_call_id : Option String
  pub duration_ms : Option ℕ
  pub is_error : Bool
  pub workflow_stage : Option AgentWorkflowStage
  pub workflow_detail : Option String
  pub workflow_stage_index : Option ℕ
  pub workflow_stage_total : Option ℕ
