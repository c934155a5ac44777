-- ===== src/Core/Runner/MainLoop.antt =====
-- crates/core/src/ai_agent/conversation_runner.rs: `run_main_loop`. The verifier is part of the
-- environment, and so is what `todo_workflow_enabled` reads in the variables of the process; `usage` is
-- that of a response.
pub mod Turns
pub mod Verdicts
use Prim.Native.String.{◌++◌}
use ndc.Common.{
  ℕ, zero, suc, ◌+◌, ◌%◌, String, Bool, true, false, Option, none, some, List, [], ◌∷◌,
  if◌then◌else◌, leb, push, length, extend, map, Result, ok, err,
}
use ndc.Common.Option
use ndc.Common.Chars.{trim}
use ndc.Common.Text.{decimal, str_eq}
use ndc.Core.Conversation.{
  AgentError, AgentExecutionEvent, AgentExecutionEventKind, AgentToolCall, AgentWorkflowStage,
  Message, MessageRole, ToolCall, ToolResult, Usage, as_str, index, total_stages,
}
use ndc.Core.Conversation.Helpers.{
  truncate_messages, truncate_for_event, summarize_tool_calls, sanitize_tool_output,
  max_conversation_messages,
}
use ndc.Core.Runner.{CompletionRequest, Environment, World, emit_event, execute_tool_calls, tick}
use ndc.Core.Runner.Rounds.{request_of, recorded_call, result_message, ask}
use ndc.Core.Session.{AgentMessage, AgentSession, add_message, record_tool_call}
use ndc.Core.Session.Store.{save_session}
use ndc.Core.TaskState.{TaskId, Timestamp}
use ndc.Core.Verifier.{
  VerificationResult, is_success, generate_continuation_prompt, generate_feedback_message,
}

-- `verify_and_track` answers `none` when the verification itself fails; `show_id` writes a task id.
pub record MainEnvironment : Type 0 where
  pub base : Environment
  pub usage : ℕ → CompletionRequest → Option Usage
  pub estimate_tokens : CompletionRequest → Usage
  pub verify_and_track : ℕ → TaskId → Option VerificationResult
  pub show_id : TaskId → String
  pub auto_verify : Bool
  pub todo_workflow_enabled : Bool

pub record SessionTokenTotals : Type 0 where
  pub prompt : ℕ
  pub completion : ℕ
  pub total : ℕ

pub record AgentResponse : Type 0 where
  pub session_id : String
  pub content : String
  pub tool_calls : List AgentToolCall
  pub is_complete : Bool
  pub needs_input : Bool
  pub verification_result : Option VerificationResult
  pub execution_events : List AgentExecutionEvent

-- The variables of the loop.
pub record Main : Type 0 where
  pub messages : List Message
  pub round : ℕ
  pub tool_call_count : ℕ
  pub all_tool_calls : List AgentToolCall
  pub totals : SessionTokenTotals

pub data MainTurn : Type 0 where
  finished : Result AgentError AgentResponse → MainTurn
  again : Main → MainTurn

abbrev pub plain_event :
    AgentExecutionEventKind → ℕ → String → Bool → Option ℕ → Timestamp → AgentExecutionEvent
plain_event kind round message is_error duration now = record {
  kind = kind;
  timestamp = now;
  message = message;
  round = round;
  tool_name = none;
  tool_call_id = none;
  duration_ms = duration;
  is_error = is_error;
  workflow_stage = none;
  workflow_detail = none;
  workflow_stage_index = none;
  workflow_stage_total = none;
}

abbrev pub stage_event : AgentWorkflowStage → ℕ → String → Timestamp → AgentExecutionEvent
stage_event stage round detail now = record {
  kind = AgentExecutionEventKind.workflow_stage;
  timestamp = now;
  message = "workflow_stage: " ++ as_str stage ++ " | " ++ detail;
  round = round;
  tool_name = none;
  tool_call_id = none;
  duration_ms = none;
  is_error = false;
  workflow_stage = some stage;
  workflow_detail = some detail;
  workflow_stage_index = some (index stage);
  workflow_stage_total = some total_stages;
}

abbrev pub token_event : ℕ → Usage → SessionTokenTotals → Bool → Timestamp → AgentExecutionEvent
token_event round usage totals estimated =
    plain_event AgentExecutionEventKind.token_usage round
      ("token_usage: source="
        ++ (if estimated then "estimated" else "provider")
        ++ " prompt="
        ++ decimal usage.prompt_tokens
        ++ " completion="
        ++ decimal usage.completion_tokens
        ++ " total="
        ++ decimal usage.total_tokens
        ++ " | session_prompt_total="
        ++ decimal totals.prompt
        ++ " session_completion_total="
        ++ decimal totals.completion
        ++ " session_total="
        ++ decimal totals.total)
      false none

-- Addition on `u64`.
abbrev plus64 : ℕ → ℕ → ℕ
plus64 a b = (a + b) % 18446744073709551616

abbrev pub add_usage : Usage → SessionTokenTotals → SessionTokenTotals
add_usage u t = record {
  prompt = plus64 t.prompt u.prompt_tokens;
  completion = plus64 t.completion u.completion_tokens;
  total = plus64 t.total u.total_tokens;
}

-- A message joins the session with the time at which it does.
unfoldable pub say : Environment → (Timestamp → AgentMessage) → World → World
say env make w = record w {
  ticks = suc w.ticks;
  session = add_message (make (env.now w.ticks)) w.session;
}

abbrev pub said :
    MessageRole
    → String
    → Option (List AgentToolCall)
    → Option (List String)
    → Option String
    → Timestamp
    → AgentMessage
said role content calls results id now = record {
  role = role;
  content = content;
  timestamp = now;
  tool_calls = calls;
  tool_results = results;
  tool_call_id = id;
}

abbrev pub save : World → World
save w = record w { store = save_session w.session w.store }

abbrev pub count_calls : List ToolCall → AgentSession → AgentSession
count_calls [] s = s
count_calls (c ∷ cs) s = count_calls cs (record_tool_call c.function.name s)

-- The results of tools join the session.
unfoldable pub say_results : Environment → List ToolResult → World → World
unfolding say sanitize_tool_output
say_results env [] w = w
say_results env (r ∷ rs) w =
    let content = sanitize_tool_output r.content in
    say_results env rs
      (say env (said MessageRole.tool content none (some (content ∷ [])) (some r.tool_call_id)) w)
