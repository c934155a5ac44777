-- ===== src/Core/Runner.antt =====
-- crates/core/src/ai_agent/conversation_runner.rs: the events of a conversation and the execution of the
-- tools that the model calls for. The language model, the executor of tools and the clocks are the
-- environment, which answers by the number of the call; a world counts the calls and records the
-- requests and the broadcast events. What is written to the log is left out.
pub mod Rounds
pub mod MainLoop
pub mod Answering
use Prim.Native.String.{◌++◌}
use text.Mathlib.Text.{starts_with}
use ndc.Common.{
  ℕ, suc, ◌+◌, String, Bool, true, false, not, Option, none, some, List, [], ◌∷◌, if◌then◌else◌,
  push, Result, ok, err,
}
use ndc.Common.Chars.{trim_start}
use ndc.Common.Text.{decimal}
use ndc.Core.Conversation.{
  AgentError, AgentExecutionEvent, AgentExecutionEventKind, Message, ToolCall, ToolResult,
}
use ndc.Core.Conversation.Helpers.{compact_preview, is_confirmation_permission_error}
use ndc.Core.Session.{AgentSession, add_execution_event}
use ndc.Core.Session.Store.{SessionStore, save_session, index_session}
use ndc.Core.TaskState.{Timestamp}

-- `f32` parameters are bit patterns, schemas of tools are JSON texts.
pub record CompletionRequest : Type 0 where
  pub model : String
  pub messages : List Message
  pub temperature : Option ℕ
  pub max_tokens : Option ℕ
  pub top_p : Option ℕ
  pub frequency_penalty : Option ℕ
  pub presence_penalty : Option ℕ
  pub stop : Option (List String)
  pub stream : Bool
  pub tools : Option (List String)

-- `complete` gives the messages of the choices of a response.
pub record Environment : Type 0 where
  pub now : ℕ → Timestamp
  pub elapsed_ms : ℕ → ℕ
  pub complete : ℕ → CompletionRequest → Result String (List Message)
  pub execute_tool : ℕ → String → String → Result AgentError String
  pub confirm_and_retry_permission :
      ℕ → String → String → String → Result AgentError (Option String)
  pub tool_schemas : List String
  pub default_model : String
  pub max_tool_calls : ℕ

pub record World : Type 0 where
  pub ticks : ℕ
  pub session : AgentSession
  pub events : List AgentExecutionEvent
  pub broadcast : List (String × AgentExecutionEvent)
  pub store : SessionStore
  pub requests : List CompletionRequest

abbrev pub tick : World → World
tick w = record w { ticks = suc w.ticks }

-- An event is made with the time at which it is emitted.
unfoldable pub emit_event : Environment → (Timestamp → AgentExecutionEvent) → World → World
unfolding save_session
emit_event env make w =
    let event = make (env.now w.ticks) in
    let session = add_execution_event event w.session in
    record w {
      ticks = suc w.ticks;
      session = session;
      events = push w.events event;
      broadcast = push w.broadcast (w.session.id, event);
      store = save_session session w.store;
    }

-- `e.to_string()`.
abbrev pub display : AgentError → String
display (AgentError.llm_error m) = "LLM provider error: " ++ m
display (AgentError.tool_error m) = "Tool execution error: " ++ m
display (AgentError.session_not_found m) = "Session not found: " ++ m
display (AgentError.verification_failed m) = "Verification failed: " ++ m
display (AgentError.permission_denied m) = "Permission denied: " ++ m
display (AgentError.timeout n) = "Timeout: operation exceeded " ++ decimal n ++ "s"
display (AgentError.max_tool_calls_exceeded n) = "Max tool calls exceeded: " ++ decimal n
display (AgentError.invalid_request m) = "Invalid request: " ++ m
display (AgentError.config_error m) = "Config error: " ++ m
display (AgentError.other m) = "Other error: " ++ m
display AgentError.cancelled = "Cancelled by user"

-- The event of a call of a tool.
abbrev pub tool_event :
    AgentExecutionEventKind
    → ToolCall
    → ℕ
    → String
    → Bool
    → Option ℕ
    → Timestamp
    → AgentExecutionEvent
tool_event kind call round message is_error duration now = record {
  kind = kind;
  timestamp = now;
  message = message;
  round = round;
  tool_name = some call.function.name;
  tool_call_id = some call.id;
  duration_ms = duration;
  is_error = is_error;
  workflow_stage = none;
  workflow_detail = none;
  workflow_stage_index = none;
  workflow_stage_total = none;
}

abbrev pub succeeded : ToolCall → String → ToolResult
succeeded call content = record { tool_call_id = call.id; content = content; is_error = false }

abbrev pub failed : ToolCall → String → ToolResult
failed call reason = record {
  tool_call_id = call.id;
  content = "Error: " ++ reason;
  is_error = true;
}

abbrev pub permission_event : ToolCall → ℕ → String → Bool → Timestamp → AgentExecutionEvent
permission_event call round text is_error =
    tool_event AgentExecutionEventKind.permission_asked call round ("permission_asked: " ++ text)
      is_error none

abbrev pub rejection : String → String
rejection rejected =
    if starts_with (trim_start rejected) "permission_rejected:"
    then rejected
    else "permission_rejected: " ++ rejected

abbrev pub approval : String → String
approval message = "permission_approved: " ++ message

-- `if let AgentError::PermissionDenied(message) = e`.
abbrev pub denial : AgentError → Option String
denial (AgentError.permission_denied message) = some message
denial e = none

-- The confirmation fails with an error, which is a denial or is not.
unfoldable pub decline :
    Environment → ToolCall → ℕ → AgentError → Option String → World → World × ToolResult
unfolding emit_event
decline env call round e (some rejected) w = (
  emit_event env (permission_event call round (rejection rejected) true) w,
  failed call (rejection rejected),
)
decline env call round e none w = (w, failed call (display e))

-- What `confirm_and_retry_permission` answers about an error with a message.
unfoldable pub settle :
    Environment
    → ToolCall
    → ℕ
    → AgentError
    → String
    → Result AgentError (Option String)
    → World
    → World × ToolResult
unfolding emit_event decline
settle env call round e message (ok (some content)) w = (
  emit_event env (permission_event call round (approval message) false) w,
  succeeded call content,
)
settle env call round e message (ok none) w = (w, failed call (display e))
settle env call round e message (err cause) w = decline env call round cause (denial cause) w

-- The tool fails with an error, which is a denial or is not.
unfoldable pub refuse :
    Environment → ToolCall → ℕ → AgentError → Option String → World → World × ToolResult
unfolding emit_event settle is_confirmation_permission_error
refuse env call round e none w = (w, failed call (display e))
refuse env call round e (some message) w =
    let asked = emit_event env (permission_event call round message true) w in
    if is_confirmation_permission_error message
    then settle env call round e message
        (env.confirm_and_retry_permission asked.ticks call.function.name call.function.arguments
          message)
        (tick asked)
    else (asked, failed call (display e))

-- What the tool answers.
unfoldable pub answer :
    Environment → ToolCall → ℕ → Result AgentError String → World → World × ToolResult
unfolding refuse
answer env call round (ok content) w = (w, succeeded call content)
answer env call round (err e) w = refuse env call round e (denial e) w

abbrev start_message : ToolCall → String
start_message call =
    "tool_call_start: "
    ++ call.function.name
    ++ " | args_preview: "
    ++ compact_preview call.function.arguments 200

abbrev end_message : ToolCall → ToolResult → String
end_message call result =
    "tool_call_end: "
    ++ call.function.name
    ++ " ("
    ++ (if result.is_error then "error" else "ok")
    ++ ") | args_preview: "
    ++ compact_preview call.function.arguments 200
    ++ " | result_preview: "
    ++ compact_preview result.content 200

abbrev pub start_event : ToolCall → ℕ → Timestamp → AgentExecutionEvent
start_event call round =
    tool_event AgentExecutionEventKind.tool_call_start call round (start_message call) false none

abbrev pub end_event : ToolCall → ℕ → ToolResult → ℕ → Timestamp → AgentExecutionEvent
end_event call round result elapsed =
    tool_event AgentExecutionEventKind.tool_call_end call round (end_message call result)
      result.is_error (some elapsed)

unfoldable pub execute_tool_call : Environment → ℕ → ToolCall → World → World × ToolResult
unfolding emit_event answer compact_preview
execute_tool_call env round call w =
    let started = emit_event env (start_event call round) w in
    let (w', result) =
      answer env call round
        (env.execute_tool started.ticks call.function.name call.function.arguments)
        (tick started) in
    (emit_event env (end_event call round result (env.elapsed_ms w'.ticks)) w', result)

unfoldable pub execute_tool_calls :
    Environment → ℕ → List ToolCall → World → World × List ToolResult
unfolding execute_tool_call
execute_tool_calls env round [] w = (w, [])
execute_tool_calls env round (call ∷ calls) w =
    let (w', result) = execute_tool_call env round call w in
    let (w'', results) = execute_tool_calls env round calls w' in (w'', result ∷ results)
