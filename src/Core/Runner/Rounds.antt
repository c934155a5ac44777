-- ===== src/Core/Runner/Rounds.antt =====
-- crates/core/src/ai_agent/conversation_runner.rs: `run_rounds_with_context`, the loop between the
-- language model and the tools. One step of the fuel is one turn of the loop.
pub mod Ending
use Prim.Native.String.{◌++◌}
use ndc.Common.{
  ℕ, zero, suc, ◌+◌, String, Bool, true, false, not, Option, none, some, List, [], ◌∷◌,
  if◌then◌else◌, leb, push, length, extend, map, Result, ok, err,
}
use ndc.Common.Text.{decimal}
use ndc.Core.Conversation.{AgentError, AgentToolCall, Message, MessageRole, ToolCall, ToolResult}
use ndc.Core.Conversation.Helpers.{
  truncate_messages, sanitize_tool_output, max_conversation_messages,
}
use ndc.Core.Runner.{CompletionRequest, Environment, World, execute_tool_calls}

-- The variables of the loop.
pub record Rounds : Type 0 where
  pub messages : List Message
  pub round : ℕ
  pub tool_call_count : ℕ
  pub all_tool_calls : List AgentToolCall

-- A turn ends the loop, or goes on.
pub data Turn : Type 0 where
  finished : Result AgentError (String × List AgentToolCall) → Turn
  again : Rounds → Turn

abbrev optional_tools : List String → Option (List String)
optional_tools [] = none
optional_tools (t ∷ ts) = some (t ∷ ts)

-- The temperature is `0.1_f32`.
abbrev pub request_of : Environment → List Message → CompletionRequest
request_of env messages = record {
  model = env.default_model;
  messages = messages;
  temperature = some 1036831949;
  max_tokens = some 4096;
  top_p = none;
  frequency_penalty = none;
  presence_penalty = none;
  stop = none;
  stream = false;
  tools = optional_tools env.tool_schemas;
}

abbrev pub recorded_call : ToolCall → AgentToolCall
recorded_call call = record {
  name = call.function.name;
  arguments = call.function.arguments;
  id = call.id;
}

abbrev pub result_message : ToolResult → Message
result_message result = record {
  role = MessageRole.tool;
  content = sanitize_tool_output result.content;
  name = some result.tool_call_id;
  tool_calls = none;
}

-- The turn after the first choice of a response, by the tools that it calls for.
unfoldable pub respond :
    Environment → Rounds → Message → Option (List ToolCall) → World → World × Turn
unfolding execute_tool_calls sanitize_tool_output
respond env r message none w = (w, finished (ok (message.content, r.all_tool_calls)))
respond env r message (some []) w = (w, finished (ok (message.content, r.all_tool_calls)))
respond env r message (some (call ∷ calls)) w =
    let (w', results) = execute_tool_calls env r.round (call ∷ calls) w in
    (
      w',
      again (record r {
        messages = extend (push r.messages message) (map result_message results);
        tool_call_count = r.tool_call_count + length (call ∷ calls);
        all_tool_calls = extend r.all_tool_calls (map recorded_call (call ∷ calls));
      }),
    )

-- The turn after the answer of the model.
unfoldable pub receive : Environment → Rounds → Result String (List Message) → World → World × Turn
unfolding respond
receive env r (err e) w = (w, finished (err (AgentError.llm_error e)))
receive env r (ok []) w = (w, finished (err (AgentError.llm_error "No response from LLM")))
receive env r (ok (message ∷ rest)) w = respond env r message message.tool_calls w

abbrev pub exhausted : Environment → Rounds → Result AgentError (String × List AgentToolCall)
exhausted env r = ok (
  "Reached maximum tool calls (" ++ decimal env.max_tool_calls ++ ") for this TODO.",
  r.all_tool_calls,
)

abbrev pub ask : CompletionRequest → World → World
ask request w = record w { ticks = suc w.ticks; requests = push w.requests request }

abbrev pub prepared : Rounds → Rounds
prepared r = record r {
  messages = truncate_messages max_conversation_messages r.messages;
  round = suc r.round;
}

unfoldable pub turn : Environment → Rounds → World → World × Turn
unfolding truncate_messages receive
turn env r w =
    let request = request_of env (prepared r).messages in
    if leb env.max_tool_calls r.tool_call_count
    then (w, finished (exhausted env r))
    else receive env (prepared r) (env.complete w.ticks request) (ask request w)

abbrev pub Outcome : Type 0
Outcome = World × Result AgentError (String × List AgentToolCall)

abbrev pub proceed : (Rounds → World → Option Outcome) → World × Turn → Option Outcome
proceed continue (w, finished result) = some (w, result)
proceed continue (w, again r) = continue r w

unfoldable pub run_rounds : ℕ → Environment → Rounds → World → Option Outcome
unfolding turn
run_rounds zero env r w = none
run_rounds (suc fuel) env r w = proceed (run_rounds fuel env) (turn env r w)

abbrev context_message : String → Message
context_message prompt = record {
  role = MessageRole.system;
  content = prompt;
  name = none;
  tool_calls = none;
}

abbrev pub opened : List Message → String → ℕ → Rounds
opened messages prompt round_start = record {
  messages = push messages (context_message prompt);
  round = round_start;
  tool_call_count = 0;
  all_tool_calls = [];
}

-- One turn for each call of a tool that may be made, and one to notice that it was the last.
unfoldable pub run_rounds_with_context :
    Environment → List Message → String → ℕ → World → Option Outcome
unfolding run_rounds
run_rounds_with_context env messages prompt round_start w =
    run_rounds (suc env.max_tool_calls) env (opened messages prompt round_start) w
