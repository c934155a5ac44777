-- ===== src/Core/Runner/MainLoop/Turns.antt =====
-- crates/core/src/ai_agent/conversation_runner.rs: the turns of `run_main_loop`.
use Prim.Native.String.{◌++◌}
use ndc.Common.{
  ℕ, zero, suc, ◌+◌, String, Bool, true, false, Option, none, some, List, [], ◌∷◌, if◌then◌else◌,
  leb, push, length, extend, map, Result, ok, err,
}
use ndc.Common.Option
use ndc.Common.Chars.{trim}
use ndc.Common.Text.{decimal, str_eq}
use ndc.Core.Conversation.{
  AgentError, AgentExecutionEventKind, AgentWorkflowStage, Message, MessageRole, ToolCall,
}
use ndc.Core.Conversation.Helpers.{
  truncate_messages, truncate_for_event, summarize_tool_calls, sanitize_tool_output,
  max_conversation_messages,
}
use ndc.Core.Runner.{CompletionRequest, World, emit_event, execute_tool_calls, tick}
use ndc.Core.Runner.Rounds.{request_of, recorded_call, result_message, ask}
use ndc.Core.Session.{record_tool_call}
use ndc.Core.Session.Store.{save_session}
use ndc.Core.TaskState.{TaskId}
use ndc.Core.Verifier.{
  VerificationResult, is_success, generate_continuation_prompt, generate_feedback_message,
}
use ndc.Core.Runner.MainLoop.{
  MainEnvironment, AgentResponse, Main, MainTurn, finished, again, plain_event, stage_event,
  token_event, add_usage, say, said, save, count_calls, say_results,
}

-- The turn in which the model calls for tools.
unfoldable pub work : MainEnvironment → Main → Message → List ToolCall → World → World × MainTurn
unfolding emit_event say execute_tool_calls say_results sanitize_tool_output trim truncate_for_event
    summarize_tool_calls record_tool_call
work env m message calls w =
    let e = env.base in
    let planned =
      emit_event e (stage_event AgentWorkflowStage.executing m.round "tool_calls_planned") w in
    let reason =
      if str_eq (trim message.content) ""
      then summarize_tool_calls calls
      else truncate_for_event message.content 300 in
    let reasoned =
      emit_event e (plain_event AgentExecutionEventKind.reasoning m.round reason false none)
        planned in
    let recorded = map recorded_call calls in
    let told =
      say e (said MessageRole.assistant message.content (some recorded) none none) reasoned in
    let counted = record told { session = count_calls calls told.session } in
    let (ran, results) = execute_tool_calls e m.round calls counted in
    (
      say_results e results ran,
      again (record m {
        messages = extend (push m.messages message) (map result_message results);
        tool_call_count = m.tool_call_count + length calls;
        all_tool_calls = extend m.all_tool_calls recorded;
      }),
    )

abbrev system_message : String → Message
system_message content = record {
  role = MessageRole.system;
  content = content;
  name = none;
  tool_calls = none;
}

-- The turn ends the loop with a content, and with what the verification gave.
unfoldable pub finish :
    MainEnvironment → Main → String → Option VerificationResult → World → World × MainTurn
unfolding emit_event save_session
finish env m content verification w =
    let e = env.base in
    let completing =
      emit_event e (stage_event AgentWorkflowStage.completing m.round "finalize_response_and_idle")
        w in
    let idle =
      emit_event e
        (plain_event AgentExecutionEventKind.session_status m.round "session_idle" false none)
        completing in
    (
      save idle,
      finished (
          ok (record {
            session_id = w.session.id;
            content = content;
            tool_calls = m.all_tool_calls;
            is_complete = true;
            needs_input = false;
            verification_result = verification;
            execution_events = idle.events;
          })),
    )

-- The turn goes on after a failed verification.
unfoldable pub continue_after :
    MainEnvironment → Main → VerificationResult → World → World × MainTurn
unfolding say generate_continuation_prompt generate_feedback_message
continue_after env m verdict w = (
  say env.base (said MessageRole.system (generate_feedback_message verdict) none none none) w,
  again (record m {
    messages = push m.messages (system_message (generate_continuation_prompt verdict));
  }),
)

unfoldable pub conclude :
    MainEnvironment → Main → String → Option VerificationResult → World → World × MainTurn
unfolding finish continue_after
conclude env m content none w = finish env m content none w
conclude env m content (some verdict) w =
    if is_success verdict
    then finish env m content (some verdict) w
    else continue_after env m verdict w

-- The task that is to be verified, or none.
unfoldable pub verify : MainEnvironment → Main → String → Option TaskId → World → World × MainTurn
unfolding emit_event conclude
verify env m content none w = conclude env m content none w
verify env m content (some id) w =
    let staged =
      emit_event env.base
        (stage_event AgentWorkflowStage.verifying m.round "quality_gate_and_task_verifier") w in
    let announced =
      emit_event env.base
        (plain_event AgentExecutionEventKind.verification m.round
          ("verify_task: " ++ env.show_id id) false none)
        staged in
    conclude env m content (env.verify_and_track announced.ticks id) (tick announced)

-- The turn in which the model calls for no tool.
unfoldable pub reply : MainEnvironment → Main → Option TaskId → Message → World → World × MainTurn
unfolding emit_event say trim truncate_for_event verify
reply env m active message w =
    let e = env.base in
    let content = message.content in
    let shown =
      if str_eq (trim content) ""
      then w
      else emit_event e
          (plain_event AgentExecutionEventKind.text m.round (truncate_for_event content 300) false
            none)
          w in
    let told = say e (said MessageRole.assistant content none none none) shown in
    verify env m content (if env.auto_verify then active else none) told

-- A message that calls for tools, or not.
unfoldable pub take_up :
    MainEnvironment
    → Main
    → Option TaskId
    → Message
    → Option (List ToolCall)
    → World
    → World × MainTurn
unfolding work reply
take_up env m active message none w = reply env m active message w
take_up env m active message (some []) w = reply env m active message w
take_up env m active message (some (call ∷ calls)) w = work env m message (call ∷ calls) w

-- The first choice of a response is taken up.
unfoldable pub choose :
    MainEnvironment → Main → Option TaskId → List Message → World → World × MainTurn
unfolding emit_event take_up
choose env m active [] w = (w, finished (err (AgentError.llm_error "No response from LLM")))
choose env m active (message ∷ rest) w =
    let step =
      emit_event env.base
        (plain_event AgentExecutionEventKind.step_finish m.round
          ("llm_round_" ++ decimal m.round ++ "_finish") false (some (env.base.elapsed_ms w.ticks)))
        w in
    take_up env m active message message.tool_calls step

-- The answer of the model to a request.
unfoldable pub hear :
    MainEnvironment
    → Main
    → Option TaskId
    → CompletionRequest
    → Result String (List Message)
    → World
    → World × MainTurn
unfolding emit_event choose
hear env m active request (err e) w = (w, finished (err (AgentError.llm_error e)))
hear env m active request (ok choices) w =
    let used = env.usage w.ticks request in
    let usage = Option.get_or used (env.estimate_tokens request) in
    let totals = add_usage usage m.totals in
    let estimated : Bool = elim used [ none ↦ true | some u ↦ false ] in
    let counted = emit_event env.base (token_event m.round usage totals estimated) w in
    choose env (record m { totals = totals }) active choices counted

abbrev stopped : MainEnvironment → Main → World → AgentResponse
stopped env m w = record {
  session_id = w.session.id;
  content =
      "I've reached the maximum number of tool calls ("
      ++ decimal env.base.max_tool_calls
      ++ "). Please review my progress and provide further guidance.";
  tool_calls = m.all_tool_calls;
  is_complete = false;
  needs_input = true;
  verification_result = none;
  execution_events = w.events;
}

-- The turn in which no more tools may be called.
unfoldable pub stop : MainEnvironment → Main → World → World × MainTurn
unfolding emit_event save_session
stop env m w =
    let exceeded =
      emit_event env.base
        (plain_event AgentExecutionEventKind.error m.round
          ("max_tool_calls_exceeded: " ++ decimal env.base.max_tool_calls) true none)
        w in
    (save exceeded, finished (ok (stopped env m exceeded)))

unfoldable pub main_turn : MainEnvironment → Option TaskId → Main → World → World × MainTurn
unfolding emit_event stop hear truncate_messages
main_turn env active before w =
    let e = env.base in
    let round = suc before.round in
    let m = record before {
      round = round;
      messages = truncate_messages max_conversation_messages before.messages;
    } in
    let staged =
      emit_event e (stage_event AgentWorkflowStage.executing round "llm_round_start") w in
    let started =
      emit_event e
        (plain_event AgentExecutionEventKind.step_start round
          ("llm_round_" ++ decimal round ++ "_start") false none)
        staged in
    let request = request_of e m.messages in
    if leb e.max_tool_calls before.tool_call_count
    then stop env (record before { round = round }) w
    else hear env m active request (e.complete started.ticks request) (ask request started)

abbrev pub MainOutcome : Type 0
MainOutcome = World × Result AgentError AgentResponse

abbrev pub proceed : (Main → World → Option MainOutcome) → World × MainTurn → Option MainOutcome
proceed continue (w, finished result) = some (w, result)
proceed continue (w, again m) = continue m w

-- `none` means that the loop goes on after as many turns as the fuel.
unfoldable pub main_loop : ℕ → MainEnvironment → Option TaskId → Main → World → Option MainOutcome
unfolding main_turn
main_loop zero env active m w = none
main_loop (suc fuel) env active m w = proceed (main_loop fuel env active) (main_turn env active m w)

abbrev pub first_main : List Message → Main
first_main messages = record {
  messages = messages;
  round = 0;
  tool_call_count = 0;
  all_tool_calls = [];
  totals = record { prompt = 0; completion = 0; total = 0 };
}

-- What happens before the loop, after the user's message was added to the session.
unfoldable pub open_main : MainEnvironment → World → World
unfolding emit_event
open_main env told =
    let e = env.base in
    let running =
      emit_event e
        (plain_event AgentExecutionEventKind.session_status 0 "session_running" false none) told in
    emit_event e (stage_event AgentWorkflowStage.planning 0 "build_prompt_and_context") running

-- How `run_main_loop` goes: it ends with an outcome of its own, or it goes over to
-- `run_todo_driven_main_loop`, with these messages, this task and the session of this world.
pub data Course : Type 0 where
  ended : MainOutcome → Course
  todo_driven : List Message → Option TaskId → World → Course

-- The session of the world is the one that was given, no events were emitted before, and
-- `build_messages` gave the messages or an error. `none` means that the loop goes on.
unfoldable pub run_main_loop :
    ℕ
    → MainEnvironment
    → String
    → Result AgentError (List Message)
    → Option TaskId
    → World
    → Option Course
unfolding say open_main main_loop
run_main_loop fuel env user_content (err e) active w = some (ended (w, err e))
run_main_loop fuel env user_content (ok messages) active w =
    let told = say env.base (said MessageRole.user user_content none none none) w in
    if env.todo_workflow_enabled
    then some (todo_driven messages active told)
    else Option.map ended (main_loop fuel env active (first_main messages) (open_main env told))
