-- ===== src/Tests/Loops.antt =====
-- The main loop with a model that calls for a tool once, and with one that only talks.
use ndc.Common.{
  ℕ, ◌≡◌, refl, true, false, Option, none, some, List, [], ◌∷◌, ok, arith, if◌then◌else◌, ltb,
  length,
}
use ndc.Core.Conversation.{Message, MessageRole, ToolCall, Usage}
use ndc.Core.Runner.{Environment, World}
use ndc.Core.Runner.MainLoop.{MainEnvironment, AgentResponse}
use ndc.Core.Runner.MainLoop.Turns.{Course, ended, todo_driven, run_main_loop}
use ndc.Core.Runner.MainLoop.Verdicts.{run_main_loop_goes_on}
use ndc.Core.Session.{new_with_project_identity}
use ndc.Core.Session.Store
use ndc.Core.Verifier.{VerificationResult}

abbrev talk : Message
talk = record { role = MessageRole.assistant; content = "Done."; name = none; tool_calls = none }

abbrev call : ToolCall
call = record { id = "x"; function = record { name = "shell"; arguments = "ls" } }

abbrev base : (ℕ → List Message) → Environment
base answers = record {
  now = λ n. n;
  elapsed_ms = λ n. 1;
  complete = λ n r. ok (answers n);
  execute_tool = λ n name arguments. ok "main.rs";
  confirm_and_retry_permission = λ n name arguments message. ok none;
  tool_schemas = [];
  default_model = "m";
  max_tool_calls = 3;
}

abbrev usage : Usage
usage = record { prompt_tokens = 7; completion_tokens = 2; total_tokens = 9 }

abbrev around : Environment → VerificationResult → MainEnvironment
around env verdict = record {
  base = env;
  usage = λ n r. none;
  estimate_tokens = λ r. usage;
  verify_and_track = λ n id. some verdict;
  show_id = λ id. "t";
  auto_verify = true;
  todo_workflow_enabled = false;
}

abbrev world : World
world = record {
  ticks = 0;
  session =
      new_with_project_identity "s"
        (record { project_id = "a"; project_root = "/p"; working_dir = "/p"; worktree = "/p" }) 0;
  events = [];
  broadcast = [];
  store = Store.new;
  requests = [];
}

-- The model calls for a tool while few calls were made.
abbrev helpful : MainEnvironment
helpful =
    around
      (base (λ n. (if ltb n 8 then record talk { tool_calls = some (call ∷ []) } else talk) ∷ []))
      VerificationResult.completed

abbrev stubborn : MainEnvironment
stubborn = around (base (λ n. talk ∷ [])) (VerificationResult.incomplete "not finished")

abbrev no_response : AgentResponse
no_response = record {
  session_id = "";
  content = "";
  tool_calls = [];
  is_complete = false;
  needs_input = false;
  verification_result = none;
  execution_events = [];
}

abbrev response_of : Option Course → AgentResponse
response_of (some (ended (w, ok r))) = r
response_of _ = no_response

abbrev world_of : Option Course → World
world_of (some (ended (w, r))) = w
world_of _ = world

abbrev helped : Option Course
helped = run_main_loop 5 helpful "List the files" (ok (talk ∷ [])) (some 1) world

helped_summary :
    let r = response_of helped in
    (r.is_complete ≡ true)
    × (length r.tool_calls ≡ 1)
    × (r.verification_result ≡ some VerificationResult.completed)
    × (length (world_of helped).requests ≡ 2)
unfolding run_main_loop
helped_summary = (refl, refl, refl, refl)

run_main_loop_goes_on_example :
    run_main_loop 40 stubborn "List the files" (ok (talk ∷ [])) (some 1) world ≡ none
run_main_loop_goes_on_example =
    run_main_loop_goes_on 40 stubborn "List the files" (talk ∷ []) 1 world refl (omega arith) refl
      (λ n. (VerificationResult.incomplete "not finished", refl, refl))
      (λ n request. (talk, [], refl, refl))

-- Where the todo workflow is on, the loop is left to another one.
todo_loop_taken :
    (messages : List Message) × (w : World) × (run_main_loop 1
        (record helpful { todo_workflow_enabled = true })
        "Go"
        (ok [])
        none
        world
      ≡ some (todo_driven messages none w))
unfolding run_main_loop
todo_loop_taken = (_, _, refl)
