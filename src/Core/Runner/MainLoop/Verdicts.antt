-- ===== src/Core/Runner/MainLoop/Verdicts.antt =====
-- crates/core/src/ai_agent/conversation_runner.rs: the responses of `run_main_loop`, and
-- conversations without one.
use mathlib.Core.Path.{subst}
use ndc.Common.{
  ℕ, zero, suc, ◌≤◌, ◌<◌, String, true, false, ◌≡◌, refl, sym, ap, ◌∙◌, ◌⊎◌, Option, none, some,
  List, ◌∷◌, arith, leb, length, map, Result, ok, err,
}
use ndc.Common.Option
use ndc.Core.Conversation.{Message, MessageRole}
use ndc.Core.Runner.{CompletionRequest, World}
use ndc.Core.Runner.MainLoop.{
  MainEnvironment, AgentResponse, Main, MainTurn, finished, again, say, said,
}
use ndc.Core.Runner.MainLoop.Turns.{
  continue_after, conclude, verify, reply, take_up, choose, hear, main_turn, proceed, ended,
  main_loop, run_main_loop, first_main, open_main,
}
use ndc.Core.TaskState.{TaskId}
use ndc.Core.Verifier.{VerificationResult, is_success}

abbrev IsPassed : Option VerificationResult → Type 0
IsPassed none = Unit
IsPassed (some verdict) = is_success verdict ≡ true

-- A response is complete, and then no verification has failed; or it needs input, and then as many
-- calls of tools as are allowed were made.
abbrev pub IsHonest : MainEnvironment → AgentResponse → Type 0
IsHonest env r =
    ((r.is_complete ≡ true) × (r.needs_input ≡ false) × IsPassed r.verification_result)
    ⊎ ((r.is_complete ≡ false)
        × (r.needs_input ≡ true)
        × (env.base.max_tool_calls ≤ length r.tool_calls))

abbrev IsCounted : Main → Type 0
IsCounted m = m.tool_call_count ≡ length m.all_tool_calls

abbrev Keeps : MainEnvironment → MainTurn → Type 0
Keeps env (finished (err e)) = Unit
Keeps env (finished (ok r)) = IsHonest env r
Keeps env (again m) = IsCounted m

run_main_loop-off :
    (fuel : ℕ) (env : MainEnvironment) (user_content : String) (messages : List Message)
    (active : Option TaskId) (w : World)
    → env.todo_workflow_enabled ≡ false
    → (v : World) × (run_main_loop fuel env user_content (ok messages) active w
        ≡ Option.map ended (main_loop fuel env active (first_main messages) v))
unfolding run_main_loop
run_main_loop-off fuel env user_content messages active w off = (
  open_main env (say env.base (said MessageRole.user user_content none none none) w),
  rw off refl,
)

-- The turn goes on, and no call of a tool was made.
abbrev GoesOn : Main → World × MainTurn → Type 0
GoesOn m o =
    (w' : World) × (m' : Main) × (o ≡ (w', again m')) × (m'.tool_call_count ≡ m.tool_call_count)

conclude-GoesOn :
    (env : MainEnvironment) (m : Main) (content : String) (o : Option VerificationResult)
    (w : World)
    → (verdict : VerificationResult) × (o ≡ some verdict) × (is_success verdict ≡ false)
    → GoesOn m (conclude env m content o w)
unfolding conclude continue_after
conclude-GoesOn env m content o w (verdict, e, h) =
    subst (λ o'. GoesOn m (conclude env m content o' w)) (sym e) (rw h (_, _, refl, refl))

reply-GoesOn :
    (env : MainEnvironment) (m : Main) (id : TaskId) (message : Message) (w : World)
    → env.auto_verify ≡ true
    → ((n : ℕ)
        → (verdict : VerificationResult) × (env.verify_and_track n id ≡ some verdict)
          × (is_success verdict ≡ false))
    → GoesOn m (reply env m (some id) message w)
unfolding reply verify
reply-GoesOn env m id message w auto fails =
    rw auto (conclude-GoesOn env m message.content _ _ (fails _))

hear-GoesOn :
    (env : MainEnvironment) (m : Main) (id : TaskId) (request : CompletionRequest)
    (a : Result String (List Message)) (w : World)
    → env.auto_verify ≡ true
    → ((n : ℕ)
        → (verdict : VerificationResult) × (env.verify_and_track n id ≡ some verdict)
          × (is_success verdict ≡ false))
    → (message : Message) × (rest : List Message) × (a ≡ ok (message ∷ rest))
      × (message.tool_calls ≡ none)
    → GoesOn m (hear env m (some id) request a w)
unfolding hear choose take_up
hear-GoesOn env m id request a w auto fails (message, rest, e, quiet) =
    subst (λ a'. GoesOn m (hear env m (some id) request a' w)) (sym e)
      (rw quiet (reply-GoesOn env _ id message _ auto fails))

main_turn-GoesOn :
    (env : MainEnvironment) (id : TaskId) (m : Main) (w : World)
    → m.tool_call_count < env.base.max_tool_calls
    → env.auto_verify ≡ true
    → ((n : ℕ)
        → (verdict : VerificationResult) × (env.verify_and_track n id ≡ some verdict)
          × (is_success verdict ≡ false))
    → ((n : ℕ) (request : CompletionRequest)
        → (message : Message) × (rest : List Message) × (env.base.complete n request
            ≡ ok (message ∷ rest))
          × (message.tool_calls ≡ none))
    → GoesOn m (main_turn env (some id) m w)
unfolding main_turn
main_turn-GoesOn env id m w few auto fails talks =
    let left : leb env.base.max_tool_calls m.tool_call_count ≡ false = ground arith in
    rw left (hear-GoesOn env _ id _ _ _ auto fails (talks _ _))

main_loop_goes_on :
    (fuel : ℕ) (env : MainEnvironment) (id : TaskId) (m : Main) (w : World)
    → m.tool_call_count < env.base.max_tool_calls
    → env.auto_verify ≡ true
    → ((n : ℕ)
        → (verdict : VerificationResult) × (env.verify_and_track n id ≡ some verdict)
          × (is_success verdict ≡ false))
    → ((n : ℕ) (request : CompletionRequest)
        → (message : Message) × (rest : List Message) × (env.base.complete n request
            ≡ ok (message ∷ rest))
          × (message.tool_calls ≡ none))
    → main_loop fuel env (some id) m w ≡ none
unfolding main_loop
main_loop_goes_on zero env id m w few auto fails talks = refl
main_loop_goes_on (suc fuel) env id m w few auto fails talks =
    let (w', m', e, same) = main_turn-GoesOn env id m w few auto fails talks in
    ap (proceed (main_loop fuel env (some id))) e
    ∙ main_loop_goes_on fuel env id m' w' (omega arith) auto fails talks

-- When the todo workflow is off, at least one call of a tool is allowed, the active task is verified
-- after each answer and fails each time, and the model answers each request without calling for a tool,
-- then the conversation has no end: no number of turns is enough.
pub run_main_loop_goes_on :
    (fuel : ℕ) (env : MainEnvironment) (user_content : String) (messages : List Message)
    (id : TaskId) (w : World)
    → env.todo_workflow_enabled ≡ false
    → 0 < env.base.max_tool_calls
    → env.auto_verify ≡ true
    → ((n : ℕ)
        → (verdict : VerificationResult) × (env.verify_and_track n id ≡ some verdict)
          × (is_success verdict ≡ false))
    → ((n : ℕ) (request : CompletionRequest)
        → (message : Message) × (rest : List Message) × (env.base.complete n request
            ≡ ok (message ∷ rest))
          × (message.tool_calls ≡ none))
    → run_main_loop fuel env user_content (ok messages) (some id) w ≡ none
run_main_loop_goes_on fuel env user_content messages id w off few auto fails talks =
    let (v, e) = run_main_loop-off fuel env user_content messages (some id) w off in
    e
    ∙ ap (Option.map ended)
        (main_loop_goes_on fuel env id (first_main messages) v few auto fails talks)
