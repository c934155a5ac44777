-- ===== src/Core/Verifier.antt =====
-- crates/core/src/ai_agent/verifier.rs: the verification of a task, and what is said about it. The store
-- of tasks, the gate that runs checks and the derived `Debug` of data are an environment.
pub mod Completion
use Prim.Native.String.{◌++◌}
use ndc.Common.{
  String, Bool, true, false, not, Option, none, some, List, [], ◌∷◌, Result, ok, err, if◌then◌else◌,
  ◌||◌,
}
use ndc.Common.Option
use ndc.Common.Text.{decimal, join}
use ndc.Core.Intent.{
  Action, TestType, read_file, write_file, create_file, delete_file, run_command, run_tests,
}
use ndc.Core.Task.{Task}
use ndc.Core.TaskParts.{ActionResult, ExecutionStep, QualityGate}
use ndc.Core.TaskState.{TaskId, TaskState, state_eq}

pub data VerificationResult : Type 0 where
  completed : VerificationResult
  incomplete quality_gate_failed : String → VerificationResult

-- The prompt after which the model goes on.
unfoldable pub generate_continuation_prompt : VerificationResult → String
generate_continuation_prompt completed = "✅ Task verified as completed! Great work!"
generate_continuation_prompt (incomplete reason) =
    "❌ Task verification failed:\n\n" ++ reason
    ++ "\n\nPlease continue working on this task and address the issues above.\n\n"
    ++ "When you believe the task is complete, submit it for verification again."
generate_continuation_prompt (quality_gate_failed reason) =
    "❌ Quality gate failed:\n\n" ++ reason
    ++ "\n\nPlease fix the issues and run the quality checks again.\n\n"
    ++ "Use the 'run_tests' tool to verify your changes."

unfoldable pub generate_feedback_message : VerificationResult → String
generate_feedback_message completed = "✅ Task verified successfully! All checks passed."
generate_feedback_message (incomplete reason) = "⚠\u{fe0f} Task incomplete: " ++ reason
generate_feedback_message (quality_gate_failed reason) = "🚫 Quality gate failed: " ++ reason

abbrev pub is_success : VerificationResult → Bool
is_success completed = true
is_success (incomplete reason) = false
is_success (quality_gate_failed reason) = false

pub data VerificationError : Type 0 where
  task_not_found : TaskId → VerificationError
  storage_error gate_error execution_error : String → VerificationError

-- The gate is absent where the verifier was given none; it answers with the reason of a failure.
pub record VerifierEnvironment : Type 0 where
  pub get_task : TaskId → Result String (Option Task)
  pub gate : Option (String → Option String)
  pub show_action : Action → String
  pub show_test : TestType → String
  pub show_gate : QualityGate → String

-- `{:?}` of a state.
abbrev show_state : TaskState → String
show_state TaskState.pending = "Pending"
show_state TaskState.preparing = "Preparing"
show_state TaskState.in_progress = "InProgress"
show_state TaskState.awaiting_verification = "AwaitingVerification"
show_state TaskState.blocked = "Blocked"
show_state TaskState.completed = "Completed"
show_state TaskState.failed = "Failed"
show_state TaskState.cancelled = "Cancelled"

abbrev format_action : VerifierEnvironment → Action → String
format_action env (read_file path) = "read file: " ++ path
format_action env (write_file path content) = "write file: " ++ path
format_action env (create_file path) = "create file: " ++ path
format_action env (delete_file path) = "delete file: " ++ path
format_action env (run_command command args) = "run command: " ++ command ++ " " ++ join " " args
format_action env (run_tests test) = "run tests: " ++ env.show_test test
format_action env action = "action: " ++ env.show_action action

abbrev step_failure : VerifierEnvironment → ExecutionStep → ActionResult → String
step_failure env step result =
    "Step "
    ++ decimal step.step_id
    ++ " ("
    ++ format_action env step.action
    ++ ") failed: "
    ++ Option.get_or result.error "Unknown error"

-- The result of a step, where it has one and did not succeed.
abbrev pub failed_result : Option ActionResult → Option ActionResult
failed_result none = none
failed_result (some result) = if result.success then none else some result

-- The failure of the first step that failed.
unfoldable pub first_failure : VerifierEnvironment → List ExecutionStep → Option String
first_failure env [] = none
first_failure env (step ∷ steps) =
    let later = first_failure env steps in
    elim (failed_result step.result) [
      | none ↦ later
      | some result ↦ some (step_failure env step result)
    ]

unfoldable pub run_gate :
    VerifierEnvironment → Option (String → Option String) → Option QualityGate → VerificationResult
run_gate env none wanted = completed
run_gate env (some run) none = completed
run_gate env (some run) (some gate) = elim (run (env.show_gate gate)) [
  | none ↦ completed
  | some reason ↦ quality_gate_failed reason
]

-- A task that was found.
unfoldable pub verify_task : VerifierEnvironment → Task → VerificationResult
unfolding first_failure run_gate
verify_task env task =
    if not (state_eq task.state TaskState.completed)
    then incomplete ("Task is in " ++ show_state task.state ++ " state, not Completed")
    else elim (first_failure env task.steps) [
      | some reason ↦ incomplete reason
      | none ↦ run_gate env env.gate task.quality_gate
    ]

-- What the store answers about a task.
unfoldable pub verify_answer :
    VerifierEnvironment
    → TaskId
    → Result String (Option Task)
    → Result VerificationError VerificationResult
unfolding verify_task
verify_answer env id (err reason) = err (storage_error reason)
verify_answer env id (ok none) = err (task_not_found id)
verify_answer env id (ok (some task)) = ok (verify_task env task)

unfoldable pub verify_completion :
    VerifierEnvironment → TaskId → Result VerificationError VerificationResult
unfolding verify_answer
verify_completion env id = verify_answer env id (env.get_task id)
