-- ===== src/Tests/Verifying.antt =====
-- The verification of a task whose gate fails.
use ndc.Common.{◌≡◌, ◌↔◌, refl, some, ok}
use ndc.Core.Agent.{implementer}
use ndc.Core.Task
use ndc.Core.Task.{Task}
use ndc.Core.TaskState.{TaskState}
use ndc.Core.Verifier.{
  VerifierEnvironment, completed, incomplete, first_failure, run_gate, verify_task, verify_answer,
  verify_completion,
}
use ndc.Core.Verifier.Completion.{IsDone, verify_completion_iff}

abbrev chore : Task
chore = record (Task.new 7 100 100 "Chore" "Sweep" implementer) { state = TaskState.completed }

abbrev env : Task → VerifierEnvironment
env task = record {
  get_task = λ id. ok (some task);
  gate = some (λ name. some "tests fail");
  show_action = λ a. "";
  show_test = λ t. "";
  show_gate = λ g. "";
}

-- A gate that the task does not want is not run.
gate_not_wanted : verify_completion (env chore) 7 ≡ ok completed
unfolding verify_completion verify_answer verify_task first_failure run_gate Task.new
gate_not_wanted = refl

state_named :
    verify_completion (env (record chore { state = TaskState.blocked })) 7
    ≡ ok (incomplete "Task is in Blocked state, not Completed")
unfolding verify_completion verify_answer verify_task first_failure run_gate Task.new
state_named = refl

verify_completion_iff_example :
    (verify_completion (env chore) 7 ≡ ok completed)
    ↔ ((task : Task) × ((env chore).get_task 7 ≡ ok (some task)) × IsDone (env chore) task)
verify_completion_iff_example = verify_completion_iff (env chore) 7
