-- ===== src/Runtime/Saga/Execution.antt =====
-- crates/runtime/src/workflow.rs: `compensate_saga` and `execute_saga`.
pub mod Atomicity
pub mod Persistence
use Prim.Native.String.{◌++◌ as text_append}
use ndc.Common.{
  ℕ, zero, suc, ◌+◌, String, Bool, true, false, ◌==◌, Option, none, some, List, [], ◌∷◌, Result, ok,
  err, if◌then◌else◌, not, push, length, get_elem?, set,
}
use ndc.Common.Option
use ndc.Common.Maps.{get, insert, string_eq}
use ndc.Core.Intent.{Json}
use ndc.Core.TaskState.{Timestamp}
use ndc.Runtime.Workflow.{
  WorkflowError, saga_step_failed, step_not_found, compensation_failed, saga_not_found,
}
use ndc.Runtime.Saga.{
  SagaState, SagaStepStatus, SagaAction, SagaStep, Saga, SagaResult, forward, compensate, World,
  Environment, SagaOrchestrator, Outcome, returned, panicked, called, tick, persist,
}
use ndc.Runtime.Saga.Loops.{
  Run, LoopEnd, finished, step_failed, missing, Undoing, undone, stopped, out_of_range,
  execute_steps, compensate_steps,
}

-- What `compensate_saga` does after its loop.
close_undoing :
    Environment
    → String
    → SagaOrchestrator
    → World
    → Undoing
    → SagaOrchestrator × World × Outcome (Unit {0})
close_undoing env saga_id o w (undone saga w') =
    let saga' = record saga { state = SagaState.compensated; updated_at = env.clock w' } in
    (
      record o { sagas = insert saga_id saga' o.sagas },
      persist o.storage saga' (tick w'),
      returned (ok tt),
    )
close_undoing env saga_id o w (stopped saga w' idx e) = (
  record o { sagas = insert saga_id saga o.sagas },
  w',
  returned (err (compensation_failed idx e)),
)
close_undoing env saga_id o w out_of_range = (o, w, panicked)

compensate_found :
    Environment
    → String
    → SagaOrchestrator
    → World
    → Saga
    → SagaOrchestrator × World × Outcome (Unit {0})
unfolding close_undoing
compensate_found env saga_id o w saga =
    let saga' = record saga { state = SagaState.compensating; updated_at = env.clock w } in
    close_undoing env saga_id o w
      (compensate_steps env o.storage (Option.get_or saga.current_step 0) saga' (tick w))

unfoldable pub compensate_saga :
    Environment → String → SagaOrchestrator → World → SagaOrchestrator × World × Outcome (Unit {0})
unfolding compensate_found compensate_steps
compensate_saga env saga_id o w = elim (get saga_id o.sagas) [
  | none ↦ (o, w, returned (err (saga_not_found saga_id)))
  | some saga ↦ compensate_found env saga_id o w saga
]

-- The `?` on the compensation, and the result of a saga that failed.
report_failure :
    String
    → Run
    → ℕ
    → String
    → SagaOrchestrator × World × Outcome (Unit {0})
    → SagaOrchestrator × World × Outcome SagaResult
report_failure saga_id r total e (o, w, returned (ok _)) = (
  o,
  w,
  returned (
      ok (record {
        saga_id = saga_id;
        success = false;
        completed_steps = r.completed_steps;
        total_steps = total;
        output = none;
        error = some e;
        compensated = true;
      })),
)
report_failure saga_id r total e (o, w, returned (err problem)) = (o, w, returned (err problem))
report_failure saga_id r total e (o, w, panicked) = (o, w, panicked)

close_run :
    Environment
    → String
    → ℕ
    → SagaOrchestrator
    → LoopEnd
    → SagaOrchestrator × World × Outcome SagaResult
unfolding report_failure
close_run env saga_id total o (finished r) =
    let saga' = record r.saga {
      state = SagaState.completed;
      current_step = none;
      updated_at = env.clock r.world;
    } in
    (
      record o { sagas = insert saga_id saga' o.sagas },
      persist o.storage saga' (tick r.world),
      returned (
          ok (record {
            saga_id = saga_id;
            success = true;
            completed_steps = r.completed_steps;
            total_steps = total;
            output = r.last_output;
            error = none;
            compensated = false;
          })),
    )
close_run env saga_id total o (step_failed r e) =
    report_failure saga_id r total e
      (compensate_saga env saga_id (record o { sagas = insert saga_id r.saga o.sagas }) r.world)
close_run env saga_id total o (missing idx r) = (
  record o { sagas = insert saga_id r.saga o.sagas },
  r.world,
  returned (err (step_not_found idx)),
)

execute_found :
    Environment
    → String
    → SagaOrchestrator
    → World
    → Saga
    → SagaOrchestrator × World × Outcome SagaResult
unfolding close_run
execute_found env saga_id o w saga =
    let saga' = record saga { state = SagaState.running; updated_at = env.clock w } in
    let start : Run = record {
      saga = saga';
      completed_steps = 0;
      last_output = none;
      world = persist o.storage saga' (tick w);
    } in
    close_run env saga_id (length saga.steps) o
      (execute_steps env o.storage (length saga.steps) 0 start)

unfoldable pub execute_saga :
    Environment → String → SagaOrchestrator → World → SagaOrchestrator × World × Outcome SagaResult
unfolding execute_found execute_steps
execute_saga env saga_id o w = elim (get saga_id o.sagas) [
  | none ↦ (o, w, returned (err (saga_not_found saga_id)))
  | some saga ↦ execute_found env saga_id o w saga
]
