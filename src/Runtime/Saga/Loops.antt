-- ===== src/Runtime/Saga/Loops.antt =====
-- crates/runtime/src/workflow.rs: the two loops of a saga, forward over its steps and back over the
-- completed ones.
pub mod Plan
pub mod Answers
pub mod Forward
pub mod Backward
use Prim.Native.String.{◌++◌ as text_append}
use ndc.Common.{
  ℕ, zero, suc, ◌+◌, String, Bool, true, false, ◌==◌, Option, none, some, List, [], ◌∷◌, Result, ok,
  err, if◌then◌else◌, not, push, length, get_elem?, set,
}
use ndc.Common.Option
use ndc.Common.Maps.{get, insert, string_eq}
use ndc.Core.Intent.{Json}
use ndc.Core.TaskState.{Timestamp}
use ndc.Runtime.Workflow.{
  WorkflowError, saga_step_failed, step_not_found, compensation_failed, saga_not_found,
}
use ndc.Runtime.Saga.{
  SagaState, SagaStepStatus, SagaAction, SagaStep, Saga, SagaResult, forward, compensate, World,
  Environment, SagaOrchestrator, Outcome, returned, panicked, called, tick, persist,
}

-- The locals of `execute_saga`, with the saga and the world.
pub record Run : Type 0 where
  pub saga : Saga
  pub completed_steps : ℕ
  pub last_output : Option Json
  pub world : World

pub data Attempt : Type 0 where
  succeeded : Run → Attempt
  broke : Run → String → Attempt

pub data LoopEnd : Type 0 where
  finished : Run → LoopEnd
  step_failed : Run → String → LoopEnd
  missing : ℕ → Run → LoopEnd

pub data Undoing : Type 0 where
  undone : Saga → World → Undoing
  stopped : Saga → World → ℕ → String → Undoing
  out_of_range : Undoing

module _ (env : Environment) (storage : Bool) where
  -- The arms of `match &result`, and the save after them.
  record_answer : ℕ → SagaStep → Run → Result String Json → Attempt
  record_answer idx step r (ok output) =
      let w = tick r.world in
      let step' = record step {
        status = SagaStepStatus.completed;
        output = some output;
        started_at = some (env.clock r.world);
        completed_at = some (env.clock w);
      } in
      let saga' = record r.saga { steps = set r.saga.steps idx step'; current_step = some idx } in
      succeeded (record r {
        saga = saga';
        completed_steps = r.completed_steps + 1;
        last_output = some output;
        world = persist storage saga' (tick w);
      })
  record_answer idx step r (err e) =
      let w = tick r.world in
      let step' = record step {
        status = SagaStepStatus.failed;
        started_at = some (env.clock r.world);
        completed_at = some (env.clock w);
      } in
      let saga' = record r.saga {
        steps = set r.saga.steps idx step';
        state = SagaState.failed;
        current_step = some idx;
        error = some e;
      } in
      broke (record r { saga = saga'; world = persist storage saga' (tick w) }) e

  attempt : ℕ → SagaStep → Run → Attempt
  unfolding record_answer
  attempt idx step r =
      record_answer idx step (record r { world = called (forward step.forward_action) r.world })
        (env.execute_forward r.world step.forward_action)

  -- The loop over the `n` steps from `idx` on.
  unfoldable pub execute_steps : ℕ → ℕ → Run → LoopEnd
  unfolding attempt
  execute_steps zero idx r = finished r
  execute_steps (suc n) idx r = elim (get_elem? r.saga.steps idx) [
    | none ↦ missing idx r
    | some step ↦ elim (attempt idx step r) [
      | succeeded r' ↦ execute_steps n (idx + 1) r'
      | broke r' e ↦ step_failed r' e
    ]
  ]

  -- What the compensation of one step leaves, and whether it ended the loop.
  record_undo : ℕ → SagaStep → Saga → World → Result String (Unit {0}) → Undoing
  record_undo idx step saga w (ok _) =
      let step' = record step { status = SagaStepStatus.compensated } in
      let saga' = record saga { steps = set saga.steps idx step' } in
      undone saga' (persist storage saga' w)
  record_undo idx step saga w (err e) =
      let step' = record step { status = SagaStepStatus.compensating } in
      stopped
        (record saga {
          steps = set saga.steps idx step';
          state = SagaState.failed;
          error = some (text_append "Compensation failed: " e);
        })
        w idx e

  undo_step : ℕ → SagaStep → Saga → World → Option SagaAction → Undoing
  unfolding record_undo
  undo_step idx step saga w none =
      undone
        (record saga {
          steps = set saga.steps idx (record step { status = SagaStepStatus.skipped });
        })
        w
  undo_step idx step saga w (some action) =
      record_undo idx step saga (called (compensate action) w) (env.execute_compensate w action)

  -- The loop over the indices below `n`, from the last one down.
  unfoldable pub compensate_steps : ℕ → Saga → World → Undoing
  unfolding undo_step
  compensate_steps zero saga w = undone saga w
  compensate_steps (suc idx) saga w = elim (get_elem? saga.steps idx) [
    | none ↦ out_of_range
    | some step ↦ elim (undo_step idx step saga w step.compensating_action) [
      | undone saga' w' ↦ compensate_steps idx saga' w'
      | stopped saga' w' i e ↦ stopped saga' w' i e
      | out_of_range ↦ out_of_range
    ]
  ]
