-- ===== src/Runtime/Workflow.antt =====
-- crates/runtime/src/workflow.rs, first part: `WorkflowEngine`, the state machine over tasks.
pub mod Tables
use ndc.Common.{
  ℕ, String, Bool, true, false, ◌&&◌, ◌≡◌, ◌↔◌, arith, Option, none, some, List, [], ◌∷◌, ◌++◌, map,
  Result, ok, err, if◌then◌else◌, not, push, ◌==◌,
}
use ndc.Common.Option
use ndc.Common.Maps.{Eq, get, insert}
use ndc.Core.Task.{Task}
use ndc.Core.TaskParts.{WorkRecord, WorkRecordId, WorkEvent, Executor, WorkResult}
use ndc.Core.TaskState.{
  TaskId, TaskState, Timestamp, state_eq, state_eq_iff, pending, preparing, in_progress,
  awaiting_verification, completed, failed,
}

-- `reason` of a failed compensation is `Step {index}: {message}`: its two parts are kept apart.
pub data WorkflowError : Type 0 where
  invalid_transition : TaskState → TaskState → WorkflowError
  saga_step_failed : String → String → WorkflowError
  step_not_found : ℕ → WorkflowError
  compensation_failed : ℕ → String → WorkflowError
  saga_not_found : String → WorkflowError

pub record TransitionRule : Type 0 where
  pub from : TaskState
  pub to : TaskState
  pub allowed : Bool
  pub auto_transition : Bool

-- A listener is known by the number it is registered under; what it does is its own affair.
abbrev pub Listener : Type 0
Listener = ℕ

-- A call of `on_transition`.
pub record Notice : Type 0 where
  pub listener : Listener
  pub task_id : TaskId
  pub from : TaskState
  pub to : TaskState

pub record WorkflowEngine : Type 0 where
  pub rules : List ((TaskState × TaskState) × TransitionRule)
  pub listeners : List Listener

abbrev pub pair_eq : TaskState × TaskState → TaskState × TaskState → Bool
pair_eq (a, b) (c, d) = state_eq a c && state_eq b d

pub pair_eq_iff : (p q : TaskState × TaskState) → (pair_eq p q ≡ true) ↔ (p ≡ q)
pair_eq_iff (a, b) (c, d) = ground (arith, state_eq_iff a c, state_eq_iff b d)

instance abbrev pub pair_key : Eq (TaskState × TaskState)
pair_key = record { beq = pair_eq; beq_iff = pair_eq_iff }

insert_rule :
    TaskState
    → TaskState
    → List ((TaskState × TaskState) × TransitionRule)
    → List ((TaskState × TaskState) × TransitionRule)
unfolding insert
insert_rule from to rules =
    insert (from, to) (record { from = from; to = to; allowed = true; auto_transition = false })
      rules

-- The rules stand in the order of insertion.
unfoldable pub new : WorkflowEngine
unfolding insert_rule
new = record {
  rules = insert_rule completed pending (
      insert_rule failed pending (
        insert_rule in_progress failed (
          insert_rule awaiting_verification completed (
            insert_rule in_progress awaiting_verification
              (insert_rule preparing in_progress (insert_rule pending preparing []))))));
  listeners = [];
}

unfoldable pub can_transition : TaskState → TaskState → WorkflowEngine → Bool
unfolding get
can_transition from to e =
    Option.get_or (Option.map (λ (r : TransitionRule). r.allowed) (get (from, to) e.rules)) false

notices : Task → TaskState → TaskState → List Listener → List Notice
notices t from to [] = []
notices t from to (l ∷ ls) =
    record { listener = l; task_id = t.id; from = from; to = to } ∷ notices t from to ls

-- The task after the call, the result, and the calls of the listeners in order. `id` and `now` are
-- the fresh identifier and the time of the work record.
unfoldable pub transition :
    WorkRecordId
    → Timestamp
    → TaskState
    → WorkflowEngine
    → Task
    → Task × Result WorkflowError (Unit {0}) × List Notice
unfolding notices
transition id now to e t =
    if not (can_transition t.state to e)
    then (t, err (invalid_transition t.state to), [])
    else (let entry : WorkRecord = record {
      id = id;
      timestamp = now;
      event = WorkEvent.step_completed;
      executor = Executor.system;
      result = WorkResult.success;
    } in
        (
          record t {
            metadata = record t.metadata { work_records = push t.metadata.work_records entry };
            state = to;
          },
          ok tt,
          notices t t.state to e.listeners,
        ))

unfoldable pub register_listener : Listener → WorkflowEngine → WorkflowEngine
register_listener l e = record e { listeners = push e.listeners l }
