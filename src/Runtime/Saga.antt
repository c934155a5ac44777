-- ===== src/Runtime/Saga.antt =====
-- crates/runtime/src/workflow.rs, second part: the sagas and `SagaOrchestrator`. A map entry that the
-- code fetches anew before each use is held as a value: nobody else can reach it meanwhile.
pub mod Loops
pub mod Execution
pub mod Storage
use Prim.Native.String.{◌++◌ as text_append}
use ndc.Common.{
  ℕ, zero, suc, ◌+◌, String, Bool, true, false, ◌==◌, Option, none, some, List, [], ◌∷◌, Result, ok,
  err, if◌then◌else◌, not, push, length, get_elem?, set,
}
use ndc.Common.Option
use ndc.Common.Maps.{get, insert, string_eq}
use ndc.Core.Intent.{Json}
use ndc.Core.TaskState.{Timestamp}
use ndc.Runtime.Workflow.{
  WorkflowError, saga_step_failed, step_not_found, compensation_failed, saga_not_found,
}

pub data SagaState : Type 0 where
  pending running completed compensating compensated failed : SagaState

pub data SagaStepStatus : Type 0 where
  pending running completed failed skipped compensating compensated : SagaStepStatus

pub record SagaAction : Type 0 where
  pub action_type : String
  pub parameters : Json
  pub timeout : ℕ  -- u64
  pub retries : ℕ  -- u32

pub record SagaStep : Type 0 where
  pub id : String
  pub name : String
  pub forward_action : SagaAction
  pub compensating_action : Option SagaAction
  pub status : SagaStepStatus
  pub output : Option Json
  pub started_at : Option Timestamp
  pub completed_at : Option Timestamp

pub record Saga : Type 0 where
  pub id : String
  pub name : String
  pub task_id : Option String
  pub steps : List SagaStep
  pub state : SagaState
  pub current_step : Option ℕ
  pub error : Option String
  pub created_at : Timestamp
  pub updated_at : Timestamp

pub record SagaResult : Type 0 where
  pub saga_id : String
  pub success : Bool
  pub completed_steps : ℕ
  pub total_steps : ℕ
  pub output : Option Json
  pub error : Option String
  pub compensated : Bool

-- A call of the executor.
pub data Call : Type 0 where
  forward : SagaAction → Call
  compensate : SagaAction → Call

-- What has happened outside: the calls of the executor, the sagas saved (whatever the storage made of
-- them, its answer is not read), and the number of times the clock was read.
pub record World : Type 0 where
  pub calls : List Call
  pub saved : List Saga
  pub reads : ℕ

-- The executor and the clock. An answer may depend on everything that has happened.
pub record Environment : Type 0 where
  pub execute_forward : World → SagaAction → Result String Json
  pub execute_compensate : World → SagaAction → Result String (Unit {0})
  pub clock : World → Timestamp

-- `storage` says whether one is set.
pub record SagaOrchestrator : Type 0 where
  pub sagas : List (String × Saga)
  pub storage : Bool

pub data Outcome (A : Type 0) : Type 0 where
  returned : Result WorkflowError A → Outcome A
  panicked : Outcome A

unfoldable pub new : SagaOrchestrator
new = record { sagas = []; storage = false }

unfoldable pub with_storage : SagaOrchestrator → SagaOrchestrator
with_storage o = record o { storage = true }

unfoldable pub create_saga : String → Timestamp → Timestamp → String → Option String → Saga
create_saga id created updated name task_id = record {
  id = id;
  name = name;
  task_id = task_id;
  steps = [];
  state = SagaState.pending;
  current_step = none;
  error = none;
  created_at = created;
  updated_at = updated;
}

-- `{:?}` of a state.
abbrev pub state_name : SagaState → String
state_name SagaState.pending = "Pending"
state_name SagaState.running = "Running"
state_name SagaState.completed = "Completed"
state_name SagaState.compensating = "Compensating"
state_name SagaState.compensated = "Compensated"
state_name SagaState.failed = "Failed"

abbrev is_pending : SagaState → Bool
is_pending SagaState.pending = true
is_pending _ = false

add_to :
    String
    → SagaStep
    → Timestamp
    → SagaOrchestrator
    → Saga
    → SagaOrchestrator × Result WorkflowError (Unit {0})
add_to saga_id step now o saga =
    if not (is_pending saga.state)
    then (
      o,
      err (
          saga_step_failed saga_id (
            text_append "Cannot add step to saga in "
              (text_append (state_name saga.state) " state"))),
    )
    else (let saga' = record saga { steps = push saga.steps step; updated_at = now } in
        (record o { sagas = insert saga_id saga' o.sagas }, ok tt))

unfoldable pub add_step :
    String
    → SagaStep
    → Timestamp
    → SagaOrchestrator
    → SagaOrchestrator × Result WorkflowError (Unit {0})
unfolding add_to
add_step saga_id step now o = elim (get saga_id o.sagas) [
  | none ↦ (o, err (saga_not_found saga_id))
  | some saga ↦ add_to saga_id step now o saga
]

unfoldable pub register_saga : Saga → SagaOrchestrator → SagaOrchestrator
register_saga saga o = record o { sagas = insert saga.id saga o.sagas }

unfoldable pub get_saga : String → SagaOrchestrator → Option Saga
get_saga saga_id o = get saga_id o.sagas

abbrev pub called : Call → World → World
called c w = record w { calls = push w.calls c }

abbrev pub tick : World → World
tick w = record w { reads = w.reads + 1 }

-- Saves if a storage is set.
abbrev pub persist : Bool → Saga → World → World
persist storage saga w = if storage then record w { saved = push w.saved saga } else w
