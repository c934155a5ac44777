-- ===== src/Tests/Sagas.antt =====
-- A saga of three steps, with actions that succeed or fail by their names.
use ndc.Common.{
  String, true, ◌≡◌, refl, Option, none, some, List, [], ◌∷◌, ok, err, if◌then◌else◌, last,
}
use ndc.Common.Maps.{get, insert, string_eq}
use ndc.Common.Text.{str_eq}
use ndc.Runtime.Saga
use ndc.Runtime.Saga.{
  SagaState, SagaStepStatus, SagaAction, SagaStep, Saga, SagaResult, Call, forward, compensate,
  World, Environment, SagaOrchestrator, Outcome, returned, create_saga, register_saga, with_storage,
  add_step, get_saga,
}
use ndc.Runtime.Workflow.{compensation_failed, saga_step_failed}
use ndc.Runtime.Saga.Loops.Plan.{plan}
use ndc.Runtime.Saga.Execution.{execute_saga, compensate_saga}
use ndc.Runtime.Saga.Execution.Atomicity.{EndedWith, execute_saga-Ended}
use ndc.Runtime.Saga.Execution.Persistence.{execute_saga_saved}

abbrev act : String → SagaAction
act name = record { action_type = name; parameters = "{}"; timeout = 60; retries = 0 }

abbrev step : String → Option SagaAction → SagaStep
step name undo = record {
  id = name;
  name = name;
  forward_action = act name;
  compensating_action = undo;
  status = SagaStepStatus.pending;
  output = none;
  started_at = none;
  completed_at = none;
}

abbrev env : Environment
env = record {
  execute_forward = λ w a. if str_eq a.action_type "break" then err "broken" else ok "done";
  execute_compensate = λ w a. if str_eq a.action_type "hang" then err "hung" else ok tt;
  clock = λ w. w.reads;
}

abbrev nothing : World
nothing = record { calls = []; saved = []; reads = 0 }

abbrev trip : List SagaStep → Saga
trip steps = record {
  id = "trip";
  name = "Trip";
  task_id = none;
  steps = steps;
  state = SagaState.pending;
  current_step = none;
  error = none;
  created_at = 0;
  updated_at = 0;
}

abbrev orchestrator : Saga → SagaOrchestrator
orchestrator saga = record { sagas = ("trip", saga) ∷ []; storage = true }

abbrev breaking : Saga
breaking = trip (
    step "car" (some (act "no car"))
    ∷ step "map" none
    ∷ step "hotel" (some (act "no hotel"))
    ∷ step "break" none
    ∷ [])

registered : register_saga breaking (with_storage Saga.new) ≡ orchestrator breaking
unfolding register_saga with_storage Saga.new insert
registered = refl

abbrev built : SagaOrchestrator
built = register_saga (create_saga "trip" 0 0 "Trip" none) Saga.new

-- A step is added to a pending saga.
step_added :
    get_saga "trip" (add_step "trip" (step "car" none) 4 built).0
    ≡ some (record (trip (step "car" none ∷ [])) { updated_at = 4 })
unfolding add_step get_saga create_saga register_saga Saga.new get insert
step_added = refl

-- A saga that has ended takes no more steps.
step_refused :
    add_step "trip"
      (step "car" none)
      4
      (orchestrator (record breaking { state = SagaState.completed }))
    ≡ (
      orchestrator (record breaking { state = SagaState.completed }),
      err (saga_step_failed "trip" "Cannot add step to saga in Completed state"),
    )
unfolding add_step get insert
step_refused = refl

-- The steps before the one that breaks are undone in reverse, the one with nothing to undo passed over.
breaking_calls :
    (execute_saga env "trip" (orchestrator breaking) nothing).1.calls
    ≡ forward (act "car")
      ∷ forward (act "map")
      ∷ forward (act "hotel")
      ∷ forward (act "break")
      ∷ compensate (act "no hotel")
      ∷ compensate (act "no car")
      ∷ []
unfolding execute_saga compensate_saga get insert
breaking_calls = refl

abbrev hanging : Saga
hanging = trip (step "car" (some (act "hang")) ∷ step "break" none ∷ [])

hanging_outcome :
    (execute_saga env "trip" (orchestrator hanging) nothing).2
    ≡ returned (err (compensation_failed 0 "hung"))
unfolding execute_saga compensate_saga get insert
hanging_outcome = refl

execute_saga-Ended_example :
    EndedWith env "trip" nothing
      (plan breaking.steps)
      (execute_saga env "trip" (orchestrator breaking) nothing)
unfolding get
execute_saga-Ended_example =
    execute_saga-Ended env "trip" (orchestrator breaking) nothing breaking refl

execute_saga_saved_example :
    let (o', w', out) = execute_saga env "trip" (orchestrator breaking) nothing in
    last w'.saved ≡ get "trip" o'.sagas
unfolding execute_saga compensate_saga get insert
execute_saga_saved_example = execute_saga_saved env "trip" (orchestrator breaking) nothing refl refl

abbrev completed : Saga
completed = record breaking { state = SagaState.completed }
