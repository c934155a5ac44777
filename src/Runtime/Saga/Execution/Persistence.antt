-- ===== src/Runtime/Saga/Execution/Persistence.antt =====
-- What the storage and the table of sagas hold after a call.
use mathlib.Core.Path.{subst}
use ndc.Common.{
  ℕ, zero, suc, ap, String, ◌≡◌, refl, Bool, true, false, Option, none, some, arith, ok, err, last,
  last-push,
}
use ndc.Common.Option
use ndc.Runtime.Saga.Loops.Plan.{persist-calls}
use ndc.Common.Maps.{get, insert, get-insert_self, string_eq}
use ndc.Runtime.Workflow.{saga_not_found}
use ndc.Runtime.Saga.{
  SagaResult, Saga, SagaState, World, Environment, SagaOrchestrator, Outcome, returned, panicked,
  persist, tick,
}
use ndc.Runtime.Saga.Loops.{
  Run, LoopEnd, finished, step_failed, missing, Undoing, undone, stopped, out_of_range,
  compensate_steps,
}
use ndc.Runtime.Saga.Execution.{
  close_undoing, compensate_found, compensate_saga, report_failure, close_run, execute_found,
  execute_saga,
}

-- If a storage is set and the call succeeded, the last saga saved is the one then registered.
abbrev Kept : {A : Type 0} → String → Bool → SagaOrchestrator × World × Outcome A → Type 0
Kept saga_id storage (o, w, returned (ok _)) = storage ≡ true → last w.saved ≡ get saga_id o.sagas
Kept saga_id storage _ = Unit

last-persist :
    (storage : Bool) (saga : Saga) (w : World)
    → storage ≡ true
    → last (persist storage saga w).saved ≡ some saga
last-persist true saga w h = last-push w.saved saga
last-persist false saga w h = cc

module _ (env : Environment) (saga_id : String) where
  close_undoing-Kept :
      (o : SagaOrchestrator) (w : World) (u : Undoing)
      → Kept saga_id o.storage (close_undoing env saga_id o w u)
  unfolding close_undoing
  close_undoing-Kept o w (undone saga w') = λ h. rw get-insert_self (last-persist o.storage _ _ h)
  close_undoing-Kept o w (stopped saga w' i e) = tt
  close_undoing-Kept o w out_of_range = tt

  compensate_saga-Kept :
      (o : SagaOrchestrator) (w : World) → Kept saga_id o.storage (compensate_saga env saga_id o w)
  unfolding compensate_saga compensate_found
  compensate_saga-Kept o w = go (get saga_id o.sagas)
    where
      go :
          (found : Option Saga)
          → Kept {A = Unit {0}} saga_id o.storage (elim found [
            | none ↦ (o, w, returned (err (saga_not_found saga_id)))
            | some saga ↦ compensate_found env saga_id o w saga
          ])
      go none = tt
      go (some saga) = close_undoing-Kept o _ _

  report_failure-Kept :
      (r : Run) (total : ℕ) (e : String) (storage : Bool)
      (answer : SagaOrchestrator × World × Outcome (Unit {0}))
      → Kept saga_id storage answer
      → Kept saga_id storage (report_failure saga_id r total e answer)
  unfolding report_failure
  report_failure-Kept r total e storage (o, w, returned (ok x)) k = k
  report_failure-Kept r total e storage (o, w, returned (err x)) k = tt
  report_failure-Kept r total e storage (o, w, panicked) k = tt

  close_run-Kept :
      (total : ℕ) (o : SagaOrchestrator) (end : LoopEnd)
      → Kept saga_id o.storage (close_run env saga_id total o end)
  unfolding close_run
  close_run-Kept total o (finished r) = λ h. rw get-insert_self (last-persist o.storage _ _ h)
  close_run-Kept total o (step_failed r e) =
      report_failure-Kept r total e o.storage _
        (compensate_saga-Kept (record o { sagas = insert saga_id r.saga o.sagas }) r.world)
  close_run-Kept total o (missing i r) = tt

  execute_saga-Kept :
      (o : SagaOrchestrator) (w : World) → Kept saga_id o.storage (execute_saga env saga_id o w)
  unfolding execute_saga execute_found
  execute_saga-Kept o w = go (get saga_id o.sagas)
    where
      go :
          (found : Option Saga)
          → Kept {A = SagaResult} saga_id o.storage (elim found [
            | none ↦ (o, w, returned (err (saga_not_found saga_id)))
            | some saga ↦ execute_found env saga_id o w saga
          ])
      go none = tt
      go (some saga) = close_run-Kept _ o _

  -- When an execution returns a result and a storage is set, the last saga that was handed to the
  -- storage is the saga then registered under the id: nothing that the result reports is unsaved.
  pub execute_saga_saved :
      (o : SagaOrchestrator) (w : World) {o' : SagaOrchestrator} {w' : World} {result : SagaResult}
      → o.storage ≡ true
      → execute_saga env saga_id o w ≡ (o', w', returned (ok result))
      → last w'.saved ≡ get saga_id o'.sagas
  execute_saga_saved o w st h =
      subst (Kept {A = SagaResult} saga_id o.storage) h (execute_saga-Kept o w) st

  compensate_steps_none :
      (storage : Bool) (n : ℕ) (saga : Saga) (w : World)
      → n ≡ 0
      → compensate_steps env storage n saga w ≡ undone saga w
  unfolding compensate_steps
  compensate_steps_none storage zero saga w h = refl
  compensate_steps_none storage (suc n) saga w h = absurd (omega arith)

  -- Compensating a registered saga that has no current step, as one that has completed, succeeds and
  -- marks it Compensated, though no compensating action is run and no step changes.
  compensate_saga_unstarted :
      (o : SagaOrchestrator) (w : World) (saga : Saga)
      → get saga_id o.sagas ≡ some saga
      → saga.current_step ≡ none
      → let (o', w', out) = compensate_saga env saga_id o w in
        (out ≡ returned (ok tt))
        × (w'.calls ≡ w.calls)
        × ((saga' : Saga) × (get saga_id o'.sagas ≡ some saga')
            × (saga'.state ≡ SagaState.compensated)
            × (saga'.steps ≡ saga.steps))
  unfolding compensate_saga compensate_found close_undoing
  compensate_saga_unstarted o w saga h k =
      rw (h, compensate_saga)
        (rw
          (
            compensate_steps_none o.storage (Option.get_or saga.current_step 0) _ (tick w)
                (ap (λ (x : Option ℕ). Option.get_or x 0) k),
            close_undoing,
          )
          (refl, persist-calls o.storage _ _, (_, get-insert_self saga_id _ o.sagas, refl, refl)))
