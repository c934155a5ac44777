-- ===== src/Core/Verifier/Completion.antt =====
-- crates/core/src/ai_agent/verifier.rs: the tasks that `verify_completion` finds completed.
use mathlib.Core.Path.{subst}
use ndc.Common.{
  String, ◌≡◌, ◌↔◌, true, refl, sym, ap, inl, inr, Option, none, some, List, [], ◌∷◌, Result, ok,
  err, arith, Bool-cases, Option-cases, All,
}
use ndc.Core.Task.{Task}
use ndc.Core.TaskParts.{ActionResult, ExecutionStep, QualityGate}
use ndc.Core.TaskState.{TaskId, TaskState, state_eq, state_eq_iff}
use ndc.Core.Verifier.{
  VerifierEnvironment, completed, failed_result, first_failure, run_gate, verify_task,
  verify_answer, verify_completion,
}

-- The gate has nothing to run, or what it runs succeeds.
abbrev pub GatePasses :
    VerifierEnvironment → Option (String → Option String) → Option QualityGate → Type 0
GatePasses env none wanted = Unit
GatePasses env (some run) none = Unit
GatePasses env (some run) (some gate) = run (env.show_gate gate) ≡ none

-- Every result that a step has is a success.
abbrev pub StepsPass : List ExecutionStep → Type 0
StepsPass steps =
    All (λ (s : ExecutionStep). (r : ActionResult) → s.result ≡ some r → r.success ≡ true) steps

abbrev pub IsDone : VerifierEnvironment → Task → Type 0
IsDone env task =
    (task.state ≡ TaskState.completed)
    × StepsPass task.steps
    × GatePasses env env.gate task.quality_gate

failed_result_iff :
    (o : Option ActionResult)
    → (failed_result o ≡ none) ↔ ((r : ActionResult) → o ≡ some r → r.success ≡ true)
failed_result_iff none = (λ h r e. absurd (ground (arith, e)), λ h. refl)
failed_result_iff (some result) = (
  λ h r e.
      let same : result ≡ r = ground (arith, e) in
      subst (λ (x : ActionResult). x.success ≡ true) same (ground (arith, h)),
  λ h. ground (arith, h result refl),
)

first_failure_iff :
    (env : VerifierEnvironment) (steps : List ExecutionStep)
    → (first_failure env steps ≡ none) ↔ StepsPass steps
unfolding first_failure
first_failure_iff env [] = ((λ h. tt), (λ h. refl))
first_failure_iff env (s ∷ steps) =
    let (pass, unpass) = failed_result_iff s.result in
    elim (Option-cases (failed_result s.result)) [
      | inl e ↦
          let (to, from) = first_failure_iff env steps in
          ((λ h. (pass e, to (ground (arith, e, h)))), (λ h. ground (arith, e, from h.1)))
      | inr (r, e) ↦
          ((λ h. absurd (ground (arith, e, h))), (λ h. absurd (ground (arith, e, unpass h.0))))
    ]

run_gate_iff :
    (env : VerifierEnvironment) (g : Option (String → Option String)) (wanted : Option QualityGate)
    → (run_gate env g wanted ≡ completed) ↔ GatePasses env g wanted
unfolding run_gate
run_gate_iff env none wanted = ((λ h. tt), (λ h. refl))
run_gate_iff env (some run) none = ((λ h. tt), (λ h. refl))
run_gate_iff env (some run) (some gate) = elim (Option-cases (run (env.show_gate gate))) [
  | inl e ↦ ((λ h. e), (λ h. ground (arith, e)))
  | inr (reason, e) ↦ ((λ h. absurd (ground (arith, e, h))), (λ h. absurd (ground (arith, e, h))))
]

verify_task_iff :
    (env : VerifierEnvironment) (task : Task) → (verify_task env task ≡ completed) ↔ IsDone env task
unfolding verify_task
verify_task_iff env task =
    let (state_to, state_from) = state_eq_iff task.state TaskState.completed in
    let (steps_to, steps_from) = first_failure_iff env task.steps in
    let (gate_to, gate_from) = run_gate_iff env env.gate task.quality_gate in
    elim (Bool-cases (state_eq task.state TaskState.completed)) [
      | inr n ↦
          ((λ h. absurd (ground (arith, n, h))), (λ h. absurd (ground (arith, n, state_from h.0))))
      | inl y ↦ elim (Option-cases (first_failure env task.steps)) [
        | inr (reason, e) ↦ (
          (λ h. absurd (ground (arith, y, e, h))),
          (λ h. absurd (ground (arith, e, steps_from h.1))),
        )
        | inl e ↦ (
          (λ h. (state_to y, steps_to e, gate_to (ground (arith, y, e, h)))),
          (λ h. ground (arith, y, e, gate_from h.2)),
        )
      ]
    ]

verify_answer_iff :
    (env : VerifierEnvironment) (id : TaskId) (a : Result String (Option Task))
    → (verify_answer env id a ≡ ok completed)
      ↔ ((task : Task) × (a ≡ ok (some task)) × IsDone env task)
unfolding verify_answer
verify_answer_iff env id (err reason) =
    ((λ h. absurd (ground arith)), (λ h. absurd (ground (arith, h.1))))
verify_answer_iff env id (ok none) =
    ((λ h. absurd (ground arith)), (λ h. absurd (ground (arith, h.1))))
verify_answer_iff env id (ok (some task)) =
    let (to, from) = verify_task_iff env task in
    (
      (λ h.
          let same : verify_task env task ≡ completed = ground (arith, h) in (task, refl, to same)),
      (λ h.
          let same : task ≡ h.0 = ground (arith, h.1) in
          ap ok (from (subst (IsDone env) (sym same) h.2))),
    )

-- A task is verified as completed exactly when it is stored, its state is Completed, every result that
-- a step has is a success, and the gate, where there is one and the task wants it, does not fail.
pub verify_completion_iff :
    (env : VerifierEnvironment) (id : TaskId)
    → (verify_completion env id ≡ ok completed)
      ↔ ((task : Task) × (env.get_task id ≡ ok (some task)) × IsDone env task)
unfolding verify_completion
verify_completion_iff env id = verify_answer_iff env id (env.get_task id)
