-- ===== src/Tests/Flows.antt =====
-- The workflow engine at concrete inputs.
use ndc.Common.{◌+◌, true, false, ◌≡◌, ◌↔◌, ◌⊎◌, refl, [], ◌∷◌, All, map, length, member, ok, err}
use ndc.Core.Agent.{implementer}
use ndc.Core.Task
use ndc.Core.Task.{Task, request_transition, not_allowed, transitions_from}
use ndc.Core.TaskState.{
  state_eq, pending, preparing, in_progress, awaiting_verification, blocked, completed, failed,
}
use ndc.Runtime.Workflow
use ndc.Runtime.Workflow.{
  WorkflowEngine, Notice, can_transition, transition, register_listener, invalid_transition,
}
use ndc.Runtime.Workflow.Tables.{Tells, tables_compared, transition_lem}

abbrev chore : Task
chore = Task.new 7 100 100 "Chore" "Sweep" implementer

abbrev finished : Task
finished = record chore { state = completed; allowed_transitions = [] }

abbrev watched : WorkflowEngine
watched = register_listener 1 (register_listener 0 Workflow.new)

tables_compared_example :
    (((can_transition in_progress failed Workflow.new ≡ true)
        × (member state_eq (transitions_from in_progress) failed ≡ false))
      ↔ (((in_progress ≡ in_progress) × (failed ≡ failed))
          ⊎ (((in_progress ≡ failed) ⊎ (in_progress ≡ completed)) × (failed ≡ pending))))
    × (((member state_eq (transitions_from in_progress) failed ≡ true)
          × (can_transition in_progress failed Workflow.new ≡ false))
        ↔ (((in_progress ≡ awaiting_verification) × (failed ≡ failed))
            ⊎ (((in_progress ≡ awaiting_verification) ⊎ (in_progress ≡ blocked))
                × (failed ≡ in_progress))
            ⊎ ((in_progress ≡ in_progress) × (failed ≡ blocked))))
tables_compared_example = tables_compared in_progress failed

transition_lem_example :
    (can_transition chore.state preparing watched ≡ true
      → ((transition 1 105 preparing watched chore).0.state ≡ preparing)
        × ((transition 1 105 preparing watched chore).0.allowed_transitions
            ≡ chore.allowed_transitions)
        × (length (transition 1 105 preparing watched chore).0.metadata.work_records
            ≡ length chore.metadata.work_records + 1)
        × ((transition 1 105 preparing watched chore).1 ≡ ok tt)
        × (map (λ (n : Notice). n.listener) (transition 1 105 preparing watched chore).2
            ≡ watched.listeners)
        × All (Tells chore preparing) (transition 1 105 preparing watched chore).2)
    × (can_transition chore.state preparing watched ≡ false
        → transition 1 105 preparing watched chore
          ≡ (chore, err (invalid_transition chore.state preparing), []))
transition_lem_example = transition_lem 1 105 preparing watched chore

told_in_order :
    map (λ (n : Notice). n.listener) (transition 1 105 preparing watched chore).2 ≡ 0 ∷ 1 ∷ []
unfolding transition register_listener Workflow.new can_transition Task.new
told_in_order = refl
