-- ===== src/Runtime/Workflow/Tables.antt =====
-- crates/runtime/src/workflow.rs against crates/core/src/task.rs: the rules of the workflow engine and
-- the transitions that a task allows itself.
use ndc.Common.{
  true, false, ◌≡◌, refl, ◌⊎◌, ◌↔◌, arith, List, [], ◌∷◌, ok, err, member, length, map, ap, All,
  length-append, ◌+◌,
}
use ndc.Core.Task.{Task, request_transition, not_allowed, transitions_from}
use ndc.Core.TaskParts.{WorkRecordId}
use ndc.Core.TaskState.{
  TaskState, Timestamp, state_eq, pending, in_progress, awaiting_verification, blocked, completed,
  failed,
}
use ndc.Runtime.Workflow.{
  WorkflowEngine, invalid_transition, new, can_transition, transition, Notice, notices, Listener,
}

-- The fresh engine's rules and a task's own transitions differ in exactly seven places: only the engine
-- goes from InProgress to Failed and from Failed or Completed back to Pending; only the task goes from
-- AwaitingVerification to Failed, from AwaitingVerification or Blocked to InProgress, and from
-- InProgress to Blocked.
pub tables_compared :
    (from to : TaskState)
    → (((can_transition from to new ≡ true) × (member state_eq (transitions_from from) to ≡ false))
        ↔ (((from ≡ in_progress) × (to ≡ failed))
            ⊎ (((from ≡ failed) ⊎ (from ≡ completed)) × (to ≡ pending))))
      × (((member state_eq (transitions_from from) to ≡ true)
            × (can_transition from to new ≡ false))
          ↔ (((from ≡ awaiting_verification) × (to ≡ failed))
              ⊎ (((from ≡ awaiting_verification) ⊎ (from ≡ blocked)) × (to ≡ in_progress))
              ⊎ ((from ≡ in_progress) × (to ≡ blocked))))
unfolding can_transition new
tables_compared from to = ground arith

-- What a listener is told of a transition.
abbrev pub Tells : Task → TaskState → Notice → Type 0
Tells t to n = (n.task_id ≡ t.id) × (n.from ≡ t.state) × (n.to ≡ to)

notices_lem :
    (t : Task) (to : TaskState) (ls : List Listener)
    → (map (λ (n : Notice). n.listener) (notices t t.state to ls) ≡ ls)
      × All (Tells t to) (notices t t.state to ls)
unfolding notices
notices_lem t to [] = (refl, tt)
notices_lem t to (l ∷ ls) =
    let (same, told) = notices_lem t to ls in (ap (◌∷◌ l) same, ((refl, refl, refl), told))

-- A transition that the rules allow succeeds: the task is in the new state with one more work record,
-- its allowed transitions as before, and every listener is told once, in the order of registration,
-- the task and both states. One that they do not allow fails with both states, changes nothing and
-- tells nobody.
pub transition_lem :
    (id : WorkRecordId) (now : Timestamp) (to : TaskState) (e : WorkflowEngine) (t : Task)
    → (can_transition t.state to e ≡ true
        → ((transition id now to e t).0.state ≡ to)
          × ((transition id now to e t).0.allowed_transitions ≡ t.allowed_transitions)
          × (length (transition id now to e t).0.metadata.work_records
              ≡ length t.metadata.work_records + 1)
          × ((transition id now to e t).1 ≡ ok tt)
          × (map (λ (n : Notice). n.listener) (transition id now to e t).2 ≡ e.listeners)
          × All (Tells t to) (transition id now to e t).2)
      × (can_transition t.state to e ≡ false
          → transition id now to e t ≡ (t, err (invalid_transition t.state to), []))
unfolding transition
transition_lem id now to e t = (
  λ yes_. rw yes_ (
    refl,
    refl,
    length-append t.metadata.work_records _,
    refl,
    (notices_lem t to e.listeners).0,
    (notices_lem t to e.listeners).1,
  ),
  λ no_. rw no_,
)

-- After the engine has rolled a task that allows no transition back to Pending, the task refuses every
-- request for a transition.
rollback_blocks :
    (id : WorkRecordId) (now later : Timestamp) (e : WorkflowEngine) (t : Task) (to : TaskState)
    → t.allowed_transitions ≡ []
    → can_transition t.state pending e ≡ true
    → let t' = (transition id now pending e t).0 in
      (t'.state ≡ pending) × (request_transition later to t' ≡ (t', err (not_allowed pending to)))
unfolding transition request_transition
rollback_blocks id now later e t to h c = ground arith
