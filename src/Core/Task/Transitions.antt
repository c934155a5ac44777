-- ===== src/Core/Task/Transitions.antt =====
-- crates/core/src/task.rs: what one request for a transition does.
use ndc.Common.{◌≡◌, true, false, err, arith, member, is_ok, ◌↔◌}
use ndc.Core.Task.{Task, request_transition, not_allowed, transitions_from}
use ndc.Core.TaskState.{TaskState, Timestamp, state_eq}

-- A request succeeds exactly when its target is among the allowed transitions, and then the task
-- is in the target state with the allowed transitions of that state and the new time of change; a
-- request that is refused leaves the task as it was and names both states.
pub request_transition_lem :
    (now : Timestamp) (to : TaskState) (t : Task)
    → ((is_ok (request_transition now to t).1 ≡ true)
        ↔ (member state_eq t.allowed_transitions to ≡ true))
      × ((is_ok (request_transition now to t).1 ≡ true)
          → ((request_transition now to t).0.state ≡ to)
            × ((request_transition now to t).0.allowed_transitions ≡ transitions_from to)
            × ((request_transition now to t).0.metadata.updated_at ≡ now))
      × ((is_ok (request_transition now to t).1 ≡ false)
          → request_transition now to t ≡ (t, err (not_allowed t.state to)))
unfolding request_transition
request_transition_lem now to t = ground arith
