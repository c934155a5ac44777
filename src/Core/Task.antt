-- ===== src/Core/Task.antt =====
-- crates/core/src/task.rs: `Task` and its methods. A method that mutates the task returns the new
-- one, beside its result; a fresh identifier and each reading of the clock are arguments.
pub mod Transitions
pub mod Lifecycle
pub mod Verification
pub mod Snapshots
use Prim.Native.String.{◌++◌}
use ndc.Common.{
  String, Bool, true, false, ◌||◌, Option, none, some, List, [], ◌∷◌, Result, ok, err,
  if◌then◌else◌, not, member, all, push, last,
}
use ndc.Common.Option
use ndc.Common.Text.{str_eq}
use ndc.Core.Agent.{AgentRole, historian}
use ndc.Core.Intent.{FilePath, Intent, Verdict}
use ndc.Core.TaskState.{
  TaskId, TaskState, Timestamp, state_eq, pending, preparing, in_progress, awaiting_verification,
  blocked, completed, failed, cancelled,
}
use ndc.Core.TaskParts.{
  GitWorktreeSnapshot, LightweightSnapshot, ExecutionStep, QualityGate, SnapshotId, TaskMetadata,
  TaskPriority,
}

pub record Task : Type 0 where
  pub id : TaskId
  pub intent : Option Intent
  pub verdict : Option Verdict
  pub state : TaskState
  pub title : String
  pub description : String
  pub allowed_transitions : List TaskState
  pub steps : List ExecutionStep
  pub quality_gate : Option QualityGate
  pub snapshots : List GitWorktreeSnapshot
  pub lightweight_snapshots : List LightweightSnapshot
  pub metadata : TaskMetadata

pub data TransitionError : Type 0 where
  not_allowed : TaskState → TaskState → TransitionError

-- `Result<(), TransitionError>`.
abbrev pub TransitionResult : Type 0
TransitionResult = Result TransitionError (Unit {0})

abbrev pub default_metadata : Timestamp → TaskMetadata
default_metadata now = record {
  created_at = now;
  updated_at = now;
  created_by = historian;
  priority = TaskPriority.medium;
  tags = [];
  work_records = [];
}

abbrev pub initial_transitions : List TaskState
initial_transitions = preparing ∷ []

unfoldable pub from_intent_and_verdict : TaskId → Timestamp → Intent → Verdict → Task
from_intent_and_verdict id now intent verdict = record {
  id = id;
  intent = some intent;
  verdict = some verdict;
  state = pending;
  title = "";
  description = "";
  allowed_transitions = initial_transitions;
  steps = [];
  quality_gate = none;
  snapshots = [];
  lightweight_snapshots = [];
  metadata = default_metadata now;
}

-- `created` and `updated` are the two readings of the clock.
unfoldable pub new : TaskId → Timestamp → Timestamp → String → String → AgentRole → Task
new id created updated title description created_by = record {
  id = id;
  intent = none;
  verdict = none;
  state = pending;
  title = title;
  description = description;
  allowed_transitions = initial_transitions;
  steps = [];
  quality_gate = none;
  snapshots = [];
  lightweight_snapshots = [];
  metadata = record {
    created_at = created;
    updated_at = updated;
    created_by = created_by;
    priority = TaskPriority.medium;
    tags = [];
    work_records = [];
  };
}

unfoldable pub new_todo : TaskId → Timestamp → Timestamp → String → String → String → String → Task
new_todo id created updated title description project_id session_id = record {
  id = id;
  intent = none;
  verdict = none;
  state = pending;
  title = title;
  description = description;
  allowed_transitions = preparing ∷ in_progress ∷ completed ∷ cancelled ∷ [];
  steps = [];
  quality_gate = none;
  snapshots = [];
  lightweight_snapshots = [];
  metadata = record {
    created_at = created;
    updated_at = updated;
    created_by = historian;
    priority = TaskPriority.medium;
    tags = ("project:" ++ project_id) ∷ ("session:" ++ session_id) ∷ "todo" ∷ [];
    work_records = [];
  };
}

-- The table of `update_allowed_transitions`.
abbrev pub transitions_from : TaskState → List TaskState
transitions_from pending = preparing ∷ []
transitions_from preparing = in_progress ∷ []
transitions_from in_progress = awaiting_verification ∷ blocked ∷ []
transitions_from awaiting_verification = completed ∷ failed ∷ in_progress ∷ []
transitions_from blocked = in_progress ∷ []
transitions_from _ = []

abbrev pub update_allowed_transitions : Task → Task
update_allowed_transitions t = record t { allowed_transitions = transitions_from t.state }

abbrev pub touch : Timestamp → Task → Task
touch now t = record t { metadata = record t.metadata { updated_at = now } }

unfoldable pub request_transition : Timestamp → TaskState → Task → Task × TransitionResult
request_transition now to t =
    if not (member state_eq t.allowed_transitions to)
    then (t, err (not_allowed t.state to))
    else (touch now (update_allowed_transitions (record t { state = to })), ok tt)

unfoldable pub mark_completed : Timestamp → Task → Task × TransitionResult
mark_completed now t =
    if state_eq t.state completed
    then (t, ok tt)
    else if state_eq t.state failed || state_eq t.state cancelled
    then (t, err (not_allowed t.state completed))
    else (touch now (record t { state = completed; allowed_transitions = [] }), ok tt)

unfoldable pub mark_cancelled : Timestamp → Task → Task × TransitionResult
mark_cancelled now t =
    if state_eq t.state cancelled
    then (t, ok tt)
    else if state_eq t.state completed
    then (t, err (not_allowed t.state cancelled))
    else (touch now (record t { state = cancelled; allowed_transitions = [] }), ok tt)

unfoldable pub mark_in_progress : Timestamp → Task → Task × TransitionResult
mark_in_progress now t =
    if state_eq t.state in_progress
    then (t, ok tt)
    else if state_eq t.state completed || state_eq t.state failed || state_eq t.state cancelled
    then (t, err (not_allowed t.state in_progress))
    else (touch now (update_allowed_transitions (record t { state = in_progress })), ok tt)

unfoldable pub capture_worktree_snapshot :
    SnapshotId → Timestamp → FilePath → String → String → List FilePath → String → Task → Task
capture_worktree_snapshot id now path commit branch affected summary t =
    let snapshot : GitWorktreeSnapshot = record {
      id = id;
      worktree_path = path;
      created_at = now;
      base_commit = commit;
      branch_name = branch;
      task_id = t.id;
      step_id = Option.map (λ (s : ExecutionStep). s.step_id) (last t.steps);
      affected_paths = affected;
      operation_summary = summary;
    } in
    record t { snapshots = push t.snapshots snapshot }

unfoldable pub capture_lightweight_snapshot :
    SnapshotId → Timestamp → List FilePath → String → Task → Task
capture_lightweight_snapshot id now paths checksum t =
    let snapshot : LightweightSnapshot = record {
      id = id;
      captured_at = now;
      paths = paths;
      checksum = checksum;
    } in
    record t { lightweight_snapshots = push t.lightweight_snapshots snapshot }

unfoldable pub latest_worktree_snapshot : Task → Option GitWorktreeSnapshot
latest_worktree_snapshot t = last t.snapshots

unfoldable pub latest_lightweight_snapshot : Task → Option LightweightSnapshot
latest_lightweight_snapshot t = last t.lightweight_snapshots

unfoldable pub has_tags : List String → Task → Bool
has_tags required t = all (λ tag. member str_eq t.metadata.tags tag) required
