-- ===== src/Core/WorkingMemory.antt =====
-- crates/core/src/memory/working_memory.rs: `WorkingMemory`, what an agent remembers of its attempts.
-- The counter of attempts is a u8 that wraps round.
pub mod Attempts
pub mod Cycles
use ndc.Common.{
  ℕ, ◌+◌, ◌%◌, String, Bool, true, false, ◌&&◌, ◌||◌, Option, none, List, [], ◌∷◌, if◌then◌else◌,
  ltb, push,
}
use ndc.Common.Option
use ndc.Common.Text.{str_eq}
use ndc.Core.Intent.{FilePath}
use ndc.Core.Invariants.{InvariantPriority}
use ndc.Core.TaskState.{Timestamp}

pub record FailurePattern : Type 0 where
  pub error_type : String
  pub message : String
  pub file : Option FilePath
  pub line : Option ℕ  -- u32
  pub timestamp : Timestamp

pub data TrajectoryState : Type 0 where
  progressing : ℕ → TrajectoryState  -- u8
  cycling : String → TrajectoryState
  stuck : String → TrajectoryState

pub record AbstractHistory : Type 0 where
  pub failure_patterns : List FailurePattern
  pub root_cause_summary : Option String
  pub attempt_count : ℕ  -- u8
  pub trajectory_state : TrajectoryState

pub data ApiKind : Type 0 where
  function struct_kind enum_kind trait_kind type_kind constant : ApiKind

pub record ApiSurface : Type 0 where
  pub name : String
  pub kind : ApiKind
  pub file : FilePath
  pub line : ℕ  -- u32

pub record StepContext : Type 0 where
  pub description : String
  pub step_index : ℕ  -- u32
  pub expected_output : Option String

pub record RawCurrent : Type 0 where
  pub active_files : List FilePath
  pub api_surface : List ApiSurface
  pub current_step_context : Option StepContext

pub data VersionOperator : Type 0 where
  exact at_least at_most : VersionOperator

pub record VersionTag : Type 0 where
  pub dimension : String
  pub value : String
  pub operator : VersionOperator

pub record VersionedInvariant : Type 0 where
  pub id : String
  pub rule : String
  pub scope : String
  pub priority : InvariantPriority
  pub created_at : Timestamp
  pub ttl_days : Option ℕ  -- u32
  pub version_tags : List VersionTag

pub record WorkingMemory : Type 0 where
  pub scope : String
  pub abstract_history : AbstractHistory
  pub raw_current : RawCurrent
  pub hard_invariants : List VersionedInvariant

unfoldable pub same_root_cause : FailurePattern → FailurePattern → Bool
same_root_cause a b = str_eq a.error_type b.error_type && str_eq a.message b.message

unfoldable pub generate :
    String → Option AbstractHistory → RawCurrent → List VersionedInvariant → WorkingMemory
generate scope abstract_history raw_current hard_invariants = record {
  scope = scope;
  abstract_history = Option.get_or abstract_history (record {
    failure_patterns = [];
    root_cause_summary = none;
    attempt_count = 0;
    trajectory_state = progressing 0;
  });
  raw_current = raw_current;
  hard_invariants = hard_invariants;
}

-- The trajectory after a failure, from the new count.
abbrev pub trajectory_after : ℕ → String → TrajectoryState
trajectory_after attempts message =
    if ltb 3 attempts then cycling "Repeated failures detected" else stuck message

unfoldable pub record_failure : FailurePattern → WorkingMemory → WorkingMemory
record_failure pattern m =
    let attempts = (m.abstract_history.attempt_count + 1) % 256 in
    record m {
      abstract_history = record m.abstract_history {
        attempt_count = attempts;
        failure_patterns = push m.abstract_history.failure_patterns pattern;
        trajectory_state = trajectory_after attempts pattern.message;
      };
    }

unfoldable pub record_success : WorkingMemory → WorkingMemory
record_success m = record m {
  abstract_history = record m.abstract_history {
    trajectory_state = progressing m.abstract_history.attempt_count;
  };
}

abbrev cycles : TrajectoryState → Bool
cycles (cycling _) = true
cycles _ = false

abbrev stays_stuck : TrajectoryState → Bool
stays_stuck (stuck _) = true
stays_stuck _ = false

unfoldable pub is_cycling : WorkingMemory → Bool
is_cycling m = cycles m.abstract_history.trajectory_state

unfoldable pub is_stuck : WorkingMemory → Bool
is_stuck m = stays_stuck m.abstract_history.trajectory_state

-- `windows(3).any(…)`.
unfoldable pub any_window : List FailurePattern → Bool
any_window (a ∷ b ∷ c ∷ ps) =
    (same_root_cause a b && same_root_cause b c) || any_window (b ∷ c ∷ ps)
any_window _ = false

unfoldable pub detect_cycle : AbstractHistory → Bool
detect_cycle h = ltb 3 h.attempt_count && any_window h.failure_patterns
