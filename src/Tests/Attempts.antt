-- ===== src/Tests/Attempts.antt =====
-- Failures that a working memory records.
use ndc.Common.{◌+◌, ◌%◌, ◌<◌, ◌≤◌, true, false, ◌≡◌, ◌↔◌, ◌++◌, refl, none, List, [], ◌∷◌, length}
use ndc.Core.WorkingMemory.{
  FailurePattern, WorkingMemory, TrajectoryState, generate, record_failure, record_success,
  is_cycling, is_stuck, detect_cycle, any_window, same_root_cause,
}
use ndc.Core.WorkingMemory.Attempts.{record_failures, record_failures_lem}
use ndc.Core.WorkingMemory.Cycles.{Repeated, detect_cycle_iff}

abbrev failure : FailurePattern
failure = record {
  error_type = "E0308";
  message = "mismatched types";
  file = none;
  line = none;
  timestamp = 0;
}

abbrev memory : WorkingMemory
memory =
    generate "s" none (record { active_files = []; api_surface = []; current_step_context = none })
      []

abbrev four : List FailurePattern
four = failure ∷ failure ∷ failure ∷ failure ∷ []

four_cycle : (is_cycling (record_failures four memory) ≡ true) × (is_stuck memory ≡ false)
unfolding is_cycling is_stuck record_failures record_failure generate
four_cycle = (refl, refl)

abbrev many : WorkingMemory
many = record memory { abstract_history = record memory.abstract_history { attempt_count = 255 } }

-- The counter is at 0 after 256 failures, which then count as no cycle.
counter_wraps : is_stuck (record_failure failure many) ≡ true
unfolding is_stuck record_failure generate
counter_wraps = refl

success_keeps_count :
    (record_success (record_failures four memory)).abstract_history.trajectory_state
    ≡ TrajectoryState.progressing 4
unfolding record_success record_failures record_failure generate
success_keeps_count = refl

record_failures_lem_example :
    let h = memory.abstract_history in
    let m' = record_failures four memory in
    let h' = m'.abstract_history in
    (h'.attempt_count ≡ (h.attempt_count + length four) % 256)
    × (h'.failure_patterns ≡ h.failure_patterns ++ four)
    × ((is_cycling m' ≡ true) ↔ 3 < h'.attempt_count)
    × ((is_stuck m' ≡ true) ↔ h'.attempt_count ≤ 3)
record_failures_lem_example = record_failures_lem failure (failure ∷ failure ∷ failure ∷ []) memory

detected : detect_cycle (record_failures four memory).abstract_history ≡ true
unfolding detect_cycle any_window same_root_cause record_failures record_failure generate
detected = refl

detect_cycle_iff_example : (detect_cycle (record_failures four memory).abstract_history ≡ true) ↔ (
    (3 < (record_failures four memory).abstract_history.attempt_count)
    × Repeated (record_failures four memory).abstract_history.failure_patterns)
detect_cycle_iff_example = detect_cycle_iff (record_failures four memory).abstract_history
