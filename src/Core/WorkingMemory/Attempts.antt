-- ===== src/Core/WorkingMemory/Attempts.antt =====
-- crates/core/src/memory/working_memory.rs: the count and the trajectory after failures.
use mathlib.Core.List.{append_assoc}
use ndc.Common.{◌+◌, ◌%◌, ◌<◌, ◌≤◌, true, ◌≡◌, ◌↔◌, List, [], ◌∷◌, ◌++◌, length, arith, refl, ◌∙◌}
use ndc.Core.WorkingMemory.{FailurePattern, WorkingMemory, record_failure, is_cycling, is_stuck}

-- Failures recorded in order.
unfoldable pub record_failures : List FailurePattern → WorkingMemory → WorkingMemory
record_failures [] m = m
record_failures (p ∷ ps) m = record_failures ps (record_failure p m)

-- After one or more failures in a row, the attempts have gone up by their number, modulo 256, the
-- failures are kept in order after the older ones, and the memory counts as cycling if there are more
-- than three attempts by the counter, and as stuck otherwise.
pub record_failures_lem :
    (p : FailurePattern) (ps : List FailurePattern) (m : WorkingMemory)
    → let h = m.abstract_history in
      let m' = record_failures (p ∷ ps) m in
      let h' = m'.abstract_history in
      (h'.attempt_count ≡ (h.attempt_count + length (p ∷ ps)) % 256)
      × (h'.failure_patterns ≡ h.failure_patterns ++ p ∷ ps)
      × ((is_cycling m' ≡ true) ↔ 3 < h'.attempt_count)
      × ((is_stuck m' ≡ true) ↔ h'.attempt_count ≤ 3)
unfolding record_failures record_failure is_cycling is_stuck
record_failures_lem p [] m = (omega arith, refl, ground arith, ground arith)
record_failures_lem p (q ∷ ps) m =
    let (count, kept, cycling, stuck) = record_failures_lem q ps (record_failure p m) in
    (
      omega (arith, count),
      kept ∙ append_assoc m.abstract_history.failure_patterns (p ∷ []) (q ∷ ps),
      cycling,
      stuck,
    )
