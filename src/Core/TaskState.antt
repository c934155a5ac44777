-- ===== src/Core/TaskState.antt =====
-- crates/core/src/task.rs: the states of a task and the kinds of quality check, which intents
-- name too, and the identifiers.
use ndc.Common.{ℕ, String, Bool, true, ◌==◌, ◌≡◌, ◌↔◌, arith}

-- A ulid, as the number that it is.
abbrev pub TaskId : Type 0
TaskId = ℕ

-- An instant, in the clock's own unit. A function that reads the clock takes each reading as an
-- argument.
abbrev pub Timestamp : Type 0
Timestamp = ℕ

pub data TaskState : Type 0 where
  pending preparing in_progress awaiting_verification blocked completed failed cancelled : TaskState

-- The position of a state in the declaration.
abbrev state_index : TaskState → ℕ
state_index pending = 0
state_index preparing = 1
state_index in_progress = 2
state_index awaiting_verification = 3
state_index blocked = 4
state_index completed = 5
state_index failed = 6
state_index cancelled = 7

-- The derived `==`.
abbrev pub state_eq : TaskState → TaskState → Bool
state_eq a b = state_index a == state_index b

pub state_eq_iff : (a b : TaskState) → (state_eq a b ≡ true) ↔ (a ≡ b)
state_eq_iff a b = ground arith

pub data QualityCheckType : Type 0 where
  test lint type_check build security : QualityCheckType
  custom : String → QualityCheckType
