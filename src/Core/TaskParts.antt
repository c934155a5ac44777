-- ===== src/Core/TaskParts.antt =====
-- crates/core/src/task.rs: the records that a task carries (snapshots, steps, quality gate,
-- metadata).
use ndc.Common.{ℕ, String, Bool, Option, List}
use ndc.Core.Agent.{AgentRole}
use ndc.Core.Intent.{FilePath, MemoryId, Action}
use ndc.Core.TaskState.{TaskId, Timestamp, QualityCheckType}

abbrev pub SnapshotId : Type 0
SnapshotId = ℕ

abbrev pub WorkRecordId : Type 0
WorkRecordId = ℕ

pub record GitWorktreeSnapshot : Type 0 where
  pub id : SnapshotId
  pub worktree_path : FilePath
  pub created_at : Timestamp
  pub base_commit : String
  pub branch_name : String
  pub task_id : TaskId
  pub step_id : Option ℕ  -- u64
  pub affected_paths : List FilePath
  pub operation_summary : String

pub data ChangeType : Type 0 where
  added modified deleted renamed : ChangeType

pub record FileChange : Type 0 where
  pub path : FilePath
  pub change_type : ChangeType
  pub old_content_hash : Option String
  pub new_content_hash : Option String
  pub lines_added : ℕ  -- u32
  pub lines_removed : ℕ  -- u32

pub record LightweightSnapshot : Type 0 where
  pub id : SnapshotId
  pub captured_at : Timestamp
  pub paths : List FilePath
  pub checksum : String

pub data StepStatus : Type 0 where
  pending in_progress completed failed : StepStatus

pub record ActionMetrics : Type 0 where
  pub duration_ms : ℕ  -- u64
  pub tokens_used : ℕ  -- u64
  pub memory_access : List MemoryId

pub record ActionResult : Type 0 where
  pub success : Bool
  pub output : String
  pub error : Option String
  pub metrics : ActionMetrics

pub record ExecutionStep : Type 0 where
  pub step_id : ℕ  -- u64
  pub action : Action
  pub status : StepStatus
  pub result : Option ActionResult
  pub executed_at : Option Timestamp

pub data GateStrategy : Type 0 where
  fail_fast all_must_pass weighted : GateStrategy

pub data PassCondition : Type 0 where
  exit_code : ℕ → PassCondition
  regex_match : String → PassCondition
  output_contains : String → PassCondition

pub record QualityCheck : Type 0 where
  pub check_type : QualityCheckType
  pub command : Option String
  pub pass_condition : PassCondition

pub record QualityGate : Type 0 where
  pub checks : List QualityCheck
  pub strategy : GateStrategy

pub data TaskPriority : Type 0 where
  low medium high critical : TaskPriority

pub data WorkEvent : Type 0 where
  created started step_completed step_failed blocked unblocked completed failed : WorkEvent

pub data Executor : Type 0 where
  agent : AgentRole → Executor
  human : Executor
  system : Executor

pub data WorkResult : Type 0 where
  success : WorkResult
  failure : String → WorkResult
  pending : WorkResult

pub record WorkRecord : Type 0 where
  pub id : WorkRecordId
  pub timestamp : Timestamp
  pub event : WorkEvent
  pub executor : Executor
  pub result : WorkResult

pub record TaskMetadata : Type 0 where
  pub created_at : Timestamp
  pub updated_at : Timestamp
  pub created_by : AgentRole
  pub priority : TaskPriority
  pub tags : List String
  pub work_records : List WorkRecord
