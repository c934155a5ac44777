-- ===== src/Core/Decomposition.antt =====
-- crates/core/src/llm/decomposition/lint.rs: a task taken apart into subtasks, and what a lint says.
use ndc.Common.{ℕ, String, Bool, Option, List, ◌==◌}
use ndc.Core.Intent.{FilePath}

pub data LintSeverity : Type 0 where
  info warning error critical : LintSeverity

abbrev pub severity_index : LintSeverity → ℕ
severity_index info = 0
severity_index warning = 1
severity_index error = 2
severity_index critical = 3

-- The derived `==`.
abbrev pub severity_eq : LintSeverity → LintSeverity → Bool
severity_eq a b = severity_index a == severity_index b

pub record LintViolation : Type 0 where
  pub rule : String
  pub message : String
  pub severity : LintSeverity
  pub affected_subtasks : List String
  pub suggestion : String

pub record LintResult : Type 0 where
  pub violations : List LintViolation
  pub passed : Bool
  pub severity : LintSeverity

pub data ActionType : Type 0 where
  create_file modify_file delete_file refactor test document review config : ActionType

pub data Complexity : Type 0 where
  trivial simple moderate complex very_complex : Complexity

pub record SubTask : Type 0 where
  pub id : String
  pub title : String
  pub description : String
  pub action_type : ActionType
  pub complexity : Complexity
  pub depends_on : List String
  pub expected_files : List FilePath
  pub verification : List String

pub data DependencyType : Type 0 where
  must_complete_before should_complete_before can_run_after : DependencyType

-- `source` and `target` are the fields `from` and `to`.
pub record TaskDependency : Type 0 where
  pub source : String
  pub target : String
  pub dependency_type : DependencyType

pub record TaskDecomposition : Type 0 where
  pub task_id : String
  pub root_todo_id : Option String
  pub subtasks : List SubTask
  pub dependencies : List TaskDependency
