-- ===== src/Decision/Validators.antt =====
-- crates/decision/src/validators.rs: the built-in validators. Their trait `Validator` is not that of
-- the engine, so the registry below and the engine's list are different lists.
pub mod Rules
use ndc.Common.{
  String, Bool, true, false, not, ◌&&◌, ◌||◌, Option, none, some, List, [], ◌∷◌, push,
  if◌then◌else◌,
}
use ndc.Common.Text.{contains}
use ndc.Core.Agent.{AgentRole, role_eq, admin, planner}
use ndc.Core.TaskState.{TaskId}
use ndc.Core.Intent.{
  Action, create_task, delete_file, write_file, run_command, FilePath, Intent, PrivilegeLevel,
  RiskLevel, HumanContext,
}
use ndc.Decision.Engine.{ValidationResult, allow, deny, require_human, PolicyState}

boundary_answer : Action → AgentRole → ValidationResult
boundary_answer (create_task _) role = if role_eq role planner then allow else allow
boundary_answer _ role = deny "Intent must be associated with a task"

-- `TaskBoundaryValidator::validate`: both ways out of the arm for `CreateTask` answer Allow.
unfoldable pub task_boundary : Intent → PolicyState → ValidationResult
unfolding boundary_answer
task_boundary intent policy = elim intent.task_id [
  | none ↦ boundary_answer intent.proposed_action intent.agent_role
  | some _ ↦ allow
]

delete_context : Option TaskId → HumanContext
delete_context task_id = record {
  task_id = task_id;
  affected_files = [];
  risk_level = RiskLevel.critical;
  alternatives = [];
  required_privilege = PrivilegeLevel.critical;
}

config_context : Option TaskId → FilePath → HumanContext
config_context task_id path = record {
  task_id = task_id;
  affected_files = path ∷ [];
  risk_level = RiskLevel.medium;
  alternatives = [];
  required_privilege = PrivilegeLevel.elevated;
}

unfoldable pub is_system_config : FilePath → Bool
unfolding contains
is_system_config path = contains path "Cargo.toml" || contains path "package.json"

unfoldable pub is_dangerous : String → Bool
unfolding contains
is_dangerous command =
    contains command "rm -rf" || contains command "sudo" || contains command ":(){:|:&};:"

permission_answer : Action → Intent → ValidationResult
permission_answer (delete_file _) intent =
    if not (role_eq intent.agent_role admin)
    then require_human "Delete file operation requires human approval"
        (delete_context intent.task_id)
    else allow
permission_answer (write_file path _) intent =
    if is_system_config path && not (role_eq intent.agent_role admin)
    then require_human "System configuration modification requires human approval"
        (config_context intent.task_id path)
    else allow
permission_answer (run_command command _) intent =
    if is_dangerous command then deny "Dangerous command is not allowed" else allow
permission_answer _ intent = allow

-- `PermissionValidator::validate`.
unfoldable pub permission : Intent → PolicyState → ValidationResult
unfolding permission_answer delete_context config_context
permission intent policy = permission_answer intent.proposed_action intent

module _ (to_lowercase : String → String) where
  strict_answer : Action → Option ValidationResult
  strict_answer (delete_file _) = some (deny "Delete operations are not allowed in strict mode")
  strict_answer (run_command command _) =
      if contains (to_lowercase command) "rm" || contains (to_lowercase command) "del"
      then some (deny "Delete commands are not allowed in strict mode")
      else none
  strict_answer _ = none

  danger_answer : Action → ValidationResult
  danger_answer (run_command command _) =
      if contains (to_lowercase command) "sudo"
        || contains (to_lowercase command) "chmod 777"
        || contains (to_lowercase command) "mkfs"
      then deny "Dangerous operations are not allowed"
      else allow
  danger_answer _ = allow

  -- `SecurityPolicyValidator::validate`.
  unfoldable pub security_policy : Intent → PolicyState → ValidationResult
  unfolding strict_answer danger_answer
  security_policy intent policy =
      let strict : Option ValidationResult =
        if policy.strict_mode then strict_answer intent.proposed_action else none in
      elim strict [
        | some answer ↦ answer
        | none ↦ if not policy.allow_dangerous then danger_answer intent.proposed_action else allow
      ]

-- `DependencyValidator::validate`: only a log line.
unfoldable pub dependency : Intent → PolicyState → ValidationResult
dependency intent policy = allow

-- A member of the registry.
abbrev pub BuiltIn : Type 0
BuiltIn = Intent → PolicyState → ValidationResult

pub record ValidatorRegistry : Type 0 where
  pub validators : List BuiltIn

abbrev pub new_registry : ValidatorRegistry
new_registry = record { validators = [] }

unfoldable pub register : BuiltIn → ValidatorRegistry → ValidatorRegistry
register v r = record { validators = push r.validators v }

unfoldable pub get_all : ValidatorRegistry → List BuiltIn
get_all r = r.validators
