-- ===== src/Decision/Engine.antt =====
-- crates/decision/src/engine.rs: `BasicDecisionEngine`. The lower-casing of texts, which is a table
-- of Unicode, is the argument `to_lowercase` of what uses it.
pub mod Allowing
pub mod Registering
use Prim.Native.String.{◌++◌}
use ndc.Common.{
  ℕ, String, Bool, true, false, ◌||◌, Option, none, some, List, [], ◌∷◌, if◌then◌else◌, ltb, leb,
  map, push,
}
use ndc.Common.Option
use ndc.Common.Maps.{Eq, get, insert}
use ndc.Common.Text.{contains, ends_with}
use ndc.Core.Agent.{
  AgentRole, role_eq, role_eq_iff, planner, implementer, reviewer, tester, historian, admin,
}
use ndc.Core.Intent.{
  FilePath, GitOp, Action, read_file, write_file, create_file, delete_file, run_command, git,
  modify_memory, create_task, update_task_state, search_knowledge, save_knowledge, run_tests,
  run_quality_check, request_human, other, Intent, PrivilegeLevel, normal, elevated, high, critical,
  level, Condition, must_pass_tests, ErrorCode, HumanContext, InformationRequirement, Verdict,
}

pub data ValidationResult : Type 0 where
  allow : ValidationResult
  deny : String → ValidationResult
  require_human : String → HumanContext → ValidationResult
  modify : Action → String → List String → ValidationResult
  defer : List InformationRequirement → Option ℕ → ValidationResult

pub record PolicyState : Type 0 where
  pub strict_mode : Bool
  pub allow_dangerous : Bool
  pub max_file_modifications : ℕ  -- u32
  pub require_human_for_high_risk : Bool
  pub active_rules : List String
  pub human_interventions : ℕ  -- u32
  pub denied_intents : ℕ  -- u32

abbrev pub default_policy : PolicyState
default_policy = record {
  strict_mode = false;
  allow_dangerous = false;
  max_file_modifications = 0;
  require_human_for_high_risk = false;
  active_rules = [];
  human_interventions = 0;
  denied_intents = 0;
}

-- The engine's trait `Validator`.
pub record Validator : Type 0 where
  pub validate : Intent → PolicyState → ValidationResult
  pub name : String
  pub priority : ℕ  -- u32

pub record DecisionEngine : Type 0 where
  pub validators : List Validator
  pub policy_state : PolicyState
  pub role_privileges : List (AgentRole × PrivilegeLevel)

instance abbrev pub agent_role_eq : Eq AgentRole
agent_role_eq = record { beq = role_eq; beq_iff = role_eq_iff }

init_default_privileges : DecisionEngine → DecisionEngine
init_default_privileges e = record e {
  role_privileges = insert admin critical (
      insert historian normal (
        insert tester normal (
          insert reviewer normal
            (insert implementer elevated (insert planner normal e.role_privileges)))));
}

unfoldable pub new : DecisionEngine
unfolding init_default_privileges insert
new =
    init_default_privileges
      (record { validators = []; policy_state = default_policy; role_privileges = [] })

unfoldable pub is_config_file : FilePath → Bool
unfolding contains ends_with
is_config_file path =
    contains path "Cargo.toml"
    || contains path "package.json"
    || ends_with path ".lock"
    || ends_with path ".toml"

-- The lower-cased command is given.
unfoldable pub is_dangerous_command : String → Bool
unfolding contains
is_dangerous_command cmd =
    contains cmd "rm -rf" || contains cmd "sudo" || contains cmd ":(){:|:&};:"

unfoldable pub is_build_command : String → Bool
unfolding contains
is_build_command cmd =
    contains cmd "cargo build"
    || contains cmd "npm run build"
    || contains cmd "go build"
    || contains cmd "make"

git_privilege : GitOp → PrivilegeLevel
git_privilege (GitOp.commit _) = high
git_privilege GitOp.push = high
git_privilege _ = normal

abbrev pub code_changes : List Condition
code_changes =
    record { condition_type = must_pass_tests; description = "Code changes must pass tests" } ∷ []

conditions_for : Action → List Condition
conditions_for (write_file _ _) = code_changes
conditions_for (create_file _) = code_changes
conditions_for (delete_file _) = code_changes
conditions_for _ = []

unfoldable pub build_conditions : Intent → List Condition
unfolding conditions_for
build_conditions intent = conditions_for intent.proposed_action

-- `{:?}` of a privilege level.
abbrev pub level_name : PrivilegeLevel → String
level_name normal = "Normal"
level_name elevated = "Elevated"
level_name high = "High"
level_name critical = "Critical"

-- What the loop over the validators returns for one answer; `none` is `continue`.
unfoldable pub objection : Intent → ValidationResult → Option Verdict
objection intent allow = none
objection intent (deny reason) =
    some (Verdict.deny intent.proposed_action reason ErrorCode.invalid_action)
objection intent (require_human question context) =
    some (Verdict.require_human intent.proposed_action question context (some 300))
objection intent (modify action reason warnings) =
    some (Verdict.modify intent.proposed_action action reason warnings)
objection intent (defer info retry_after) =
    some (Verdict.defer intent.proposed_action info retry_after)

unfoldable pub run_validators : List Validator → PolicyState → Intent → Option Verdict
run_validators [] policy intent = none
run_validators (v ∷ vs) policy intent = elim (objection intent (v.validate intent policy)) [
  | some verdict ↦ some verdict
  | none ↦ run_validators vs policy intent
]

unfoldable pub granted_privilege : DecisionEngine → AgentRole → PrivilegeLevel
unfolding get
granted_privilege e role = Option.get_or (get role e.role_privileges) normal

module _ (to_lowercase : String → String) where
  action_privilege : Action → PrivilegeLevel
  action_privilege (read_file _) = normal
  action_privilege (write_file path _) = if is_config_file path then elevated else normal
  action_privilege (create_file path) = if is_config_file path then elevated else normal
  action_privilege (delete_file _) = high
  action_privilege (run_command command _) =
      if is_dangerous_command (to_lowercase command)
      then critical
      else if is_build_command (to_lowercase command)
      then elevated
      else normal
  action_privilege (git operation) = git_privilege operation
  action_privilege (modify_memory _ _) = elevated
  action_privilege (create_task _) = normal
  action_privilege (update_task_state _ _) = normal
  action_privilege (search_knowledge _) = normal
  action_privilege (save_knowledge _) = elevated
  action_privilege (run_tests _) = normal
  action_privilege (run_quality_check _) = normal
  action_privilege (request_human _ _) = normal
  action_privilege (other _ _) = normal

  unfoldable pub calculate_required_privilege : Intent → PrivilegeLevel
  unfolding action_privilege git_privilege
  calculate_required_privilege intent = action_privilege intent.proposed_action

  -- The part of `evaluate` after the validators.
  check_privilege : DecisionEngine → Intent → Verdict
  check_privilege e intent =
      let required = calculate_required_privilege intent in
      let granted = granted_privilege e intent.agent_role in
      if ltb (level granted) (level required)
      then Verdict.deny intent.proposed_action
          ("Insufficient privilege: required "
            ++ level_name required
            ++ ", granted "
            ++ level_name granted)
          (ErrorCode.insufficient_privilege required granted)
      else Verdict.allow intent.proposed_action granted (build_conditions intent)

  unfoldable pub evaluate : DecisionEngine → Intent → Verdict
  unfolding check_privilege
  evaluate e intent = elim (run_validators e.validators e.policy_state intent) [
    | some verdict ↦ verdict
    | none ↦ check_privilege e intent
  ]

  unfoldable pub evaluate_batch : DecisionEngine → List Intent → List Verdict
  evaluate_batch e [] = []
  evaluate_batch e (intent ∷ intents) = evaluate e intent ∷ evaluate_batch e intents

-- `sort_by_key(|v| v.priority())` of the standard library: a stable sort.
insert_by_priority : Validator → List Validator → List Validator
insert_by_priority v [] = v ∷ []
insert_by_priority v (w ∷ ws) =
    if leb v.priority w.priority then v ∷ w ∷ ws else w ∷ insert_by_priority v ws

sort_by_priority : List Validator → List Validator
sort_by_priority [] = []
sort_by_priority (v ∷ vs) = insert_by_priority v (sort_by_priority vs)

unfoldable pub register_validator : Validator → DecisionEngine → DecisionEngine
unfolding sort_by_priority insert_by_priority
register_validator v e = record e { validators = sort_by_priority (push e.validators v) }
