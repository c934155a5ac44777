-- ===== src/Tests/Deciding.antt =====
-- The decision engine and the validators at concrete inputs.
use ndc.Common.{String, true, false, ◌≡◌, ◌≤◌, ◌↔◌, ◌++◌, refl, none, List, [], ◌∷◌, arith, All}
use ndc.Core.Agent.{AgentRole, implementer, historian, admin, for_role}
use ndc.Core.Intent.{
  Action, write_file, delete_file, run_command, Intent, PrivilegeLevel, critical, level, Verdict,
  ErrorCode,
}
use ndc.Decision.Engine
use ndc.Decision.Engine.{
  ValidationResult, PolicyState, Validator, DecisionEngine, default_policy, objection,
  calculate_required_privilege, granted_privilege, build_conditions, evaluate, evaluate_batch,
  register_validator, run_validators, is_config_file,
}
use ndc.Decision.Engine.Allowing.{Passes, evaluate_allow_iff, needs_admin, allow_needs_admin}
use ndc.Decision.Engine.Registering.{IsSorted, register_validator_lem}
use ndc.Decision.Validators.{
  register, get_all, new_registry, task_boundary, permission, security_policy, dependency,
}
use ndc.Decision.Validators.Rules.{MeetsPermission, MeetsStrict, MeetsDanger, validators_iff}

-- The inputs are in lower case.
abbrev lower : String → String
lower s = s

abbrev propose : AgentRole → Action → Intent
propose role action = record {
  id = 1;
  agent = 2;
  agent_role = role;
  proposed_action = action;
  effects = [];
  reasoning = "";
  task_id = none;
  timestamp = 0;
}

abbrev removal : Intent
removal = propose admin (delete_file "a.rs")

abbrev removal_allowed : Verdict
removal_allowed = Verdict.allow (delete_file "a.rs") critical (build_conditions removal)

removal_is_allowed : evaluate lower Engine.new removal ≡ removal_allowed
unfolding evaluate Engine.new run_validators granted_privilege calculate_required_privilege
removal_is_allowed = refl

config_write_is_denied :
    evaluate lower Engine.new (propose historian (write_file "Cargo.toml" ""))
    ≡ Verdict.deny
        (write_file "Cargo.toml" "")
        "Insufficient privilege: required Elevated, granted Normal"
        (ErrorCode.insufficient_privilege PrivilegeLevel.elevated PrivilegeLevel.normal)
unfolding evaluate Engine.new run_validators granted_privilege calculate_required_privilege
    is_config_file
config_write_is_denied = refl

evaluate_allow_iff_example :
    (evaluate lower Engine.new removal
      ≡ Verdict.allow (delete_file "a.rs") critical (build_conditions removal))
    ↔ (All (Passes Engine.new.policy_state removal) Engine.new.validators
        × (level (calculate_required_privilege lower removal)
            ≤ level (granted_privilege Engine.new removal.agent_role))
        × (delete_file "a.rs" ≡ removal.proposed_action)
        × (critical ≡ granted_privilege Engine.new removal.agent_role)
        × (build_conditions removal ≡ build_conditions removal))
evaluate_allow_iff_example =
    evaluate_allow_iff lower Engine.new removal (delete_file "a.rs") critical
      (build_conditions removal)

allow_needs_admin_example :
    (removal.agent_role ≡ admin) × ((for_role removal.agent_role).can_delete_files ≡ true)
unfolding needs_admin
allow_needs_admin_example = allow_needs_admin lower Engine.new removal refl refl removal_is_allowed

abbrev naysayer : Validator
naysayer = record {
  validate = λ intent policy. ValidationResult.deny "no";
  name = "naysayer";
  priority = 5;
}

abbrev yeasayer : Validator
yeasayer = record {
  validate = λ intent policy. ValidationResult.allow;
  name = "yeasayer";
  priority = 1;
}

abbrev wary : DecisionEngine
wary = record Engine.new { validators = yeasayer ∷ naysayer ∷ [] }

registered : register_validator yeasayer (register_validator naysayer Engine.new) ≡ wary
unfolding register_validator Engine.new
registered = refl

register_validator_lem_example :
    (before after : List Validator) × (wary.validators ≡ before ++ after)
    × ((register_validator naysayer wary).validators ≡ before ++ naysayer ∷ after)
    × All (λ u. u.priority ≤ 5) before
    × All (λ u. 6 ≤ u.priority) after
    × IsSorted (register_validator naysayer wary).validators
register_validator_lem_example = register_validator_lem naysayer wary (omega arith)

abbrev command : Intent
command = propose implementer (run_command "cargo test" [])

batch_in_order :
    evaluate_batch lower wary (removal ∷ command ∷ [])
    ≡ evaluate lower wary removal ∷ evaluate lower wary command ∷ []
unfolding evaluate_batch
batch_in_order = refl

listed :
    get_all (register dependency (register task_boundary new_registry))
    ≡ task_boundary ∷ dependency ∷ []
unfolding get_all register
listed = refl

abbrev strict : PolicyState
strict = record default_policy { strict_mode = true }

validators_iff_example :
    ((permission command strict ≡ ValidationResult.allow)
      × (security_policy lower command strict ≡ ValidationResult.allow)
      × (dependency command strict ≡ ValidationResult.allow))
    ↔ (MeetsPermission implementer (run_command "cargo test" [])
        × (strict.strict_mode ≡ true → MeetsStrict lower (run_command "cargo test" []))
        × (strict.allow_dangerous ≡ false → MeetsDanger lower (run_command "cargo test" [])))
validators_iff_example = validators_iff lower (run_command "cargo test" []) command strict refl
