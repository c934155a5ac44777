-- ===== src/Decision/Validators/Rules.antt =====
-- crates/decision/src/validators.rs: what the built-in validators let pass.
use ndc.Common.{String, Bool, true, false, ◌≡◌, ◌≢◌, ◌↔◌, ◌⊎◌, none, arith}
use ndc.Common.Text.{contains}
use ndc.Core.Agent.{AgentRole, admin}
use ndc.Core.Intent.{Action, create_task, delete_file, write_file, run_command, Intent}
use ndc.Decision.Engine.{allow, PolicyState}
use ndc.Decision.Validators.{
  task_boundary, permission, security_policy, dependency, is_system_config, is_dangerous,
}

abbrev pub is_create_task : Action → Bool
is_create_task (create_task _) = true
is_create_task _ = false

-- The boundary validator lets an intent pass exactly when it belongs to a task or proposes to create
-- one, whatever the role of the agent.
task_boundary_iff :
    (intent : Intent) (policy : PolicyState)
    → (task_boundary intent policy ≡ allow)
      ↔ ((intent.task_id ≢ none) ⊎ (is_create_task intent.proposed_action ≡ true))
unfolding task_boundary
task_boundary_iff intent policy = (λ h. ground arith, λ h. ground arith)

-- What the permission validator asks, whatever the policy: Admin for a deletion, and for a write to a
-- path with the name of a manifest in it; no dangerous text in a command, whatever the role.
abbrev pub MeetsPermission : AgentRole → Action → Type 0
MeetsPermission role (delete_file _) = role ≡ admin
MeetsPermission role (write_file path _) =
    (role ≡ admin) ⊎ ((contains path "Cargo.toml" ≡ false) × (contains path "package.json" ≡ false))
MeetsPermission role (run_command command _) =
    (contains command "rm -rf" ≡ false)
    × (contains command "sudo" ≡ false)
    × (contains command ":(){:|:&};:" ≡ false)
MeetsPermission role _ = Unit

-- What the security validator asks in strict mode: no deletion, and no command whose text in lower
-- case has `rm` or `del` anywhere in it, within a word too.
abbrev pub MeetsStrict : (String → String) → Action → Type 0
MeetsStrict to_lowercase (delete_file _) = ⊥
MeetsStrict to_lowercase (run_command command _) =
    (contains (to_lowercase command) "rm" ≡ false) × (contains (to_lowercase command) "del" ≡ false)
MeetsStrict to_lowercase _ = Unit

-- What the security validator asks unless the policy allows dangerous operations.
abbrev pub MeetsDanger : (String → String) → Action → Type 0
MeetsDanger to_lowercase (run_command command _) =
    (contains (to_lowercase command) "sudo" ≡ false)
    × (contains (to_lowercase command) "chmod 777" ≡ false)
    × (contains (to_lowercase command) "mkfs" ≡ false)
MeetsDanger to_lowercase _ = Unit

module _ (to_lowercase : String → String) where
  -- The permission, security and dependency validators all let an intent pass exactly when these three
  -- hold. Whatever the policy: a deletion is proposed by Admin; so is a write to a path that contains
  -- Cargo.toml or package.json; a command, whatever the role, does not contain `rm -rf`, `sudo` or the
  -- fork bomb. If the policy is strict: the action is no deletion, and no command whose text in lower
  -- case contains `rm` or `del`, be it inside a word. If the policy does not allow dangerous operations:
  -- no command's text in lower case contains `sudo`, `chmod 777` or `mkfs`.
  pub validators_iff :
      (action : Action) (intent : Intent) (policy : PolicyState)
      → intent.proposed_action ≡ action
      → ((permission intent policy ≡ allow)
          × (security_policy to_lowercase intent policy ≡ allow)
          × (dependency intent policy ≡ allow))
        ↔ (MeetsPermission intent.agent_role action
            × (policy.strict_mode ≡ true → MeetsStrict to_lowercase action)
            × (policy.allow_dangerous ≡ false → MeetsDanger to_lowercase action))
  unfolding permission security_policy dependency is_system_config is_dangerous
  validators_iff (delete_file path) intent policy e = ground arith
  validators_iff (write_file path content) intent policy e = ground arith
  validators_iff (run_command command args) intent policy e = ground arith
  validators_iff _ intent policy e = ground arith
