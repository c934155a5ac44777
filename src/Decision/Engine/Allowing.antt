-- ===== src/Decision/Engine/Allowing.antt =====
-- crates/decision/src/engine.rs: which intents `evaluate` lets pass, and what it answers to the others.
use ndc.Common.{
  ◌↔◌, String, Bool, true, false, ◌≡◌, refl, ◌≢◌, ◌≤◌, ◌++◌, none, some, List, [], ◌∷◌, arith, All,
  inl, inr, Option-cases,
}
use ndc.Common.Maps.{get}
use ndc.Core.Agent.{AgentRole, admin, for_role}
use ndc.Core.Intent.{
  Action, delete_file, git, GitOp, run_command, Intent, PrivilegeLevel, level, Condition, Verdict,
}
use ndc.Decision.Engine.{
  ValidationResult, PolicyState, Validator, DecisionEngine, new, objection, run_validators,
  granted_privilege, calculate_required_privilege, build_conditions, evaluate, is_dangerous_command,
}

-- The validator has nothing against the intent.
abbrev pub Passes : PolicyState → Intent → Validator → Type 0
Passes policy intent v = v.validate intent policy ≡ ValidationResult.allow

run_validators→All :
    (vs : List Validator) (policy : PolicyState) (intent : Intent)
    → run_validators vs policy intent ≡ none
    → All (Passes policy intent) vs
unfolding run_validators objection
run_validators→All [] policy intent h = tt
run_validators→All (v ∷ vs) policy intent h =
    (ground arith, run_validators→All vs policy intent (ground arith))

All→run_validators :
    (vs : List Validator) (policy : PolicyState) (intent : Intent)
    → All (Passes policy intent) vs
    → run_validators vs policy intent ≡ none
unfolding run_validators objection
All→run_validators [] policy intent h = refl
All→run_validators (v ∷ vs) policy intent h =
    ground (arith, h.0, All→run_validators vs policy intent h.1)

objection-ne-allow :
    (intent : Intent) (r : ValidationResult) (action : Action) (p : PrivilegeLevel)
    (cs : List Condition)
    → objection intent r ≢ some (Verdict.allow action p cs)
unfolding objection
objection-ne-allow intent ValidationResult.allow action p cs h = cc
objection-ne-allow intent _ action p cs h = cc

run_validators-ne-allow :
    (vs : List Validator) (policy : PolicyState) (intent : Intent) (action : Action)
    (p : PrivilegeLevel) (cs : List Condition)
    → run_validators vs policy intent ≢ some (Verdict.allow action p cs)
unfolding run_validators
run_validators-ne-allow [] policy intent action p cs h = cc
run_validators-ne-allow (v ∷ vs) policy intent action p cs h = ground (
  arith,
  objection-ne-allow intent (v.validate intent policy) action p cs,
  run_validators-ne-allow vs policy intent action p cs,
)

module _ (to_lowercase : String → String) where
  allow→ :
      (e : DecisionEngine) (intent : Intent) (action : Action) (p : PrivilegeLevel)
      (cs : List Condition)
      → evaluate to_lowercase e intent ≡ Verdict.allow action p cs
      → All (Passes e.policy_state intent) e.validators
        × (level (calculate_required_privilege to_lowercase intent)
            ≤ level (granted_privilege e intent.agent_role))
        × (action ≡ intent.proposed_action)
        × (p ≡ granted_privilege e intent.agent_role)
        × (cs ≡ build_conditions intent)
  unfolding evaluate
  allow→ e intent action p cs h =
      elim (Option-cases (run_validators e.validators e.policy_state intent)) [
        | inl clear ↦ (
          run_validators→All e.validators e.policy_state intent clear,
          ground arith,
          ground arith,
          ground arith,
          ground arith,
        )
        | inr (v, found) ↦
            absurd (
              run_validators-ne-allow e.validators e.policy_state intent action p cs (ground arith))
      ]

  →allow :
      (e : DecisionEngine) (intent : Intent)
      → All (Passes e.policy_state intent) e.validators
      → level (calculate_required_privilege to_lowercase intent)
        ≤ level (granted_privilege e intent.agent_role)
      → evaluate to_lowercase e intent
        ≡ Verdict.allow intent.proposed_action
            (granted_privilege e intent.agent_role)
            (build_conditions intent)
  unfolding evaluate
  →allow e intent all_pass enough =
      ground (arith, All→run_validators e.validators e.policy_state intent all_pass)

  -- An engine allows an intent exactly when every registered validator answers Allow and the level
  -- that the action needs is at most the level of the role; the verdict then carries the proposed
  -- action, the level of the role and the conditions for the action.
  pub evaluate_allow_iff :
      (e : DecisionEngine) (intent : Intent) (action : Action) (p : PrivilegeLevel)
      (cs : List Condition)
      → (evaluate to_lowercase e intent ≡ Verdict.allow action p cs) ↔ (
          All (Passes e.policy_state intent) e.validators
          × (level (calculate_required_privilege to_lowercase intent)
              ≤ level (granted_privilege e intent.agent_role))
          × (action ≡ intent.proposed_action)
          × (p ≡ granted_privilege e intent.agent_role)
          × (cs ≡ build_conditions intent))
  evaluate_allow_iff e intent action p cs =
      (allow→ e intent action p cs, λ h. rw (→allow e intent h.0 h.1) (cc (h.2, h.3, h.4)))

  run_validators-append :
      (before after : List Validator) (policy : PolicyState) (intent : Intent)
      → All (Passes policy intent) before
      → run_validators (before ++ after) policy intent ≡ run_validators after policy intent
  unfolding run_validators objection
  run_validators-append [] after policy intent h = refl
  run_validators-append (v ∷ vs) after policy intent h =
      ground (arith, run_validators-append vs after policy intent h.1)

  -- The first validator in the list that does not answer Allow decides the verdict, whatever the
  -- later ones would answer and whatever the role may do.
  first_objection :
      (e : DecisionEngine) (intent : Intent) (before after : List Validator) (v : Validator)
      (verdict : Verdict)
      → e.validators ≡ before ++ v ∷ after
      → All (Passes e.policy_state intent) before
      → objection intent (v.validate intent e.policy_state) ≡ some verdict
      → evaluate to_lowercase e intent ≡ verdict
  unfolding evaluate run_validators
  first_objection e intent before after v verdict split h o =
      ground (arith, run_validators-append before (v ∷ after) e.policy_state intent h)

  -- The actions that only an administrator is to take.
  unfoldable pub needs_admin : Action → Bool
  needs_admin (delete_file _) = true
  needs_admin (git (GitOp.commit _)) = true
  needs_admin (git GitOp.push) = true
  needs_admin (run_command command _) = is_dangerous_command (to_lowercase command)
  needs_admin _ = false

  needs_admin-level :
      (intent : Intent)
      → needs_admin intent.proposed_action ≡ true
      → 2 ≤ level (calculate_required_privilege to_lowercase intent)
  unfolding needs_admin calculate_required_privilege
  needs_admin-level intent h = ground arith

  granted_new :
      (e : DecisionEngine) (role : AgentRole)
      → e.role_privileges ≡ new.role_privileges
      → 2 ≤ level (granted_privilege e role)
      → (role ≡ admin) × ((for_role role).can_delete_files ≡ true)
  unfolding granted_privilege new get for_role
  granted_new e role same h = ground arith

  -- An engine with the default role table, whatever its validators and policy, allows deleting a
  -- file, committing, pushing or a dangerous command to no role but Admin, which has the permission
  -- to delete files.
  pub allow_needs_admin :
      (e : DecisionEngine) (intent : Intent) {action : Action} {p : PrivilegeLevel}
      {cs : List Condition}
      → e.role_privileges ≡ new.role_privileges
      → needs_admin intent.proposed_action ≡ true
      → evaluate to_lowercase e intent ≡ Verdict.allow action p cs
      → (intent.agent_role ≡ admin) × ((for_role intent.agent_role).can_delete_files ≡ true)
  allow_needs_admin e intent {action} {p} {cs} same n h =
      granted_new e intent.agent_role same
        (omega (arith, needs_admin-level intent n, (allow→ e intent action p cs h).1))
