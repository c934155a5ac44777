-- ===== src/Core/Agent.antt =====
-- crates/core/src/agent.rs: agents, their roles, and the permission set of each role.
use ndc.Common.{ℕ, String, Bool, true, false, List, [], ◌==◌, ◌≡◌, ◌↔◌, arith}

-- A uuid, as the number that it is; the nil uuid is 0.
abbrev pub AgentId : Type 0
AgentId = ℕ

abbrev pub system_agent : AgentId
system_agent = 0

pub data AgentRole : Type 0 where
  planner implementer reviewer tester historian admin any system : AgentRole

-- The position of a role in the declaration.
abbrev role_index : AgentRole → ℕ
role_index planner = 0
role_index implementer = 1
role_index reviewer = 2
role_index tester = 3
role_index historian = 4
role_index admin = 5
role_index any = 6
role_index system = 7

-- The derived `==`.
abbrev pub role_eq : AgentRole → AgentRole → Bool
role_eq a b = role_index a == role_index b

pub role_eq_iff : (a b : AgentRole) → (role_eq a b ≡ true) ↔ (a ≡ b)
role_eq_iff a b = ground arith

abbrev pub default_role : AgentRole
default_role = planner

pub record Agent : Type 0 where
  pub id : AgentId
  pub role : AgentRole
  pub name : String
  pub capabilities : List String

unfoldable pub new : AgentId → AgentRole → String → Agent
new id role name = record { id = id; role = role; name = name; capabilities = [] }

unfoldable pub with_capabilities : Agent → List String → Agent
with_capabilities a capabilities = record a { capabilities = capabilities }

pub record Permissions : Type 0 where
  pub can_read_files : Bool
  pub can_write_files : Bool
  pub can_delete_files : Bool
  pub can_run_commands : Bool
  pub can_read_memory : Bool
  pub can_write_memory : Bool
  pub can_modify_task_state : Bool
  pub can_request_human : Bool

unfoldable pub for_role : AgentRole → Permissions
for_role planner = record {
  can_read_files = true;
  can_write_files = false;
  can_delete_files = false;
  can_run_commands = false;
  can_read_memory = true;
  can_write_memory = false;
  can_modify_task_state = true;
  can_request_human = true;
}
for_role implementer = record {
  can_read_files = true;
  can_write_files = true;
  can_delete_files = false;
  can_run_commands = true;
  can_read_memory = true;
  can_write_memory = false;
  can_modify_task_state = false;
  can_request_human = true;
}
for_role reviewer = record {
  can_read_files = true;
  can_write_files = false;
  can_delete_files = false;
  can_run_commands = true;
  can_read_memory = true;
  can_write_memory = false;
  can_modify_task_state = true;
  can_request_human = true;
}
for_role tester = record {
  can_read_files = true;
  can_write_files = false;
  can_delete_files = false;
  can_run_commands = true;
  can_read_memory = true;
  can_write_memory = true;
  can_modify_task_state = true;
  can_request_human = true;
}
for_role historian = record {
  can_read_files = true;
  can_write_files = false;
  can_delete_files = false;
  can_run_commands = false;
  can_read_memory = true;
  can_write_memory = true;
  can_modify_task_state = false;
  can_request_human = false;
}
for_role admin = record {
  can_read_files = true;
  can_write_files = true;
  can_delete_files = true;
  can_run_commands = true;
  can_read_memory = true;
  can_write_memory = true;
  can_modify_task_state = true;
  can_request_human = true;
}
for_role any = record {
  can_read_files = false;
  can_write_files = false;
  can_delete_files = false;
  can_run_commands = false;
  can_read_memory = true;
  can_write_memory = false;
  can_modify_task_state = false;
  can_request_human = false;
}
for_role system = record {
  can_read_files = true;
  can_write_files = true;
  can_delete_files = true;
  can_run_commands = true;
  can_read_memory = true;
  can_write_memory = true;
  can_modify_task_state = true;
  can_request_human = false;
}
