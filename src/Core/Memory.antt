-- ===== src/Core/Memory.antt =====
-- crates/core/src/memory.rs: the stability of a memory and who may read and write it.
pub mod Access
use ndc.Common.{ℕ, Bool, ◌||◌, Option, none, List, [], ◌∷◌, member}
use ndc.Core.Agent.{
  AgentId, AgentRole, role_eq, planner, implementer, reviewer, tester, historian, admin, any,
}
use ndc.Core.TaskState.{Timestamp}

pub data MemoryStability : Type 0 where
  ephemeral derived verified canonical : MemoryStability

-- The discriminants, by which the derived order compares.
abbrev pub rank : MemoryStability → ℕ
rank ephemeral = 0
rank derived = 1
rank verified = 2
rank canonical = 3

-- A set of roles is a list of them.
pub record AccessControl : Type 0 where
  pub owner : AgentId
  pub read_roles : List AgentRole
  pub write_roles : List AgentRole
  pub created_at : Timestamp
  pub modified_at : Option Timestamp

write_roles_for : MemoryStability → List AgentRole
write_roles_for ephemeral = implementer ∷ historian ∷ admin ∷ []
write_roles_for derived = historian ∷ admin ∷ []
write_roles_for verified = historian ∷ admin ∷ []
write_roles_for canonical = admin ∷ []

unfoldable pub new : AgentId → MemoryStability → Timestamp → AccessControl
unfolding write_roles_for
new owner stability now = record {
  owner = owner;
  read_roles = planner ∷ implementer ∷ reviewer ∷ tester ∷ historian ∷ admin ∷ [];
  write_roles = write_roles_for stability;
  created_at = now;
  modified_at = none;
}

unfoldable pub allow_read : AgentRole → AccessControl → Bool
allow_read role a = member role_eq a.read_roles role || member role_eq a.read_roles any

unfoldable pub allow_write : AgentRole → AccessControl → Bool
allow_write role a = member role_eq a.write_roles role
