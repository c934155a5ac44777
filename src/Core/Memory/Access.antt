-- ===== src/Core/Memory/Access.antt =====
-- crates/core/src/memory.rs and agent.rs: the access rules of memories against the permissions of
-- roles.
use ndc.Common.{◌≡◌, true, false, ◌≤◌, ◌⊎◌, ◌↔◌, arith}
use ndc.Core.Agent.{AgentId, AgentRole, for_role, implementer, tester, historian, system}
use ndc.Core.Memory.{MemoryStability, rank, new, allow_read, allow_write, ephemeral, canonical}
use ndc.Core.TaskState.{Timestamp}

-- Whoever may write a memory of some stability may also read it, may write every memory that is
-- less stable, and has the permission to read memories.
allow_write_lem :
    (owner : AgentId) (now : Timestamp) (role : AgentRole) (s s' : MemoryStability)
    → rank s' ≤ rank s
    → allow_write role (new owner s now) ≡ true
    → (allow_read role (new owner s now) ≡ true)
      × (allow_write role (new owner s' now) ≡ true)
      × ((for_role role).can_read_memory ≡ true)
unfolding new allow_read allow_write for_role
allow_write_lem owner now role s s' h w = ground arith

-- The two tables on writing, compared for each role and each stability. The access rules let a role
-- write that lacks the permission to write memories exactly for Implementer and an Ephemeral memory; a
-- role with that permission may not write by the access rules exactly for Tester and System, whatever
-- the memory, and for Historian and a Canonical one. Everywhere else both tables say the same.
pub write_tables_compared :
    (owner : AgentId) (now : Timestamp) (role : AgentRole) (s : MemoryStability)
    → (((allow_write role (new owner s now) ≡ true) × ((for_role role).can_write_memory ≡ false))
        ↔ ((role ≡ implementer) × (s ≡ ephemeral)))
      × (((for_role role).can_write_memory ≡ true) × (allow_write role (new owner s now) ≡ false)
          ↔ ((role ≡ tester) ⊎ (role ≡ system) ⊎ ((role ≡ historian) × (s ≡ canonical))))
unfolding new allow_write for_role
write_tables_compared owner now role s = ground arith
