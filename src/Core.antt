-- ===== src/Core.antt =====
-- crates/core: the data model.
pub mod Agent
pub mod TaskState
pub mod Intent
pub mod TaskParts
pub mod Task
pub mod Memory
pub mod MemoryEntry
pub mod Lineage
pub mod WorkingMemory
pub mod Invariants
pub mod GoldMemory
pub mod Conversation
pub mod Session
pub mod Verifier
pub mod Runner
pub mod Decomposition
pub mod CycleSearch
pub mod Lint
