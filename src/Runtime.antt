-- ===== src/Runtime.antt =====
-- crates/runtime: the workflow engine, the saga orchestrator, the file locks and the permissions of tools.
pub mod Workflow
pub mod Saga
pub mod Locking
pub mod Permission
pub mod Truncation
