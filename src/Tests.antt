-- ===== src/Tests.antt =====
-- Concrete inputs: tests of the definitions, and the theorems at inputs that meet their hypotheses.
mod Tasks
mod Deciding
mod Flows
mod Sagas
mod Storing
mod Locks
mod Lineages
mod Permissions
mod Attempts
mod Facts
mod Lints
mod Stores
mod Conversations
mod Loops
mod Verifying
mod Outputs
