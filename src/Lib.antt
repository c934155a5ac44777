-- ===== src/Lib.antt =====
-- ndc, an assistant that carries out development tasks: the parts of it that decide, keep state
-- and recover from failure.
--
-- An agent proposes an intent. The decision engine (crates/decision) runs its validators over it
-- and compares the privilege of the agent's role with what the action requires; the verdict
-- becomes part of a task (crates/core), a state machine that is moved either by the task's own
-- methods or by the workflow engine (crates/runtime), each with a table of its own. Steps that
-- must be undone together run as a saga, and tools that touch a file ask for permission and take
-- a lock on it first. A conversation (crates/core) asks a language model, runs the tools that it
-- calls for and records what happens in a session; a request that is taken apart into subtasks is
-- checked by a lint; tasks and memories are kept in a storage (crates/storage).
--
-- Which file models what:
--   Core/Agent          crates/core/src/agent.rs: roles and their permissions
--   Core/TaskState      crates/core/src/task.rs: TaskState, the types of identifiers and times
--   Core/TaskParts      crates/core/src/task.rs: what a task holds
--   Core/Intent         crates/core/src/intent.rs: intents, actions, verdicts
--   Core/Task           crates/core/src/task.rs: Task and its methods
--   Core/Memory         crates/core/src/memory.rs: MemoryStability and AccessControl
--   Core/Lineage        crates/core/src/todo/lineage.rs: parents, depth and inherited invariants
--   Core/WorkingMemory  crates/core/src/memory/working_memory.rs: an agent's memory of its attempts
--   Core/Invariants     crates/core/src/memory/invariant.rs: GoldInvariant
--   Core/GoldMemory     crates/core/src/memory/invariant.rs: GoldMemory and GoldMemoryService
--   Core/Decomposition  crates/core/src/llm/decomposition/lint.rs: tasks taken apart into subtasks
--   Core/CycleSearch    the same file: CyclicDependencyRule and its search
--   Core/Lint           the same file: the other rules and DecompositionLint
--   Core/MemoryEntry    crates/core/src/memory.rs: the entry of a memory
--   Core/Session        crates/core/src/ai_agent/session.rs: AgentSession and SessionManager
--   Core/Session/Store  crates/core/src/ai_agent/session_store.rs: SessionStore
--   Core/Conversation   crates/core/src/ai_agent/mod.rs and crates/core/src/llm/provider/mod.rs:
--                       messages, errors and events; Helpers below it is ai_agent/helpers.rs
--   Core/Runner         crates/core/src/ai_agent/conversation_runner.rs: the execution of tools, and
--                       run_rounds_with_context in Runner/Rounds, run_main_loop in Runner/MainLoop
--   Core/Verifier       crates/core/src/ai_agent/verifier.rs: verify_completion and its results
--   Decision/Engine     crates/decision/src/engine.rs: BasicDecisionEngine
--   Decision/Validators crates/decision/src/validators.rs: the built-in validators
--   Runtime/Workflow    crates/runtime/src/workflow.rs: WorkflowEngine
--   Runtime/Saga        crates/runtime/src/workflow.rs: SagaOrchestrator, its loops in Saga/Loops,
--                       execute_saga and compensate_saga in Saga/Execution, MemorySagaStorage in
--                       Saga/Storage
--   Runtime/Locking     crates/runtime/src/tools/locking.rs: FileLockManager
--   Runtime/Permission  crates/runtime/src/tools/permission.rs: PermissionSystem
--   Runtime/Truncation  crates/runtime/src/tools/output_truncation.rs: truncate, read_partial_output
--   Storage             crates/storage/src/memory.rs: MemoryStorage; Storage/Queue is the
--                       contract that it refines
-- The modules below these hold the proofs, Common what they share, Tests runs at concrete inputs.
--
-- How the code is rendered. A method that mutates its object returns the new object beside its
-- result. A clock, an identifier that the code draws at random and an answer of the file system
-- are arguments. Times are numbers, and so are uuids and ulids; paths and JSON values are texts.
-- A HashMap is an association list with one entry for a key, its order standing for the order of
-- iteration. The lower-casing of texts is a parameter, and so are SHA-256, the `{:?}` of a path
-- and, in Core/GoldMemory, the trimming of texts and the test for a token of a text. Listeners
-- are known by numbers. What runs a saga's actions is an Environment whose answers may depend on
-- everything that was done before; calls and saves are recorded in a World, and what a storage
-- answers to a save has no effect, as in the code. Locks on the shared maps are left out, each
-- method being one step; what other holders do to the lock manager between the rounds of
-- acquire_lock is an argument of each round.
--
-- Loops are structural recursion. That of acquire_lock, which waits, runs over a list of rounds;
-- a round sleeps 50 ms and the loop leaves at its deadline, so one round more than a fiftieth of
-- the timeout is enough. The fields that are u8, u32 or u64 in the source are numbers; the u8
-- counter of attempts in Core/WorkingMemory wraps at 256, and the u32 depth in Core/Lineage and
-- counters in Core/Invariants at 2 ^ 32, as the release build has it.
--
-- The search for cycles recurses on fuel, the number of nodes, and the loop of a conversation
-- runs on fuel, one turn more than calls of tools are allowed. The fuel of run_main_loop is an
-- argument. The sets of the search are lists without repetition, and the order in which the nodes are
-- visited is an argument. The language model, the tools,
-- the confirmation of a permission and the clocks of a conversation are an Environment, which
-- answers by the number of the call; the requests are recorded in a World. An f32 is its bit
-- pattern.
--
-- A loop that reads the clock for every element has one reading.
--
-- Not modelled: EditToolWithLocking, the text that a working memory gives a language model, the
-- builder of a PermissionSystem, the summaries of GoldMemory and its validate_action, which
-- always passes, the loop of a conversation that is driven by todos (run_main_loop goes over to it
-- where the workflow of todos is on, and is modelled up to there), the feedback of a
-- verification into the gold memory (to a conversation, verdicts are arbitrary),
-- ProjectIdentity::detect, log output, and the other parts of the repository, among them the
-- writing of long outputs to files, the mapping of intents to todos, the discovery of constraints,
-- the parsing of shell commands, the interfaces, and the SQLite store and language-model clients,
-- which are input and output.
pub mod Common
pub mod Core
pub mod Decision
pub mod Runtime
pub mod Storage
pub mod Tests
