-- ===== src/Tests/Tasks.antt =====
-- Tasks and memories at concrete inputs.
use mathlib.Core.List.{Memᴰ}
use ndc.Common.Option
use ndc.Common.{
  true, false, ◌≡◌, ◌↔◌, ◌⊎◌, refl, none, some, List, [], ◌∷◌, inl, err, is_ok, member,
}
use ndc.Core.Intent.{read_file, Intent, Verdict, elevated}
use ndc.Core.Agent
use ndc.Core.Agent.{Agent, with_capabilities, implementer, historian, tester, system, for_role}
use ndc.Core.Memory
use ndc.Core.Memory.{MemoryStability, ephemeral, verified, canonical, rank, allow_read, allow_write}
use ndc.Core.Memory.Access.{write_tables_compared}
use ndc.Core.Task
use ndc.Core.Task.{
  Task, from_intent_and_verdict, request_transition, mark_completed, mark_cancelled,
  mark_in_progress, new_todo, not_allowed, transitions_from, has_tags, capture_worktree_snapshot,
  latest_worktree_snapshot,
}
use ndc.Core.Task.Transitions.{request_transition_lem}
use ndc.Core.Task.Lifecycle.{
  Call, request, complete, cancel, start, run, apply, simple, capture_lightweight, IsLost, IsKept,
  final_absorbs, failed-IsLost,
}
use ndc.Core.Task.Verification.{request_all, needs_verification}
use ndc.Core.TaskParts.{GitWorktreeSnapshot}
use ndc.Core.TaskState.{
  TaskState, Timestamp, state_eq, pending, preparing, in_progress, awaiting_verification, completed,
  failed,
}

abbrev chore : Task
chore = Task.new 7 100 100 "Chore" "Sweep" implementer

abbrev proposal : Intent
proposal = record {
  id = 1;
  agent = 3;
  agent_role = implementer;
  proposed_action = read_file "a.rs";
  effects = [];
  reasoning = "";
  task_id = none;
  timestamp = 99;
}

abbrev consent : Verdict
consent = Verdict.allow (read_file "a.rs") elevated []

abbrev note : Task
note = new_todo 8 100 101 "Note" "Write" "ndc" "s1"

request_transition_lem_example :
    ((is_ok (request_transition 105 preparing chore).1 ≡ true)
      ↔ (member state_eq chore.allowed_transitions preparing ≡ true))
    × ((is_ok (request_transition 105 preparing chore).1 ≡ true)
        → ((request_transition 105 preparing chore).0.state ≡ preparing)
          × ((request_transition 105 preparing chore).0.allowed_transitions
              ≡ transitions_from preparing)
          × ((request_transition 105 preparing chore).0.metadata.updated_at ≡ 105))
    × ((is_ok (request_transition 105 preparing chore).1 ≡ false)
        → request_transition 105 preparing chore ≡ (chore, err (not_allowed chore.state preparing)))
request_transition_lem_example = request_transition_lem 105 preparing chore

refused_request : (request_transition 105 completed chore).1 ≡ err (not_allowed pending completed)
unfolding request_transition Task.new
refused_request = refl

abbrev finishing : List (Timestamp × Call)
finishing = (101, start) ∷ (102, complete) ∷ []

abbrev afterwards : List (Timestamp × Call)
afterwards =
    (103, cancel)
    ∷ (104, request pending)
    ∷ (105, capture_lightweight 4 ("a.rs" ∷ []) "c0ffee")
    ∷ (106, start)
    ∷ []

finishing_completes : (run finishing chore).state ≡ completed
unfolding run apply mark_completed mark_in_progress Task.new
finishing_completes = refl

final_absorbs_example : IsKept (run finishing chore) (run afterwards (run finishing chore))
final_absorbs_example =
    final_absorbs finishing afterwards (simple 7 100 100 "Chore" "Sweep" implementer)
      (inl finishing_completes)

abbrev failing : List (Timestamp × Call)
failing = (101, start) ∷ (102, request awaiting_verification) ∷ (103, request failed) ∷ []

failing_fails : (run failing chore).state ≡ failed
unfolding run apply request_transition mark_in_progress Task.new
failing_fails = refl

failed-IsLost_example : IsLost (run afterwards (run failing chore)).state
failed-IsLost_example =
    failed-IsLost failing afterwards (simple 7 100 100 "Chore" "Sweep" implementer) failing_fails

abbrev whole_way : List TaskState
whole_way = preparing ∷ in_progress ∷ awaiting_verification ∷ completed ∷ []

needs_verification_example : Memᴰ awaiting_verification whole_way
unfolding request_all request_transition Task.new
needs_verification_example = needs_verification 101 whole_way chore refl refl refl

-- A proposal that was allowed becomes a task that is prepared next.
proposal_starts :
    (request_transition 101 preparing (from_intent_and_verdict 9 100 proposal consent)).0.state
    ≡ preparing
unfolding request_transition from_intent_and_verdict
proposal_starts = refl

abbrev agent : Agent
agent = with_capabilities (Agent.new 3 implementer "Ada") ("edit" ∷ [])

agent_capabilities : agent.capabilities ≡ "edit" ∷ []
unfolding with_capabilities Agent.new
agent_capabilities = refl

snapshot_of_edit :
    Option.map
      (λ (s : GitWorktreeSnapshot). s.operation_summary)
      (latest_worktree_snapshot
        (capture_worktree_snapshot 3 110 "/wt" "abc" "task-7" ("a.rs" ∷ []) "edit" chore))
    ≡ some "edit"
unfolding latest_worktree_snapshot capture_worktree_snapshot Task.new
snapshot_of_edit = refl

note_tags : has_tags ("todo" ∷ "session:s1" ∷ []) note ≡ true
unfolding has_tags new_todo
note_tags = refl

write_tables_compared_example :
    (((allow_write tester (Memory.new 1 ephemeral 5) ≡ true)
        × ((for_role tester).can_write_memory ≡ false))
      ↔ ((tester ≡ implementer) × (ephemeral ≡ ephemeral)))
    × (((for_role tester).can_write_memory ≡ true)
          × (allow_write tester (Memory.new 1 ephemeral 5) ≡ false)
        ↔ ((tester ≡ tester)
            ⊎ (tester ≡ system)
            ⊎ ((tester ≡ historian) × (ephemeral ≡ canonical))))
write_tables_compared_example = write_tables_compared 1 5 tester ephemeral
