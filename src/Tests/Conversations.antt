-- ===== src/Tests/Conversations.antt =====
-- Sessions in a store, and a conversation with a model and a tool.
use ndc.Common.{
  ◌+◌, ◌≤◌, ◌≡◌, ◌≢◌, ◌⊎◌, refl, String, none, some, List, [], ◌∷◌, length, map, ok, err, Result,
  if◌then◌else◌, ltb,
}
use ndc.Common.Option
use ndc.Common.Maps.{get, insert, string_eq}
use ndc.Core.Conversation.{AgentError, AgentToolCall, Message, MessageRole, ToolCall, ToolResult}
use ndc.Core.Conversation.Helpers.{truncate_messages, truncate_for_event, compact_preview}
use ndc.Core.Conversation.Truncation.{recent, truncate_messages_lem}
use ndc.Core.Session.{AgentSession, ProjectIdentity, new_with_project_identity}
use ndc.Core.Session.Store
use ndc.Core.Session.Store.{
  SessionStore, index_session, save_session, get_or_create_session, foreign_message,
  session_snapshot, latest_session_id_for_project,
}
use ndc.Core.Session.Store.Indexed.{IsIndexed}
use ndc.Core.Session.Store.Isolation.{
  IsHanded, IsOwn, KeepsOthers, get_or_create_session_lem, Use, obtain, after, after_all,
  uses-IsIndexed,
}
use ndc.Core.Runner.{Environment, World, execute_tool_calls}
use ndc.Core.Runner.Answering.{Emitted, IsSaved, execute_tool_calls_lem}
use ndc.Core.Runner.Rounds.{run_rounds_with_context}
use ndc.Core.Runner.Rounds.Ending.{AllShort, run_rounds_with_context_ends}

abbrev project : String → ProjectIdentity
project id = record { project_id = id; project_root = "/p"; working_dir = "/p"; worktree = "/p" }

abbrev uses : List Use
uses = obtain "s1" (project "a") 5 ∷ obtain "s2" (project "b") 6 ∷ obtain "s1" (project "b") 7 ∷ []

-- The third use is refused, so the session last used in the second project is its own.
refused_use : latest_session_id_for_project "b" (after_all uses Store.new) ≡ some "s2"
unfolding after_all after get_or_create_session get insert index_session new_with_project_identity
    latest_session_id_for_project
refused_use = refl

uses-IsIndexed_example : IsIndexed (after_all uses Store.new)
uses-IsIndexed_example = uses-IsIndexed uses

get_or_create_session_lem_example :
    let st = after_all uses Store.new in
    ((st' : SessionStore) × (s : AgentSession) × (get_or_create_session "s1" (project "b") 8 st
        ≡ (st', ok s))
      × IsHanded "s1" "b" st' s
      × IsOwn "s1" (project "b") 8 st s
      × KeepsOthers "s1" st st')
    ⊎ ((s : AgentSession) × (get_or_create_session "s1" (project "b") 8 st
          ≡ (st, err (AgentError.invalid_request (foreign_message "s1" s (project "b")))))
        × (session_snapshot "s1" st ≡ some s)
        × (s.project_id ≢ "b"))
get_or_create_session_lem_example =
    get_or_create_session_lem "s1" (project "b") 8 (after_all uses Store.new) (uses-IsIndexed uses)

abbrev said : String → Message
said content = record { role = MessageRole.user; content = content; name = none; tool_calls = none }

abbrev history : List Message
history =
    record (said "rules") { role = MessageRole.system }
    ∷ said "1"
    ∷ said "2"
    ∷ said "3"
    ∷ said "4"
    ∷ []

cut_to_two :
    map (λ (m : Message). m.content) (truncate_messages 2 history)
    ≡ "rules" ∷ "[earlier conversation history omitted for context window management]" ∷ "3" ∷ "4"
      ∷ []
unfolding truncate_messages
cut_to_two = refl

truncate_messages_lem_example :
    (length (truncate_messages 2 history) ≤ 4)
    × (truncate_messages 2 (truncate_messages 2 history) ≡ truncate_messages 2 history)
    × (recent 2 (truncate_messages 2 history) ≡ recent 2 history)
truncate_messages_lem_example = truncate_messages_lem 2 history

-- Bytes are counted and characters are cut: nothing is cut here, and a notice is added.
longer_than_before : truncate_for_event " äöü " 4 ≡ "äöü..."
unfolding truncate_for_event
longer_than_before = refl

previewed : compact_preview "a\n  b\tc" 60 ≡ "a b c"
unfolding compact_preview
previewed = refl

abbrev call : String → ToolCall
call id = record { id = id; function = record { name = "shell"; arguments = "ls" } }

-- A model that calls for two tools at once, each time, and tools that want to be confirmed.
abbrev env : Environment
env = record {
  now = λ n. n;
  elapsed_ms = λ n. 1;
  complete = λ n r. ok (record (said "") { tool_calls = some (call "x" ∷ call "y" ∷ []) } ∷ []);
  execute_tool = λ n name arguments.
      err (AgentError.permission_denied "requires_confirmation permission=shell");
  confirm_and_retry_permission = λ n name arguments message.
      if ltb n 12 then ok (some "done") else err (AgentError.permission_denied "no");
  tool_schemas = [];
  default_model = "m";
  max_tool_calls = 3;
}

abbrev world : World
world = record {
  ticks = 0;
  session = new_with_project_identity "s" (project "a") 0;
  events = [];
  broadcast = [];
  store = Store.new;
  requests = [];
}

abbrev call_ids : World × Result AgentError (String × List AgentToolCall) → List String
call_ids (w, ok (content, calls)) = map (λ (c : AgentToolCall). c.id) calls
call_ids (w, err e) = []

-- Two turns with two calls each, although three calls are allowed.
four_calls :
    Option.map call_ids (run_rounds_with_context env history "context" 0 world)
    ≡ some ("x" ∷ "y" ∷ "x" ∷ "y" ∷ [])
unfolding run_rounds_with_context
four_calls = refl

execute_tool_calls_lem_example :
    let r = execute_tool_calls env 1 (call "x" ∷ call "y" ∷ []) world in
    (map (λ (t : ToolResult). t.tool_call_id) r.1
      ≡ map (λ (c : ToolCall). c.id) (call "x" ∷ call "y" ∷ []))
    × Emitted world r.0
    × IsSaved r.0
execute_tool_calls_lem_example = execute_tool_calls_lem env 1 (call "x") (call "y" ∷ []) world

run_rounds_with_context_ends_example :
    (w' : World) × (result : Result AgentError (String × List AgentToolCall))
    × (run_rounds_with_context env history "context" 0 world ≡ some (w', result))
    × (length w'.requests ≤ 0 + 3)
    × AllShort w'.requests
run_rounds_with_context_ends_example = run_rounds_with_context_ends env history "context" 0 world tt
