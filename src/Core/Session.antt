-- ===== src/Core/Session.antt =====
-- crates/core/src/ai_agent/session.rs: the session of an agent, and the manager of sessions. The identity
-- that `ProjectIdentity::detect` reads from the file system, the new ids and the clock are arguments.
pub mod Store
use Prim.Native.Nat.{◌-◌, ◌/◌}
use ndc.Common.{
  ℕ, suc, String, Bool, true, false, not, Option, none, some, List, [], ◌∷◌, ◌+◌, ◌++◌, leb, push,
  if◌then◌else◌, extend, map,
}
use ndc.Common.Option
use ndc.Common.Maps.{get, insert, remove, string_eq}
use ndc.Core.Conversation.{MessageRole, AgentToolCall, AgentExecutionEvent}
use ndc.Core.Intent.{FilePath}
use ndc.Core.TaskState.{TaskId, Timestamp}

pub record ProjectIdentity : Type 0 where
  pub project_id : String
  pub project_root : FilePath
  pub working_dir : FilePath
  pub worktree : FilePath

pub data SessionState : Type 0 where
  idle thinking waiting_for_permission executing verifying completed error : SessionState

pub record AgentMessage : Type 0 where
  pub role : MessageRole
  pub content : String
  pub timestamp : Timestamp
  pub tool_calls : Option (List AgentToolCall)
  pub tool_results : Option (List String)
  pub tool_call_id : Option String

pub record AgentSession : Type 0 where
  pub id : String
  pub started_at : Timestamp
  pub messages : List AgentMessage
  pub active_tasks : List TaskId
  pub tool_calls : List (String × ℕ)
  pub execution_events : List AgentExecutionEvent
  pub state : SessionState
  pub user_metadata : List (String × String)
  pub project_id : String
  pub project_root : FilePath
  pub working_dir : FilePath
  pub worktree : FilePath

unfoldable pub new_with_project_identity : String → ProjectIdentity → Timestamp → AgentSession
new_with_project_identity id identity now = record {
  id = id;
  started_at = now;
  messages = [];
  active_tasks = [];
  tool_calls = [];
  execution_events = [];
  state = idle;
  user_metadata = [];
  project_id = identity.project_id;
  project_root = identity.project_root;
  working_dir = identity.working_dir;
  worktree = identity.worktree;
}

unfoldable pub merge_project_identity : ProjectIdentity → AgentSession → AgentSession
merge_project_identity identity s = record s {
  project_id = identity.project_id;
  project_root = identity.project_root;
  working_dir = identity.working_dir;
  worktree = identity.worktree;
}

abbrev pub add_message : AgentMessage → AgentSession → AgentSession
add_message message s = record s { messages = push s.messages message }

unfoldable pub record_tool_call : String → AgentSession → AgentSession
unfolding get insert
record_tool_call name s = record s {
  tool_calls = insert name (Option.get_or (get name s.tool_calls) 0 + 1) s.tool_calls;
}

abbrev pub add_execution_event : AgentExecutionEvent → AgentSession → AgentSession
add_execution_event event s = record s { execution_events = push s.execution_events event }

abbrev pub add_execution_events : List AgentExecutionEvent → AgentSession → AgentSession
add_execution_events events s = record s { execution_events = extend s.execution_events events }

abbrev pub add_active_task : TaskId → AgentSession → AgentSession
add_active_task id s = record s { active_tasks = push s.active_tasks id }

abbrev pub set_state : SessionState → AgentSession → AgentSession
set_state state s = record s { state = state }

-- The clock counts milliseconds and is never before the start of a session.
unfoldable pub is_expired : Timestamp → ℕ → AgentSession → Bool
is_expired now timeout_secs s = leb timeout_secs ((now - s.started_at) / 1000)

pub record SessionManager : Type 0 where
  pub sessions : List (String × AgentSession)
  pub default_timeout_secs : ℕ

abbrev pub new_manager : SessionManager
new_manager = record { sessions = []; default_timeout_secs = 3600 }

unfoldable pub create_session_with_project_identity :
    String → ProjectIdentity → Timestamp → SessionManager → SessionManager × AgentSession
unfolding insert new_with_project_identity
create_session_with_project_identity id identity now m =
    let session = new_with_project_identity id identity now in
    (record m { sessions = insert id session m.sessions }, session)

unfoldable pub get_session : String → SessionManager → Option AgentSession
unfolding get
get_session id m = get id m.sessions

abbrev pub expired_ids : Timestamp → ℕ → List (String × AgentSession) → List String
expired_ids now timeout [] = []
expired_ids now timeout ((id, s) ∷ m) =
    let rest = expired_ids now timeout m in if is_expired now timeout s then id ∷ rest else rest

abbrev pub remove_ids : List String → List (String × AgentSession) → List (String × AgentSession)
remove_ids [] m = m
remove_ids (id ∷ ids) m = remove_ids ids (remove id m)

unfoldable pub cleanup_expired : Timestamp → SessionManager → SessionManager
unfolding remove is_expired
cleanup_expired now m = record m {
  sessions = remove_ids (expired_ids now m.default_timeout_secs m.sessions) m.sessions;
}

unfoldable pub remove_session : String → SessionManager → SessionManager × Option AgentSession
unfolding get remove
remove_session id m = (record m { sessions = remove id m.sessions }, get id m.sessions)
