-- ===== src/Core/Session/Store.antt =====
-- crates/core/src/ai_agent/session_store.rs: `SessionStore`. The order of `max_by` and `sort_by` between
-- sessions that started at one time is the order of the entries.
pub mod Indexed
pub mod Isolation
use Prim.Native.String.{◌++◌, compare}
use Prim.Native.Nat.{◌-◌, Ordering}
use ndc.Common.{
  ℕ, suc, zero, String, Bool, true, false, not, Option, none, some, List, [], ◌∷◌, ltb, leb, push,
  if◌then◌else◌, map, member, retain, length, Result, ok, err,
}
use ndc.Common.Option
use ndc.Common.Maps.{get, insert, string_eq}
use ndc.Common.Text.{str_eq}
use ndc.Core.Conversation.{AgentError, AgentExecutionEvent}
use ndc.Core.Session.{AgentSession, ProjectIdentity, new_with_project_identity}
use ndc.Core.TaskState.{Timestamp}

pub record SessionStore : Type 0 where
  pub sessions : List (String × AgentSession)
  pub project_sessions : List (String × List String)
  pub project_last_root : List (String × String)

abbrev pub new : SessionStore
new = record { sessions = []; project_sessions = []; project_last_root = [] }

-- The entries of a project with an id among them.
abbrev pub with_id : String → List String → List String
with_id id ids = if member str_eq ids id then ids else push ids id

unfoldable pub index_session : AgentSession → SessionStore → SessionStore
unfolding get insert
index_session s st = record st {
  project_sessions =
      insert s.project_id (with_id s.id (Option.get_or (get s.project_id st.project_sessions) []))
        st.project_sessions;
  project_last_root = insert s.project_id s.id st.project_last_root;
}

unfoldable pub save_session : AgentSession → SessionStore → SessionStore
unfolding insert index_session
save_session s st = index_session s (record st { sessions = insert s.id s st.sessions })

abbrev pub foreign_message : String → AgentSession → ProjectIdentity → String
foreign_message id existing identity =
    "session '" ++ id ++ "' belongs to project '" ++ existing.project_id
    ++ "', current project is '" ++ identity.project_id
    ++ "'; cross-project session continuation is denied by default"

unfoldable pub get_or_create_session :
    String
    → ProjectIdentity
    → Timestamp
    → SessionStore
    → SessionStore × Result AgentError AgentSession
unfolding get insert index_session new_with_project_identity
get_or_create_session id identity now st =
    let session = new_with_project_identity id identity now in
    elim (get id st.sessions) [
      | none ↦ (
        index_session session (record st { sessions = insert id session st.sessions }),
        ok session,
      )
      | some existing ↦
          if not (str_eq existing.project_id identity.project_id)
          then (st, err (AgentError.invalid_request (foreign_message id existing identity)))
          else (index_session existing st, ok existing)
    ]

unfoldable pub session_snapshot : String → SessionStore → Option AgentSession
unfolding get
session_snapshot id st = get id st.sessions

-- The sessions of a project.
abbrev pub of_project : String → List (String × AgentSession) → List AgentSession
of_project project m =
    retain (λ (s : AgentSession). str_eq s.project_id project)
      (map (λ (e : String × AgentSession). e.1) m)

-- `max_by` keeps the last of the greatest.
abbrev latest_of : AgentSession → List AgentSession → AgentSession
latest_of best [] = best
latest_of best (s ∷ ss) = latest_of (if leb best.started_at s.started_at then s else best) ss

abbrev latest : List AgentSession → Option AgentSession
latest [] = none
latest (s ∷ ss) = some (latest_of s ss)

unfoldable pub latest_session_id_for_project : String → SessionStore → Option String
unfolding get
latest_session_id_for_project project st = elim (get project st.project_last_root) [
  | some id ↦ some id
  | none ↦ Option.map (λ (s : AgentSession). s.id) (latest (of_project project st.sessions))
]

abbrev pub identity_of : AgentSession → ProjectIdentity
identity_of s = record {
  project_id = s.project_id;
  project_root = s.project_root;
  working_dir = s.working_dir;
  worktree = s.worktree;
}

unfoldable pub session_project_identity : String → SessionStore → Option ProjectIdentity
unfolding get
session_project_identity id st = Option.map identity_of (get id st.sessions)

-- `insert` into a `BTreeSet`, which is an ascending list.
abbrev insert_sorted : String → List String → List String
insert_sorted x [] = x ∷ []
insert_sorted x (y ∷ ys) =
    let rest = insert_sorted x ys in
    elim (compare x y) [ Ordering.lt ↦ x ∷ y ∷ ys | Ordering.eq ↦ y ∷ ys | Ordering.gt ↦ y ∷ rest ]

abbrev project_set : List (String × AgentSession) → List String
project_set [] = []
project_set ((id, s) ∷ m) = insert_sorted s.project_id (project_set m)

unfoldable pub known_project_ids : SessionStore → List String
known_project_ids st = project_set st.sessions

-- The stable sort by the start, the latest first.
abbrev place : AgentSession → List AgentSession → List AgentSession
place s [] = s ∷ []
place s (t ∷ ts) =
    let rest = place s ts in if ltb s.started_at t.started_at then t ∷ rest else s ∷ t ∷ ts

abbrev by_start : List AgentSession → List AgentSession
by_start [] = []
by_start (s ∷ ss) = place s (by_start ss)

-- `v.truncate(n)`.
abbrev truncate {ℓ} : {A : Type ℓ} → ℕ → List A → List A
truncate zero xs = []
truncate (suc n) [] = []
truncate (suc n) (x ∷ xs) = x ∷ truncate n xs

unfoldable pub session_ids_for_project : String → Option ℕ → SessionStore → List String
session_ids_for_project project limit st =
    let entries = by_start (of_project project st.sessions) in
    map (λ (s : AgentSession). s.id) (elim limit [ none ↦ entries | some n ↦ truncate n entries ])

-- `v[n..].to_vec()`.
abbrev pub skip {ℓ} : {A : Type ℓ} → ℕ → List A → List A
skip zero xs = xs
skip (suc n) [] = []
skip (suc n) (x ∷ xs) = skip n xs

unfoldable pub get_session_execution_events :
    String → Option ℕ → SessionStore → Result AgentError (List AgentExecutionEvent)
unfolding get
get_session_execution_events id limit st = elim (get id st.sessions) [
  | none ↦ err (AgentError.session_not_found ("Session '" ++ id ++ "' not found"))
  | some s ↦
      let events = s.execution_events in
      ok (skip (length events - Option.get_or limit (length events)) events)
]

unfoldable pub hydrate_sessions : List AgentSession → SessionStore → SessionStore
unfolding save_session index_session insert
hydrate_sessions [] st = st
hydrate_sessions (s ∷ ss) st =
    hydrate_sessions ss (index_session s (record st { sessions = insert s.id s st.sessions }))
