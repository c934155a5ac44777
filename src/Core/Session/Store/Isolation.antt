-- ===== src/Core/Session/Store/Isolation.antt =====
-- crates/core/src/ai_agent/session_store.rs: sessions and the projects that they belong to.
use mathlib.Core.Path.{subst}
use text.Mathlib.TextEquality.{eq_iff}
use ndc.Common.{
  String, true, false, ◌≡◌, ◌≢◌, ◌⊎◌, refl, sym, ap, ◌∙◌, none, some, List, [], ◌∷◌, arith,
  Bool-cases, Option-cases, inl, inr, ok, err,
}
use ndc.Common.Maps.{get, insert, string_eq, get-insert_self, get-insert_ne}
use ndc.Common.Text.{str_eq}
use ndc.Core.Conversation.{AgentError}
use ndc.Core.Session.{AgentSession, ProjectIdentity, new_with_project_identity}
use ndc.Core.Session.Store.{
  SessionStore, index_session, foreign_message, save_session, get_or_create_session,
  session_snapshot, latest_session_id_for_project, hydrate_sessions, new,
}
use ndc.Core.Session.Store.Indexed.{
  IsIndexed, index_session-IsIndexed, save_session-IsIndexed, hydrate_sessions-IsIndexed,
}
use ndc.Core.TaskState.{Timestamp}

get_or_create-new :
    (id : String) (identity : ProjectIdentity) (now : Timestamp) (st : SessionStore)
    → get id st.sessions ≡ none
    → let s = new_with_project_identity id identity now in
      get_or_create_session id identity now st ≡ (save_session s st, ok s)
unfolding get_or_create_session save_session new_with_project_identity
get_or_create-new id identity now st h = ground (arith, h)

get_or_create-foreign :
    (id : String) (identity : ProjectIdentity) (now : Timestamp) (st : SessionStore)
    (s : AgentSession)
    → get id st.sessions ≡ some s
    → str_eq s.project_id identity.project_id ≡ false
    → get_or_create_session id identity now st
      ≡ (st, err (AgentError.invalid_request (foreign_message id s identity)))
unfolding get_or_create_session
get_or_create-foreign id identity now st s h n = ground (arith, h)

get_or_create-known :
    (id : String) (identity : ProjectIdentity) (now : Timestamp) (st : SessionStore)
    (s : AgentSession)
    → get id st.sessions ≡ some s
    → str_eq s.project_id identity.project_id ≡ true
    → get_or_create_session id identity now st ≡ (index_session s st, ok s)
unfolding get_or_create_session
get_or_create-known id identity now st s h e = ground (arith, h)

-- What a caller is handed: a session under the id it asked for, of its own project, that is stored and
-- is now the project's latest.
abbrev pub IsHanded : String → String → SessionStore → AgentSession → Type 0
IsHanded id project st s =
    (s.id ≡ id)
    × (s.project_id ≡ project)
    × (session_snapshot id st ≡ some s)
    × (latest_session_id_for_project project st ≡ some id)

index_session-latest :
    (s : AgentSession) (st : SessionStore)
    → latest_session_id_for_project s.project_id (index_session s st) ≡ some s.id
unfolding latest_session_id_for_project index_session
index_session-latest s st = ground (arith, get-insert_self s.project_id s.id st.project_last_root)

known-IsHanded :
    (id project : String) (st : SessionStore) (s : AgentSession)
    → s.id ≡ id
    → s.project_id ≡ project
    → get id st.sessions ≡ some s
    → IsHanded id project (index_session s st) s
unfolding session_snapshot index_session
known-IsHanded id project st s keyed same h =
    let now = index_session-latest s st in
    (
      keyed,
      same,
      h,
      ap (λ p. latest_session_id_for_project p (index_session s st)) (sym same)
          ∙ now
          ∙ ap some keyed,
    )

new-IsHanded :
    (id : String) (identity : ProjectIdentity) (now : Timestamp) (st : SessionStore)
    → let s = new_with_project_identity id identity now in
      IsHanded id identity.project_id (save_session s st) s
unfolding session_snapshot save_session index_session new_with_project_identity
new-IsHanded id identity now st =
    let s : AgentSession = new_with_project_identity id identity now in
    let st' : SessionStore = record st { sessions = insert id s st.sessions } in
    known-IsHanded id identity.project_id st' s refl refl (get-insert_self id s st.sessions)

-- A session in which nothing has happened, that starts now in a project.
abbrev pub IsBlank : ProjectIdentity → Timestamp → AgentSession → Type 0
IsBlank identity now s =
    (s.started_at ≡ now)
    × (s.messages ≡ [])
    × (s.active_tasks ≡ [])
    × (s.tool_calls ≡ [])
    × (s.execution_events ≡ [])
    × (s.project_root ≡ identity.project_root)
    × (s.working_dir ≡ identity.working_dir)
    × (s.worktree ≡ identity.worktree)

-- The session that a store had under an id, or a blank one if it had none.
abbrev pub IsOwn : String → ProjectIdentity → Timestamp → SessionStore → AgentSession → Type 0
IsOwn id identity now st s =
    (session_snapshot id st ≡ some s) ⊎ ((session_snapshot id st ≡ none) × IsBlank identity now s)

-- The sessions under other ids are the same in both stores.
abbrev pub KeepsOthers : String → SessionStore → SessionStore → Type 0
KeepsOthers id st st' = (k : String) → k ≢ id → session_snapshot k st' ≡ session_snapshot k st

new-IsOwn :
    (id : String) (identity : ProjectIdentity) (now : Timestamp) (st : SessionStore)
    → get id st.sessions ≡ none
    → let s = new_with_project_identity id identity now in
      IsOwn id identity now st s × KeepsOthers id st (save_session s st)
unfolding session_snapshot save_session index_session new_with_project_identity
new-IsOwn id identity now st h = (
  inr (h, (refl, refl, refl, refl, refl, refl, refl, refl)),
  λ k other. get-insert_ne id k (new_with_project_identity id identity now) st.sessions other,
)

known-KeepsOthers :
    (id : String) (st : SessionStore) (s : AgentSession) → KeepsOthers id st (index_session s st)
unfolding session_snapshot index_session
known-KeepsOthers id st s k other = refl

-- Asking a store for the session with an id either hands one out or is refused with the store left as
-- it was. What is handed out is the session that was stored under the id, unchanged, or a blank one of
-- the project if there was none; it has this id and is of the project that asks, it is stored and the
-- project's latest, and the sessions under other ids stay. A refusal names the stored session, which
-- is of another project.
pub get_or_create_session_lem :
    (id : String) (identity : ProjectIdentity) (now : Timestamp) (st : SessionStore)
    → IsIndexed st
    → ((st' : SessionStore) × (s : AgentSession) × (get_or_create_session id identity now st
          ≡ (st', ok s))
        × IsHanded id identity.project_id st' s
        × IsOwn id identity now st s
        × KeepsOthers id st st')
      ⊎ ((s : AgentSession) × (get_or_create_session id identity now st
            ≡ (st, err (AgentError.invalid_request (foreign_message id s identity))))
          × (session_snapshot id st ≡ some s)
          × (s.project_id ≢ identity.project_id))
unfolding session_snapshot
get_or_create_session_lem id identity now st i = elim (Option-cases (get id st.sessions)) [
  | inl new ↦
      let s = new_with_project_identity id identity now in
      let (own, others) = new-IsOwn id identity now st new in
      inl (
        save_session s st,
        s,
        get_or_create-new id identity now st new,
        new-IsHanded id identity now st,
        own,
        others,
      )
  | inr (s, h) ↦ elim (Bool-cases (str_eq s.project_id identity.project_id)) [
    | inl e ↦
        let same = (eq_iff s.project_id identity.project_id).0 e in
        let keyed = i.keyed id s h in
        inl (
          index_session s st,
          s,
          get_or_create-known id identity now st s h e,
          known-IsHanded id identity.project_id st s keyed same h,
          inl h,
          known-KeepsOthers id st s,
        )
    | inr n ↦ inr (
      s,
      get_or_create-foreign id identity now st s h n,
      h,
      λ same. absurd (ground (arith, (eq_iff s.project_id identity.project_id).1 same)),
    )
  ]
]

pub data Use : Type 0 where
  obtain : String → ProjectIdentity → Timestamp → Use
  keep : AgentSession → Use
  hydrate : List AgentSession → Use

unfoldable pub after : Use → SessionStore → SessionStore
unfolding get_or_create_session save_session hydrate_sessions
after (obtain id identity now) st = (get_or_create_session id identity now st).0
after (keep s) st = save_session s st
after (hydrate ss) st = hydrate_sessions ss st

unfoldable pub after_all : List Use → SessionStore → SessionStore
unfolding after
after_all [] st = st
after_all (u ∷ us) st = after_all us (after u st)

obtain-IsIndexed :
    (id : String) (identity : ProjectIdentity) (now : Timestamp) (st : SessionStore)
    → IsIndexed st
    → IsIndexed (get_or_create_session id identity now st).0
obtain-IsIndexed id identity now st i = elim (Option-cases (get id st.sessions)) [
  | inl new ↦
      rw (get_or_create-new id identity now st new)
        (save_session-IsIndexed (new_with_project_identity id identity now) st i)
  | inr (s, h) ↦ elim (Bool-cases (str_eq s.project_id identity.project_id)) [
    | inl e ↦ rw (get_or_create-known id identity now st s h e) (
        index_session-IsIndexed s st
          (subst (λ k. get k st.sessions ≡ some s) (sym (i.keyed id s h)) h) i)
    | inr n ↦ rw (get_or_create-foreign id identity now st s h n) i
  ]
]

after-IsIndexed : (u : Use) (st : SessionStore) → IsIndexed st → IsIndexed (after u st)
unfolding after
after-IsIndexed (obtain id identity now) st i = obtain-IsIndexed id identity now st i
after-IsIndexed (keep s) st i = save_session-IsIndexed s st i
after-IsIndexed (hydrate ss) st i = hydrate_sessions-IsIndexed ss st i

after_all-IsIndexed :
    (us : List Use) (st : SessionStore) → IsIndexed st → IsIndexed (after_all us st)
unfolding after_all
after_all-IsIndexed [] st i = i
after_all-IsIndexed (u ∷ us) st i = after_all-IsIndexed us (after u st) (after-IsIndexed u st i)

-- However a new store was used, each session stands under its own id, and the id of the session last
-- used in a project is the id of a stored session.
pub uses-IsIndexed : (us : List Use) → IsIndexed (after_all us new)
unfolding get
uses-IsIndexed us =
    after_all-IsIndexed us new
      (record { keyed = λ id s h. absurd (ground arith); stored = λ p id h. absurd (ground arith) })
