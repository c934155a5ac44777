-- ===== src/Core/Session/Store/Indexed.antt =====
-- crates/core/src/ai_agent/session_store.rs: the indexes of a store agree with its sessions.
use mathlib.Core.Path.{subst}
use text.Mathlib.TextEquality.{eq_iff}
use ndc.Common.{String, ◌≡◌, sym, ap, ◌∙◌, Option, some, List, [], ◌∷◌, arith, Bool-cases, inl, inr}
use ndc.Common.Option
use ndc.Common.Maps.{get, insert, string_eq, get-insert, get-insert_self}
use ndc.Common.Text.{str_eq}
use ndc.Core.Session.{AgentSession}
use ndc.Core.Session.Store.{SessionStore, index_session, save_session, hydrate_sessions}

-- A session stands under its own id, and the session last used of a project is one that is stored.
pub record IsIndexed (st : SessionStore) : Type 0 where
  pub keyed : (id : String) (s : AgentSession) → get id st.sessions ≡ some s → s.id ≡ id
  pub stored :
      (project id : String)
      → get project st.project_last_root ≡ some id
      → (s : AgentSession) × (get id st.sessions ≡ some s)

insert-keyed :
    (s : AgentSession) (m : List (String × AgentSession))
    → ((id : String) (t : AgentSession) → get id m ≡ some t → t.id ≡ id)
    → (id : String) (t : AgentSession) → get id (insert s.id s m) ≡ some t
    → t.id ≡ id
insert-keyed s m keyed id t h =
    let found = sym (get-insert s.id id s m) ∙ h in
    elim (Bool-cases (str_eq s.id id)) [
      | inl e ↦
          let same : some s ≡ some t = ground (arith, found) in
          sym (ap (λ (o : Option AgentSession). (Option.get_or o s).id) same) ∙ (eq_iff s.id id).0 e
      | inr n ↦ keyed id t (ground (arith, found))
    ]

pub index_session-IsIndexed :
    (s : AgentSession) (st : SessionStore)
    → get s.id st.sessions ≡ some s
    → IsIndexed st
    → IsIndexed (index_session s st)
unfolding index_session
index_session-IsIndexed s st here i = record {
  keyed = i.keyed;
  stored = λ project id h.
      let found = sym (get-insert s.project_id project s.id st.project_last_root) ∙ h in
      elim (Bool-cases (str_eq s.project_id project)) [
        | inl e ↦
            let same : s.id ≡ id = ground (arith, found) in
            (s, subst (λ k. get k st.sessions ≡ some s) same here)
        | inr n ↦ i.stored project id (ground (arith, found))
      ];
}

-- A session that is stored under an id leaves something under each id that had something.
insert-stored :
    (s : AgentSession) (m : List (String × AgentSession)) (id : String)
    → (t : AgentSession) × (get id m ≡ some t)
    → (t : AgentSession) × (get id (insert s.id s m) ≡ some t)
insert-stored s m id (t, h) = elim (Bool-cases (str_eq s.id id)) [
  | inl e ↦ (s, ground (arith, get-insert s.id id s m))
  | inr n ↦ (t, ground (arith, get-insert s.id id s m))
]

pub save_session-IsIndexed :
    (s : AgentSession) (st : SessionStore) → IsIndexed st → IsIndexed (save_session s st)
unfolding save_session
save_session-IsIndexed s st i =
    let st' : SessionStore = record st { sessions = insert s.id s st.sessions } in
    index_session-IsIndexed s st' (get-insert_self s.id s st.sessions) (record {
      keyed = insert-keyed s st.sessions i.keyed;
      stored = λ project id h. insert-stored s st.sessions id (i.stored project id h);
    })

pub hydrate_sessions-IsIndexed :
    (ss : List AgentSession) (st : SessionStore) → IsIndexed st → IsIndexed (hydrate_sessions ss st)
unfolding hydrate_sessions save_session
hydrate_sessions-IsIndexed [] st i = i
hydrate_sessions-IsIndexed (s ∷ ss) st i =
    hydrate_sessions-IsIndexed ss (save_session s st) (save_session-IsIndexed s st i)
