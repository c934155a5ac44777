-- ===== src/Core/Runner/Answering.antt =====
-- crates/core/src/ai_agent/conversation_runner.rs: the results of the tools, and the events of
-- their execution.
use mathlib.Core.List.{append_assoc, map-append, append-nil}
use ndc.Common.{
  ℕ, String, true, false, ◌≡◌, refl, sym, ap, ◌∙◌, Option, none, some, List, [], ◌∷◌, ◌++◌, arith,
  map, Result, ok, err, Bool-cases, inl, inr,
}
use ndc.Common.Maps.{get-insert_self, string_eq}
use ndc.Core.Conversation.{AgentError, AgentExecutionEvent, ToolCall, ToolResult}
use ndc.Core.Conversation.Helpers.{is_confirmation_permission_error}
use ndc.Core.TaskState.{Timestamp}
use ndc.Core.Session.Store.{save_session, index_session, session_snapshot}
use ndc.Core.Runner.{
  permission_event, approval, rejection, denial, start_event, end_event, Environment, World, tick,
  emit_event, decline, settle, refuse, answer, execute_tool_call, execute_tool_calls,
}

-- The events that are on the way from one world to another: the session's, the run's and those that
-- were broadcast are the same.
pub record Emitted (w w' : World) : Type 0 where
  pub emitted : List AgentExecutionEvent
  pub asked : w'.requests ≡ w.requests
  pub named : w'.session.id ≡ w.session.id
  pub told : w'.events ≡ w.events ++ emitted
  pub kept : w'.session.execution_events ≡ w.session.execution_events ++ emitted
  pub heard :
      map (λ (b : String × AgentExecutionEvent). b.1) w'.broadcast
      ≡ map (λ (b : String × AgentExecutionEvent). b.1) w.broadcast ++ emitted

-- The store has the session as it is.
abbrev pub IsSaved : World → Type 0
IsSaved w = session_snapshot w.session.id w.store ≡ some w.session

emit_event-IsSaved :
    (env : Environment) (make : Timestamp → AgentExecutionEvent) (w : World)
    → IsSaved (emit_event env make w)
unfolding emit_event save_session index_session session_snapshot
emit_event-IsSaved env make w = get-insert_self w.session.id _ w.store.sessions

same_world :
    (w w' : World)
    → w'.requests ≡ w.requests
    → w'.session ≡ w.session
    → w'.events ≡ w.events
    → w'.broadcast ≡ w.broadcast
    → Emitted w w'
same_world w w' asked session told heard = record {
  emitted = [];
  asked = asked;
  named = ap (λ s. s.id) session;
  told = told ∙ sym (append-nil w.events);
  kept = ap (λ s. s.execution_events) session ∙ sym (append-nil w.session.execution_events);
  heard = ap (map (λ b. b.1)) heard ∙ sym (append-nil _);
}

tick-Emitted : (w : World) → Emitted w (tick w)
tick-Emitted w = same_world w (tick w) refl refl refl refl

emit_event-Emitted :
    (env : Environment) (make : Timestamp → AgentExecutionEvent) (w : World)
    → Emitted w (emit_event env make w)
unfolding emit_event
emit_event-Emitted env make w = record {
  emitted = make (env.now w.ticks) ∷ [];
  asked = refl;
  named = refl;
  told = refl;
  kept = refl;
  heard = map-append _ w.broadcast _;
}

then-Emitted : {w t w' : World} → Emitted w t → Emitted t w' → Emitted w w'
then-Emitted {w} {t} {w'} a b = record {
  emitted = a.emitted ++ b.emitted;
  asked = b.asked ∙ a.asked;
  named = b.named ∙ a.named;
  told = b.told ∙ ap (λ es. es ++ b.emitted) a.told ∙ append_assoc w.events a.emitted b.emitted;
  kept =
      b.kept
      ∙ ap (λ es. es ++ b.emitted) a.kept
      ∙ append_assoc w.session.execution_events a.emitted b.emitted;
  heard = b.heard ∙ ap (λ es. es ++ b.emitted) a.heard ∙ append_assoc _ a.emitted b.emitted;
}

decline-Emitted :
    (env : Environment) (call : ToolCall) (round : ℕ) (e : AgentError) (m : Option String)
    (w : World)
    → let r = decline env call round e m w in Emitted w r.0 × (r.1.tool_call_id ≡ call.id)
unfolding decline
decline-Emitted env call round e none w = (same_world w w refl refl refl refl, refl)
decline-Emitted env call round e (some m) w =
    (emit_event-Emitted env (permission_event call round (rejection m) true) w, refl)

settle-Emitted :
    (env : Environment) (call : ToolCall) (round : ℕ) (e : AgentError) (message : String)
    (a : Result AgentError (Option String)) (w : World)
    → let r = settle env call round e message a w in Emitted w r.0 × (r.1.tool_call_id ≡ call.id)
unfolding settle
settle-Emitted env call round e message (ok (some content)) w =
    (emit_event-Emitted env (permission_event call round (approval message) false) w, refl)
settle-Emitted env call round e message (ok none) w = (same_world w w refl refl refl refl, refl)
settle-Emitted env call round e message (err cause) w =
    decline-Emitted env call round cause (denial cause) w

refuse-Emitted :
    (env : Environment) (call : ToolCall) (round : ℕ) (e : AgentError) (m : Option String)
    (w : World)
    → let r = refuse env call round e m w in Emitted w r.0 × (r.1.tool_call_id ≡ call.id)
unfolding refuse
refuse-Emitted env call round e none w = (same_world w w refl refl refl refl, refl)
refuse-Emitted env call round e (some m) w =
    let event = permission_event call round m true in
    let asked = emit_event env event w in
    let first = emit_event-Emitted env event w in
    let reply =
      env.confirm_and_retry_permission asked.ticks call.function.name call.function.arguments m in
    let (s, id) = settle-Emitted env call round e m reply (tick asked) in
    elim (Bool-cases (is_confirmation_permission_error m)) [
      | inl h ↦ rw h (then-Emitted first (then-Emitted (tick-Emitted asked) s), id)
      | inr h ↦ rw h (first, refl)
    ]

answer-Emitted :
    (env : Environment) (call : ToolCall) (round : ℕ) (a : Result AgentError String) (w : World)
    → let r = answer env call round a w in Emitted w r.0 × (r.1.tool_call_id ≡ call.id)
unfolding answer
answer-Emitted env call round (ok content) w = (same_world w w refl refl refl refl, refl)
answer-Emitted env call round (err e) w = refuse-Emitted env call round e (denial e) w

execute_tool_call-Emitted :
    (env : Environment) (round : ℕ) (call : ToolCall) (w : World)
    → let r = execute_tool_call env round call w in
      Emitted w r.0 × (r.1.tool_call_id ≡ call.id) × IsSaved r.0
unfolding execute_tool_call
execute_tool_call-Emitted env round call w =
    let started = emit_event env (start_event call round) w in
    let reply = env.execute_tool started.ticks call.function.name call.function.arguments in
    let (w', result) = answer env call round reply (tick started) in
    let closing = end_event call round result (env.elapsed_ms w'.ticks) in
    let (answered, id) = answer-Emitted env call round reply (tick started) in
    (
      then-Emitted (emit_event-Emitted env (start_event call round) w) (
          then-Emitted (tick-Emitted started)
            (then-Emitted answered (emit_event-Emitted env closing w'))),
      id,
      emit_event-IsSaved env closing w',
    )

no_calls :
    (env : Environment) (round : ℕ) (w : World) → Emitted w (execute_tool_calls env round [] w).0
unfolding execute_tool_calls
no_calls env round w = same_world w w refl refl refl refl

-- The calls of tools are answered one by one, each by a result with its id. What happens is told in one
-- sequence of events, which the session, the run and the listeners get alike; nothing is asked of the
-- model meanwhile. After a first call the store has the session as it is.
pub execute_tool_calls_lem :
    (env : Environment) (round : ℕ) (call : ToolCall) (calls : List ToolCall) (w : World)
    → let r = execute_tool_calls env round (call ∷ calls) w in
      (map (λ (t : ToolResult). t.tool_call_id) r.1 ≡ map (λ (c : ToolCall). c.id) (call ∷ calls))
      × Emitted w r.0
      × IsSaved r.0
unfolding execute_tool_calls
execute_tool_calls_lem env round call [] w =
    let (here, id, saved) = execute_tool_call-Emitted env round call w in
    (ap (λ k. k ∷ []) id, here, saved)
execute_tool_calls_lem env round call (next ∷ calls) w =
    let (here, id, saved) = execute_tool_call-Emitted env round call w in
    let w' = (execute_tool_call env round call w).0 in
    let (ids, rest, kept) = execute_tool_calls_lem env round next calls w' in
    (ground (arith, id, ids), then-Emitted here rest, kept)
