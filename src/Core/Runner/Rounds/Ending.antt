-- ===== src/Core/Runner/Rounds/Ending.antt =====
-- crates/core/src/ai_agent/conversation_runner.rs: the end of the loop of
-- `run_rounds_with_context`, and the requests that it makes.
use mathlib.Core.Path.{subst}
use ndc.Common.{
  ℕ, zero, suc, ◌+◌, ◌-◌, ◌≤◌, ◌<◌, String, true, false, ◌≡◌, refl, sym, ap, inl, inr, Option, none,
  some, List, [], ◌∷◌, arith, Bool-cases, leb, push, length, length-push, All, All-append, Result,
  ok, err,
}
use ndc.Core.Conversation.{AgentError, AgentToolCall, Message, ToolCall}
use ndc.Core.Conversation.Helpers.{max_conversation_messages}
use ndc.Core.Runner.{CompletionRequest, Environment, World}
use ndc.Core.Runner.Rounds.{
  Rounds, Turn, Outcome, exhausted, opened, finished, again, respond, receive, turn, ask, prepared,
  request_of, proceed, run_rounds, run_rounds_with_context,
}
use ndc.Core.Runner.Answering.{execute_tool_calls_lem}
use ndc.Core.Conversation.Truncation.{truncate_messages-le}

-- The requests of a world hold short histories.
abbrev pub AllShort : List CompletionRequest → Type 0
AllShort requests =
    All (λ (r : CompletionRequest). length r.messages ≤ suc (suc max_conversation_messages))
      requests

-- A turn that goes on has made a call of a tool.
abbrev Advances : Rounds → Turn → Type 0
Advances r (finished result) = Unit
Advances r (again r') = r.tool_call_count < r'.tool_call_count

respond-Advances :
    (env : Environment) (r : Rounds) (m : Message) (calls : Option (List ToolCall)) (w : World)
    → let o = respond env r m calls w in (o.0.requests ≡ w.requests) × Advances r o.1
unfolding respond
respond-Advances env r m none w = (refl, tt)
respond-Advances env r m (some []) w = (refl, tt)
respond-Advances env r m (some (call ∷ calls)) w =
    let (_, emitted, _) = execute_tool_calls_lem env r.round call calls w in
    (emitted.asked, omega arith)

receive-Advances :
    (env : Environment) (r : Rounds) (a : Result String (List Message)) (w : World)
    → let o = receive env r a w in (o.0.requests ≡ w.requests) × Advances r o.1
unfolding receive
receive-Advances env r (err e) w = (refl, tt)
receive-Advances env r (ok []) w = (refl, tt)
receive-Advances env r (ok (m ∷ rest)) w = respond-Advances env r m m.tool_calls w

-- What a loop that may still make so many turns returns.
Ends : ℕ → World → Option Outcome → Type 0
Ends n w o =
    (w' : World) × (result : Result AgentError (String × List AgentToolCall)) × (o
      ≡ some (w', result))
    × (length w'.requests ≤ length w.requests + n)
    × (AllShort w.requests → AllShort w'.requests)

Ends-le : (n k : ℕ) (w : World) (o : Option Outcome) → n ≤ k → Ends n w o → Ends k w o
unfolding Ends
Ends-le n k w o h (w', result, e, few, short) = (w', result, e, omega arith, short)

-- A turn after which the loop ends is the loop's end.
proceed-Ends :
    (n : ℕ) (r : Rounds) (continue : Rounds → World → Option Outcome) (o : World × Turn)
    → Advances r o.1
    → ((r' : Rounds) (w' : World)
        → r.tool_call_count < r'.tool_call_count
        → Ends n w' (continue r' w'))
    → Ends n o.0 (proceed continue o)
unfolding Ends
proceed-Ends n r continue (w', finished result) a h =
    (w', result, refl, omega arith, λ short. short)
proceed-Ends n r continue (w', again r') a h = h r' w' a

-- A request was added before.
asked-Ends :
    (n : ℕ) (w w' : World) (request : CompletionRequest) (o : Option Outcome)
    → w'.requests ≡ push w.requests request
    → length request.messages ≤ suc (suc max_conversation_messages)
    → Ends n w' o
    → Ends (suc n) w o
unfolding Ends
asked-Ends n w w' request o e small (end, result, same, few, short) = (
  end,
  result,
  same,
  omega (arith, ap length e, length-push w.requests request),
  λ before.
      short (subst AllShort (sym e) (All-append _ w.requests (request ∷ []) before (small, tt))),
)

turn-spent :
    (env : Environment) (r : Rounds) (w : World)
    → leb env.max_tool_calls r.tool_call_count ≡ true
    → turn env r w ≡ (w, finished (exhausted env r))
unfolding turn
turn-spent env r w h = rw h refl

turn-left :
    (env : Environment) (r : Rounds) (w : World)
    → leb env.max_tool_calls r.tool_call_count ≡ false
    → let request = request_of env (prepared r).messages in
      turn env r w ≡ receive env (prepared r) (env.complete w.ticks request) (ask request w)
unfolding turn
turn-left env r w h = rw h refl

-- One turn, when the turns after it end.
turn-Ends :
    (fuel : ℕ) (env : Environment) (r : Rounds) (w : World)
    → (r.tool_call_count < env.max_tool_calls
        → (r' : Rounds) (w' : World) → r.tool_call_count < r'.tool_call_count
        → Ends (env.max_tool_calls - suc r.tool_call_count) w' (run_rounds fuel env r' w'))
    → Ends (env.max_tool_calls - r.tool_call_count) w (run_rounds (suc fuel) env r w)
unfolding run_rounds Ends
turn-Ends fuel env r w after = elim (Bool-cases (leb env.max_tool_calls r.tool_call_count)) [
  | inl spent ↦ (
    w,
    exhausted env r,
    ap (proceed (run_rounds fuel env)) (turn-spent env r w spent),
    omega arith,
    λ short. short,
  )
  | inr left ↦
      let request = request_of env (prepared r).messages in
      let reply = env.complete w.ticks request in
      let o = receive env (prepared r) reply (ask request w) in
      let (asked, advances) = receive-Advances env (prepared r) reply (ask request w) in
      let n = env.max_tool_calls - suc r.tool_call_count in
      let ended =
        proceed-Ends n (prepared r) (run_rounds fuel env) o advances
          (after (ground (arith, left))) in
      Ends-le (suc n) (env.max_tool_calls - r.tool_call_count) w (run_rounds (suc fuel) env r w)
        (ground (arith, left))
        (asked-Ends n w o.0 request (run_rounds (suc fuel) env r w) asked
          (truncate_messages-le max_conversation_messages r.messages)
          (subst (λ t. Ends n o.0 (proceed (run_rounds fuel env) t)) (sym (turn-left env r w left))
            ended))
]

-- As many more turns as calls of tools may still be made, and one.
run_rounds-Ends :
    (fuel : ℕ) (env : Environment) (r : Rounds) (w : World)
    → env.max_tool_calls ≤ r.tool_call_count + fuel
    → Ends (env.max_tool_calls - r.tool_call_count) w (run_rounds (suc fuel) env r w)
run_rounds-Ends zero env r w h = turn-Ends zero env r w (λ left r' w' more. absurd (omega arith))
run_rounds-Ends (suc fuel) env r w h = turn-Ends (suc fuel) env r w (λ left r' w' more.
    Ends-le (env.max_tool_calls - r'.tool_call_count) (env.max_tool_calls - suc r.tool_call_count)
      w' (run_rounds (suc fuel) env r' w') (omega arith)
      (run_rounds-Ends fuel env r' w' (omega arith)))

-- The loop ends for every model and every tool. It asks the model at most as often as calls of tools are
-- allowed, and when the requests before were short, each request holds at most two messages over the
-- limit of a conversation.
pub run_rounds_with_context_ends :
    (env : Environment) (messages : List Message) (prompt : String) (round_start : ℕ) (w : World)
    → AllShort w.requests
    → (w' : World) × (result : Result AgentError (String × List AgentToolCall))
      × (run_rounds_with_context env messages prompt round_start w ≡ some (w', result))
      × (length w'.requests ≤ length w.requests + env.max_tool_calls)
      × AllShort w'.requests
unfolding run_rounds_with_context Ends
run_rounds_with_context_ends env messages prompt round_start w short =
    let (w', result, e, few, all) =
      run_rounds-Ends env.max_tool_calls env (opened messages prompt round_start) w (omega arith) in
    (w', result, e, omega (arith, few), all short)
