-- ===== src/Core/Conversation/Helpers.antt =====
-- crates/core/src/ai_agent/helpers.rs: what is cut from texts and histories.
use Prim.Native.Nat.{◌-◌}
use Prim.Native.String.{◌++◌, len}
use text.Mathlib.Text.{starts_with}
use ndc.Common.{
  ℕ, zero, suc, String, Bool, none, List, [], ◌∷◌, leb, ltb, if◌then◌else◌, length, map,
}
use ndc.Common.Chars.{trim, trim_start, take_chars, split_whitespace}
use ndc.Common.Text.{join, decimal}
use ndc.Core.Conversation.{Message, MessageRole, ToolCall, is_system}

abbrev pub max_tool_output_chars : ℕ
max_tool_output_chars = 100000

abbrev pub max_conversation_messages : ℕ
max_conversation_messages = 40

unfoldable pub truncate_for_event : String → ℕ → String
unfolding trim take_chars
truncate_for_event content max =
    let trimmed = trim content in
    if leb (len trimmed) max then trimmed else take_chars max trimmed ++ "..."

unfoldable pub sanitize_tool_output : String → String
unfolding take_chars
sanitize_tool_output content =
    let truncated =
      if ltb max_tool_output_chars (len content)
      then take_chars max_tool_output_chars content ++ "\n[truncated — output exceeded limit]"
      else content in
    "<tool_output>\n" ++ truncated ++ "\n</tool_output>"

unfoldable pub is_confirmation_permission_error : String → Bool
is_confirmation_permission_error message =
    starts_with (trim_start message) "requires_confirmation permission="

abbrev pub placeholder : Message
placeholder = record {
  role = MessageRole.user;
  content = "[earlier conversation history omitted for context window management]";
  name = none;
  tool_calls = none;
}

-- `v[n..]`.
abbrev pub drop {ℓ} : {A : Type ℓ} → ℕ → List A → List A
drop zero xs = xs
drop (suc n) [] = []
drop (suc n) (x ∷ xs) = drop n xs

-- The messages after a system prompt.
abbrev pub truncate_rest : ℕ → List Message → List Message
truncate_rest max ms = if leb (length ms) max then ms else placeholder ∷ drop (length ms - max) ms

-- A system prompt at the front is kept and not counted.
unfoldable pub truncate_messages : ℕ → List Message → List Message
truncate_messages max [] = truncate_rest max []
truncate_messages max (m ∷ ms) =
    if is_system m.role then m ∷ truncate_rest max ms else truncate_rest max (m ∷ ms)

-- The line breaks that the code first replaces by blanks split words as blanks do.
unfoldable pub compact_preview : String → ℕ → String
unfolding split_whitespace truncate_for_event join
compact_preview content max = truncate_for_event (join " " (split_whitespace content)) max

abbrev take {ℓ} : {A : Type ℓ} → ℕ → List A → List A
take zero xs = []
take (suc n) [] = []
take (suc n) (x ∷ xs) = x ∷ take n xs

abbrev call_preview : ToolCall → String
call_preview call = call.function.name ++ "(" ++ compact_preview call.function.arguments 60 ++ ")"

unfoldable pub summarize_tool_calls : List ToolCall → String
unfolding compact_preview decimal join
summarize_tool_calls calls =
    let summary = "planning tool calls: " ++ join ", " (map call_preview (take 3 calls)) in
    if ltb 3 (length calls)
    then summary ++ ", ... +" ++ decimal (length calls - 3) ++ " more"
    else summary
