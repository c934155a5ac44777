-- ===== src/Core/Task/Snapshots.antt =====
-- crates/core/src/task.rs: the tags of tasks.
use Prim.Native.String.{◌++◌}
use Prim.Native.String.append
use text.Mathlib.TextLemmas.{append_cancel_left}
use Prim.Native.Char.{code}
use text.Mathlib.TextEquality.{eq_iff}
use ndc.Common.{◌≡◌, sym, ap, ◌∙◌, true, ◌≢◌, ◌↔◌, [], ◌∷◌, arith, String, ℕ}
use ndc.Core.Task.{has_tags, new_todo}
use ndc.Core.TaskState.{TaskId, Timestamp}

project_tag-injective : (p q : String) → "project:" ++ p ≡ "project:" ++ q → p ≡ q
project_tag-injective p q h = append_cancel_left "project:" p q h

abbrev head_code : String → ℕ
head_code String.[] = 0
head_code (String.◌∷◌ c s) = code c

session_tag-ne-project_tag : (p q : String) → "session:" ++ p ≢ "project:" ++ q
session_tag-ne-project_tag p q h = absurd (
    omega
      (arith, ap head_code (sym (append.cons "s" "ession:" p) ∙ h ∙ append.cons "p" "roject:" q)))

todo_tag-ne-project_tag : (q : String) → "todo" ≢ "project:" ++ q
todo_tag-ne-project_tag q h = absurd (omega (arith, ap head_code (h ∙ append.cons "p" "roject:" q)))

-- A todo task carries the tag of a project exactly when that is the project it was made for.
todo_project_iff :
    (id : TaskId) (created updated : Timestamp) (title description p q session : String)
    → (has_tags (("project:" ++ q) ∷ []) (new_todo id created updated title description p session)
        ≡ true)
      ↔ (p ≡ q)
unfolding has_tags new_todo
todo_project_iff id created updated title description p q session = ground (
  arith,
  eq_iff ("project:" ++ p) ("project:" ++ q),
  eq_iff ("session:" ++ session) ("project:" ++ q),
  eq_iff "todo" ("project:" ++ q),
  project_tag-injective p q,
  session_tag-ne-project_tag session q,
  todo_tag-ne-project_tag q,
)
