-- ===== src/Core/Task/Lifecycle.antt =====
-- crates/core/src/task.rs: what holds of a task over every sequence of calls of its methods.
use mathlib.Core.List.{append_assoc, append-nil}
use mathlib.Core.Path.{subst}
use ndc.Common.{
  ◌≡◌, Bool, true, false, ◌⊎◌, inl, List, [], ◌∷◌, ◌++◌, arith, String, sym, ap, ◌∙◌, push, ok,
}
use ndc.Core.Agent.{AgentRole}
use ndc.Core.Intent.{FilePath, Intent, Verdict}
use ndc.Core.Task.{
  Task, TransitionResult, request_transition, mark_completed, mark_cancelled, mark_in_progress, new,
  new_todo, from_intent_and_verdict, capture_worktree_snapshot, capture_lightweight_snapshot,
}
use ndc.Core.TaskParts.{SnapshotId, GitWorktreeSnapshot, LightweightSnapshot}
use ndc.Core.TaskState.{TaskId, TaskState, Timestamp, completed, failed, cancelled}

-- A call of one of the methods of `Task` that change it.
pub data Call : Type 0 where
  request : TaskState → Call
  complete : Call
  cancel : Call
  start : Call
  capture_worktree : SnapshotId → FilePath → String → String → List FilePath → String → Call
  capture_lightweight : SnapshotId → List FilePath → String → Call

unfoldable pub apply : Timestamp → Call → Task → Task × TransitionResult
apply now (request to) t = request_transition now to t
apply now complete t = mark_completed now t
apply now cancel t = mark_cancelled now t
apply now start t = mark_in_progress now t
apply now (capture_worktree id path commit branch affected summary) t =
    (capture_worktree_snapshot id now path commit branch affected summary t, ok tt)
apply now (capture_lightweight id paths checksum) t =
    (capture_lightweight_snapshot id now paths checksum t, ok tt)

-- Calls in order, each with the time at which it is made; a refused call is passed over.
unfoldable pub run : List (Timestamp × Call) → Task → Task
run [] t = t
run ((now, c) ∷ calls) t = run calls (apply now c t).0

-- How the program makes a task.
pub data IsCreated : Task → Type 0 where
  simple :
      (id : TaskId) (created updated : Timestamp) (title description : String) (role : AgentRole)
      → IsCreated (new id created updated title description role)
  todo :
      (id : TaskId) (created updated : Timestamp) (title description project session : String)
      → IsCreated (new_todo id created updated title description project session)
  judged :
      (id : TaskId) (now : Timestamp) (intent : Intent) (verdict : Verdict)
      → IsCreated (from_intent_and_verdict id now intent verdict)

abbrev is_terminal : TaskState → Bool
is_terminal completed = true
is_terminal failed = true
is_terminal cancelled = true
is_terminal _ = false

-- A task in a terminal state allows no transition.
abbrev IsSettled : Task → Type 0
IsSettled t = is_terminal t.state ≡ true → t.allowed_transitions ≡ []

IsCreated-IsSettled : {t : Task} → IsCreated t → IsSettled t
unfolding new new_todo from_intent_and_verdict
IsCreated-IsSettled (simple id created updated title description role) = λ h. cc
IsCreated-IsSettled (todo id created updated title description project session) = λ h. cc
IsCreated-IsSettled (judged id now intent verdict) = λ h. cc

apply-IsSettled :
    (now : Timestamp) (c : Call) (t : Task) → IsSettled t → IsSettled (apply now c t).0
unfolding apply request_transition mark_completed mark_cancelled mark_in_progress
    capture_worktree_snapshot capture_lightweight_snapshot
apply-IsSettled now (request to) t h = ground arith
apply-IsSettled now complete t h = ground arith
apply-IsSettled now cancel t h = ground arith
apply-IsSettled now start t h = ground arith
apply-IsSettled now (capture_worktree id path commit branch affected summary) t h = h
apply-IsSettled now (capture_lightweight id paths checksum) t h = h

run-IsSettled : (calls : List (Timestamp × Call)) (t : Task) → IsSettled t → IsSettled (run calls t)
unfolding run
run-IsSettled [] t h = h
run-IsSettled ((now, c) ∷ calls) t h =
    run-IsSettled calls (apply now c t).0 (apply-IsSettled now c t h)

abbrev pub IsFinal : TaskState → Type 0
IsFinal s = (s ≡ completed) ⊎ (s ≡ cancelled)

-- The task with more snapshots of both kinds.
abbrev grown : List GitWorktreeSnapshot → List LightweightSnapshot → Task → Task
grown trees lights t = record t {
  snapshots = t.snapshots ++ trees;
  lightweight_snapshots = t.lightweight_snapshots ++ lights;
}

-- The second task is the first, snapshots apart that were added to it.
abbrev pub IsKept : Task → Task → Type 0
IsKept t t' =
    (trees : List GitWorktreeSnapshot) × (lights : List LightweightSnapshot) × (t' ≡ record t {
      snapshots = t.snapshots ++ trees;
      lightweight_snapshots = t.lightweight_snapshots ++ lights;
    })

IsKept-refl : (t : Task) → IsKept t t
IsKept-refl t = (
  [],
  [],
  sym (
      ap (λ x. record t { snapshots = x; lightweight_snapshots = t.lightweight_snapshots ++ [] })
        (append-nil t.snapshots)
      ∙ ap (λ x. record t { lightweight_snapshots = x }) (append-nil t.lightweight_snapshots)),
)

IsKept-trans : (t u v : Task) → IsKept t u → IsKept u v → IsKept t v
IsKept-trans t u v (a, b, e) (c, d, f) = (
  a ++ c,
  b ++ d,
  f
      ∙ ap (grown c d) e
      ∙ ap
          (λ x. record t {
            snapshots = x;
            lightweight_snapshots = (t.lightweight_snapshots ++ b) ++ d;
          })
          (append_assoc t.snapshots a c)
      ∙ ap (λ x. record t { snapshots = t.snapshots ++ (a ++ c); lightweight_snapshots = x })
          (append_assoc t.lightweight_snapshots b d),
)

same-IsKept : (t u : Task) → u ≡ t → IsKept t u
same-IsKept t u e = subst (IsKept t) (sym e) (IsKept-refl t)

tree-IsKept :
    (s : GitWorktreeSnapshot) (t : Task) → IsKept t (record t { snapshots = push t.snapshots s })
tree-IsKept s t = (
  s ∷ [],
  [],
  ap (λ x. record t { snapshots = push t.snapshots s; lightweight_snapshots = x })
      (sym (append-nil t.lightweight_snapshots)),
)

light-IsKept :
    (s : LightweightSnapshot) (t : Task)
    → IsKept t (record t { lightweight_snapshots = push t.lightweight_snapshots s })
light-IsKept s t = (
  [],
  s ∷ [],
  ap (λ x. record t { snapshots = x; lightweight_snapshots = push t.lightweight_snapshots s })
      (sym (append-nil t.snapshots)),
)

apply-IsKept :
    (now : Timestamp) (c : Call) (t : Task)
    → IsSettled t
    → IsFinal t.state
    → IsKept t (apply now c t).0
unfolding apply request_transition mark_completed mark_cancelled mark_in_progress
    capture_worktree_snapshot capture_lightweight_snapshot
apply-IsKept now (request to) t h f = same-IsKept t _ (ground arith)
apply-IsKept now complete t h f = same-IsKept t _ (ground arith)
apply-IsKept now cancel t h f = same-IsKept t _ (ground arith)
apply-IsKept now start t h f = same-IsKept t _ (ground arith)
apply-IsKept now (capture_worktree id path commit branch affected summary) t h f = tree-IsKept _ t
apply-IsKept now (capture_lightweight id paths checksum) t h f = light-IsKept _ t

apply-IsFinal :
    (now : Timestamp) (c : Call) (t : Task)
    → IsSettled t
    → IsFinal t.state
    → IsFinal (apply now c t).0.state
apply-IsFinal now c t h f =
    let (trees, lights, e) = apply-IsKept now c t h f in
    subst (λ (u : Task). IsFinal u.state) (sym e) f

run-IsKept :
    (calls : List (Timestamp × Call)) (t : Task)
    → IsSettled t
    → IsFinal t.state
    → IsKept t (run calls t)
unfolding run
run-IsKept [] t h f = IsKept-refl t
run-IsKept ((now, c) ∷ calls) t h f =
    IsKept-trans t (apply now c t).0 (run calls (apply now c t).0) (apply-IsKept now c t h f)
      (run-IsKept calls (apply now c t).0 (apply-IsSettled now c t h) (apply-IsFinal now c t h f))

-- A task that some calls of the methods of Task have brought to Completed or Cancelled, however it was
-- created, is left as it is by every further sequence of calls of these methods, but for snapshots
-- that they add at the end of its two lists. The transitions of the workflow engine, which rolls
-- tasks back, are not among these methods.
pub final_absorbs :
    {t : Task} (calls later : List (Timestamp × Call))
    → IsCreated t
    → IsFinal (run calls t).state
    → IsKept (run calls t) (run later (run calls t))
final_absorbs {t} calls later made f =
    run-IsKept later (run calls t) (run-IsSettled calls t (IsCreated-IsSettled made)) f

abbrev pub IsLost : TaskState → Type 0
IsLost s = (s ≡ failed) ⊎ (s ≡ cancelled)

apply-IsLost :
    (now : Timestamp) (c : Call) (t : Task)
    → IsSettled t
    → IsLost t.state
    → IsLost (apply now c t).0.state
unfolding apply request_transition mark_completed mark_cancelled mark_in_progress
    capture_worktree_snapshot capture_lightweight_snapshot
apply-IsLost now (request to) t h f = ground arith
apply-IsLost now complete t h f = ground arith
apply-IsLost now cancel t h f = ground arith
apply-IsLost now start t h f = ground arith
apply-IsLost now (capture_worktree id path commit branch affected summary) t h f = f
apply-IsLost now (capture_lightweight id paths checksum) t h f = f

run-IsLost :
    (calls : List (Timestamp × Call)) (t : Task)
    → IsSettled t
    → IsLost t.state
    → IsLost (run calls t).state
unfolding run
run-IsLost [] t h f = f
run-IsLost ((now, c) ∷ calls) t h f =
    run-IsLost calls (apply now c t).0 (apply-IsSettled now c t h) (apply-IsLost now c t h f)

-- A task that some calls of the methods of Task have brought to Failed can afterwards, by calls of
-- these methods alone, only stay Failed or become Cancelled. The workflow engine, which may roll it
-- back to Pending, is not among these methods.
pub failed-IsLost :
    {t : Task} (calls later : List (Timestamp × Call))
    → IsCreated t
    → (run calls t).state ≡ failed
    → IsLost (run later (run calls t)).state
failed-IsLost {t} calls later made f =
    run-IsLost later (run calls t) (run-IsSettled calls t (IsCreated-IsSettled made)) (inl f)
