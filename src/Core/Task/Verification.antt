-- ===== src/Core/Task/Verification.antt =====
-- crates/core/src/task.rs: the way to Completed by requests alone.
use mathlib.Core.List.{Memᴰ}
use ndc.Common.{◌≡◌, sym, Bool, true, false, ◌⊎◌, inl, inr, ◌≢◌, List, [], ◌∷◌, arith, ◌+◌}
use ndc.Core.Task.{Task, request_transition, transitions_from}
use ndc.Core.TaskState.{
  TaskState, Timestamp, pending, preparing, in_progress, awaiting_verification, blocked, completed,
  failed, cancelled,
}

-- Requests for the states in order, the first at the given time and each one tick later.
unfoldable pub request_all : Timestamp → List TaskState → Task → Task
request_all now [] t = t
request_all now (to ∷ tos) t = request_all (now + 1) tos (request_transition now to t).0

-- The allowed transitions are those of the state.
abbrev pub IsRegular : Task → Type 0
IsRegular t = t.allowed_transitions ≡ transitions_from t.state

request-IsRegular :
    (now : Timestamp) (to : TaskState) (t : Task)
    → IsRegular t
    → IsRegular (request_transition now to t).0
unfolding request_transition
request-IsRegular now to t h = ground arith

abbrev is_verified : TaskState → Bool
is_verified awaiting_verification = true
is_verified completed = true
is_verified failed = true
is_verified _ = false

request_unverified :
    (now : Timestamp) (to : TaskState) (t : Task)
    → IsRegular t
    → is_verified t.state ≡ false
    → (to ≡ awaiting_verification) ⊎ (is_verified (request_transition now to t).0.state ≡ false)
unfolding request_transition
request_unverified now to t h u = ground arith

-- A task whose allowed transitions are those of its state, and which is not yet AwaitingVerification,
-- Completed or Failed, becomes Completed or Failed by requests only if one of them asks for
-- AwaitingVerification.
pub needs_verification :
    (now : Timestamp) (tos : List TaskState) (t : Task)
    → IsRegular t
    → is_verified t.state ≡ false
    → is_verified (request_all now tos t).state ≡ true
    → Memᴰ awaiting_verification tos
unfolding request_all
needs_verification now [] t h u v = cc
needs_verification now (to ∷ tos) t h u v = elim (request_unverified now to t h u) [
  | inl e ↦ Memᴰ.head (sym e)
  | inr w ↦ Memᴰ.tail (
      needs_verification (now + 1) tos (request_transition now to t).0
        (request-IsRegular now to t h) w v)
]

-- The requests that complete a task.
abbrev route : TaskState → List TaskState
route pending = preparing ∷ in_progress ∷ awaiting_verification ∷ completed ∷ []
route preparing = in_progress ∷ awaiting_verification ∷ completed ∷ []
route in_progress = awaiting_verification ∷ completed ∷ []
route awaiting_verification = completed ∷ []
route blocked = in_progress ∷ awaiting_verification ∷ completed ∷ []
route _ = []

-- From every state but Failed and Cancelled, the requests of the route bring a task whose allowed
-- transitions are those of its state to Completed, whatever the time.
route_completes :
    (now : Timestamp) (t : Task)
    → IsRegular t
    → t.state ≢ failed
    → t.state ≢ cancelled
    → (request_all now (route t.state) t).state ≡ completed
unfolding request_all request_transition
route_completes now t h f c = ground arith
