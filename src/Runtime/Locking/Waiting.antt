-- ===== src/Runtime/Locking/Waiting.antt =====
-- The waiting loop of `acquire_lock` ends.
use ndc.Common.{
  ℕ, ◌+◌, ◌*◌, ◌≤◌, Bool, true, false, not, ◌||◌, ◌≡◌, refl, none, some, List, [], ◌∷◌, arith, inl,
  inr, Bool-cases, length, leb,
}
use ndc.Common.Maps.{get, string_eq}
use ndc.Core.Intent.{FilePath}
use ndc.Core.TaskState.{Timestamp}
use ndc.Runtime.Locking.{
  LockOwner, LockType, FileLock, LockResult, FileLockManager, Round, normalize_path,
  try_acquire_lock, acquire_rounds, acquire_lock, refused,
}
use ndc.Runtime.Locking.Grants.{try_acquire_lock_lem}

-- The clock does not go back, a sleep lasts at least 50 ms, and in every round the path leads to the same
-- place, where a file exists.
abbrev pub Paced : FilePath → FilePath → Timestamp → List Round → Type 0
Paced path place t [] = Unit
Paced path place t (r ∷ rounds) =
    (t ≤ r.polled)
    × (normalize_path r.files path ≡ place)
    × (r.files.exists place ≡ true)
    × Paced path place (r.polled + 50) rounds

-- The caller has the lock in the table, or is told of a timeout.
abbrev pub IsSettled : FilePath → LockOwner → FileLockManager × LockResult → Type 0
IsSettled place owner (m, r) =
    (r.success ≡ true
      → (l : FileLock) × (r.lock ≡ some l) × (get place m.locks ≡ some l) × (l.owner.id ≡ owner.id))
    × (r.success ≡ false → (r.lock ≡ none) × (r.error ≡ some "Timeout waiting for lock"))

acquire_rounds_ends :
    (path place : FilePath) (owner : LockOwner) (lock_type : LockType) (wait : Bool)
    (deadline t : Timestamp) (rounds : List Round) (m : FileLockManager)
    → Paced path place t rounds
    → deadline + 50 ≤ t + 50 * length rounds
    → t ≤ deadline + 49
    → (answer : FileLockManager × LockResult) × (acquire_rounds path owner lock_type wait deadline
          rounds m
        ≡ some answer)
      × IsSettled place owner answer
unfolding acquire_rounds
acquire_rounds_ends path place owner lock_type wait deadline t [] m p b s = absurd (omega arith)
acquire_rounds_ends path place owner lock_type wait deadline t (r ∷ rounds) m p b s =
    let attempt : FileLockManager × LockResult =
      try_acquire_lock r.files path owner lock_type r.checked r.now (r.others m) in
    let facts =
      try_acquire_lock_lem r.files path owner lock_type r.checked r.now (r.others m) (rw p.1 p.2) in
    elim (Bool-cases attempt.1.success) [
      | inl got ↦ ((attempt.0, attempt.1), rw got, (λ h. rw (← p.1) (facts.2 h), λ h. absurd (cc)))
      | inr missed ↦ elim (Bool-cases (not wait || leb deadline r.polled)) [
        | inl stop ↦ (
          (attempt.0, refused "Timeout waiting for lock" attempt.1.current_holder),
          rw (missed, stop),
          (λ h. absurd (cc), λ h. (refl, refl)),
        )
        | inr more ↦
            rw (missed, more, acquire_rounds)
              (acquire_rounds_ends path place owner lock_type wait deadline (r.polled + 50) rounds
                attempt.0 p.3 (ground arith) (ground arith))
      ]
    ]

-- With rounds for the timeout and one sleep more, a call of `acquire_lock` on a file that exists comes
-- back, whatever other tasks do to the table between the rounds: the caller has a lock of its own on the
-- file in the table, or no lock and the message of a timeout.
pub acquire_lock_ends :
    (path place : FilePath) (owner : LockOwner) (lock_type : LockType) (timeout_ms : ℕ)
    (wait : Bool) (start : Timestamp) (rounds : List Round) (m : FileLockManager)
    → Paced path place start rounds
    → timeout_ms + 50 ≤ 50 * length rounds
    → (answer : FileLockManager × LockResult) × (acquire_lock path owner lock_type timeout_ms wait
          start rounds m
        ≡ some answer)
      × IsSettled place owner answer
unfolding acquire_lock
acquire_lock_ends path place owner lock_type timeout_ms wait start rounds m p b =
    acquire_rounds_ends path place owner lock_type wait (start + timeout_ms) start rounds m p
      (omega arith) (omega arith)
