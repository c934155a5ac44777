-- ===== src/Runtime/Locking/Holding.antt =====
-- A lock holds against everything that others do, until it expires.
use text.Mathlib.TextEquality.{eq_iff}
use ndc.Common.{
  ℕ, String, Bool, true, false, ◌≡◌, ◌≢◌, refl, ◌∙◌, Option, none, some, List, [], ◌∷◌, arith, inl,
  inr, Bool-cases, All,
}
use ndc.Common.Maps.{
  get, insert, remove, get-insert_ne, get-remove_ne, insert-IsFunctional, remove-IsFunctional,
  IsFunctional, string_eq,
}
use ndc.Common.Text.{str_eq}
use ndc.Core.Intent.{FilePath}
use ndc.Core.TaskState.{Timestamp}
use ndc.Runtime.Locking.{
  LockOwner, LockType, FileLock, LockResult, FileLockManager, FileSystem, normalize_path,
  is_expired, grant, meet, try_acquire_lock, release_lock, release_all_locks, cleanup_expired_locks,
  new,
}
use ndc.Runtime.Locking.Sweeping.{release_all_locks-Swept, cleanup_expired_locks-Swept}

-- A call of the manager that writes its table, each under the table's write lock.
pub data Call : Type 0 where
  acquire : FileSystem → FilePath → LockOwner → LockType → Timestamp → Timestamp → Call
  release : FileSystem → FilePath → String → Call
  release_all : String → Call
  cleanup : Timestamp → Call

unfoldable pub apply : Call → FileLockManager → FileLockManager
apply (acquire fs path owner lock_type checked now) m =
    (try_acquire_lock fs path owner lock_type checked now m).0
apply (release fs path owner_id) m = (release_lock fs path owner_id m).0
apply (release_all owner_id) m = (release_all_locks owner_id m).0
apply (cleanup now) m = (cleanup_expired_locks now m).0

-- The calls of all tasks, in the order in which they get the table.
unfoldable pub run : List Call → FileLockManager → FileLockManager
run [] m = m
run (c ∷ calls) m = run calls (apply c m)

-- The call is made before the lock expires, and is no release by its owner.
abbrev pub Spares : FileLock → Call → Type 0
Spares l (acquire fs path owner lock_type checked now) = is_expired checked l ≡ false
Spares l (release fs path owner_id) = l.owner.id ≢ owner_id
Spares l (release_all owner_id) = l.owner.id ≢ owner_id
Spares l (cleanup now) = is_expired now l ≡ false

-- How an attempt leaves the table: as it was, with a new lock on the path, or with a new lock in place
-- of an expired one.
data Written (path : FilePath) (locks : List (FilePath × FileLock))
    : List (FilePath × FileLock) → Type 0 where
  same : Written path locks locks
  added : (l : FileLock) → Written path locks (insert path l locks)
  replaced : (l : FileLock) → Written path locks (insert path l (remove path locks))

meet-Written :
    (path : FilePath) (owner : LockOwner) (lock_type : LockType) (checked now : Timestamp)
    (m : FileLockManager) (l : FileLock) (gone other : Bool)
    → is_expired checked l ≡ gone
    → str_eq l.owner.id owner.id ≡ other
    → Written path m.locks (meet path owner lock_type checked now m l).0.locks
unfolding meet grant
meet-Written path owner lock_type checked now m l true other e d = rw e (replaced _)
meet-Written path owner lock_type checked now m l false true e d = rw (e, d) same
meet-Written path owner lock_type checked now m l false false e d = rw (e, d) same

acquire-Written :
    (fs : FileSystem) (given : FilePath) (owner : LockOwner) (lock_type : LockType)
    (checked now : Timestamp) (m : FileLockManager)
    → Written
        (normalize_path fs given)
        m.locks
        (try_acquire_lock fs given owner lock_type checked now m).0.locks
unfolding try_acquire_lock grant
acquire-Written fs given owner lock_type checked now m =
    elim (Bool-cases (fs.exists (normalize_path fs given))) [
      | inr absent ↦ rw absent same
      | inl there ↦ rw there (go (get (normalize_path fs given) m.locks))
    ]
  where
    go :
        (found : Option FileLock)
        → Written (normalize_path fs given) m.locks (
            let answer : FileLockManager × LockResult = elim found [
              | some lock ↦ meet (normalize_path fs given) owner lock_type checked now m lock
              | none ↦ grant (normalize_path fs given) owner lock_type now m
            ] in
            answer.0.locks)
    go none = added _
    go (some l) =
        meet-Written (normalize_path fs given) owner lock_type checked now m l _ _ refl refl

Written-IsFunctional :
    (path : FilePath) (locks : List (FilePath × FileLock)) {locks' : List (FilePath × FileLock)}
    → Written path locks locks'
    → IsFunctional locks
    → IsFunctional locks'
Written-IsFunctional path locks same f = f
Written-IsFunctional path locks (added l) f = insert-IsFunctional path l locks f
Written-IsFunctional path locks (replaced l) f =
    insert-IsFunctional path l (remove path locks) (remove-IsFunctional path locks f)

Written-ne :
    (path q : FilePath) (locks : List (FilePath × FileLock)) {locks' : List (FilePath × FileLock)}
    → Written path locks locks'
    → IsFunctional locks
    → q ≢ path
    → get q locks' ≡ get q locks
Written-ne path q locks same f n = refl
Written-ne path q locks (added l) f n = get-insert_ne path q l locks n
Written-ne path q locks (replaced l) f n =
    get-insert_ne path q l (remove path locks) n ∙ get-remove_ne path q locks f n

-- The table keeps one lock for a path under every call.
apply-IsFunctional :
    (c : Call) (m : FileLockManager) → IsFunctional m.locks → IsFunctional (apply c m).locks
unfolding apply release_lock
apply-IsFunctional (acquire fs given owner lock_type checked now) m f =
    Written-IsFunctional (normalize_path fs given) m.locks
      (acquire-Written fs given owner lock_type checked now m) f
apply-IsFunctional (release fs given owner_id) m f =
    ground (arith, remove-IsFunctional (normalize_path fs given) m.locks f)
apply-IsFunctional (release_all owner_id) m f = (release_all_locks-Swept owner_id m f).2
apply-IsFunctional (cleanup now) m f = (cleanup_expired_locks-Swept now m f).2

acquire_live :
    (fs : FileSystem) (given : FilePath) (owner : LockOwner) (lock_type : LockType)
    (checked now : Timestamp) (m : FileLockManager) (l : FileLock)
    → get (normalize_path fs given) m.locks ≡ some l
    → is_expired checked l ≡ false
    → (try_acquire_lock fs given owner lock_type checked now m).0 ≡ m
unfolding try_acquire_lock meet
acquire_live fs given owner lock_type checked now m l found live = ground arith

release_spares :
    (fs : FileSystem) (given : FilePath) (owner_id : String) (p : FilePath) (m : FileLockManager)
    (l : FileLock)
    → IsFunctional m.locks
    → get p m.locks ≡ some l
    → l.owner.id ≢ owner_id
    → get p (release_lock fs given owner_id m).0.locks ≡ some l
unfolding release_lock
release_spares fs given owner_id p m l f found s =
    elim (Bool-cases (str_eq p (normalize_path fs given))) [
      | inl e ↦ ground (arith, eq_iff p (normalize_path fs given), eq_iff l.owner.id owner_id)
      | inr n ↦ ground (
        arith,
        eq_iff p (normalize_path fs given),
        get-remove_ne (normalize_path fs given) p m.locks f,
      )
    ]

apply-Spares :
    (c : Call) (p : FilePath) (m : FileLockManager) (l : FileLock)
    → IsFunctional m.locks
    → get p m.locks ≡ some l
    → Spares l c
    → get p (apply c m).locks ≡ some l
unfolding apply
apply-Spares (acquire fs given owner lock_type checked now) p m l f found s =
    elim (Bool-cases (str_eq p (normalize_path fs given))) [
      | inl e ↦
          rw
            (acquire_live fs given owner lock_type checked now m l (rw ((eq_iff _ _).0 e) at found)
              s)
            found
      | inr n ↦
          Written-ne (normalize_path fs given) p m.locks
            (acquire-Written fs given owner lock_type checked now m) f
            (ground (arith, eq_iff p (normalize_path fs given)))
          ∙ found
    ]
apply-Spares (release fs given owner_id) p m l f found s =
    release_spares fs given owner_id p m l f found s
apply-Spares (release_all owner_id) p m l f found s =
    (release_all_locks-Swept owner_id m f).0 p
    ∙ rw found (ground (arith, eq_iff l.owner.id owner_id))
apply-Spares (cleanup now) p m l f found s =
    (cleanup_expired_locks-Swept now m f).0 p ∙ rw (found, s)

run-Spares :
    (calls : List Call) (p : FilePath) (m : FileLockManager) (l : FileLock)
    → IsFunctional m.locks
    → get p m.locks ≡ some l
    → All (Spares l) calls
    → get p (run calls m).locks ≡ some l
unfolding run
run-Spares [] p m l f found s = found
run-Spares (c ∷ calls) p m l f found s =
    run-Spares calls p (apply c m) l (apply-IsFunctional c m f) (apply-Spares c p m l f found s.0)
      s.1

run-IsFunctional :
    (calls : List Call) (m : FileLockManager)
    → IsFunctional m.locks
    → IsFunctional (run calls m).locks
unfolding run
run-IsFunctional [] m f = f
run-IsFunctional (c ∷ calls) m f = run-IsFunctional calls (apply c m) (apply-IsFunctional c m f)

-- A lock that stands in the table of a manager, after any calls since it was made, still stands there
-- unchanged after any further calls by any tasks, in any order, if each is made before the lock
-- expires and none is a release in its owner's name: nobody else can take over or drop a live lock.
pub lock_holds :
    (lock_dir : FilePath) (timeout : Option ℕ) (before calls : List Call) (p : FilePath)
    (l : FileLock)
    → get p (run before (new lock_dir timeout)).locks ≡ some l
    → All (Spares l) calls
    → get p (run calls (run before (new lock_dir timeout))).locks ≡ some l
unfolding new
lock_holds lock_dir timeout before calls p l found s =
    run-Spares calls p _ l (run-IsFunctional before _ tt) found s
