-- ===== src/Runtime/Locking.antt =====
-- crates/runtime/src/tools/locking.rs: `FileLockManager`. Instants and durations are in
-- milliseconds, each reading of the clock is an argument. The dotfiles, whose writing and removal are
-- attempted and never checked or read back, are left out.
pub mod Grants
pub mod Holding
pub mod Sweeping
pub mod Waiting
use Prim.Native.String.{◌++◌ as text_append}
use ndc.Common.{
  ℕ, suc, ◌+◌, String, Bool, true, false, not, ◌||◌, Option, none, some, List, [], ◌∷◌, Result, ok,
  err, if◌then◌else◌, ltb, leb, length, map,
}
use ndc.Common.Option
use ndc.Common.Maps.{get, insert, remove, string_eq}
use ndc.Common.Text.{str_eq}
use ndc.Core.Intent.{FilePath}
use ndc.Core.TaskState.{Timestamp}

pub record LockOwner : Type 0 where
  pub id : String
  pub name : String
  pub acquired_at : Timestamp

pub data LockType : Type 0 where
  read write : LockType

pub record FileLock : Type 0 where
  pub path : FilePath
  pub owner : LockOwner
  pub expires_at : Option Timestamp
  pub lock_type : LockType

pub data LockError : Type 0 where
  file_not_found : FilePath → LockError
  lock_not_found : FilePath → LockError
  lock_held_by_other : String → LockError
  lock_expired : LockError
  lock_timeout : LockError
  invalid_operation : String → LockError

pub record LockRequest : Type 0 where
  pub path : FilePath
  pub lock_type : LockType
  pub timeout_ms : ℕ  -- u64
  pub wait : Bool

pub record LockResult : Type 0 where
  pub success : Bool
  pub lock : Option FileLock
  pub error : Option String
  pub current_holder : Option LockOwner

pub record FileLockManager : Type 0 where
  pub locks : List (FilePath × FileLock)
  pub default_timeout : Option ℕ
  pub lock_dir : FilePath

-- What the file system answers at the time of a call.
pub record FileSystem : Type 0 where
  pub canonicalize : FilePath → Option FilePath
  pub exists : FilePath → Bool

-- `lock_dir` is `.ndc/locks` in the current directory.
unfoldable pub new : FilePath → Option ℕ → FileLockManager
new lock_dir default_timeout = record {
  locks = [];
  default_timeout = default_timeout;
  lock_dir = lock_dir;
}

abbrev pub create_owner : Timestamp → String → String → LockOwner
create_owner now id name = record { id = id; name = name; acquired_at = now }

abbrev pub normalize_path : FileSystem → FilePath → FilePath
normalize_path fs path = Option.get_or (fs.canonicalize path) path

-- `Instant::now() > expires_at`.
abbrev pub is_expired : Timestamp → FileLock → Bool
is_expired now lock = elim lock.expires_at [ some at ↦ ltb at now | none ↦ false ]

abbrev pub refused : String → Option LockOwner → LockResult
refused message holder = record {
  success = false;
  lock = none;
  error = some message;
  current_holder = holder;
}

abbrev pub granted : FileLock → LockResult
granted lock = record { success = true; lock = some lock; error = none; current_holder = none }

abbrev pub held_message : LockOwner → String
held_message o =
    text_append "File is locked by "
      (text_append o.name (text_append " (ID: " (text_append o.id ")")))

-- The part of `try_acquire_lock` that makes a new lock, `now` being the second reading of the clock.
grant : FilePath → LockOwner → LockType → Timestamp → FileLockManager → FileLockManager × LockResult
grant path owner lock_type now m =
    let lock : FileLock = record {
      path = path;
      owner = owner;
      expires_at = Option.map (λ (d : ℕ). now + d) m.default_timeout;
      lock_type = lock_type;
    } in
    (record m { locks = insert path lock m.locks }, granted lock)

-- Its part for a path that has a lock.
meet :
    FilePath
    → LockOwner
    → LockType
    → Timestamp
    → Timestamp
    → FileLockManager
    → FileLock
    → FileLockManager × LockResult
unfolding grant
meet path owner lock_type checked now m lock =
    if is_expired checked lock
    then grant path owner lock_type now (record m { locks = remove path m.locks })
    else if not (str_eq lock.owner.id owner.id)
    then (m, refused (held_message lock.owner) (some lock.owner))
    else (m, granted lock)

-- `checked` and `now` are the two readings of the clock.
unfoldable pub try_acquire_lock :
    FileSystem
    → FilePath
    → LockOwner
    → LockType
    → Timestamp
    → Timestamp
    → FileLockManager
    → FileLockManager × LockResult
unfolding meet grant
try_acquire_lock fs given owner lock_type checked now m =
    let path = normalize_path fs given in
    if not (fs.exists path)
    then (m, refused (text_append "File not found: " path) none)
    else elim (get path m.locks) [
      | some lock ↦ meet path owner lock_type checked now m lock
      | none ↦ grant path owner lock_type now m
    ]

-- One round of `acquire_lock`: what others did to the manager since the round before, the file system,
-- the readings of the clock in `try_acquire_lock`, and the one that is compared with the deadline.
pub record Round : Type 0 where
  pub others : FileLockManager → FileLockManager
  pub files : FileSystem
  pub checked : Timestamp
  pub now : Timestamp
  pub polled : Timestamp

-- The loop of `acquire_lock`, over the rounds there is time for; `none` if they are used up. Each
-- round but the last ends in a sleep of 50 ms.
unfoldable pub acquire_rounds :
    FilePath
    → LockOwner
    → LockType
    → Bool
    → Timestamp
    → List Round
    → FileLockManager
    → Option (FileLockManager × LockResult)
acquire_rounds path owner lock_type wait deadline [] m = none
acquire_rounds path owner lock_type wait deadline (r ∷ rounds) m =
    let (m', result) = try_acquire_lock r.files path owner lock_type r.checked r.now (r.others m) in
    let later = acquire_rounds path owner lock_type wait deadline rounds m' in
    if result.success
    then some (m', result)
    else if not wait || leb deadline r.polled
    then some (m', refused "Timeout waiting for lock" result.current_holder)
    else later

unfoldable pub acquire_lock :
    FilePath
    → LockOwner
    → LockType
    → ℕ
    → Bool
    → Timestamp
    → List Round
    → FileLockManager
    → Option (FileLockManager × LockResult)
acquire_lock path owner lock_type timeout_ms wait start rounds m =
    acquire_rounds path owner lock_type wait (start + timeout_ms) rounds m

abbrev pub release_message : LockOwner → String
release_message o =
    text_append "Lock held by "
      (text_append o.name (text_append " (ID: " (text_append o.id "), cannot release")))

unfoldable pub release_lock :
    FileSystem → FilePath → String → FileLockManager → FileLockManager × Result LockError (Unit {0})
release_lock fs given owner_id m =
    let path = normalize_path fs given in
    elim (get path m.locks) [
      | some lock ↦
          if not (str_eq lock.owner.id owner_id)
          then (m, err (lock_held_by_other (release_message lock.owner)))
          else (record m { locks = remove path m.locks }, ok tt)
      | none ↦ (m, err (lock_not_found path))
    ]

-- The paths whose locks pass a test, in the order of iteration.
unfoldable pub paths_where : (FileLock → Bool) → List (FilePath × FileLock) → List FilePath
paths_where p [] = []
paths_where p ((path, lock) ∷ m) =
    let rest = paths_where p m in if p lock then path ∷ rest else rest

-- The loop over collected paths.
unfoldable pub remove_all : List FilePath → List (FilePath × FileLock) → List (FilePath × FileLock)
remove_all [] m = m
remove_all (path ∷ paths) m = remove_all paths (remove path m)

-- Both sweeps: the manager without the collected locks, and how many they were.
sweep : (FileLock → Bool) → FileLockManager → FileLockManager × ℕ
unfolding paths_where remove_all
sweep p m =
    let paths = paths_where p m.locks in
    (record m { locks = remove_all paths m.locks }, length paths)

unfoldable pub release_all_locks : String → FileLockManager → FileLockManager × ℕ
unfolding sweep
release_all_locks owner_id m = sweep (λ lock. str_eq lock.owner.id owner_id) m

unfoldable pub cleanup_expired_locks : Timestamp → FileLockManager → FileLockManager × ℕ
unfolding sweep
cleanup_expired_locks now m = sweep (is_expired now) m

unfoldable pub is_locked : FileSystem → FilePath → Timestamp → FileLockManager → Bool
is_locked fs given now m = elim (get (normalize_path fs given) m.locks) [
  | some lock ↦ not (is_expired now lock)
  | none ↦ false
]

unfoldable pub get_lock_info : FileSystem → FilePath → FileLockManager → Option FileLock
get_lock_info fs given m = get (normalize_path fs given) m.locks

unfoldable pub get_all_locks : FileLockManager → List FileLock
get_all_locks m = map (λ (e : FilePath × FileLock). e.1) m.locks
