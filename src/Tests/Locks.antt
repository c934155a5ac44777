-- ===== src/Tests/Locks.antt =====
-- The lock manager at concrete inputs.
use ndc.Common.{ℕ, true, false, ◌≡◌, ◌↔◌, refl, some, List, [], ◌∷◌, arith}
use text.Mathlib.TextEquality.{eq_iff}
use ndc.Common.Maps.{get, insert, string_eq}
use ndc.Runtime.Locking
use ndc.Runtime.Locking.{
  LockOwner, LockType, read, write, FileLock, LockResult, FileLockManager, FileSystem, Round,
  normalize_path, is_expired, granted, try_acquire_lock, acquire_lock, release_lock,
  release_all_locks, cleanup_expired_locks, is_locked, get_lock_info, get_all_locks,
}
use ndc.Runtime.Locking.Grants.{IsBlocked, try_acquire_lock_lem}
use ndc.Runtime.Locking.Holding.{
  Call, acquire, release, release_all, cleanup, run, apply, lock_holds,
}
use ndc.Runtime.Locking.Waiting.{IsSettled, acquire_lock_ends}

-- Every path is as canonical as it gets, and every file exists.
abbrev disk : FileSystem
disk = record { canonicalize = λ p. some p; exists = λ p. true }

abbrev ann : LockOwner
ann = record { id = "ann"; name = "Ann"; acquired_at = 0 }

abbrev bob : LockOwner
bob = record { id = "bob"; name = "Bob"; acquired_at = 0 }

abbrev ann_lock : FileLock
ann_lock = record { path = "a.rs"; owner = ann; expires_at = some 1010; lock_type = read }

abbrev manager : FileLockManager
manager = record {
  locks = ("a.rs", ann_lock) ∷ [];
  default_timeout = some 1000;
  lock_dir = "/locks";
}

taken : (try_acquire_lock disk "a.rs" ann read 9 10 (Locking.new "/locks" (some 1000))).0 ≡ manager
unfolding try_acquire_lock Locking.new get insert
taken = refl

-- A lock for reading keeps other readers out.
readers_exclude : (try_acquire_lock disk "a.rs" bob read 20 20 manager).1.success ≡ false
unfolding try_acquire_lock get
readers_exclude = refl

expired_is_taken_over : (try_acquire_lock disk "a.rs" bob write 1011 1011 manager).1.success ≡ true
unfolding try_acquire_lock get
expired_is_taken_over = refl

locked_until : is_locked disk "a.rs" 1010 manager ≡ true
unfolding is_locked get
locked_until = refl

-- A lock that is past its time is still listed.
expired_is_listed :
    (is_locked disk "a.rs" 1011 manager ≡ false) × (get_all_locks manager ≡ ann_lock ∷ [])
unfolding is_locked get_all_locks get
expired_is_listed = (refl, refl)

try_acquire_lock_lem_example :
    let (m', r) = try_acquire_lock disk "a.rs" bob write 20 20 manager in
    ((r.success ≡ false) ↔ IsBlocked "a.rs" bob 20 manager)
    × (r.success ≡ false → m' ≡ manager)
    × (r.success ≡ true
        → (l : FileLock) × (r.lock ≡ some l)
          × (get "a.rs" m'.locks ≡ some l)
          × (l.owner.id ≡ bob.id))
try_acquire_lock_lem_example = try_acquire_lock_lem disk "a.rs" bob write 20 20 manager refl

abbrev taking : List Call
taking = acquire disk "a.rs" ann read 9 10 ∷ []

abbrev meddling : List Call
meddling =
    acquire disk "a.rs" bob write 20 20
    ∷ cleanup 900
    ∷ release disk "a.rs" "bob"
    ∷ release_all "bob"
    ∷ []

lock_holds_example :
    get "a.rs" (run meddling (run taking (Locking.new "/locks" (some 1000)))).locks ≡ some ann_lock
unfolding run apply try_acquire_lock Locking.new get insert
lock_holds_example =
    lock_holds "/locks" (some 1000) taking meddling "a.rs" ann_lock refl
      (refl, (refl, (ground (arith, eq_iff "ann" "bob"), (ground (arith, eq_iff "ann" "bob"), tt))))

abbrev round : ℕ → Round
round t = record { others = λ m. m; files = disk; checked = t; now = t; polled = t }

abbrev patience : List Round
patience = round 20 ∷ round 75 ∷ round 130 ∷ []

acquire_lock_ends_example :
    (answer : FileLockManager × LockResult) × (acquire_lock "a.rs" bob write 100 true 20 patience
        manager
      ≡ some answer)
    × IsSettled "a.rs" bob answer
acquire_lock_ends_example =
    acquire_lock_ends "a.rs" "a.rs" bob write 100 true 20 patience manager
      (omega arith, refl, refl, (omega arith, refl, refl, (omega arith, refl, refl, tt)))
      (omega arith)
