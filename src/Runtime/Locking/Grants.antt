-- ===== src/Runtime/Locking/Grants.antt =====
-- What one attempt to take a lock does, and one release.
use text.Mathlib.TextEquality.{eq_iff}
use ndc.Common.{
  String, true, false, ◌≡◌, ◌≢◌, ◌↔◌, refl, Option, none, some, List, arith, Option-cases, inl, inr,
  Bool-cases, is_ok,
}
use ndc.Common.Maps.{get, get-insert_self, get-remove_self, get-remove_ne, IsFunctional, string_eq}
use ndc.Common.Text.{str_eq}
use ndc.Core.Intent.{FilePath}
use ndc.Core.TaskState.{Timestamp}
use ndc.Runtime.Locking.{
  LockOwner, LockType, FileLock, LockResult, FileLockManager, FileSystem, normalize_path,
  is_expired, granted, refused, grant, meet, try_acquire_lock, release_lock, get_lock_info,
}

-- A live lock of another owner stands on the path.
abbrev pub IsBlocked : FilePath → LockOwner → Timestamp → FileLockManager → Type 0
IsBlocked path owner now m =
    (l : FileLock) × (get path m.locks ≡ some l)
    × (is_expired now l ≡ false)
    × (l.owner.id ≢ owner.id)

-- What an attempt comes to: refused by a live lock, answered by the lock that the caller has already,
-- or given a new lock.
data Attempted (path : FilePath) (owner : LockOwner) (checked : Timestamp) (m : FileLockManager)
    : FileLockManager × LockResult → Type 0 where
  turned_away :
      (l : FileLock) {message : String}
      → get path m.locks ≡ some l
      → is_expired checked l ≡ false
      → l.owner.id ≢ owner.id
      → Attempted path owner checked m (m, refused message (some l.owner))
  had_it :
      (l : FileLock)
      → get path m.locks ≡ some l
      → is_expired checked l ≡ false
      → l.owner.id ≡ owner.id
      → Attempted path owner checked m (m, granted l)
  got_it :
      {l : FileLock} {m' : FileLockManager}
      → ¬ IsBlocked path owner checked m
      → get path m'.locks ≡ some l
      → l.owner.id ≡ owner.id
      → Attempted path owner checked m (m', granted l)

module _ (path : FilePath) (owner : LockOwner) (lock_type : LockType) (checked now : Timestamp)
    (m : FileLockManager) where
  grant-Attempted :
      (locks : List (FilePath × FileLock))
      → ¬ IsBlocked path owner checked m
      → Attempted path owner checked m (grant path owner lock_type now (record m { locks = locks }))
  unfolding grant
  grant-Attempted locks free = got_it free (get-insert_self path _ locks) refl

  meet-Attempted :
      (l : FileLock)
      → get path m.locks ≡ some l
      → Attempted path owner checked m (meet path owner lock_type checked now m l)
  unfolding meet
  meet-Attempted l found = elim (Bool-cases (is_expired checked l)) [
    | inl gone ↦ rw gone (grant-Attempted _ (λ b. ground arith))
    | inr live ↦ elim (Bool-cases (str_eq l.owner.id owner.id)) [
      | inl same ↦ rw (live, same) (had_it l found live ((eq_iff _ _).0 same))
      | inr other ↦
          rw (live, other) (turned_away l found live (ground (arith, eq_iff l.owner.id owner.id)))
    ]
  ]

  found-Attempted :
      (found : Option FileLock)
      → get path m.locks ≡ found
      → Attempted path owner checked m (elim found [
        | some lock ↦ meet path owner lock_type checked now m lock
        | none ↦ grant path owner lock_type now m
      ])
  found-Attempted none e = grant-Attempted m.locks (λ b. ground arith)
  found-Attempted (some l) e = meet-Attempted l e

try_acquire_lock-Attempted :
    (fs : FileSystem) (given : FilePath) (owner : LockOwner) (lock_type : LockType)
    (checked now : Timestamp) (m : FileLockManager)
    → fs.exists (normalize_path fs given) ≡ true
    → Attempted
        (normalize_path fs given)
        owner
        checked
        m
        (try_acquire_lock fs given owner lock_type checked now m)
unfolding try_acquire_lock
try_acquire_lock-Attempted fs given owner lock_type checked now m h =
    rw h (found-Attempted (normalize_path fs given) owner lock_type checked now m _ refl)

-- One attempt on a file that exists fails exactly when a live lock of another owner stands on it, and
-- then changes nothing. Otherwise it succeeds, and the lock returned, which is the caller's, is the one
-- that stands on the file.
pub try_acquire_lock_lem :
    (fs : FileSystem) (given : FilePath) (owner : LockOwner) (lock_type : LockType)
    (checked now : Timestamp) (m : FileLockManager)
    → fs.exists (normalize_path fs given) ≡ true
    → let p = normalize_path fs given in
      let (m', r) = try_acquire_lock fs given owner lock_type checked now m in
      ((r.success ≡ false) ↔ IsBlocked p owner checked m)
      × (r.success ≡ false → m' ≡ m)
      × (r.success ≡ true
          → (l : FileLock) × (r.lock ≡ some l)
            × (get p m'.locks ≡ some l)
            × (l.owner.id ≡ owner.id))
try_acquire_lock_lem fs given owner lock_type checked now m h =
    go (try_acquire_lock-Attempted fs given owner lock_type checked now m h)
  where
    go :
        {a : FileLockManager × LockResult}
        → Attempted (normalize_path fs given) owner checked m a
        → ((a.1.success ≡ false) ↔ IsBlocked (normalize_path fs given) owner checked m)
          × (a.1.success ≡ false → a.0 ≡ m)
          × (a.1.success ≡ true
              → (l : FileLock) × (a.1.lock ≡ some l)
                × (get (normalize_path fs given) a.0.locks ≡ some l)
                × (l.owner.id ≡ owner.id))
    go (turned_away l found live other) =
        ((λ f. (l, found, live, other), λ b. refl), λ f. refl, λ s. absurd (cc))
    go (had_it l found live same) =
        ((λ f. absurd (cc), λ b. ground arith), λ f. refl, λ s. (l, refl, found, same))
    go (got_it {l = l} free found same) =
        ((λ f. absurd (cc), λ b. absurd (free b)), λ f. absurd (cc), λ s. (l, refl, found, same))

-- An owner that already has a live lock on a file is answered with that lock as it stands, whichever
-- type of lock is asked for: neither the type nor the expiry changes, in the answer or in the table.
try_acquire_lock_again :
    (fs : FileSystem) (given : FilePath) (owner : LockOwner) (lock_type : LockType)
    (checked now : Timestamp) (m : FileLockManager) (l : FileLock)
    → fs.exists (normalize_path fs given) ≡ true
    → get_lock_info fs given m ≡ some l
    → is_expired checked l ≡ false
    → l.owner.id ≡ owner.id
    → try_acquire_lock fs given owner lock_type checked now m ≡ (m, granted l)
unfolding try_acquire_lock get_lock_info
try_acquire_lock_again fs given owner lock_type checked now m l h found live same =
    rw (h, found, meet) (rw (live, (eq_iff l.owner.id owner.id).1 same))

-- A release by the owner of the lock on a file succeeds, and then no lock stands on the file and the
-- locks of the other paths stay; one by anybody else, or with no lock there, fails and changes nothing.
release_lock_lem :
    (fs : FileSystem) (given : FilePath) (owner_id : String) (m : FileLockManager)
    → IsFunctional m.locks
    → let p = normalize_path fs given in
      let (m', r) = release_lock fs given owner_id m in
      ((is_ok r ≡ true)
        ↔ ((l : FileLock) × (get_lock_info fs given m ≡ some l) × (l.owner.id ≡ owner_id)))
      × (is_ok r ≡ true
          → (get_lock_info fs given m' ≡ none)
            × ((q : FilePath) → q ≢ p → get q m'.locks ≡ get q m.locks))
      × (is_ok r ≡ false → m' ≡ m)
unfolding release_lock get_lock_info
release_lock_lem fs given owner_id m f =
    elim (Option-cases (get (normalize_path fs given) m.locks)) [
      | inl free ↦
          rw (free, release_lock)
            ((λ h. absurd (cc), λ s. absurd (cc (s.1))), λ h. absurd (cc), λ h. refl)
      | inr (l, found) ↦ elim (Bool-cases (str_eq l.owner.id owner_id)) [
        | inl same ↦
            rw (found, release_lock)
              (rw (same, release_lock)
                (
                  (λ h. (l, refl, (eq_iff _ _).0 same), λ s. refl),
                  λ h. (
                    get-remove_self (normalize_path fs given) m.locks f,
                    λ q n. get-remove_ne (normalize_path fs given) q m.locks f n,
                  ),
                  λ h. absurd (cc),
                ))
        | inr other ↦
            rw (found, release_lock)
              (rw (other, release_lock)
                (
                  (λ h. absurd (cc), λ s. ground (arith, eq_iff l.owner.id owner_id)),
                  λ h. absurd (cc),
                  λ h. refl,
                ))
      ]
    ]
