-- ===== src/Runtime/Locking/Sweeping.antt =====
-- Releasing all locks of an owner, and cleaning up the expired ones.
use text.Mathlib.TextEquality.{eq_iff}
use ndc.Common.{
  ℕ, ◌+◌, String, Bool, ◌≡◌, ◌≢◌, refl, ap, ◌∙◌, none, some, List, [], ◌∷◌, arith, if◌then◌else◌,
  inl, inr, Bool-cases, All, length,
}
use ndc.Common.Maps.{get, remove, IsFunctional, string_eq}
use ndc.Common.Text.{str_eq}
use ndc.Core.Intent.{FilePath}
use ndc.Core.TaskState.{Timestamp}
use ndc.Runtime.Locking.{
  FileLock, FileLockManager, is_expired, paths_where, remove_all, sweep, release_all_locks,
  cleanup_expired_locks,
}

abbrev Table : Type 0
Table = List (FilePath × FileLock)

-- The entries that do not pass the test.
keep : (FileLock → Bool) → Table → Table
keep p [] = []
keep p ((path, l) ∷ m) = if p l then keep p m else (path, l) ∷ keep p m

paths_where-ne :
    (p : FileLock → Bool) (k : FilePath) (m : Table)
    → get k m ≡ none
    → All (λ j. k ≢ j) (paths_where p m)
unfolding paths_where get
paths_where-ne p k [] h = tt
paths_where-ne p k ((j, l) ∷ m) h = elim (Bool-cases (p l)) [
  | inl hit ↦ rw hit ((λ e. ground (arith, eq_iff j k)), paths_where-ne p k m (ground arith))
  | inr miss ↦ rw miss (paths_where-ne p k m (ground arith))
]

remove_all_skip :
    (ks : List FilePath) (k : FilePath) (l : FileLock) (m : Table)
    → All (λ j. k ≢ j) ks
    → remove_all ks ((k, l) ∷ m) ≡ (k, l) ∷ remove_all ks m
unfolding remove_all remove
remove_all_skip [] k l m h = refl
remove_all_skip (j ∷ ks) k l m h =
    ground (arith, eq_iff k j, remove_all_skip ks k l (remove j m) h.1)

remove_all-keep :
    (p : FileLock → Bool) (m : Table) → IsFunctional m → remove_all (paths_where p m) m ≡ keep p m
unfolding paths_where remove_all remove keep
remove_all-keep p [] f = refl
remove_all-keep p ((k, l) ∷ m) f = elim (Bool-cases (p l)) [
  | inl hit ↦ rw hit (ground (arith, eq_iff k k, remove_all-keep p m f.1))
  | inr miss ↦ rw miss (
      remove_all_skip (paths_where p m) k l m (paths_where-ne p k m f.0)
      ∙ ap (◌∷◌ (k, l)) (remove_all-keep p m f.1))
]

get-keep :
    (p : FileLock → Bool) (q : FilePath) (m : Table)
    → IsFunctional m
    → get q (keep p m) ≡ elim (get q m) [ some l ↦ if p l then none else some l | none ↦ none ]
unfolding keep get
get-keep p q [] f = refl
get-keep p q ((k, l) ∷ m) f = ground (arith, eq_iff k q, get-keep p q m f.1)

keep-IsFunctional : (p : FileLock → Bool) (m : Table) → IsFunctional m → IsFunctional (keep p m)
unfolding keep
keep-IsFunctional p [] f = tt
keep-IsFunctional p ((k, l) ∷ m) f = ground (arith, get-keep p k m f.1, keep-IsFunctional p m f.1)

length-keep :
    (p : FileLock → Bool) (m : Table) → length (keep p m) + length (paths_where p m) ≡ length m
unfolding keep paths_where
length-keep p [] = refl
length-keep p ((k, l) ∷ m) = ground (arith, length-keep p m)

-- What a sweep of the locks that pass a test has done.
abbrev pub Swept : (FileLock → Bool) → FileLockManager → FileLockManager × ℕ → Type 0
Swept p m (m', n) =
    ((q : FilePath)
      → get q m'.locks
        ≡ elim (get q m.locks) [ some l ↦ if p l then none else some l | none ↦ none ])
    × (length m'.locks + n ≡ length m.locks)
    × IsFunctional m'.locks

sweep-Swept :
    (p : FileLock → Bool) (m : FileLockManager) → IsFunctional m.locks → Swept p m (sweep p m)
unfolding sweep
sweep-Swept p m f =
    rw (remove_all-keep p m.locks f)
      ((λ q. get-keep p q m.locks f), length-keep p m.locks, keep-IsFunctional p m.locks f)

-- Releasing all locks of an owner removes from the table exactly the locks of that owner, leaves every
-- other lock on its path, and answers how many it removed.
pub release_all_locks-Swept :
    (owner_id : String) (m : FileLockManager)
    → IsFunctional m.locks
    → Swept (λ l. str_eq l.owner.id owner_id) m (release_all_locks owner_id m)
unfolding release_all_locks
release_all_locks-Swept owner_id m f = sweep-Swept _ m f

-- Cleaning up at a time removes from the table exactly the locks that have expired by then, leaves every
-- other lock on its path, and answers how many it removed.
pub cleanup_expired_locks-Swept :
    (now : Timestamp) (m : FileLockManager)
    → IsFunctional m.locks
    → Swept (is_expired now) m (cleanup_expired_locks now m)
unfolding cleanup_expired_locks
cleanup_expired_locks-Swept now m f = sweep-Swept _ m f
