-- ===== src/Storage.antt =====
-- crates/storage/src/memory.rs: tasks and memories kept in memory, the oldest of which give way.
pub mod Queue
pub mod Refined
pub mod Contract
use ndc.Common.{
  ℕ, String, Bool, true, false, Option, none, some, List, [], ◌∷◌, if◌then◌else◌, leb, push, length,
  retain, map,
}
use ndc.Common.Maps.{Eq, get, insert, remove, nat_eq}
use ndc.Core.Task.{Task, has_tags}
use ndc.Core.TaskState.{TaskId}
use ndc.Core.Intent.{MemoryId}
use ndc.Core.MemoryEntry.{MemoryEntry}

-- The pair that a mutex guards: the map, and the ids in the order of their first insertion.
pub record Shelf (V : Type 0) : Type 0 where
  pub entries : List (ℕ × V)
  pub order : List ℕ

module _ {V : Type 0} where
  abbrev pub empty_shelf : Shelf V
  empty_shelf = record { entries = []; order = [] }

  -- The loop that evicts, for a capacity.
  unfoldable pub evict : ℕ → List ℕ → List (ℕ × V) → Shelf V
  unfolding remove
  evict capacity [] m = record { entries = m; order = [] }
  evict capacity (oldest ∷ order) m =
      let rest = evict capacity order (remove oldest m) in
      if leb capacity (length m) then rest else record { entries = m; order = oldest ∷ order }

  -- `map.contains_key(&k)`.
  abbrev contains_key : ℕ → List (ℕ × V) → Bool
  contains_key k m = elim (get k m) [ none ↦ false | some v ↦ true ]

  unfoldable pub save : ℕ → ℕ → V → Shelf V → Shelf V
  unfolding get insert evict
  save capacity k v s =
      let room = evict capacity s.order s.entries in
      let s' = if contains_key k s.entries then s else record room { order = push room.order k } in
      record s' { entries = insert k v s'.entries }

  unfoldable pub values : List (ℕ × V) → List V
  values m = map (λ (e : ℕ × V). e.1) m

pub record MemoryStorage : Type 0 where
  pub tasks : Shelf Task
  pub memories : Shelf MemoryEntry
  pub max_tasks : ℕ
  pub max_memories : ℕ

abbrev pub with_capacity : ℕ → ℕ → MemoryStorage
with_capacity max_tasks max_memories = record {
  tasks = empty_shelf;
  memories = empty_shelf;
  max_tasks = max_tasks;
  max_memories = max_memories;
}

abbrev pub new : MemoryStorage
new = with_capacity 10000 10000

unfoldable pub save_task : Task → MemoryStorage → MemoryStorage
unfolding save
save_task t s = record s { tasks = save s.max_tasks t.id t s.tasks }

unfoldable pub get_task : TaskId → MemoryStorage → Option Task
unfolding get
get_task id s = get id s.tasks.entries

unfoldable pub list_tasks : MemoryStorage → List Task
unfolding values
list_tasks s = values s.tasks.entries

unfoldable pub list_tasks_by_tags : List String → MemoryStorage → List Task
unfolding values
list_tasks_by_tags tags s = retain (λ (t : Task). has_tags tags t) (values s.tasks.entries)

unfoldable pub save_memory : MemoryEntry → MemoryStorage → MemoryStorage
unfolding save
save_memory m s = record s { memories = save s.max_memories m.id m s.memories }

unfoldable pub get_memory : MemoryId → MemoryStorage → Option MemoryEntry
unfolding get
get_memory id s = get id s.memories.entries
