-- ===== src/Tests/Stores.antt =====
-- Writes to a storage with little room.
use ndc.Common.{◌-◌, ◌≤◌, suc, ◌≡◌, refl, none, some, List, [], ◌∷◌, length, ℕ}
use ndc.Common.Maps.{get, insert, remove, nat_eq}
use ndc.Core.Agent.{implementer}
use ndc.Core.Intent.{MemoryId}
use ndc.Core.Memory
use ndc.Core.Memory.{ephemeral}
use ndc.Core.MemoryEntry.{MemoryEntry, general}
use ndc.Core.Task
use ndc.Core.Task.{Task}
use ndc.Core.TaskState.{TaskId}
use ndc.Storage.{
  evict, save, save_task, get_task, list_tasks, save_memory, get_memory, with_capacity, values,
}
use ndc.Storage.Contract.{
  Write, task, memory, apply, run, enqueue_all, no_entries, run-refines, run-bounds,
}
use ndc.Storage.Queue.{keys}

abbrev chore : ℕ → Task
chore id = Task.new id 100 100 "Chore" "Sweep" implementer

abbrev note : ℕ → MemoryEntry
note id = record {
  id = id;
  content = general "note" "";
  embedding = [];
  relations = [];
  metadata = record {
    stability = ephemeral;
    created_at = 1;
    created_by = 2;
    source_task = 3;
    version = 1;
    modified_at = none;
    tags = [];
  };
  access_control = Memory.new 2 ephemeral 1;
}

-- The third task takes the place of the first, which was changed in between.
abbrev writes : List Write
writes = task (chore 1) ∷ task (chore 2) ∷ task (chore 1) ∷ memory (note 9) ∷ task (chore 3) ∷ []

first_gone :
    (get_task 1 (run writes (with_capacity 2 2)) ≡ none)
    × (get_task 2 (run writes (with_capacity 2 2)) ≡ some (chore 2))
    × ((run writes (with_capacity 2 2)).tasks.order ≡ 2 ∷ 3 ∷ [])
unfolding run apply save_task save_memory save evict get insert remove get_task Task.new
first_gone = (refl, refl, refl)

-- With no room at all a storage keeps the last task.
one_kept : length (list_tasks (run writes (with_capacity 0 0))) ≡ 1
unfolding run apply save_task save_memory save evict get insert remove list_tasks values Task.new
one_kept = refl

run-refines_example :
    let s = run writes (with_capacity 2 2) in
    let q = enqueue_all 2 2 writes no_entries in
    ((id : TaskId) → get_task id s ≡ get id q.tasks)
    × ((id : MemoryId) → get_memory id s ≡ get id q.memories)
    × (s.tasks.order ≡ keys q.tasks)
    × (s.memories.order ≡ keys q.memories)
run-refines_example = run-refines 2 2 writes

run-bounds_example :
    let s = run writes (with_capacity 2 2) in
    (length (list_tasks s) ≤ suc (2 - 1))
    × (length (values s.memories.entries) ≤ suc (2 - 1))
    × (length s.tasks.order ≡ length (list_tasks s))
    × (length s.memories.order ≡ length (values s.memories.entries))
run-bounds_example = run-bounds 2 2 writes
