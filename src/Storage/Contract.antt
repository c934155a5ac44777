-- ===== src/Storage/Contract.antt =====
-- crates/storage/src/memory.rs: sequences of writes to `MemoryStorage`, and to the two queues that its
-- contract keeps.
use ndc.Common.{ℕ, suc, ◌-◌, ◌≤◌, ◌≡◌, refl, ap, ◌∙◌, List, [], ◌∷◌, length, arith}
use ndc.Common.Maps.{get, nat_eq}
use ndc.Core.Task.{Task}
use ndc.Core.TaskState.{TaskId}
use ndc.Core.Intent.{MemoryId}
use ndc.Core.MemoryEntry.{MemoryEntry}
use ndc.Storage.{
  MemoryStorage, Shelf, save_task, get_task, list_tasks, save_memory, get_memory, with_capacity,
  values,
}
use ndc.Storage.Queue.{put, put-le, keys}
use ndc.Storage.Refined.{Represents, save-Represents, empty-Represents}

pub data Write : Type 0 where
  task : Task → Write
  memory : MemoryEntry → Write

unfoldable pub apply : Write → MemoryStorage → MemoryStorage
unfolding save_task save_memory
apply (task t) s = save_task t s
apply (memory m) s = save_memory m s

unfoldable pub run : List Write → MemoryStorage → MemoryStorage
unfolding apply
run [] s = s
run (w ∷ ws) s = run ws (apply w s)

pub record Queues : Type 0 where
  pub tasks : List (TaskId × Task)
  pub memories : List (MemoryId × MemoryEntry)

unfoldable pub enqueue : ℕ → ℕ → Write → Queues → Queues
unfolding put
enqueue max_tasks max_memories (task t) q = record q { tasks = put max_tasks t.id t q.tasks }
enqueue max_tasks max_memories (memory m) q = record q {
  memories = put max_memories m.id m q.memories;
}

unfoldable pub enqueue_all : ℕ → ℕ → List Write → Queues → Queues
unfolding enqueue
enqueue_all max_tasks max_memories [] q = q
enqueue_all max_tasks max_memories (w ∷ ws) q =
    enqueue_all max_tasks max_memories ws (enqueue max_tasks max_memories w q)

abbrev pub no_entries : Queues
no_entries = record { tasks = []; memories = [] }

record Implements (max_tasks max_memories : ℕ) (s : MemoryStorage) (q : Queues) : Type 0 where
  task_limit : s.max_tasks ≡ max_tasks
  memory_limit : s.max_memories ≡ max_memories
  tasks : Represents s.tasks q.tasks
  memories : Represents s.memories q.memories
  few_tasks : length q.tasks ≤ suc (max_tasks - 1)
  few_memories : length q.memories ≤ suc (max_memories - 1)

apply-Implements :
    (n k : ℕ) (w : Write) (s : MemoryStorage) (q : Queues)
    → Implements n k s q
    → Implements n k (apply w s) (enqueue n k w q)
unfolding apply enqueue save_task save_memory
apply-Implements n k (task t) s q i = record {
  task_limit = i.task_limit;
  memory_limit = i.memory_limit;
  tasks = rw i.task_limit (save-Represents n t.id t s.tasks q.tasks i.tasks);
  memories = i.memories;
  few_tasks = put-le n t.id t q.tasks i.few_tasks;
  few_memories = i.few_memories;
}
apply-Implements n k (memory m) s q i = record {
  task_limit = i.task_limit;
  memory_limit = i.memory_limit;
  tasks = i.tasks;
  memories = rw i.memory_limit (save-Represents k m.id m s.memories q.memories i.memories);
  few_tasks = i.few_tasks;
  few_memories = put-le k m.id m q.memories i.few_memories;
}

run-Implements :
    (n k : ℕ) (ws : List Write) (s : MemoryStorage) (q : Queues)
    → Implements n k s q
    → Implements n k (run ws s) (enqueue_all n k ws q)
unfolding run enqueue_all
run-Implements n k [] s q i = i
run-Implements n k (w ∷ ws) s q i =
    run-Implements n k ws (apply w s) (enqueue n k w q) (apply-Implements n k w s q i)

runs-Implements :
    (n k : ℕ) (ws : List Write)
    → Implements n k (run ws (with_capacity n k)) (enqueue_all n k ws no_entries)
runs-Implements n k ws = run-Implements n k ws (with_capacity n k) no_entries (record {
  task_limit = refl;
  memory_limit = refl;
  tasks = empty-Represents;
  memories = empty-Represents;
  few_tasks = omega arith;
  few_memories = omega arith;
})

length-values : {V : Type 0} (m : List (ℕ × V)) → length (values m) ≡ length m
unfolding values
length-values [] = refl
length-values (e ∷ m) = ap suc (length-values m)

length-keys : {V : Type 0} (q : List (ℕ × V)) → length (keys q) ≡ length q
length-keys [] = refl
length-keys (e ∷ q) = ap suc (length-keys q)

Represents-length :
    {V : Type 0} (s : Shelf V) (q : List (ℕ × V))
    → Represents s q
    → (length (values s.entries) ≡ length q) × (length s.order ≡ length q)
Represents-length s q r = (length-values s.entries ∙ r.sized, ap length r.ordered ∙ length-keys q)

-- After any writes to a new storage, a look-up finds what the queues of the contract hold: a queue
-- changes an entry with a known id in its place, and puts an entry with a new id last, for which its
-- oldest entries make room. The storage remembers the order of the queues.
pub run-refines :
    (max_tasks max_memories : ℕ) (ws : List Write)
    → let s = run ws (with_capacity max_tasks max_memories) in
      let q = enqueue_all max_tasks max_memories ws no_entries in
      ((id : TaskId) → get_task id s ≡ get id q.tasks)
      × ((id : MemoryId) → get_memory id s ≡ get id q.memories)
      × (s.tasks.order ≡ keys q.tasks)
      × (s.memories.order ≡ keys q.memories)
unfolding get_task get_memory
run-refines max_tasks max_memories ws =
    let i = runs-Implements max_tasks max_memories ws in
    (i.tasks.same, i.memories.same, i.tasks.ordered, i.memories.ordered)

-- However much is written to a new storage, it lists no more tasks than its capacity, or one when the
-- capacity is 0, and so for the memories; the ids kept beside them are as many.
pub run-bounds :
    (max_tasks max_memories : ℕ) (ws : List Write)
    → let s = run ws (with_capacity max_tasks max_memories) in
      (length (list_tasks s) ≤ suc (max_tasks - 1))
      × (length (values s.memories.entries) ≤ suc (max_memories - 1))
      × (length s.tasks.order ≡ length (list_tasks s))
      × (length s.memories.order ≡ length (values s.memories.entries))
unfolding list_tasks
run-bounds max_tasks max_memories ws =
    let s = run ws (with_capacity max_tasks max_memories) in
    let q = enqueue_all max_tasks max_memories ws no_entries in
    let i = runs-Implements max_tasks max_memories ws in
    let (listed, order) = Represents-length s.tasks q.tasks i.tasks in
    let (kept, ids) = Represents-length s.memories q.memories i.memories in
    (omega (arith, i.few_tasks), omega (arith, i.few_memories), omega arith, omega arith)
