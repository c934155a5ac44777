-- ===== src/Runtime/Saga/Storage.antt =====
-- crates/runtime/src/workflow.rs: `MemorySagaStorage`, and an orchestrator that loads its sagas.
pub mod Recovery
use ndc.Common.{ℕ, String, List, [], ◌∷◌, Result, ok, err, map, length, not, if◌then◌else◌, Option}
use ndc.Common.Maps.{get, insert, remove, string_eq}
use ndc.Runtime.Saga.{Saga, SagaOrchestrator}

pub record MemorySagaStorage : Type 0 where
  pub sagas : List (String × Saga)

abbrev pub new_storage : MemorySagaStorage
new_storage = record { sagas = [] }

unfoldable pub save_saga : Saga → MemorySagaStorage → MemorySagaStorage
save_saga saga s = record s { sagas = insert saga.id saga s.sagas }

unfoldable pub load_saga : String → MemorySagaStorage → Option Saga
load_saga id s = get id s.sagas

unfoldable pub stored_sagas : MemorySagaStorage → List Saga
stored_sagas s = map (λ (e : String × Saga). e.1) s.sagas

unfoldable pub delete_saga : String → MemorySagaStorage → MemorySagaStorage
delete_saga id s = record s { sagas = remove id s.sagas }

unfoldable pub list_sagas : SagaOrchestrator → List Saga
list_sagas o = map (λ (e : String × Saga). e.1) o.sagas

-- The loop of `load_from_storage`.
unfoldable pub insert_all : List Saga → List (String × Saga) → List (String × Saga)
insert_all [] m = m
insert_all (saga ∷ sagas) m = insert_all sagas (insert saga.id saga m)

load_answer : Result String (List Saga) → SagaOrchestrator → SagaOrchestrator × Result String ℕ
unfolding insert_all
load_answer (ok sagas) o = (record o { sagas = insert_all sagas o.sagas }, ok (length sagas))
load_answer (err e) o = (o, err e)

-- With what the storage answers to `list_sagas`.
unfoldable pub load_from_storage :
    Result String (List Saga) → SagaOrchestrator → SagaOrchestrator × Result String ℕ
unfolding load_answer
load_from_storage answer o =
    if not o.storage then (o, err "No storage configured") else load_answer answer o
