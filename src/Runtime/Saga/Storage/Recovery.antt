-- ===== src/Runtime/Saga/Storage/Recovery.antt =====
-- crates/runtime/src/workflow.rs: what an orchestrator finds that starts from a storage.
use text.Mathlib.TextEquality.{eq_iff}
use mathlib.Core.Path.{subst}
use ndc.Common.{
  String, ◌≡◌, refl, ◌∙◌, sym, ap, Option, none, some, List, [], ◌∷◌, ok, map, length, arith, All,
  if◌then◌else◌,
}
use ndc.Common.Text.{str_eq}
use ndc.Common.Maps.{get, insert, string_eq, get-insert, IsFunctional, insert-IsFunctional}
use ndc.Runtime.Saga
use ndc.Runtime.Saga.{Saga, SagaOrchestrator, get_saga, with_storage}
use ndc.Runtime.Saga.Storage.{
  MemorySagaStorage, new_storage, save_saga, load_saga, stored_sagas, insert_all, load_from_storage,
}

-- The saves of these sagas, one after the other.
unfoldable pub save_all : List Saga → MemorySagaStorage → MemorySagaStorage
save_all [] s = s
save_all (saga ∷ sagas) s = save_all sagas (save_saga saga s)

-- The last of the sagas with an id.
unfoldable pub latest : String → List Saga → Option Saga
latest id [] = none
latest id (saga ∷ sagas) = elim (latest id sagas) [
  | some found ↦ some found
  | none ↦ if str_eq saga.id id then some saga else none
]

-- Every saga stands under its id.
abbrev IsKeyed : List (String × Saga) → Type 0
IsKeyed = All (λ (e : String × Saga). e.0 ≡ e.1.id)

get-insert_all :
    (id : String) (sagas : List Saga) (m : List (String × Saga))
    → get id (insert_all sagas m)
      ≡ elim (latest id sagas) [ some saga ↦ some saga | none ↦ get id m ]
unfolding insert_all latest
get-insert_all id [] m = refl
get-insert_all id (saga ∷ sagas) m =
    ground (arith, get-insert saga.id id saga m, get-insert_all id sagas (insert saga.id saga m))

sagas-save_all :
    (sagas : List Saga) (s : MemorySagaStorage)
    → (save_all sagas s).sagas ≡ insert_all sagas s.sagas
unfolding save_all save_saga insert_all
sagas-save_all [] s = refl
sagas-save_all (saga ∷ sagas) s = sagas-save_all sagas (save_saga saga s)

insert-IsKeyed :
    (saga : Saga) (m : List (String × Saga)) → IsKeyed m → IsKeyed (insert saga.id saga m)
unfolding insert
insert-IsKeyed saga [] k = (refl, tt)
insert-IsKeyed saga ((j, w) ∷ m) k = ground (arith, insert-IsKeyed saga m k.1)

insert_all-IsKeyed :
    (sagas : List Saga) (m : List (String × Saga)) → IsKeyed m → IsKeyed (insert_all sagas m)
unfolding insert_all
insert_all-IsKeyed [] m k = k
insert_all-IsKeyed (saga ∷ sagas) m k = insert_all-IsKeyed sagas _ (insert-IsKeyed saga m k)

insert_all-IsFunctional :
    (sagas : List Saga) (m : List (String × Saga))
    → IsFunctional m
    → IsFunctional (insert_all sagas m)
unfolding insert_all
insert_all-IsFunctional [] m f = f
insert_all-IsFunctional (saga ∷ sagas) m f =
    insert_all-IsFunctional sagas _ (insert-IsFunctional saga.id saga m f)

latest-values :
    (id : String) (m : List (String × Saga))
    → IsKeyed m
    → IsFunctional m
    → latest id (map (λ (e : String × Saga). e.1) m) ≡ get id m
unfolding latest get
latest-values id [] k f = refl
latest-values id ((j, w) ∷ m) k f =
    ground (arith, eq_iff j id, eq_iff w.id id, latest-values id m k.1 f.1)

length-values : (m : List (String × Saga)) → length (map (λ (e : String × Saga). e.1) m) ≡ length m
length-values [] = refl
length-values (e ∷ m) = omega (arith, length-values m)

get-insert_all_new :
    (id : String) (sagas : List Saga) → get id (insert_all sagas []) ≡ latest id sagas
unfolding get
get-insert_all_new id sagas = ground (arith, get-insert_all id sagas [])

get-save_all :
    (id : String) (saves : List Saga) → get id (save_all saves new_storage).sagas ≡ latest id saves
get-save_all id saves =
    ap (λ (m : List (String × Saga)). get id m) (sagas-save_all saves new_storage)
    ∙ get-insert_all_new id saves

latest-stored :
    (id : String) (saves : List Saga)
    → latest id (stored_sagas (save_all saves new_storage))
      ≡ get id (save_all saves new_storage).sagas
unfolding stored_sagas
latest-stored id saves =
    latest-values id (save_all saves new_storage).sagas
      (subst IsKeyed (sym (sagas-save_all saves new_storage)) (insert_all-IsKeyed saves [] tt))
      (subst IsFunctional (sym (sagas-save_all saves new_storage))
        (insert_all-IsFunctional saves [] tt))

-- A new orchestrator that loads its sagas from a storage in memory has, under each id, what was saved
-- last under that id, and so has the storage itself; it is told how many sagas there are.
pub load-save_all :
    (saves : List Saga) (id : String)
    → let s = save_all saves new_storage in
      let (o, answer) = load_from_storage (ok (stored_sagas s)) (with_storage Saga.new) in
      (get_saga id o ≡ latest id saves)
      × (load_saga id s ≡ latest id saves)
      × (answer ≡ ok (length s.sagas))
unfolding load_from_storage get_saga load_saga with_storage Saga.new stored_sagas
load-save_all saves id = (
  get-insert_all_new id (stored_sagas (save_all saves new_storage))
      ∙ latest-stored id saves
      ∙ get-save_all id saves,
  get-save_all id saves,
  ap ok (length-values (save_all saves new_storage).sagas),
)
