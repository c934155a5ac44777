-- ===== src/Tests/Storing.antt =====
-- Sagas that are saved, and loaded by a new orchestrator.
use ndc.Common.{◌≡◌, refl, none, List, [], ◌∷◌, ok, err, length}
use ndc.Common.Maps.{get, insert, remove, string_eq}
use ndc.Runtime.Saga
use ndc.Runtime.Saga.{Saga, SagaState, SagaOrchestrator, create_saga, get_saga, with_storage}
use ndc.Runtime.Saga.Storage.{
  new_storage, save_saga, load_saga, delete_saga, stored_sagas, list_sagas, insert_all,
  load_from_storage,
}
use ndc.Runtime.Saga.Storage.Recovery.{save_all, latest, load-save_all}

abbrev trip : Saga
trip = create_saga "trip" 0 0 "Trip" none

abbrev ended : Saga
ended = record trip { state = SagaState.completed }

abbrev move : Saga
move = create_saga "move" 0 0 "Move" none

abbrev saves : List Saga
saves = trip ∷ move ∷ ended ∷ []

abbrev restarted : SagaOrchestrator
restarted =
    (load_from_storage (ok (stored_sagas (save_all saves new_storage))) (with_storage Saga.new)).0

loaded : list_sagas restarted ≡ ended ∷ move ∷ []
unfolding list_sagas load_from_storage insert_all stored_sagas save_all save_saga with_storage
    Saga.new create_saga insert
loaded = refl

deleted : load_saga "trip" (delete_saga "trip" (save_saga trip new_storage)) ≡ none
unfolding load_saga delete_saga save_saga create_saga get insert remove
deleted = refl

nothing_configured : (load_from_storage (ok saves) Saga.new).1 ≡ err "No storage configured"
unfolding load_from_storage Saga.new
nothing_configured = refl

load-save_all_example :
    let s = save_all saves new_storage in
    let (o, answer) = load_from_storage (ok (stored_sagas s)) (with_storage Saga.new) in
    (get_saga "trip" o ≡ latest "trip" saves)
    × (load_saga "trip" s ≡ latest "trip" saves)
    × (answer ≡ ok (length s.sagas))
load-save_all_example = load-save_all saves "trip"
