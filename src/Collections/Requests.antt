-- ===== src/Collections/Requests.antt =====
-- The requests that apps/api/src/collections/services/collections.service.ts serves, one after the
-- other, and what a request that succeeds does to the tables.
use moddery.Base.{ℕ, List, [], ◌∷◌, Text, ℤ, Result, ok, err}
use moddery.Collections.{
  Deps, State, CreateCollectionInput, UpdateCollectionInput, add_project_to_collection,
  create_collection, delete_collection, remove_project_from_collection, update_collection,
  update_collection_project,
}

pub data CollectionRequest : Type 0 where
  create_request : (id : Text) → CreateCollectionInput → CollectionRequest
  update_request : UpdateCollectionInput → CollectionRequest
  delete_request : (collection_id : Text) → CollectionRequest
  add_request : (collection_id project_slug : Text) → CollectionRequest
  remove_request : (collection_id project_slug : Text) → CollectionRequest
  order_request : (collection_id project_slug : Text) → (sort_order : ℤ) → CollectionRequest

-- The tables in a handler's reply.
abbrev pub tables_of {ℓ κ} : {A : Type ℓ} {B : Type κ} → Result (A × B) → Result A
tables_of (ok (tables, reply)) = ok tables
tables_of (err error) = err error

abbrev pub if_ok {ℓ} : {A : Type ℓ} → Result A → A → A
if_ok (ok new) old = new
if_ok (err error) old = old

module _ (d : Deps) where
  unfoldable pub collection_step : ℕ → CollectionRequest → State d → Result (State d)
  unfolding create_collection update_collection delete_collection add_project_to_collection
      remove_project_from_collection update_collection_project
  collection_step user_id (create_request id input) s =
      tables_of (create_collection d id input user_id s)
  collection_step user_id (update_request input) s = tables_of (update_collection d input user_id s)
  collection_step user_id (delete_request collection_id) s =
      delete_collection d collection_id user_id s
  collection_step user_id (add_request collection_id project_slug) s =
      tables_of (add_project_to_collection d collection_id project_slug user_id s)
  collection_step user_id (remove_request collection_id project_slug) s =
      tables_of (remove_project_from_collection d collection_id project_slug user_id s)
  collection_step user_id (order_request collection_id project_slug sort_order) s =
      tables_of (update_collection_project d collection_id project_slug sort_order user_id s)

  -- A request that fails leaves the tables as they were.
  unfoldable pub collection_run : List (ℕ × CollectionRequest) → State d → State d
  unfolding collection_step
  collection_run [] s = s
  collection_run ((user_id, request) ∷ requests) s =
      collection_run requests (if_ok (collection_step user_id request s) s)
