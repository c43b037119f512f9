-- ===== src/Collections/Outcomes.antt =====
-- Each request of apps/api/src/collections/services/collections.service.ts that succeeds has the effect
-- that it asks for.
use moddery.Base.{
  ℕ, ◌≡◌, refl, sym, ap, ◌∙◌, Text, teq, teq_sound, trim, is_empty, ◌==◌, ◌&&◌, true, false, not,
  ==_iff, ℤ, Result, ok, err, bad_request, not_found, internal_error, or_throw, throw_if,
  required_text, nullable_trim, >>=-eq-ok, or_throw-eq-ok, throw_if-eq-ok, ok-first, ok_injective,
  true_of_not, Bool-cases, inl, inr, String, arith,
}
use moddery.Database.{upsert}
use moddery.Collections.{
  Collection, CollectionProject, CollectedProject, Deps, State, CreateCollectionInput,
  UpdateCollectionInput, CollectionContract, is_collection, is_owned, is_item, is_item_of,
  has_slug_of, has_other_slug, updated, find_owned, find_item, joins_slug, answer,
  find_collection_for_owner, updated, normalize_create_collection_input,
  normalize_update_collection_input, add_project_to_collection, create_collection,
  delete_collection, remove_project_from_collection, update_collection, update_collection_project,
}
use moddery.Collections.Requests.{
  CollectionRequest, create_request, update_request, delete_request, add_request, remove_request,
  order_request, tables_of, collection_step,
}
use moddery.Collections.Effects.{
  Effect, created, changed, dropped, added, removed, ordered, IsOwn, IsItemOf, new_item, IsEffect,
  IsAsked,
}

zero_of_free : (n : ℕ) → not (n == 0) ≡ false → n ≡ 0
zero_of_free n k = (==_iff n 0).0 (true_of_not (n == 0) k)

required_text-trim :
    (value : Text) (message : String) (t : Text)
    → required_text value message ≡ ok t
    → t ≡ trim value
unfolding required_text
required_text-trim value message t h = elim (Bool-cases (is_empty (trim value))) [
  | inl e ↦ cc (rw (e, required_text) at h)
  | inr e ↦ ok_injective (rw (e, required_text) at h)
]

module _ (d : Deps) where
  find_owned-IsOwn :
      (id : Text) (user_id : ℕ) (s : State d) (c : Collection)
      → find_owned d id user_id s ≡ ok c
      → IsOwn d user_id s c × (c.id ≡ id)
  find_owned-IsOwn id user_id s c h =
      let (held, fits) =
        d.collections.find_sound (is_owned id user_id) s.collections (or_throw-eq-ok _ _ h) in
      let named : teq c.id id ≡ true = ground arith in
      let own : (c.owner_id == user_id) ≡ true = ground arith in
      ((held, (==_iff c.owner_id user_id).0 own), teq_sound c.id id named)

  find_item-IsItemOf :
      (c : Collection) (slug : Text) (s : State d) (i : CollectionProject)
      → find_item d c.id slug s ≡ ok i
      → IsItemOf d s c i × (joins_slug d slug s i ≡ true)
  find_item-IsItemOf c slug s i h =
      let p = λ (i : CollectionProject). is_item_of c.id i && joins_slug d slug s i in
      let (held, fits) = d.items.find_sound p s.items (or_throw-eq-ok _ _ h) in
      let mine : teq i.collection_id c.id ≡ true = ground arith in
      ((held, teq_sound i.collection_id c.id mine), ground arith)

  answer-tables :
      (id : Text) (user_id : ℕ) (s t : State d) (reply : CollectionContract)
      → answer d id user_id s ≡ ok (t, reply)
      → t ≡ s
  unfolding answer
  answer-tables id user_id s t reply h =
      let (contract, read, h₁) = >>=-eq-ok (find_collection_for_owner d id user_id s) _ h in
      ok-first h₁

  tables_of-eq-ok :
      {B : Type 0} (r : Result (State d × B)) (t : State d)
      → tables_of r ≡ ok t
      → (reply : B) × (r ≡ ok (t, reply))
  tables_of-eq-ok (ok (tables, reply)) t h = (reply, cc)
  tables_of-eq-ok (err error) t h = cc

  create-effect :
      (id : Text) (input : CreateCollectionInput) (user_id : ℕ) (s t : State d)
      (reply : CollectionContract)
      → create_collection d id input user_id s ≡ ok (t, reply)
      → (e : Effect d) × IsEffect d user_id s e t × IsAsked d s (create_request id input) e
  unfolding create_collection
  create-effect id input user_id s t reply h =
      let (names, e₁, h₁) = >>=-eq-ok (normalize_create_collection_input input) _ h in
      let id_taken = not (d.collections.count (is_collection id) s.collections == 0) in
      let slug_taken = not (d.collections.count (has_slug_of user_id names.1) s.collections == 0) in
      let refused = internal_error "Unique constraint failed" in
      let (u, e₂, h₂) = >>=-eq-ok (throw_if id_taken refused) _ h₁ in
      let (v, e₃, h₃) = >>=-eq-ok (throw_if slug_taken refused) _ h₂ in
      let c : Collection = record {
        id = id;
        owner_id = user_id;
        slug = names.1;
        name = names.0;
        description = nullable_trim input.description;
        icon_url = nullable_trim input.icon_url;
        color = nullable_trim input.color;
        visibility = input.visibility;
      } in
      (
        created c,
        (
          refl,
          zero_of_free (d.collections.count (is_collection id) s.collections)
              (throw_if-eq-ok id_taken refused e₂),
          zero_of_free (d.collections.count (has_slug_of user_id names.1) s.collections)
              (throw_if-eq-ok slug_taken refused e₃),
          ok-first h₃,
        ),
        refl,
      )

  update-effect :
      (input : UpdateCollectionInput) (user_id : ℕ) (s t : State d) (reply : CollectionContract)
      → update_collection d input user_id s ≡ ok (t, reply)
      → (e : Effect d) × IsEffect d user_id s e t × IsAsked d s (update_request input) e
  unfolding update_collection
  update-effect input user_id s t reply h =
      let blank = is_empty (trim input.collection_id) in
      let (u, e₁, h₁) = >>=-eq-ok (throw_if blank (bad_request "Collection is required")) _ h in
      let (names, e₂, h₂) = >>=-eq-ok (normalize_update_collection_input input) _ h₁ in
      let (c, e₃, h₃) = >>=-eq-ok (find_owned d input.collection_id user_id s) _ h₂ in
      let change = updated input names.0 names.1 in
      let taken =
        not
          (d.collections.count (has_other_slug c.id user_id (change c).slug) s.collections == 0) in
      let refused = internal_error "Unique constraint failed" in
      let (v, e₄, h₄) = >>=-eq-ok (throw_if taken refused) _ h₃ in
      let after : State d = record s {
        collections = d.collections.update (is_collection c.id) change s.collections;
      } in
      (
        changed c change,
        (
          (find_owned-IsOwn input.collection_id user_id s c e₃).0,
          (λ x. (refl, refl)),
          zero_of_free
              (d.collections.count (has_other_slug c.id user_id (change c).slug) s.collections)
              (throw_if-eq-ok taken refused e₄),
          answer-tables c.id user_id after t reply h₄,
        ),
        (find_owned-IsOwn input.collection_id user_id s c e₃).1,
      )

  delete-effect :
      (collection_id : Text) (user_id : ℕ) (s t : State d)
      → delete_collection d collection_id user_id s ≡ ok t
      → (e : Effect d) × IsEffect d user_id s e t × IsAsked d s (delete_request collection_id) e
  unfolding delete_collection
  delete-effect collection_id user_id s t h =
      let (id, e₁, h₁) = >>=-eq-ok (required_text collection_id "Collection is required") _ h in
      let (c, e₂, h₂) = >>=-eq-ok (find_owned d id user_id s) _ h₁ in
      let (own, here) = find_owned-IsOwn id user_id s c e₂ in
      let named = here ∙ required_text-trim collection_id "Collection is required" id e₁ in
      (dropped c, (own, ok_injective h₂), named)

  add-effect :
      (collection_id project_slug : Text) (user_id : ℕ) (s t : State d) (reply : CollectionContract)
      → add_project_to_collection d collection_id project_slug user_id s ≡ ok (t, reply)
      → (e : Effect d) × IsEffect d user_id s e t
        × IsAsked d s (add_request collection_id project_slug) e
  unfolding add_project_to_collection
  add-effect collection_id project_slug user_id s t reply h =
      let (id, e₁, h₁) = >>=-eq-ok (required_text collection_id "Collection is required") _ h in
      let (slug, e₂, h₂) = >>=-eq-ok (required_text project_slug "Project is required") _ h₁ in
      let (c, e₃, h₃) = >>=-eq-ok (find_owned d id user_id s) _ h₂ in
      let p = λ (p : CollectedProject). teq p.slug slug && p.approved in
      let (project, e₄, h₄) =
        >>=-eq-ok (or_throw (d.projects.find_first p s.projects) (not_found "Project not found")) _
          h₃ in
      let (held, fits) = d.projects.find_sound p s.projects (or_throw-eq-ok _ _ e₄) in
      let slugged : teq project.slug slug ≡ true = ground arith in
      let after : State d = record s {
        items =
            upsert d.items (is_item c.id project.id) (λ i. i) (new_item d user_id s c project)
              s.items;
      } in
      (
        added c project,
        (
          (find_owned-IsOwn id user_id s c e₃).0,
          (held, ground arith),
          answer-tables c.id user_id after t reply h₄,
        ),
        (
          (find_owned-IsOwn id user_id s c e₃).1
              ∙ required_text-trim collection_id "Collection is required" id e₁,
          teq_sound project.slug slug slugged
              ∙ required_text-trim project_slug "Project is required" slug e₂,
        ),
      )

  remove-effect :
      (collection_id project_slug : Text) (user_id : ℕ) (s t : State d) (reply : CollectionContract)
      → remove_project_from_collection d collection_id project_slug user_id s ≡ ok (t, reply)
      → (e : Effect d) × IsEffect d user_id s e t
        × IsAsked d s (remove_request collection_id project_slug) e
  unfolding remove_project_from_collection
  remove-effect collection_id project_slug user_id s t reply h =
      let (id, e₁, h₁) = >>=-eq-ok (required_text collection_id "Collection is required") _ h in
      let (slug, e₂, h₂) = >>=-eq-ok (required_text project_slug "Project is required") _ h₁ in
      let (c, e₃, h₃) = >>=-eq-ok (find_owned d id user_id s) _ h₂ in
      let (i, e₄, h₄) = >>=-eq-ok (find_item d c.id slug s) _ h₃ in
      let after : State d = record s {
        items = d.items.delete (is_item i.collection_id i.project_id) s.items;
      } in
      (
        removed c i,
        (
          (find_owned-IsOwn id user_id s c e₃).0,
          (find_item-IsItemOf c slug s i e₄).0,
          answer-tables c.id user_id after t reply h₄,
        ),
        (
          (find_owned-IsOwn id user_id s c e₃).1
              ∙ required_text-trim collection_id "Collection is required" id e₁,
          ap (λ (x : Text). joins_slug d x s i)
                (sym (required_text-trim project_slug "Project is required" slug e₂))
              ∙ (find_item-IsItemOf c slug s i e₄).1,
        ),
      )

  order-effect :
      (collection_id project_slug : Text) (sort_order : ℤ) (user_id : ℕ) (s t : State d)
      (reply : CollectionContract)
      → update_collection_project d collection_id project_slug sort_order user_id s ≡ ok (t, reply)
      → (e : Effect d) × IsEffect d user_id s e t
        × IsAsked d s (order_request collection_id project_slug sort_order) e
  unfolding update_collection_project
  order-effect collection_id project_slug sort_order user_id s t reply h =
      let (id, e₁, h₁) = >>=-eq-ok (required_text collection_id "Collection is required") _ h in
      let (slug, e₂, h₂) = >>=-eq-ok (required_text project_slug "Project is required") _ h₁ in
      let (c, e₃, h₃) = >>=-eq-ok (find_owned d id user_id s) _ h₂ in
      let (i, e₄, h₄) = >>=-eq-ok (find_item d c.id slug s) _ h₃ in
      let after : State d = record s {
        items =
            d.items.update (is_item i.collection_id i.project_id)
              (λ i. record i { sort_order = sort_order }) s.items;
      } in
      (
        ordered c i sort_order,
        (
          (find_owned-IsOwn id user_id s c e₃).0,
          (find_item-IsItemOf c slug s i e₄).0,
          answer-tables c.id user_id after t reply h₄,
        ),
        (
          (find_owned-IsOwn id user_id s c e₃).1
              ∙ required_text-trim collection_id "Collection is required" id e₁,
          ap (λ (x : Text). joins_slug d x s i)
                (sym (required_text-trim project_slug "Project is required" slug e₂))
              ∙ (find_item-IsItemOf c slug s i e₄).1,
          refl,
        ),
      )

  -- A request that succeeds has one of the six effects, on a collection of the user's own.
  pub collection_step-effect :
      (user_id : ℕ) (request : CollectionRequest) (s t : State d)
      → collection_step d user_id request s ≡ ok t
      → (e : Effect d) × IsEffect d user_id s e t × IsAsked d s request e
  unfolding collection_step
  collection_step-effect user_id (create_request id input) s t h =
      let (reply, e) = tables_of-eq-ok (create_collection d id input user_id s) t h in
      create-effect id input user_id s t reply e
  collection_step-effect user_id (update_request input) s t h =
      let (reply, e) = tables_of-eq-ok (update_collection d input user_id s) t h in
      update-effect input user_id s t reply e
  collection_step-effect user_id (delete_request collection_id) s t h =
      delete-effect collection_id user_id s t h
  collection_step-effect user_id (add_request collection_id slug) s t h =
      let (reply, e) =
        tables_of-eq-ok (add_project_to_collection d collection_id slug user_id s) t h in
      add-effect collection_id slug user_id s t reply e
  collection_step-effect user_id (remove_request collection_id slug) s t h =
      let (reply, e) =
        tables_of-eq-ok (remove_project_from_collection d collection_id slug user_id s) t h in
      remove-effect collection_id slug user_id s t reply e
  collection_step-effect user_id (order_request collection_id slug sort_order) s t h =
      let (reply, e) =
        tables_of-eq-ok (update_collection_project d collection_id slug sort_order user_id s) t h in
      order-effect collection_id slug sort_order user_id s t reply e
