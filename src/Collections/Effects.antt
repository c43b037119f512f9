-- ===== src/Collections/Effects.antt =====
-- What a request of apps/api/src/collections/services/collections.service.ts that succeeds does to the
-- tables.
use moddery.Base.{ℕ, ◌≡◌, trim, true, ℤ, pos}
use moddery.Database.{upsert}
use moddery.Collections.{
  Collection, CollectionProject, CollectedProject, Deps, State, is_collection, is_item, is_item_of,
  has_slug_of, has_other_slug, joins_slug,
}
use moddery.Collections.Requests.{
  CollectionRequest, create_request, update_request, delete_request, add_request, remove_request,
  order_request,
}

module _ (d : Deps) where
  -- What a request does to the tables, of which the collection is the user's own.
  pub data Effect : Type 0 where
    created : Collection → Effect
    changed : (c : Collection) → (Collection → Collection) → Effect
    dropped : Collection → Effect
    added : Collection → CollectedProject → Effect
    removed : Collection → CollectionProject → Effect
    ordered : Collection → CollectionProject → ℤ → Effect

  abbrev pub IsOwn : ℕ → State d → Collection → Type 0
  IsOwn user_id s c = d.collections.Holds s.collections c × (c.owner_id ≡ user_id)

  abbrev pub IsItemOf : State d → Collection → CollectionProject → Type 0
  IsItemOf s c i = d.items.Holds s.items i × (i.collection_id ≡ c.id)

  abbrev pub new_item : ℕ → State d → Collection → CollectedProject → CollectionProject
  new_item user_id s c p = record {
    collection_id = c.id;
    project_id = p.id;
    added_by_id = user_id;
    sort_order = pos (d.items.count (is_item_of c.id) s.items);
  }

  abbrev pub IsEffect : ℕ → State d → Effect → State d → Type 0
  IsEffect user_id s (created c) t =
      (c.owner_id ≡ user_id)
      × (d.collections.count (is_collection c.id) s.collections ≡ 0)
      × (d.collections.count (has_slug_of user_id c.slug) s.collections ≡ 0)
      × (t ≡ record s { collections = d.collections.create c s.collections })
  IsEffect user_id s (changed c f) t =
      IsOwn user_id s c
      × ((x : Collection) → ((f x).id ≡ x.id) × ((f x).owner_id ≡ x.owner_id))
      × (d.collections.count (has_other_slug c.id user_id (f c).slug) s.collections ≡ 0)
      × (t ≡ record s { collections = d.collections.update (is_collection c.id) f s.collections })
  IsEffect user_id s (dropped c) t =
      IsOwn user_id s c
      × (t ≡ record s {
        collections = d.collections.delete (is_collection c.id) s.collections;
        items = d.items.delete (is_item_of c.id) s.items;
      })
  IsEffect user_id s (added c p) t =
      IsOwn user_id s c
      × (d.projects.Holds s.projects p × (p.approved ≡ true))
      × (t ≡ record s {
        items = upsert d.items (is_item c.id p.id) (λ i. i) (new_item user_id s c p) s.items;
      })
  IsEffect user_id s (removed c i) t =
      IsOwn user_id s c
      × IsItemOf s c i
      × (t ≡ record s { items = d.items.delete (is_item i.collection_id i.project_id) s.items })
  IsEffect user_id s (ordered c i sort_order) t =
      IsOwn user_id s c
      × IsItemOf s c i
      × (t ≡ record s {
        items =
            d.items.update (is_item i.collection_id i.project_id)
              (λ i. record i { sort_order = sort_order }) s.items;
      })

  -- The effect is the one that was asked for: on the collection and the project that the request names.
  abbrev pub IsAsked : State d → CollectionRequest → Effect → Type 0
  IsAsked s (create_request id input) (created c) = c.id ≡ id
  IsAsked s (update_request input) (changed c f) = c.id ≡ input.collection_id
  IsAsked s (delete_request collection_id) (dropped c) = c.id ≡ trim collection_id
  IsAsked s (add_request collection_id slug) (added c p) =
      (c.id ≡ trim collection_id) × (p.slug ≡ trim slug)
  IsAsked s (remove_request collection_id slug) (removed c i) =
      (c.id ≡ trim collection_id) × (joins_slug d (trim slug) s i ≡ true)
  IsAsked s (order_request collection_id slug sort_order) (ordered c i z) =
      (c.id ≡ trim collection_id) × (joins_slug d (trim slug) s i ≡ true) × (z ≡ sort_order)
  IsAsked s _ _ = ⊥
