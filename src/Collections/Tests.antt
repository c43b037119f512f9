-- ===== src/Collections/Tests.antt =====
-- Two collections of two users, in tables kept in memory.
use moddery.Base.{
  ℕ, ◌≡◌, ◌≢◌, ◌↔◌, refl, sym, ap, subst, ◌∙◌, inl, inr, none, List, [], ◌∷◌, ok, err, text, teq,
  trim, trim_start, is_space, Text, true, pos, not_found, required_text, All, arith,
}
use moddery.Database.Memory.{memory}
use moddery.Collections.{
  private, Collection, CollectionProject, CollectedProject, Deps, State, add_project_to_collection,
  update_collection, find_collection_for_owner, answer, normalize_update_collection_input,
}
use moddery.Collections.Requests.{
  CollectionRequest, add_request, delete_request, remove_request, collection_step, collection_run,
}
use moddery.Collections.Effects.{Effect, IsAsked, IsEffect}
use moddery.Collections.Items.{IsWellFormed, collection_run-IsWellFormed}
use moddery.Collections.Contents.{Contains, SetAfter, collection_step_refines}
use moddery.Collections.Owners.{foreign_requests_keep}
use moddery.Collections.Keys.{AreKeyed, Share, turned}

abbrev best : Collection
best = record {
  id = text "c1";
  owner_id = 1;
  slug = text "best";
  name = text "Best";
  description = none;
  icon_url = none;
  color = none;
  visibility = private;
}

abbrev other : Collection
other = record best { id = text "c2"; owner_id = 2 }

abbrev lamp : CollectedProject
lamp = record { id = 7; slug = text "lamp"; approved = true }

abbrev rail : CollectedProject
rail = record { id = 8; slug = text "rail"; approved = true }

abbrev deps : Deps
deps = record {
  collections = memory Collection;
  items = memory CollectionProject;
  projects = memory CollectedProject;
}

abbrev empty : State deps
empty = record { collections = best ∷ other ∷ []; items = []; projects = lamp ∷ rail ∷ [] }

abbrev item : ℕ → ℕ → CollectionProject
item project_id order = record {
  collection_id = text "c1";
  project_id = project_id;
  added_by_id = 1;
  sort_order = pos order;
}

abbrev add_lamp : CollectionRequest
add_lamp = add_request (text " c1 ") (text "lamp")

abbrev with_lamp : State deps
with_lamp = record empty { items = item 7 0 ∷ [] }

lamp_added : collection_step deps 1 add_lamp empty ≡ ok with_lamp
unfolding collection_step add_project_to_collection required_text answer find_collection_for_owner
    teq trim trim_start is_space
lamp_added = refl

-- An update looks for the identifier with the white space around it.
untrimmed_update :
    update_collection deps
      (record {
        collection_id = text " c1 ";
        name = none;
        slug = none;
        visibility = none;
        color = none;
        description = none;
        icon_url = none;
      })
      1
      empty
    ≡ err (not_found "Collection not found")
unfolding update_collection normalize_update_collection_input teq trim trim_start is_space
untrimmed_update = refl

-- After a removal the number of projects is taken for an order that another project has.
order_repeats :
    collection_run deps
      ((1, add_lamp)
        ∷ (1, add_request (text "c1") (text "rail"))
        ∷ (1, remove_request (text "c1") (text "lamp"))
        ∷ (1, add_lamp)
        ∷ [])
      empty
    ≡ record empty { items = item 7 1 ∷ item 8 1 ∷ [] }
unfolding collection_run teq trim trim_start is_space required_text answer find_collection_for_owner
order_repeats = refl

ids_differ : text "c1" ≢ text "c2"
unfolding teq
ids_differ e = cc (ap (λ (x : Text). teq x (text "c2")) e)

-- The two rows share no key.
rows_differ : ¬ (Share best other)
rows_differ (inl e) = ids_differ e
rows_differ (inr (e, f)) = cc

apart : (a b : Collection) → a ≡ best → b ≡ other → ¬ (Share a b)
apart a b ea eb same =
    rows_differ
      (subst (λ (x : Collection). Share x other) ea (subst (λ (y : Collection). Share a y) eb same))

empty-AreKeyed : AreKeyed deps empty
empty-AreKeyed a b (inl ea) (inl eb) same = ea ∙ sym eb
empty-AreKeyed a b (inl ea) (inr (inr eb)) same = absurd eb
empty-AreKeyed a b (inr (inl ea)) (inr (inr eb)) same = absurd eb
empty-AreKeyed a b (inr (inr ea)) held_b same = absurd ea
empty-AreKeyed a b (inl ea) (inr (inl eb)) same = absurd (apart a b ea eb same)
empty-AreKeyed a b (inr (inl ea)) (inl eb) same = absurd (apart b a eb ea (turned a b same))
empty-AreKeyed a b (inr (inl ea)) (inr (inl eb)) same = ea ∙ sym eb

empty-IsWellFormed : IsWellFormed deps empty
empty-IsWellFormed = (empty-AreKeyed, (λ i m. absurd m), λ k p. omega arith)

collection_run-IsWellFormed_example :
    IsWellFormed deps (collection_run deps ((1, add_lamp) ∷ []) empty)
collection_run-IsWellFormed_example =
    collection_run-IsWellFormed deps ((1, add_lamp) ∷ []) empty empty-IsWellFormed

collection_step_refines_example :
    (e : Effect deps) × IsAsked deps empty add_lamp e
    × IsEffect deps 1 empty e with_lamp
    × ((k : Text) (p : ℕ) → Contains deps with_lamp k p ↔ SetAfter deps e (Contains deps empty) k p)
collection_step_refines_example = collection_step_refines deps 1 add_lamp empty with_lamp lamp_added

abbrev foreign : List (ℕ × CollectionRequest)
foreign = (2, add_lamp) ∷ (3, delete_request (text "c1")) ∷ []

foreign_owners : All (λ (q : ℕ × CollectionRequest). 1 ≢ q.0) foreign
foreign_owners = ((λ e. omega arith), ((λ e. omega arith), tt))

foreign_requests_keep_example :
    (memory Collection).Holds ((collection_run deps foreign with_lamp).collections) best
    × ((p : ℕ)
        → Contains deps (collection_run deps foreign with_lamp) (text "c1") p
          ↔ Contains deps with_lamp (text "c1") p)
foreign_requests_keep_example =
    foreign_requests_keep deps foreign with_lamp best empty-AreKeyed (inl refl) foreign_owners
