-- ===== src/Collections.antt =====
-- The collections of projects that a user keeps:
-- apps/api/src/collections/services/collections.service.ts. A handler's reply is the row of the
-- collection with the number of its projects.
pub mod Requests
pub mod Effects
pub mod Outcomes
pub mod Keys
pub mod Items
pub mod Contents
pub mod Owners
pub mod Tests
use moddery.Base.{
  ℕ, ◌≡◌, List, [], ◌∷◌, Option, none, some, Text, teq, trim, is_empty, ltb, length, ◌==◌, ◌&&◌,
  Bool, true, false, not, if◌then◌else◌, ℤ, pos, Result, ok, err, bad_request, not_found,
  internal_error, ◌>>=◌, ◌>>◌, or_throw, throw_if, required_text, nullable_trim, String,
}
use moddery.Database.{Table, upsert}
use moddery.Catalog.Slugs.{normalize_slug}

pub data CollectionVisibility : Type 0 where
  private unlisted public : CollectionVisibility

pub record Collection : Type 0 where
  pub id : Text
  pub owner_id : ℕ
  pub slug : Text
  pub name : Text
  pub description : Option Text
  pub icon_url : Option Text
  pub color : Option Text
  pub visibility : CollectionVisibility

pub record CollectionProject : Type 0 where
  pub collection_id : Text
  pub project_id : ℕ
  pub added_by_id : ℕ
  pub sort_order : ℤ

pub record CollectedProject : Type 0 where
  pub id : ℕ
  pub slug : Text
  pub approved : Bool

pub record Deps : Type 1 where
  pub collections : Table Collection
  pub items : Table CollectionProject
  pub projects : Table CollectedProject

pub record State (d : Deps) : Type 0 where
  pub collections : d.collections.Store
  pub items : d.items.Store
  pub projects : d.projects.Store

pub record CreateCollectionInput : Type 0 where
  pub name : Text
  pub slug : Text
  pub visibility : CollectionVisibility
  pub color : Option Text
  pub description : Option Text
  pub icon_url : Option Text

-- In an update `none` stands for `undefined`, which leaves a column, and `some none` for null, which
-- empties it. A name, a slug or a visibility that is null leaves the column as well.
pub record UpdateCollectionInput : Type 0 where
  pub collection_id : Text
  pub name : Option Text
  pub slug : Option Text
  pub visibility : Option CollectionVisibility
  pub color : Option (Option Text)
  pub description : Option (Option Text)
  pub icon_url : Option (Option Text)

pub record CollectionContract : Type 0 where
  pub row : Collection
  pub project_count : ℕ

abbrev pub required_collection_name : Text → Result Text
required_collection_name value =
    let trimmed = trim value in
    if is_empty trimmed then err (bad_request "Collection name is required") else ok trimmed

unfoldable pub normalize_collection_slug : Text → Text
normalize_collection_slug value = normalize_slug value

-- A slug of three characters at least.
abbrev pub long_enough : Text → Result Text
long_enough slug =
    if ltb (length slug) 3
    then err (bad_request "Collection slug must be at least 3 characters")
    else ok slug

unfoldable pub normalize_create_collection_input : CreateCollectionInput → Result (Text × Text)
unfolding normalize_collection_slug
normalize_create_collection_input input = do
  name ← required_collection_name input.name
  slug ← long_enough (normalize_collection_slug input.slug)
  ok (name, slug)

-- `undefined` where the input has none.
abbrev pub if_given : Option Text → (Text → Result Text) → Result (Option Text)
if_given none check = ok none
if_given (some value) check = check value >>= λ checked. ok (some checked)

unfoldable pub normalize_update_collection_input :
    UpdateCollectionInput → Result (Option Text × Option Text)
unfolding normalize_collection_slug
normalize_update_collection_input input = do
  name ← if_given input.name required_collection_name
  slug ← if_given input.slug (λ value. long_enough (normalize_collection_slug value))
  ok (name, slug)

-- A column of an update, and one that `nullableTrim` fills.
abbrev pub or_old {ℓ} : {A : Type ℓ} → Option A → A → A
or_old none old = old
or_old (some new) old = new

abbrev pub trimmed_or_old : Option (Option Text) → Option Text → Option Text
trimmed_or_old none old = old
trimmed_or_old (some value) old = nullable_trim value

abbrev pub updated : UpdateCollectionInput → Option Text → Option Text → Collection → Collection
updated input name slug c = record c {
  color = trimmed_or_old input.color c.color;
  description = trimmed_or_old input.description c.description;
  icon_url = trimmed_or_old input.icon_url c.icon_url;
  name = or_old name c.name;
  slug = or_old slug c.slug;
  visibility = or_old input.visibility c.visibility;
}

abbrev pub is_collection : Text → Collection → Bool
is_collection id c = teq c.id id

abbrev pub is_owned : Text → ℕ → Collection → Bool
is_owned id owner_id c = teq c.id id && c.owner_id == owner_id

abbrev pub is_item : Text → ℕ → CollectionProject → Bool
is_item collection_id project_id i = teq i.collection_id collection_id && i.project_id == project_id

abbrev pub is_item_of : Text → CollectionProject → Bool
is_item_of collection_id i = teq i.collection_id collection_id

-- The keys that the schema declares unique: the identifier, and the slug among the owner's.
abbrev pub has_slug_of : ℕ → Text → Collection → Bool
has_slug_of owner_id slug c = c.owner_id == owner_id && teq c.slug slug

abbrev pub has_other_slug : Text → ℕ → Text → Collection → Bool
has_other_slug id owner_id slug c = not (teq c.id id) && has_slug_of owner_id slug c

module _ (d : Deps) where
  abbrev pub find_owned : Text → ℕ → State d → Result Collection
  find_owned id owner_id s =
      or_throw (d.collections.find_first (is_owned id owner_id) s.collections)
        (not_found "Collection not found")

  -- `findCollectionForOwner`.
  unfoldable pub find_collection_for_owner : Text → ℕ → State d → Result CollectionContract
  find_collection_for_owner collection_id owner_id s = do
    c ← find_owned collection_id owner_id s
    ok (record { row = c; project_count = d.items.count (is_item_of c.id) s.items })

  -- What a handler answers with after it has changed the tables.
  unfoldable pub answer : Text → ℕ → State d → Result (State d × CollectionContract)
  unfolding find_collection_for_owner
  answer collection_id owner_id s =
      find_collection_for_owner collection_id owner_id s >>= λ contract. ok (s, contract)

  -- The item with the project's slug: the relation is joined by the identifier of the project.
  abbrev pub joins_slug : Text → State d → CollectionProject → Bool
  joins_slug slug s i =
      elim (d.projects.find_first (λ p. p.id == i.project_id && teq p.slug slug) s.projects) [
        | none ↦ false
        | some p ↦ true
      ]

  abbrev pub find_item : Text → Text → State d → Result CollectionProject
  find_item collection_id slug s =
      or_throw (d.items.find_first (λ i. is_item_of collection_id i && joins_slug slug s i) s.items)
        (not_found "Collection item not found")

  unfoldable pub add_project_to_collection :
      Text → Text → ℕ → State d → Result (State d × CollectionContract)
  add_project_to_collection collection_id project_slug user_id s = do
    id ← required_text collection_id "Collection is required"
    slug ← required_text project_slug "Project is required"
    c ← find_owned id user_id s
    project ←
        or_throw (d.projects.find_first (λ p. teq p.slug slug && p.approved) s.projects)
          (not_found "Project not found")
    let item : CollectionProject = record {
      collection_id = c.id;
      project_id = project.id;
      added_by_id = user_id;
      sort_order = pos (d.items.count (is_item_of c.id) s.items);
    }
    answer c.id user_id
        (record s { items = upsert d.items (is_item c.id project.id) (λ i. i) item s.items })

  -- `id` is the identifier that the database gives the row. A key that is taken is refused by the
  -- database.
  unfoldable pub create_collection :
      Text → CreateCollectionInput → ℕ → State d → Result (State d × CollectionContract)
  unfolding normalize_create_collection_input
  create_collection id input owner_id s = do
    normalized ← normalize_create_collection_input input
    free_id ←
        throw_if (not (d.collections.count (is_collection id) s.collections == 0))
          (internal_error "Unique constraint failed")
    free_slug ←
        throw_if (not (d.collections.count (has_slug_of owner_id normalized.1) s.collections == 0))
          (internal_error "Unique constraint failed")
    let c : Collection = record {
      id = id;
      owner_id = owner_id;
      slug = normalized.1;
      name = normalized.0;
      description = nullable_trim input.description;
      icon_url = nullable_trim input.icon_url;
      color = nullable_trim input.color;
      visibility = input.visibility;
    }
    ok (
      record s { collections = d.collections.create c s.collections },
      record { row = c; project_count = d.items.count (is_item_of id) s.items },
    )

  -- The database deletes the items of the collection with it.
  unfoldable pub delete_collection : Text → ℕ → State d → Result (State d)
  delete_collection collection_id owner_id s = do
    id ← required_text collection_id "Collection is required"
    c ← find_owned id owner_id s
    ok (record s {
      collections = d.collections.delete (is_collection c.id) s.collections;
      items = d.items.delete (is_item_of c.id) s.items;
    })

  unfoldable pub remove_project_from_collection :
      Text → Text → ℕ → State d → Result (State d × CollectionContract)
  remove_project_from_collection collection_id project_slug owner_id s = do
    id ← required_text collection_id "Collection is required"
    slug ← required_text project_slug "Project is required"
    c ← find_owned id owner_id s
    i ← find_item c.id slug s
    answer c.id owner_id
        (record s { items = d.items.delete (is_item i.collection_id i.project_id) s.items })

  -- The collection is looked up by the identifier as it stands in the input.
  unfoldable pub update_collection :
      UpdateCollectionInput → ℕ → State d → Result (State d × CollectionContract)
  unfolding normalize_update_collection_input
  update_collection input owner_id s = do
    given ← throw_if (is_empty (trim input.collection_id)) (bad_request "Collection is required")
    normalized ← normalize_update_collection_input input
    c ← find_owned input.collection_id owner_id s
    let change = updated input normalized.0 normalized.1
    free_slug ←
        throw_if
          (not
            (d.collections.count (has_other_slug c.id owner_id (change c).slug) s.collections == 0))
          (internal_error "Unique constraint failed")
    answer c.id owner_id
        (record s { collections = d.collections.update (is_collection c.id) change s.collections })

  unfoldable pub update_collection_project :
      Text → Text → ℤ → ℕ → State d → Result (State d × CollectionContract)
  update_collection_project collection_id project_slug sort_order owner_id s = do
    id ← required_text collection_id "Collection is required"
    slug ← required_text project_slug "Project is required"
    c ← find_owned id owner_id s
    i ← find_item c.id slug s
    answer c.id owner_id (record s {
      items =
          d.items.update (is_item i.collection_id i.project_id)
            (λ i. record i { sort_order = sort_order }) s.items;
    })
