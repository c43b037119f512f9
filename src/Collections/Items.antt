-- ===== src/Collections/Items.antt =====
-- The items of the collections of apps/api/src/collections/services/collections.service.ts: each is in
-- a collection that there is, which holds a project once at most.
use moddery.Base.{
  ℕ, ◌≤◌, ◌≡◌, ◌⊎◌, inl, inr, refl, sym, ap, ◌∙◌, subst, List, [], ◌∷◌, Text, teq, teq_sound, ◌==◌,
  ==_iff, Bool, true, false, Bool-cases, Option-cases, Result-cases, arith,
}
use moddery.Database.{upsert, upsert_rows}
use moddery.Collections.{
  Collection, CollectionProject, Deps, State, is_collection, is_item, is_item_of,
}
use moddery.Collections.Requests.{CollectionRequest, collection_step, collection_run}
use moddery.Collections.Effects.{
  Effect, created, changed, dropped, added, removed, ordered, IsEffect, new_item,
}
use moddery.Collections.Outcomes.{collection_step-effect}
use moddery.Collections.Keys.{AreKeyed, effect-AreKeyed, ne_of_teq-false}

pub is_item-keys :
    (k : Text) (p : ℕ) (i : CollectionProject)
    → is_item k p i ≡ true
    → (i.collection_id ≡ k) × (i.project_id ≡ p)
is_item-keys k p i h =
    let a : teq i.collection_id k ≡ true = ground arith in
    let b : (i.project_id == p) ≡ true = ground arith in
    (teq_sound i.collection_id k a, (==_iff i.project_id p).0 b)

module _ (d : Deps) where
  open d use {collections, items}

  abbrev pub AreFiled : State d → Type 0
  AreFiled s =
      (i : CollectionProject)
      → items.Holds s.items i
      → (c : Collection) × collections.Holds s.collections c × (i.collection_id ≡ c.id)

  abbrev pub AreSingle : State d → Type 0
  AreSingle s = (k : Text) (p : ℕ) → items.count (is_item k p) s.items ≤ 1

  none_held :
      (p : CollectionProject → Bool) (s : items.Store)
      → ((i : CollectionProject) → items.Holds s i → p i ≡ false)
      → items.count p s ≤ 1
  none_held p s h = let e = (items.count_zero p s).1 h in omega arith

  -- Where an item is deleted by a test, a pair is counted as before or not at all.
  deleted-single :
      (sel : CollectionProject → Bool) (s : State d) (k : Text) (p : ℕ)
      → (((i : CollectionProject) → is_item k p i ≡ true → sel i ≡ true)
          ⊎ ((i : CollectionProject) → sel i ≡ true → is_item k p i ≡ false))
      → AreSingle s
      → items.count (is_item k p) (items.delete sel s.items) ≤ 1
  deleted-single sel s k p (inl all) single =
      none_held (is_item k p) (items.delete sel s.items) (λ i h.
        let (held, off) = (items.holds_delete sel s.items i).0 h in
        elim (Bool-cases (is_item k p i)) [ inl e ↦ cc (all i e, off) | inr e ↦ e ])
  deleted-single sel s k p (inr none_here) single =
      let e = items.count_delete (is_item k p) sel s.items none_here in
      let h = single k p in omega arith

  upsert-single :
      (s : State d) (x : CollectionProject) (k : Text) (p : ℕ)
      → AreSingle s
      → items.count
          (is_item k p)
          (upsert items (is_item x.collection_id x.project_id) (λ i. i) x s.items)
        ≤ 1
  upsert-single s x k p single =
      let here = is_item x.collection_id x.project_id in
      let h = single k p in
      elim (Option-cases (items.find_first here s.items)) [
        | inr (i, found) ↦
            let e = items.count_update (is_item k p) here (λ i. i) s.items (λ r g. refl) in
            rw (found, upsert) (omega arith)
        | inl miss ↦
            let e = items.count_create (is_item k p) x s.items in
            elim (Bool-cases (is_item k p x)) [
              | inl on ↦
                  let (a, b) = is_item-keys k p x on in
                  let empty : items.count here s.items ≡ 0 =
                    (items.count_zero here s.items).1 (items.find_complete here s.items miss) in
                  let none_yet : items.count (is_item k p) s.items ≡ 0 = rw (← a, ← b) empty in
                  let one = rw on at e in rw (miss, upsert) (omega arith)
              | inr off ↦ let same = rw off at e in rw (miss, upsert) (omega arith)
            ]
      ]

  -- Whether two items have one pair, told by the pair of one of them.
  removed_or_not :
      (i : CollectionProject) (k : Text) (p : ℕ)
      → ((j : CollectionProject)
          → is_item k p j ≡ true
          → is_item i.collection_id i.project_id j ≡ true)
        ⊎ ((j : CollectionProject)
            → is_item i.collection_id i.project_id j ≡ true
            → is_item k p j ≡ false)
  removed_or_not i k p = elim (Bool-cases (is_item k p i)) [
    | inl on ↦ let (a, b) = is_item-keys k p i on in inl (λ j h. rw (a, b) h)
    | inr off ↦ inr (λ j h.
        let (a, b) = is_item-keys i.collection_id i.project_id j h in rw (a, b, is_item) off)
  ]

  dropped_or_not :
      (id k : Text) (p : ℕ)
      → ((j : CollectionProject) → is_item k p j ≡ true → is_item_of id j ≡ true)
        ⊎ ((j : CollectionProject) → is_item_of id j ≡ true → is_item k p j ≡ false)
  dropped_or_not id k p = elim (Bool-cases (teq k id)) [
    | inl on ↦ inl (λ j h. rw ((is_item-keys k p j h).0) on)
    | inr off ↦ inr (λ j h. elim (Bool-cases (is_item k p j)) [
      | inl e ↦
          let a = (is_item-keys k p j e).0 in
          absurd (ne_of_teq-false k id off (sym a ∙ teq_sound j.collection_id id h))
      | inr e ↦ e
    ])
  ]

  pub effect-AreSingle :
      (user_id : ℕ) (s t : State d) (e : Effect d)
      → IsEffect d user_id s e t
      → AreSingle s
      → AreSingle t
  effect-AreSingle user_id s t (created c) (own, free_id, free_slug, e) single =
      subst AreSingle (sym e) single
  effect-AreSingle user_id s t (changed c f) (own, keeps, free, e) single =
      subst AreSingle (sym e) single
  effect-AreSingle user_id s t (dropped c) (own, e) single =
      subst AreSingle (sym e)
        (λ k p. deleted-single (is_item_of c.id) s k p (dropped_or_not c.id k p) single)
  effect-AreSingle user_id s t (added c p) (own, found, e) single =
      subst AreSingle (sym e) (λ k q. upsert-single s (new_item d user_id s c p) k q single)
  effect-AreSingle user_id s t (removed c i) (own, found, e) single =
      subst AreSingle (sym e) (λ k p.
        deleted-single (is_item i.collection_id i.project_id) s k p (removed_or_not i k p) single)
  effect-AreSingle user_id s t (ordered c i z) (own, found, e) single =
      subst AreSingle (sym e) (λ k p.
        let same =
          items.count_update (is_item k p) (is_item i.collection_id i.project_id)
            (λ i. record i { sort_order = z }) s.items (λ r g. refl) in
        let h = single k p in omega arith)

  pub effect-AreFiled :
      (user_id : ℕ) (s t : State d) (e : Effect d)
      → IsEffect d user_id s e t
      → AreFiled s
      → AreFiled t
  effect-AreFiled user_id s t (created c) (own, free_id, free_slug, e) filed =
      subst AreFiled (sym e) (λ i h.
        let (b, held, same) = filed i h in
        (b, (collections.holds_create c s.collections b).1 (inr held), same))
  effect-AreFiled user_id s t (changed c f) (own, keeps, free, e) filed =
      subst AreFiled (sym e) (λ i h.
        let (b, held, same) = filed i h in
        let rows = collections.holds_update (is_collection c.id) f s.collections in
        elim (Bool-cases (is_collection c.id b)) [
          | inl on ↦ (f b, (rows (f b)).1 (inr (b, held, on, refl)), same ∙ sym (keeps b).0)
          | inr off ↦ (b, (rows b).1 (inl (held, off)), same)
        ])
  effect-AreFiled user_id s t (dropped c) (own, e) filed = subst AreFiled (sym e) (λ i h.
      let (k, off) = (items.holds_delete (is_item_of c.id) s.items i).0 h in
      let (b, held, same) = filed i k in
      let other : is_collection c.id b ≡ false = rw same at off in
      (b, (collections.holds_delete (is_collection c.id) s.collections b).1 (held, other), same))
  effect-AreFiled user_id s t (added c p) ((held, own), found, e) filed =
      subst AreFiled (sym e) (λ i h.
        elim (upsert_rows items (is_item c.id p.id) (λ i. i) (new_item d user_id s c p) s.items i
          h) [
            | inl (k, off) ↦ filed i k
            | inr new ↦ elim new [
              | inl x ↦ (c, held, ap (λ (j : CollectionProject). j.collection_id) x)
              | inr (q, k, fits, x) ↦ filed i (rw x k)
            ]
          ])
  effect-AreFiled user_id s t (removed c i) (own, found, e) filed =
      subst AreFiled (sym e) (λ j h.
        filed j ((items.holds_delete (is_item i.collection_id i.project_id) s.items j).0 h).0)
  effect-AreFiled user_id s t (ordered c i z) (own, found, e) filed = subst AreFiled (sym e) (λ j h.
      elim ((items.holds_update (is_item i.collection_id i.project_id)
          (λ i. record i { sort_order = z }) s.items j).0
        h) [
          | inl (k, off) ↦ filed j k
          | inr (q, k, fits, x) ↦
              let (b, held, same) = filed q k in
              (b, held, ap (λ (y : CollectionProject). y.collection_id) x ∙ same)
        ])

  -- Identifiers and slugs are unique, every item is in a collection that there is, and no
  -- collection holds a project twice.
  abbrev pub IsWellFormed : State d → Type 0
  IsWellFormed s = AreKeyed d s × AreFiled s × AreSingle s

  -- Whatever requests are served, of whatever users, failed ones among them: the identifiers of
  -- collections and the slugs of an owner stay unique, every item stays in a collection that there is,
  -- and no collection holds a project twice.
  pub collection_run-IsWellFormed :
      (requests : List (ℕ × CollectionRequest)) (s : State d)
      → IsWellFormed s
      → IsWellFormed (collection_run d requests s)
  unfolding collection_run
  collection_run-IsWellFormed [] s w = w
  collection_run-IsWellFormed ((user_id, request) ∷ requests) s (keyed, filed, single) =
      elim (Result-cases (collection_step d user_id request s)) [
        | inl (t, e) ↦
            let (x, did, asked) = collection_step-effect d user_id request s t e in
            rw (e, collection_run)
              (collection_run-IsWellFormed requests t (
                effect-AreKeyed d user_id s t x did keyed,
                effect-AreFiled user_id s t x did filed,
                effect-AreSingle user_id s t x did single,
              ))
        | inr (error, e) ↦
            rw (e, collection_run) (collection_run-IsWellFormed requests s (keyed, filed, single))
      ]
