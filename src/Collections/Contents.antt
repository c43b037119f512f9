-- ===== src/Collections/Contents.antt =====
-- What a collection of apps/api/src/collections/services/collections.service.ts is to its owner: a set of
-- projects, whose order and rows are forgotten.
use moddery.Base.{
  ℕ, ◌≡◌, ◌↔◌, ◌⊎◌, inl, inr, refl, sym, ap, ◌∙◌, subst, Text, teq, teq_sound, teq_refl, ◌==◌,
  ==_iff, true, Bool-cases, ok,
}
use moddery.Database.{upsert, upsert_rows, upsert_keeps, upsert_writes}
use moddery.Collections.{CollectionProject, Deps, State, is_item, is_item_of}
use moddery.Collections.Requests.{CollectionRequest, collection_step}
use moddery.Collections.Effects.{
  Effect, created, changed, dropped, added, removed, ordered, IsEffect, IsAsked, new_item,
}
use moddery.Collections.Outcomes.{collection_step-effect}
use moddery.Collections.Keys.{ne_of_teq-false}
use moddery.Collections.Items.{is_item-keys}

module _ (d : Deps) where
  open d use {collections, items}

  -- The collection with the identifier `k` holds the project `p`.
  abbrev pub Contains : State d → Text → ℕ → Type 0
  Contains s k p =
      (i : CollectionProject) × items.Holds s.items i × (i.collection_id ≡ k) × (i.project_id ≡ p)

  -- The sets after an effect, from the sets before it.
  abbrev pub SetAfter : Effect d → (Text → ℕ → Type 0) → Text → ℕ → Type 0
  SetAfter (created c) M k p = M k p
  SetAfter (changed c f) M k p = M k p
  SetAfter (dropped c) M k p = M k p × ¬ (k ≡ c.id)
  SetAfter (added c q) M k p = M k p ⊎ ((k ≡ c.id) × (p ≡ q.id))
  SetAfter (removed c i) M k p = M k p × ¬ ((k ≡ c.id) × (p ≡ i.project_id))
  SetAfter (ordered c i z) M k p = M k p

  is_item-true :
      (i : CollectionProject) (k : Text) (p : ℕ)
      → i.collection_id ≡ k
      → i.project_id ≡ p
      → is_item k p i ≡ true
  is_item-true i k p a b =
      let e : teq i.collection_id k ≡ true = rw a (teq_refl k) in
      let f : (i.project_id == p) ≡ true = (==_iff i.project_id p).1 b in rw (e, f) refl

  -- An upsert of an item leaves one with its keys.
  upsert-keys :
      (s : State d) (x : CollectionProject)
      → (i : CollectionProject) × items.Holds
          (upsert items (is_item x.collection_id x.project_id) (λ i. i) x s.items)
          i
        × (i.collection_id ≡ x.collection_id)
        × (i.project_id ≡ x.project_id)
  upsert-keys s x =
      let here = is_item x.collection_id x.project_id in
      let (r, held, from) = upsert_writes items here (λ i. i) x s.items in
      elim from [
        | inl e ↦ (
          r,
          held,
          ap (λ (j : CollectionProject). j.collection_id) e,
          ap (λ (j : CollectionProject). j.project_id) e,
        )
        | inr (q, old, fits, e) ↦
            let (a, b) = is_item-keys x.collection_id x.project_id q fits in
            (
              r,
              held,
              ap (λ (j : CollectionProject). j.collection_id) e ∙ a,
              ap (λ (j : CollectionProject). j.project_id) e ∙ b,
            )
      ]

  added-contents :
      (s : State d) (x : CollectionProject) (k : Text) (p : ℕ)
      → ((i : CollectionProject) × items.Holds
            (upsert items (is_item x.collection_id x.project_id) (λ i. i) x s.items)
            i
          × (i.collection_id ≡ k)
          × (i.project_id ≡ p))
        ↔ (Contains s k p ⊎ ((k ≡ x.collection_id) × (p ≡ x.project_id)))
  added-contents s x k p =
      let here = is_item x.collection_id x.project_id in
      (
        (λ (i, h, a, b). elim (upsert_rows items here (λ i. i) x s.items i h) [
          | inl (old, off) ↦ inl (i, old, a, b)
          | inr new ↦ elim new [
            | inl e ↦ inr (
              sym a ∙ ap (λ (j : CollectionProject). j.collection_id) e,
              sym b ∙ ap (λ (j : CollectionProject). j.project_id) e,
            )
            | inr (q, old, fits, e) ↦ inl (i, rw e old, a, b)
          ]
        ]),
        λ m. elim m [
          | inl (i, old, a, b) ↦ elim (Bool-cases (here i)) [
            | inr off ↦ (i, upsert_keeps items here (λ i. i) x s.items i old off, a, b)
            | inl on ↦
                let (a', b') = is_item-keys x.collection_id x.project_id i on in
                let (j, held, e, f) = upsert-keys s x in (j, held, e ∙ sym a' ∙ a, f ∙ sym b' ∙ b)
          ]
          | inr (a, b) ↦ let (j, held, e, f) = upsert-keys s x in (j, held, e ∙ sym a, f ∙ sym b)
        ],
      )

  -- The sets of projects after an effect on the rows are what the effect makes of the sets before.
  pub effect-contents :
      (user_id : ℕ) (s t : State d) (e : Effect d)
      → IsEffect d user_id s e t
      → (k : Text) (p : ℕ) → Contains t k p ↔ SetAfter e (Contains s) k p
  effect-contents user_id s t (created c) (own, free_id, free_slug, e) k p =
      subst (λ (x : State d). Contains x k p ↔ Contains s k p) (sym e) ((λ m. m), λ m. m)
  effect-contents user_id s t (changed c f) (own, keeps, free, e) k p =
      subst (λ (x : State d). Contains x k p ↔ Contains s k p) (sym e) ((λ m. m), λ m. m)
  effect-contents user_id s t (dropped c) (own, e) k p =
      subst (λ (x : State d). Contains x k p ↔ SetAfter (dropped c) (Contains s) k p) (sym e)
        (
          (λ (i, h, a, b).
              let (old, off) = (items.holds_delete (is_item_of c.id) s.items i).0 h in
              ((i, old, a, b), λ same. ne_of_teq-false i.collection_id c.id off (a ∙ same))),
          λ ((i, old, a, b), other). elim (Bool-cases (is_item_of c.id i)) [
            | inl on ↦ absurd (other (sym a ∙ teq_sound i.collection_id c.id on))
            | inr off ↦ (i, (items.holds_delete (is_item_of c.id) s.items i).1 (old, off), a, b)
          ],
        )
  effect-contents user_id s t (added c q) (own, found, e) k p =
      subst (λ (x : State d). Contains x k p ↔ SetAfter (added c q) (Contains s) k p) (sym e)
        (added-contents s (new_item d user_id s c q) k p)
  effect-contents user_id s t (removed c i) (own, (held, filed), e) k p =
      let here = is_item i.collection_id i.project_id in
      subst (λ (x : State d). Contains x k p ↔ SetAfter (removed c i) (Contains s) k p) (sym e)
        (
          (λ (j, h, a, b).
              let (old, off) = (items.holds_delete here s.items j).0 h in
              (
                (j, old, a, b),
                λ same. cc (
                  is_item-true j i.collection_id i.project_id (a ∙ same.0 ∙ sym filed) (b ∙ same.1),
                  off,
                ),
              )),
          λ ((j, old, a, b), other). elim (Bool-cases (here j)) [
            | inl on ↦
                let (x, y) = is_item-keys i.collection_id i.project_id j on in
                absurd (other (sym a ∙ x ∙ filed, sym b ∙ y))
            | inr off ↦ (j, (items.holds_delete here s.items j).1 (old, off), a, b)
          ],
        )
  effect-contents user_id s t (ordered c i z) (own, found, e) k p =
      let here = is_item i.collection_id i.project_id in
      let f = λ (j : CollectionProject). record j { sort_order = z } in
      let rows = items.holds_update here f s.items in
      subst (λ (x : State d). Contains x k p ↔ Contains s k p) (sym e)
        (
          (λ (j, h, a, b). elim ((rows j).0 h) [
            | inl (old, off) ↦ (j, old, a, b)
            | inr (q, old, fits, x) ↦ (
              q,
              old,
              sym (ap (λ (y : CollectionProject). y.collection_id) x) ∙ a,
              sym (ap (λ (y : CollectionProject). y.project_id) x) ∙ b,
            )
          ]),
          λ (j, old, a, b). elim (Bool-cases (here j)) [
            | inl on ↦ (f j, (rows (f j)).1 (inr (j, old, on, refl)), a, b)
            | inr off ↦ (j, (rows j).1 (inl (old, off)), a, b)
          ],
        )

  -- A request that succeeds does to the sets of projects what it asks for: it adds the approved project
  -- that it names to the collection that it names, takes one out, empties a collection that is deleted,
  -- or leaves every set as it was; and the collection is the user's own.
  pub collection_step_refines :
      (user_id : ℕ) (request : CollectionRequest) (s t : State d)
      → collection_step d user_id request s ≡ ok t
      → (e : Effect d) × IsAsked d s request e
        × IsEffect d user_id s e t
        × ((k : Text) (p : ℕ) → Contains t k p ↔ SetAfter e (Contains s) k p)
  collection_step_refines user_id request s t h =
      let (e, did, asked) = collection_step-effect d user_id request s t h in
      (e, asked, did, effect-contents user_id s t e did)
