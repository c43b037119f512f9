-- ===== src/Collections/Keys.antt =====
-- The keys of the tables of apps/api/src/collections/services/collections.service.ts: a collection is
-- told by its identifier, and by its slug among the owner's.
use moddery.Base.{
  ℕ, ◌≡◌, ◌≢◌, ◌⊎◌, inl, inr, sym, ap, ◌∙◌, subst, Text, teq, teq_sound, teq_refl, ◌==◌, ==_iff,
  true, false, Bool-cases,
}
use moddery.Collections.{Collection, Deps, State, is_collection, has_slug_of, has_other_slug}
use moddery.Collections.Effects.{
  Effect, created, changed, dropped, added, removed, ordered, IsEffect,
}

pub teq-false_of_ne : (s t : Text) → s ≢ t → teq s t ≡ false
teq-false_of_ne s t h = elim (Bool-cases (teq s t)) [
  | inl e ↦ absurd (h (teq_sound s t e))
  | inr e ↦ e
]

pub ne_of_teq-false : (s t : Text) → teq s t ≡ false → s ≢ t
ne_of_teq-false s t h e = cc (ap (λ (x : Text). teq x t) e, teq_refl t, h)

-- Two collections that one key of the table cannot hold both.
abbrev pub Share : Collection → Collection → Type 0
Share a b = (a.id ≡ b.id) ⊎ ((a.owner_id ≡ b.owner_id) × (a.slug ≡ b.slug))

pub turned : (a b : Collection) → Share a b → Share b a
turned a b (inl e) = inl (sym e)
turned a b (inr (e, f)) = inr (sym e, sym f)

module _ (d : Deps) where
  open d use {collections, items}

  abbrev pub AreKeyed : State d → Type 0
  AreKeyed s =
      (a b : Collection)
      → collections.Holds s.collections a
      → collections.Holds s.collections b
      → ((a.id ≡ b.id) ⊎ ((a.owner_id ≡ b.owner_id) × (a.slug ≡ b.slug)))
      → a ≡ b

  -- No row that the table holds has one of the keys of the new one.
  created-ne :
      (user_id : ℕ) (s : State d) (c b : Collection)
      → c.owner_id ≡ user_id
      → collections.count (is_collection c.id) s.collections ≡ 0
      → collections.count (has_slug_of user_id c.slug) s.collections ≡ 0
      → collections.Holds s.collections b
      → ¬ (Share c b)
  created-ne user_id s c b own free_id free_slug held (inl e) =
      let off = (collections.count_zero (is_collection c.id) s.collections).0 free_id b held in
      ne_of_teq-false b.id c.id off (sym e)
  created-ne user_id s c b own free_id free_slug held (inr (e, f)) =
      let off =
        (collections.count_zero (has_slug_of user_id c.slug) s.collections).0 free_slug b held in
      let mine : (b.owner_id == user_id) ≡ true = (==_iff b.owner_id user_id).1 (sym e ∙ own) in
      let named : teq b.slug c.slug ≡ true = rw (sym f) (teq_refl c.slug) in
      cc (rw (mine, named) at off)

  created-AreKeyed :
      (user_id : ℕ) (s : State d) (c : Collection)
      → c.owner_id ≡ user_id
      → collections.count (is_collection c.id) s.collections ≡ 0
      → collections.count (has_slug_of user_id c.slug) s.collections ≡ 0
      → AreKeyed s
      → AreKeyed (record s { collections = collections.create c s.collections })
  created-AreKeyed user_id s c own free_id free_slug keyed a b held_a held_b same =
      elim ((collections.holds_create c s.collections a).0 held_a) [
        | inl ea ↦ elim ((collections.holds_create c s.collections b).0 held_b) [
          | inl eb ↦ ea ∙ sym eb
          | inr kb ↦ absurd (
              created-ne user_id s c b own free_id free_slug kb
                (subst (λ (x : Collection). Share x b) ea same))
        ]
        | inr ka ↦ elim ((collections.holds_create c s.collections b).0 held_b) [
          | inl eb ↦ absurd (
              created-ne user_id s c a own free_id free_slug ka
                (subst (λ (x : Collection). Share x a) eb (turned a b same)))
          | inr kb ↦ keyed a b ka kb same
        ]
      ]

  -- A row after an update is an old one with another identifier, or the changed one.
  changed-rows :
      (s : State d) (c : Collection) (f : Collection → Collection)
      → AreKeyed s
      → collections.Holds s.collections c
      → (a : Collection)
      → collections.Holds (collections.update (is_collection c.id) f s.collections) a
      → (collections.Holds s.collections a × (a.id ≢ c.id)) ⊎ (a ≡ f c)
  changed-rows s c f keyed held a h =
      elim ((collections.holds_update (is_collection c.id) f s.collections a).0 h) [
        | inl (k, off) ↦ inl (k, ne_of_teq-false a.id c.id off)
        | inr (q, k, fits, e) ↦ inr (e ∙ ap f (keyed q c k held (inl (teq_sound q.id c.id fits))))
      ]

  changed-ne :
      (user_id : ℕ) (s : State d) (c : Collection) (f : Collection → Collection) (a : Collection)
      → c.owner_id ≡ user_id
      → ((f c).id ≡ c.id) × ((f c).owner_id ≡ c.owner_id)
      → collections.count (has_other_slug c.id user_id (f c).slug) s.collections ≡ 0
      → collections.Holds s.collections a
      → a.id ≢ c.id
      → ¬ (Share (f c) a)
  changed-ne user_id s c f a own keeps free held apart (inl e) = apart (sym e ∙ keeps.0)
  changed-ne user_id s c f a own keeps free held apart (inr (e, g)) =
      let off =
        (collections.count_zero (has_other_slug c.id user_id (f c).slug) s.collections).0 free a
          held in
      let other : teq a.id c.id ≡ false = teq-false_of_ne a.id c.id apart in
      let mine : (a.owner_id == user_id) ≡ true =
        (==_iff a.owner_id user_id).1 (sym e ∙ keeps.1 ∙ own) in
      let named : teq a.slug (f c).slug ≡ true = rw (sym g) (teq_refl (f c).slug) in
      cc (rw (other, mine, named) at off)

  changed-AreKeyed :
      (user_id : ℕ) (s : State d) (c : Collection) (f : Collection → Collection)
      → collections.Holds s.collections c
      → c.owner_id ≡ user_id
      → ((x : Collection) → ((f x).id ≡ x.id) × ((f x).owner_id ≡ x.owner_id))
      → collections.count (has_other_slug c.id user_id (f c).slug) s.collections ≡ 0
      → AreKeyed s
      → AreKeyed
          (record s { collections = collections.update (is_collection c.id) f s.collections })
  changed-AreKeyed user_id s c f held own keeps free keyed a b held_a held_b same =
      elim (changed-rows s c f keyed held a held_a) [
        | inl (ka, na) ↦ elim (changed-rows s c f keyed held b held_b) [
          | inl (kb, nb) ↦ keyed a b ka kb same
          | inr eb ↦ absurd (
              changed-ne user_id s c f a own (keeps c) free ka na
                (subst (λ (x : Collection). Share x a) eb (turned a b same)))
        ]
        | inr ea ↦ elim (changed-rows s c f keyed held b held_b) [
          | inl (kb, nb) ↦ absurd (
              changed-ne user_id s c f b own (keeps c) free kb nb
                (subst (λ (x : Collection). Share x b) ea same))
          | inr eb ↦ ea ∙ sym eb
        ]
      ]

  pub effect-AreKeyed :
      (user_id : ℕ) (s t : State d) (e : Effect d)
      → IsEffect d user_id s e t
      → AreKeyed s
      → AreKeyed t
  effect-AreKeyed user_id s t (created c) (own, free_id, free_slug, e) keyed =
      subst AreKeyed (sym e) (created-AreKeyed user_id s c own free_id free_slug keyed)
  effect-AreKeyed user_id s t (changed c f) ((held, own), keeps, free, e) keyed =
      subst AreKeyed (sym e) (changed-AreKeyed user_id s c f held own keeps free keyed)
  effect-AreKeyed user_id s t (dropped c) (own, e) keyed =
      subst AreKeyed (sym e) (λ a b held_a held_b same.
        keyed a b ((collections.holds_delete (is_collection c.id) s.collections a).0 held_a).0
          ((collections.holds_delete (is_collection c.id) s.collections b).0 held_b).0 same)
  effect-AreKeyed user_id s t (added c p) (own, found, e) keyed = subst AreKeyed (sym e) keyed
  effect-AreKeyed user_id s t (removed c i) (own, found, e) keyed = subst AreKeyed (sym e) keyed
  effect-AreKeyed user_id s t (ordered c i z) (own, found, e) keyed = subst AreKeyed (sym e) keyed
