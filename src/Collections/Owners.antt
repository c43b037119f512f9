-- ===== src/Collections/Owners.antt =====
-- Only its owner changes a collection: apps/api/src/collections/services/collections.service.ts.
use moddery.Base.{
  ℕ, ◌≡◌, ◌≢◌, ◌↔◌, inl, inr, sym, ap, ◌∙◌, subst, List, [], ◌∷◌, Text, false, Result-cases, All,
}
use moddery.Collections.{Collection, Deps, State, is_collection}
use moddery.Collections.Requests.{CollectionRequest, collection_step, collection_run}
use moddery.Collections.Effects.{
  Effect, created, changed, dropped, added, removed, ordered, IsEffect, IsOwn,
}
use moddery.Collections.Outcomes.{collection_step-effect}
use moddery.Collections.Keys.{AreKeyed, effect-AreKeyed, teq-false_of_ne}
use moddery.Collections.Contents.{Contains, SetAfter, effect-contents}

off_of_ne : (x c : Collection) → x.id ≢ c.id → is_collection c.id x ≡ false
off_of_ne x c h = teq-false_of_ne x.id c.id h

module _ (d : Deps) where
  open d use {collections}

  -- A collection of another owner has another identifier than one of the user's own.
  other-id :
      (user_id : ℕ) (s : State d) (c x : Collection)
      → AreKeyed d s
      → IsOwn d user_id s c
      → collections.Holds s.collections x
      → x.owner_id ≢ user_id
      → x.id ≢ c.id
  other-id user_id s c x keyed (held, own) held_x foreign same =
      let e = keyed x c held_x held (inl same) in
      foreign (ap (λ (y : Collection). y.owner_id) e ∙ own)

  effect-row :
      (user_id : ℕ) (s t : State d) (e : Effect d) (x : Collection)
      → IsEffect d user_id s e t
      → AreKeyed d s
      → collections.Holds s.collections x
      → x.owner_id ≢ user_id
      → collections.Holds t.collections x
  effect-row user_id s t (created c) x (own, free_id, free_slug, e) keyed held foreign =
      subst (λ (y : State d). collections.Holds y.collections x) (sym e)
        ((collections.holds_create c s.collections x).1 (inr held))
  effect-row user_id s t (changed c f) x (own, keeps, free, e) keyed held foreign =
      subst (λ (y : State d). collections.Holds y.collections x) (sym e)
        ((collections.holds_update (is_collection c.id) f s.collections x).1
          (inl (held, off_of_ne x c (other-id user_id s c x keyed own held foreign))))
  effect-row user_id s t (dropped c) x (own, e) keyed held foreign =
      subst (λ (y : State d). collections.Holds y.collections x) (sym e)
        ((collections.holds_delete (is_collection c.id) s.collections x).1
          (held, off_of_ne x c (other-id user_id s c x keyed own held foreign)))
  effect-row user_id s t (added c p) x (own, found, e) keyed held foreign =
      subst (λ (y : State d). collections.Holds y.collections x) (sym e) held
  effect-row user_id s t (removed c i) x (own, found, e) keyed held foreign =
      subst (λ (y : State d). collections.Holds y.collections x) (sym e) held
  effect-row user_id s t (ordered c i z) x (own, found, e) keyed held foreign =
      subst (λ (y : State d). collections.Holds y.collections x) (sym e) held

  -- Outside the collection that an effect is on, the sets stay.
  set-after_other :
      (user_id : ℕ) (s t : State d) (e : Effect d) (x : Collection) (M : Text → ℕ → Type 0) (p : ℕ)
      → IsEffect d user_id s e t
      → AreKeyed d s
      → collections.Holds s.collections x
      → x.owner_id ≢ user_id
      → SetAfter d e M x.id p ↔ M x.id p
  set-after_other user_id s t (created c) x M p did keyed held foreign = ((λ m. m), λ m. m)
  set-after_other user_id s t (changed c f) x M p did keyed held foreign = ((λ m. m), λ m. m)
  set-after_other user_id s t (dropped c) x M p did keyed held foreign =
      ((λ m. m.0), λ m. (m, other-id user_id s c x keyed did.0 held foreign))
  set-after_other user_id s t (added c q) x M p did keyed held foreign = (
    (λ m. elim m [
      | inl k ↦ k
      | inr (e, f) ↦ absurd (other-id user_id s c x keyed did.0 held foreign e)
    ]),
    λ m. inl m,
  )
  set-after_other user_id s t (removed c i) x M p did keyed held foreign =
      ((λ m. m.0), λ m. (m, λ k. other-id user_id s c x keyed did.0 held foreign k.0))
  set-after_other user_id s t (ordered c i z) x M p did keyed held foreign = ((λ m. m), λ m. m)

  -- As long as others than its owner ask, a collection stays, its row with every column and its set of
  -- projects, whatever they ask for.
  pub foreign_requests_keep :
      (requests : List (ℕ × CollectionRequest)) (s : State d) (x : Collection)
      → AreKeyed d s
      → collections.Holds s.collections x
      → All (λ (q : ℕ × CollectionRequest). x.owner_id ≢ q.0) requests
      → collections.Holds ((collection_run d requests s).collections) x
        × ((p : ℕ) → Contains d (collection_run d requests s) x.id p ↔ Contains d s x.id p)
  unfolding collection_run
  foreign_requests_keep [] s x keyed held foreign = (held, λ p. ((λ m. m), λ m. m))
  foreign_requests_keep ((user_id, request) ∷ requests) s x keyed held foreign =
      elim (Result-cases (collection_step d user_id request s)) [
        | inl (t, e) ↦
            let (act, did, asked) = collection_step-effect d user_id request s t e in
            let held_t = effect-row user_id s t act x did keyed held foreign.0 in
            let (row, set) =
              foreign_requests_keep requests t x (effect-AreKeyed d user_id s t act did keyed)
                held_t foreign.1 in
            rw (e, collection_run)
              (
                row,
                λ p.
                    let (to, back) = effect-contents d user_id s t act did x.id p in
                    let (out, into) =
                      set-after_other user_id s t act x (Contains d s) p did keyed held foreign.0 in
                    ((λ m. out (to ((set p).0 m))), λ m. (set p).1 (back (into m))),
              )
        | inr (error, e) ↦
            rw (e, collection_run) (foreign_requests_keep requests s x keyed held foreign.1)
      ]
