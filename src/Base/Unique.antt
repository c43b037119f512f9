-- ===== src/Base/Unique.antt =====
-- `[...new Set(values)]` on strings, and the trimmed lower-case lists that the services build on it.
use mathlib.Core.Path.{◌≡◌, refl, sym, ap}
use mathlib.Core.Logic.{◌↔◌, inl, inr}
use mathlib.Core.Bool.{Bool, true, not}
use mathlib.Core.List.{List, [], ◌∷◌, map}
use native.Mathlib.Omega.{arith}
use moddery.Base.Tests.{if◌then◌else◌, Bool-cases}
use moddery.Base.Lists.{any_of, any_of_complete, keep_if, Among, AreDistinct}
use moddery.Base.Strings.{Text, teq, teq_sound, teq_refl, trim, to_lower, is_empty}

-- `Set.prototype.has` and `Array.prototype.includes` on strings.
unfoldable pub includes : List Text → Text → Bool
unfolding teq
includes seen s = any_of (λ t. teq t s) seen

pub includes-Among : (seen : List Text) (s : Text) → includes seen s ≡ true → Among s seen
unfolding includes
includes-Among [] s h = cc
includes-Among (t ∷ seen) s h = elim (Bool-cases (teq t s)) [
  | inl e ↦ inl (sym (teq_sound t s e))
  | inr e ↦ inr (includes-Among seen s (ground arith))
]

pub Among-includes : (seen : List Text) (s : Text) → Among s seen → includes seen s ≡ true
unfolding includes
Among-includes seen s m = any_of_complete (λ t. teq t s) seen s m (teq_refl s)

unique_from : List Text → List Text → List Text
unfolding includes
unique_from seen [] = []
unique_from seen (s ∷ values) =
    let rest = unique_from (s ∷ seen) values in if includes seen s then rest else s ∷ rest

-- The first of each value, in their order.
unfoldable pub unique : List Text → List Text
unfolding unique_from
unique values = unique_from [] values

unique_from-Among :
    (seen values : List Text) (a : Text)
    → Among a (unique_from seen values)
    → Among a values × ¬ (Among a seen)
unfolding unique_from
unique_from-Among seen [] a m = absurd m
unique_from-Among seen (s ∷ values) a m = elim (Bool-cases (includes seen s)) [
  | inl old ↦
      let (k, fresh) = unique_from-Among (s ∷ seen) values a (rw (old, unique_from) at m) in
      (inr k, λ x. fresh (inr x))
  | inr new ↦ elim (rw (new, unique_from) at m) [
    | inl e ↦ (inl e, λ x. let h = Among-includes seen a x in cc (ap (includes seen) e))
    | inr k ↦
        let (j, fresh) = unique_from-Among (s ∷ seen) values a k in (inr j, λ x. fresh (inr x))
  ]
]

Among-unique_from :
    (seen values : List Text) (a : Text)
    → Among a values
    → ¬ (Among a seen)
    → Among a (unique_from seen values)
unfolding unique_from
Among-unique_from seen [] a m fresh = absurd m
Among-unique_from seen (s ∷ values) a m fresh = elim (Bool-cases (teq s a)) [
  | inl same ↦
      let e = teq_sound s a same in
      elim (Bool-cases (includes seen s)) [
        | inl old ↦ absurd (fresh (rw e at (includes-Among seen s old)))
        | inr new ↦ rw (new, unique_from) (inl (sym e))
      ]
  | inr other ↦
      let late : Among a values = elim m [
        | inl e ↦ cc (ap (λ x. teq x a) e, teq_refl a)
        | inr k ↦ k
      ] in
      let rest =
        Among-unique_from (s ∷ seen) values a late
          (λ x. elim x [ inl e ↦ cc (ap (λ y. teq y a) e, teq_refl a) | inr k ↦ fresh k ]) in
      elim (Bool-cases (includes seen s)) [
        | inl old ↦ rw (old, unique_from) rest
        | inr new ↦ rw (new, unique_from) (inr rest)
      ]
]

unique_from-AreDistinct : (seen values : List Text) → AreDistinct (unique_from seen values)
unfolding unique_from
unique_from-AreDistinct seen [] = tt
unique_from-AreDistinct seen (s ∷ values) = elim (Bool-cases (includes seen s)) [
  | inl old ↦ rw (old, unique_from) (unique_from-AreDistinct (s ∷ seen) values)
  | inr new ↦
      rw (new, unique_from)
        (
          (λ m. (unique_from-Among (s ∷ seen) values s m).1 (inl refl)),
          unique_from-AreDistinct (s ∷ seen) values,
        )
]

pub unique-AreDistinct : (values : List Text) → AreDistinct (unique values)
unfolding unique
unique-AreDistinct values = unique_from-AreDistinct [] values

pub unique-Among : (values : List Text) (a : Text) → Among a (unique values) ↔ Among a values
unfolding unique
unique-Among values a =
    (λ m. (unique_from-Among [] values a m).0, λ m. Among-unique_from [] values a m (λ x. x))

-- `value.trim().toLowerCase()`.
abbrev pub normalized : Text → Text
normalized s = to_lower (trim s)

-- `uniqueNormalized`: the trimmed lower-case values that are not empty, each once.
unfoldable pub unique_normalized : List Text → List Text
unfolding unique
unique_normalized values = unique (keep_if (λ s. not (is_empty s)) (map normalized values))
