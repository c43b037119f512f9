-- ===== src/Base/Lists.antt =====
-- Lists measured by native numbers, tests over lists, and predicates on lists by recursion.
use Prim.Native.Nat.{ℕ, zero, suc, ◌+◌, ◌≤◌}
use mathlib.Core.Path.{◌≡◌, refl, ap}
use mathlib.Core.Logic.{◌⊎◌, inl, inr}
use mathlib.Core.Bool.{Bool, true, false, ◌&&◌, ◌||◌}
use mathlib.Core.List.{List, [], ◌∷◌, ◌++◌, reverse, reverse-cons}
use mathlib.Core.Option.{Option, none, some}
use native.Mathlib.Omega.{arith}
use moddery.Base.Tests.{Bool-cases, if◌then◌else◌}

module _ {ℓ} {A : Type ℓ} where
  abbrev pub length : List A → ℕ
  length [] = 0
  length (x ∷ xs) = suc (length xs)

  abbrev pub take : ℕ → List A → List A
  take zero xs = []
  take (suc n) [] = []
  take (suc n) (x ∷ xs) = x ∷ take n xs

  abbrev pub drop : ℕ → List A → List A
  drop zero xs = xs
  drop (suc n) [] = []
  drop (suc n) (x ∷ xs) = drop n xs

  abbrev pub get_or : List A → ℕ → A → A
  get_or [] i d = d
  get_or (x ∷ xs) zero d = x
  get_or (x ∷ xs) (suc i) d = get_or xs i d

  pub length-append : (xs ys : List A) → length (xs ++ ys) ≡ length xs + length ys
  length-append [] ys = omega arith
  length-append (x ∷ xs) ys = omega (arith, length-append xs ys)

  pub length-take_le : (n : ℕ) (xs : List A) → length (take n xs) ≤ n
  length-take_le zero xs = omega arith
  length-take_le (suc n) [] = omega arith
  length-take_le (suc n) (x ∷ xs) = omega (arith, length-take_le n xs)

  -- The items that pass a test, in their order (`Array.prototype.filter`).
  abbrev pub keep_if : (A → Bool) → List A → List A
  keep_if p [] = []
  keep_if p (x ∷ xs) = if p x then x ∷ keep_if p xs else keep_if p xs

  -- The first item that passes a test (`Array.prototype.find`).
  abbrev pub find_if : (A → Bool) → List A → Option A
  find_if p [] = none
  find_if p (x ∷ xs) = if p x then some x else find_if p xs

  abbrev pub any_of : (A → Bool) → List A → Bool
  any_of p [] = false
  any_of p (x ∷ xs) = p x || any_of p xs

  abbrev pub all_of : (A → Bool) → List A → Bool
  all_of p [] = true
  all_of p (x ∷ xs) = p x && all_of p xs

abbrev pub All {ℓ κ} : {A : Type ℓ} → (A → Type κ) → List A → Type κ
All P [] = Unit
All P (x ∷ xs) = P x × All P xs

-- Membership by recursion, which computes to a sum.
abbrev pub Among : {A : Type 0} → A → List A → Type 0
Among a [] = ⊥
Among a (x ∷ xs) = (a ≡ x) ⊎ Among a xs

pub All-append {ℓ κ} :
    {A : Type ℓ} (P : A → Type κ) (xs ys : List A) → All P xs → All P ys → All P (xs ++ ys)
All-append P [] ys h k = k
All-append P (x ∷ xs) ys (p, h) k = (p, All-append P xs ys h k)

pub All-Among : {A : Type 0} (P : A → Type 0) (xs : List A) → All P xs → (a : A) → Among a xs → P a
All-Among P [] h a m = absurd m
All-Among P (x ∷ xs) (p, h) a (inl e) = rw e p
All-Among P (x ∷ xs) (p, h) a (inr m) = All-Among P xs h a m

module _ {A : Type 0} (p : A → Bool) where
  pub Among-keep_if : (xs : List A) (a : A) → Among a (keep_if p xs) → Among a xs × (p a ≡ true)
  Among-keep_if [] a m = absurd m
  Among-keep_if (x ∷ xs) a m = ground (arith, Among-keep_if xs a)

  pub keep_if-Among : (xs : List A) (a : A) → Among a xs → p a ≡ true → Among a (keep_if p xs)
  keep_if-Among [] a m h = absurd m
  keep_if-Among (x ∷ xs) a m h = ground (arith, keep_if-Among xs a)

pub All-reverse {ℓ κ} : {A : Type ℓ} (P : A → Type κ) (xs : List A) → All P xs → All P (reverse xs)
All-reverse P [] h = tt
All-reverse P (x ∷ xs) (p, h) =
    rw (reverse-cons x xs) (All-append P (reverse xs) (x ∷ []) (All-reverse P xs h) (p, tt))

-- No two items are equal.
abbrev pub AreDistinct : {A : Type 0} → List A → Type 0
AreDistinct [] = Unit
AreDistinct (x ∷ xs) = ¬ (Among x xs) × AreDistinct xs

pub any_of_sound :
    {A : Type 0} (p : A → Bool) (xs : List A)
    → any_of p xs ≡ true
    → (a : A) × Among a xs × (p a ≡ true)
any_of_sound p [] h = cc
any_of_sound p (x ∷ xs) h = elim (Bool-cases (p x)) [
  | inl e ↦ (x, inl refl, e)
  | inr e ↦ let (a, m, k) = any_of_sound p xs (ground arith) in (a, inr m, k)
]

pub any_of_complete :
    {A : Type 0} (p : A → Bool) (xs : List A) (a : A) → Among a xs → p a ≡ true → any_of p xs ≡ true
any_of_complete p [] a m h = absurd m
any_of_complete p (x ∷ xs) a (inl e) h = rw (← e) (rw h)
any_of_complete p (x ∷ xs) a (inr m) h = ground (arith, any_of_complete p xs a m h)

pub keep_if-AreDistinct :
    {A : Type 0} (p : A → Bool) (xs : List A) → AreDistinct xs → AreDistinct (keep_if p xs)
keep_if-AreDistinct p [] d = tt
keep_if-AreDistinct p (x ∷ xs) (apart, d) = elim (Bool-cases (p x)) [
  | inl e ↦ rw e ((λ m. apart (Among-keep_if p xs x m).0), keep_if-AreDistinct p xs d)
  | inr e ↦ rw e (keep_if-AreDistinct p xs d)
]

pub take-++-drop : {A : Type 0} (n : ℕ) (xs : List A) → take n xs ++ drop n xs ≡ xs
take-++-drop zero xs = refl
take-++-drop (suc n) [] = refl
take-++-drop (suc n) (x ∷ xs) = ap (λ ys. x ∷ ys) (take-++-drop n xs)

pub All-prefix : {A : Type 0} (P : A → Type 0) (xs ys : List A) → All P (xs ++ ys) → All P xs
All-prefix P [] ys h = tt
All-prefix P (x ∷ xs) ys h = (h.0, All-prefix P xs ys h.1)
