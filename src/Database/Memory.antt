-- ===== src/Database/Memory.antt =====
-- A table as a list of rows, which meets the promises of `Table`: the parameter of the tests.
use moddery.Database.{Table}
use moddery.Base.{
  ap, ◌+◌, suc, Bool-cases, ◌≡◌, refl, ◌↔◌, ◌⊎◌, inl, inr, Bool, true, false, not, none, some, List,
  [], ◌∷◌, arith, if◌then◌else◌, length, keep_if, find_if, Among, Among-keep_if, keep_if-Among,
}

module _ {Row : Type 0} (p : Row → Bool) where
  abbrev replace : (Row → Row) → List Row → List Row
  replace f [] = []
  replace f (x ∷ xs) = (if p x then f x else x) ∷ replace f xs

  pub find_if_sound : (s : List Row) {r : Row} → find_if p s ≡ some r → Among r s × (p r ≡ true)
  find_if_sound [] h = ground arith
  find_if_sound (x ∷ s) {r} h = ground (arith, find_if_sound s {r = r})

  pub find_if_complete : (s : List Row) (r : Row) → find_if p s ≡ none → Among r s → p r ≡ false
  find_if_complete [] r h m = absurd m
  find_if_complete (x ∷ s) r h m = ground (arith, find_if_complete s r)

  pub count_zero_to : (s : List Row) (r : Row) → length (keep_if p s) ≡ 0 → Among r s → p r ≡ false
  count_zero_to [] r h m = absurd m
  count_zero_to (x ∷ s) r h m = ground (arith, count_zero_to s r)

  pub count_zero_from :
      (s : List Row) → ((r : Row) → Among r s → p r ≡ false) → length (keep_if p s) ≡ 0
  count_zero_from [] h = refl
  count_zero_from (x ∷ s) h = ground (arith, h x (inl refl), count_zero_from s (λ r m. h r (inr m)))

  pub Among-replace :
      (f : Row → Row) (s : List Row) (r : Row)
      → Among r (replace f s)
      → (Among r s × (p r ≡ false)) ⊎ ((q : Row) × Among q s × (p q ≡ true) × (r ≡ f q))
  Among-replace f [] r m = absurd m
  Among-replace f (x ∷ s) r (inl e) = elim (Bool-cases (p x)) [
    | inl h ↦ inr (x, inl refl, h, ground arith)
    | inr h ↦ inl (inl (ground arith), ground arith)
  ]
  Among-replace f (x ∷ s) r (inr m) = elim (Among-replace f s r m) [
    | inl (k, h) ↦ inl (inr k, h)
    | inr (q, k, h, e) ↦ inr (q, inr k, h, e)
  ]

  replace-kept :
      (f : Row → Row) (s : List Row) (r : Row) → Among r s → p r ≡ false → Among r (replace f s)
  replace-kept f [] r m h = absurd m
  replace-kept f (x ∷ s) r (inl e) h = inl (ground arith)
  replace-kept f (x ∷ s) r (inr m) h = inr (replace-kept f s r m h)

  replace-changed :
      (f : Row → Row) (s : List Row) (q : Row) → Among q s → p q ≡ true → Among (f q) (replace f s)
  replace-changed f [] q m h = absurd m
  replace-changed f (x ∷ s) q (inl e) h = inl (ground arith)
  replace-changed f (x ∷ s) q (inr m) h = inr (replace-changed f s q m h)

  pub replace-Among :
      (f : Row → Row) (s : List Row) (r : Row)
      → (Among r s × (p r ≡ false)) ⊎ ((q : Row) × Among q s × (p q ≡ true) × (r ≡ f q))
      → Among r (replace f s)
  replace-Among f s r (inl (m, h)) = replace-kept f s r m h
  replace-Among f s r (inr (q, m, h, e)) = rw e (replace-changed f s q m h)

  pub Among-drop :
      (s : List Row) (r : Row) → Among r (keep_if (λ x. not (p x)) s) ↔ (Among r s × (p r ≡ false))
  Among-drop s r = (
    λ m. let (k, h) = Among-keep_if (λ x. not (p x)) s r m in (k, ground arith),
    λ m. keep_if-Among (λ x. not (p x)) s r m.0 (rw m.1),
  )

pub count_drop :
    {Row : Type 0} (p q : Row → Bool) (s : List Row)
    → ((r : Row) → q r ≡ true → p r ≡ false)
    → length (keep_if p (keep_if (λ x. not (q x)) s)) ≡ length (keep_if p s)
count_drop p q [] apart = refl
count_drop p q (x ∷ s) apart =
    let rest = count_drop p q s apart in
    elim (Bool-cases (q x)) [
      | inl gone ↦ rw gone (rw (apart x gone) rest)
      | inr kept ↦ elim (Bool-cases (p x)) [
        | inl e ↦ rw kept (rw e (ap (λ n. suc n) rest))
        | inr e ↦ rw kept (rw e rest)
      ]
    ]

pub count_replaced :
    {Row : Type 0} (p q : Row → Bool) (f : Row → Row) (s : List Row)
    → ((r : Row) → q r ≡ true → p (f r) ≡ p r)
    → length (keep_if p (replace q f s)) ≡ length (keep_if p s)
count_replaced p q f [] same = refl
count_replaced p q f (x ∷ s) same =
    let rest = count_replaced p q f s same in
    let head : p (if q x then f x else x) ≡ p x = elim (Bool-cases (q x)) [
      | inl e ↦ rw e (same x e)
      | inr e ↦ rw e refl
    ] in
    elim (Bool-cases (p x)) [
      | inl e ↦ rw head (rw e (ap (λ n. suc n) rest))
      | inr e ↦ rw head (rw e rest)
    ]

pub count_added :
    {Row : Type 0} (p : Row → Bool) (x : Row) (s : List Row)
    → length (keep_if p (x ∷ s)) ≡ (if p x then length (keep_if p s) + 1 else length (keep_if p s))
count_added p x s = elim (Bool-cases (p x)) [ inl e ↦ rw e (omega arith) | inr e ↦ rw e refl ]

-- Rows in the order of their insertion; the newest comes first.
abbrev pub memory : (Row : Type 0) → Table Row
memory Row = record {
  Store = List Row;
  Holds = λ s r. Among r s;
  find_first = find_if;
  count = λ p s. length (keep_if p s);
  create = λ x s. x ∷ s;
  update = λ p f s. replace p f s;
  delete = λ p s. keep_if (λ x. not (p x)) s;
  find_sound = find_if_sound;
  find_complete = λ p s h r m. find_if_complete p s r h m;
  count_zero = λ p s. (λ h r m. count_zero_to p s r h m, count_zero_from p s);
  count_create = count_added;
  count_update = count_replaced;
  count_delete = count_drop;
  holds_create = λ x s r. (λ m. m, λ m. m);
  holds_update = λ p f s r. (Among-replace p f s r, replace-Among p f s r);
  holds_delete = Among-drop;
}
