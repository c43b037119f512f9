-- ===== src/Database.antt =====
-- The Prisma client, which apps/api/src/prisma/prisma.service.ts only extends: one table as the
-- services call it, with what the documentation of the client promises of each call.
-- A table is known by the rows that it holds; their order is the database's.
pub mod Memory
use moddery.Base.{
  ◌+◌, if◌then◌else◌, refl, Option-cases, inl, inr, ◌≢◌, ℕ, ◌≡◌, ◌↔◌, ◌⊎◌, Bool, true, false,
  Option, none, some,
}

pub record Table (Row : Type 0) : Type 1 where
  pub Store : Type 0
  pub Holds : Store → Row → Type 0
  -- `findFirst` and `findUnique`, by the `where` clause as a test.
  pub find_first : (Row → Bool) → Store → Option Row
  -- The `count` that `updateMany` and `deleteMany` return.
  pub count : (Row → Bool) → Store → ℕ
  pub create : Row → Store → Store
  -- `update` and `updateMany`: `data` as a function on the rows that the `where` clause selects.
  pub update : (Row → Bool) → (Row → Row) → Store → Store
  -- `delete` and `deleteMany`.
  pub delete : (Row → Bool) → Store → Store
  pub find_sound :
      (p : Row → Bool) (s : Store) {r : Row} → find_first p s ≡ some r → Holds s r × (p r ≡ true)
  pub find_complete :
      (p : Row → Bool) (s : Store) → find_first p s ≡ none → (r : Row) → Holds s r → p r ≡ false
  pub count_zero :
      (p : Row → Bool) (s : Store) → (count p s ≡ 0) ↔ ((r : Row) → Holds s r → p r ≡ false)
  pub count_create :
      (p : Row → Bool) (x : Row) (s : Store)
      → count p (create x s) ≡ (if p x then count p s + 1 else count p s)
  pub count_update :
      (p q : Row → Bool) (f : Row → Row) (s : Store)
      → ((r : Row) → q r ≡ true → p (f r) ≡ p r)
      → count p (update q f s) ≡ count p s
  pub count_delete :
      (p q : Row → Bool) (s : Store)
      → ((r : Row) → q r ≡ true → p r ≡ false)
      → count p (delete q s) ≡ count p s
  pub holds_create : (x : Row) (s : Store) (r : Row) → Holds (create x s) r ↔ ((r ≡ x) ⊎ Holds s r)
  pub holds_update :
      (p : Row → Bool) (f : Row → Row) (s : Store) (r : Row)
      → Holds (update p f s) r
        ↔ ((Holds s r × (p r ≡ false)) ⊎ ((q : Row) × Holds s q × (p q ≡ true) × (r ≡ f q)))
  pub holds_delete :
      (p : Row → Bool) (s : Store) (r : Row) → Holds (delete p s) r ↔ (Holds s r × (p r ≡ false))

-- `upsert`: the first row that the `where` clause selects is updated, or a row is created.
abbrev pub upsert :
    {Row : Type 0} (t : Table Row) → (Row → Bool) → (Row → Row) → Row → t.Store → t.Store
upsert t p change row s = elim (t.find_first p s) [
  | none ↦ t.create row s
  | some _ ↦ t.update p change s
]

-- Where a row is counted, one is held.
pub counted :
    {Row : Type 0} (t : Table Row) (p : Row → Bool) (s : t.Store)
    → t.count p s ≢ 0
    → (r : Row) × t.Holds s r × (p r ≡ true)
counted t p s some_row = elim (Option-cases (t.find_first p s)) [
  | inl none_found ↦ absurd (some_row ((t.count_zero p s).1 (t.find_complete p s none_found)))
  | inr (r, found) ↦ let (held, fits) = t.find_sound p s found in (r, held, fits)
]

module _ {Row : Type 0} (t : Table Row) (p : Row → Bool) (f : Row → Row) (x : Row)
    (s : t.Store) where
  -- A row after an upsert is an unselected one, the new one, or a selected one that was changed.
  pub upsert_rows :
      (r : Row)
      → t.Holds (upsert t p f x s) r
      → (t.Holds s r × (p r ≡ false))
        ⊎ ((r ≡ x) ⊎ ((q : Row) × t.Holds s q × (p q ≡ true) × (r ≡ f q)))
  upsert_rows r h = elim (Option-cases (t.find_first p s)) [
    | inl miss ↦ elim ((t.holds_create x s r).0 (rw (miss, upsert) at h)) [
      | inl e ↦ inr (inl e)
      | inr k ↦ inl (k, t.find_complete p s miss r k)
    ]
    | inr (q, found) ↦ elim ((t.holds_update p f s r).0 (rw (found, upsert) at h)) [
      | inl k ↦ inl k
      | inr changed ↦ inr (inr changed)
    ]
  ]

  pub upsert_keeps : (r : Row) → t.Holds s r → p r ≡ false → t.Holds (upsert t p f x s) r
  upsert_keeps r h off = elim (Option-cases (t.find_first p s)) [
    | inl miss ↦ rw (miss, upsert) ((t.holds_create x s r).1 (inr h))
    | inr (q, found) ↦ rw (found, upsert) ((t.holds_update p f s r).1 (inl (h, off)))
  ]

  pub upsert_writes :
      (r : Row) × t.Holds (upsert t p f x s) r
      × ((r ≡ x) ⊎ ((q : Row) × t.Holds s q × (p q ≡ true) × (r ≡ f q)))
  upsert_writes = elim (Option-cases (t.find_first p s)) [
    | inl miss ↦ (x, rw (miss, upsert) ((t.holds_create x s x).1 (inl refl)), inl refl)
    | inr (q, found) ↦
        let (k, fits) = t.find_sound p s found in
        (
          f q,
          rw (found, upsert) ((t.holds_update p f s (f q)).1 (inr (q, k, fits, refl))),
          inr (q, k, fits, refl),
        )
  ]
