-- ===== src/Versions/Files/Stored.antt =====
-- The rows that createVersionFiles of apps/api/src/versions/services/version-files.ts leaves of files
-- that the validation let through.
use moddery.Base.{
  ℕ, ◌+◌, ◌≡◌, ◌≢◌, refl, List, [], ◌∷◌, map, drop, Option, Text, teq, teq_sound, trim, ap, sym,
  subst, ◌∙◌, ◌↔◌, ◌⊎◌, inl, Among, AreDistinct, true, Bool-cases, ◌&&◌, Bool, false, All, whole,
  ok, ◌>>=◌, arith, pos, inr, length,
}
use moddery.Database.{Table}
use moddery.Versions.Files.{VersionFileInput, Url, validate_version_files}
use moddery.Versions.Files.Valid.{IsReleaseFile, trimmed_names, validate_version_files_sound}
use moddery.Versions.Files.Rows.{
  VersionFileRow, FileHashRow, CreatedVersionFile, external, key_of, is_stored_as, Rows, file_row,
  create_version_file, create_version_files, created_hashes,
}

module _ (version_files : Table VersionFileRow) (file_hashes : Table FileHashRow) where
  module _ (version_id : Text) where
    -- The row that a file is to have.
    abbrev pub IsRowOf : ℕ → VersionFileInput → VersionFileRow → Type 0
    IsRowOf id f r =
        (r.id ≡ id)
        × (r.bucket ≡ external)
        × (r.file_name ≡ trim f.file_name)
        × (r.is_primary ≡ f.primary)
        × (r.key ≡ key_of version_id (trim f.file_name))
        × (f.size_bytes ≡ whole r.size_bytes)
        × (r.url ≡ trim f.url)
        × (r.version_id ≡ version_id)

    -- One row for each file, in their order, with the identifiers from `id` on.
    abbrev pub AreRowsOf : ℕ → List VersionFileInput → List VersionFileRow → Type 0
    AreRowsOf id [] [] = Unit
    AreRowsOf id (f ∷ files) (r ∷ rows) = IsRowOf id f r × AreRowsOf (id + 1) files rows
    AreRowsOf id _ _ = ⊥

    -- No row that the table holds has the key of one of the names.
    abbrev pub AreFree : List Text → version_files.Store → Type 0
    AreFree names s =
        (name : Text)
        → Among name names
        → (r : VersionFileRow) → version_files.Holds s r
        → is_stored_as (key_of version_id name) r ≡ false

  abbrev pub created_of : VersionFileRow → CreatedVersionFile
  created_of r = record { file_name = r.file_name; id = r.id }

  key_of-cancel : (v a b : Text) → key_of v a ≡ key_of v b → a ≡ b
  key_of-cancel [] a b e = ap (drop 1) e
  key_of-cancel (c ∷ v) a b e = key_of-cancel v a b (ap (drop 1) e)

  keys_apart :
      (version_id a b : Text) → a ≢ b → teq (key_of version_id a) (key_of version_id b) ≡ false
  keys_apart version_id a b apart =
      elim (Bool-cases (teq (key_of version_id a) (key_of version_id b))) [
        | inl e ↦ absurd (apart (key_of-cancel version_id a b (teq_sound _ _ e)))
        | inr e ↦ e
      ]

  and_false : (b c : Bool) → c ≡ false → (b && c) ≡ false
  and_false true c h = h
  and_false false c h = refl

  module _ (parse_url : Text → Option Url) (public_base_url project_slug version_id : Text) where
    created_file :
        (f : VersionFileInput) (s : Rows version_files file_hashes)
        → IsReleaseFile parse_url public_base_url project_slug f
        → AreFree version_id (trim f.file_name ∷ []) s.files
        → (t : Rows version_files file_hashes) × (row : VersionFileRow) × (create_version_file
              version_files file_hashes version_id f s
            ≡ ok t)
          × IsRowOf version_id s.next_id f row
          × (t.next_id ≡ s.next_id + 1)
          × (t.files ≡ version_files.create row s.files)
    unfolding create_version_file file_row
    created_file f s valid free =
        let (hashes, stored) =
          created_hashes version_files file_hashes s.next_id s.hashes valid.digests in
        let row = file_row version_files file_hashes version_id s.next_id f (pos valid.size) in
        let key = key_of version_id (trim f.file_name) in
        let none_there : version_files.count (is_stored_as key) s.files ≡ 0 =
          (version_files.count_zero (is_stored_as key) s.files).1
            (free (trim f.file_name) (inl refl)) in
        (
          record {
            files = version_files.create row s.files;
            hashes = hashes;
            next_id = s.next_id + 1;
          },
          row,
          rw valid.sized.0 (rw none_there (rw (stored, ◌>>=◌) refl)),
          (refl, refl, refl, refl, refl, valid.sized.0, refl, refl),
          refl,
          refl,
        )

    still_free :
        (id : ℕ) (f : VersionFileInput) (files : List VersionFileInput) (row : VersionFileRow)
        (s : version_files.Store)
        → IsRowOf version_id id f row
        → AreDistinct (trimmed_names (f ∷ files))
        → AreFree version_id (trimmed_names (f ∷ files)) s
        → AreFree version_id (trimmed_names files) (version_files.create row s)
    still_free id f files row s is_row (fresh, distinct) free name m r held =
        elim ((version_files.holds_create row s r).0 held) [
          | inl e ↦
              let key : r.key ≡ key_of version_id (trim f.file_name) =
                ap (λ (x : VersionFileRow). x.key) e ∙ is_row.4 in
              let apart : trim f.file_name ≢ name =
                λ same. fresh (subst (λ (x : Text). Among x (trimmed_names files)) (sym same) m) in
              and_false (teq r.bucket external) (teq r.key (key_of version_id name)) (
                ap (λ (x : Text). teq x (key_of version_id name)) key
                ∙ keys_apart version_id (trim f.file_name) name apart)
          | inr k ↦ free name (inr m) r k
        ]

    -- What the creation of a list of files leaves.
    abbrev pub AreCreated :
        List VersionFileInput
        → (Rows version_files file_hashes)
        → (Rows version_files file_hashes)
        → List CreatedVersionFile
        → Type 0
    AreCreated files s t created =
        (rows : List VersionFileRow) × AreRowsOf version_id s.next_id files rows
        × (created ≡ map created_of rows)
        × (t.next_id ≡ s.next_id + length files)
        × ((r : VersionFileRow)
            → version_files.Holds t.files r ↔ (Among r rows ⊎ version_files.Holds s.files r))

    rows_added :
        (row : VersionFileRow) (rows : List VersionFileRow) (s t u : Rows version_files file_hashes)
        → t.files ≡ version_files.create row s.files
        → ((r : VersionFileRow)
            → version_files.Holds u.files r ↔ (Among r rows ⊎ version_files.Holds t.files r))
        → (r : VersionFileRow)
        → version_files.Holds u.files r ↔ (Among r (row ∷ rows) ⊎ version_files.Holds s.files r)
    rows_added row rows s t u stored held r =
        let (to, back) = held r in
        let (to_row, back_row) = version_files.holds_create row s.files r in
        let moved = λ (w : version_files.Store). version_files.Holds w r in
        (
          λ h. elim (to h) [
            | inl m ↦ inl (inr m)
            | inr k ↦ elim (to_row (subst moved stored k)) [
              | inl e ↦ inl (inl e)
              | inr old ↦ inr old
            ]
          ],
          λ h. elim h [
            | inl m ↦ elim m [
              | inl e ↦ back (inr (subst moved (sym stored) (back_row (inl e))))
              | inr k ↦ back (inl k)
            ]
            | inr old ↦ back (inr (subst moved (sym stored) (back_row (inr old))))
          ],
        )

    created_files :
        (files : List VersionFileInput) (s : Rows version_files file_hashes)
        → All (IsReleaseFile parse_url public_base_url project_slug) files
        → AreDistinct (trimmed_names files)
        → AreFree version_id (trimmed_names files) s.files
        → (t : Rows version_files file_hashes) × (created : List CreatedVersionFile)
          × (create_version_files version_files file_hashes version_id files s ≡ ok (t, created))
          × AreCreated files s t created
    unfolding create_version_files
    created_files [] s valid distinct free = (
      s,
      [],
      refl,
      (
        [],
        tt,
        refl,
        omega arith,
        λ r. ((λ k. inr k), λ k. elim k [ inl m ↦ absurd m | inr h ↦ h ]),
      ),
    )
    created_files (f ∷ files) s (here, valid) distinct free =
        let (t, row, one, is_row, next, stored) =
          created_file f s here
            (λ name k. free name (elim k [ inl e ↦ inl e | inr m ↦ absurd m ])) in
        let left =
          subst (AreFree version_id (trimmed_names files)) (sym stored)
            (still_free s.next_id f files row s.files is_row distinct free) in
        let (u, created, rest, (rows, are_rows, named, last, held)) =
          created_files files t valid distinct.1 left in
        (
          u,
          record { file_name = trim f.file_name; id = s.next_id } ∷ created,
          rw (one, ◌>>=◌) (rw (rest, ◌>>=◌) refl),
          (
            row ∷ rows,
            (is_row, subst (λ (n : ℕ). AreRowsOf version_id n files rows) next are_rows),
            cc (named, is_row.0, is_row.2),
            omega arith,
            rows_added row rows s t u stored held,
          ),
        )

    -- Files that the validation lets through, whose keys no row of the table has, are stored without an
    -- exception: exactly one row is added for each, in their order, with the next identifiers, the
    -- trimmed name and address, the size, the mark of the primary file and the key of the release; the
    -- reply names these rows, and no other row is added or lost.
    pub create-validate_version_files :
        (files : List VersionFileInput) (s : Rows version_files file_hashes)
        → validate_version_files parse_url files public_base_url project_slug ≡ ok tt
        → AreFree version_id (trimmed_names files) s.files
        → (t : Rows version_files file_hashes) × (created : List CreatedVersionFile)
          × (create_version_files version_files file_hashes version_id files s ≡ ok (t, created))
          × AreCreated files s t created
    create-validate_version_files files s h free =
        let facts = validate_version_files_sound parse_url public_base_url project_slug files h in
        created_files files s facts.3 facts.4 free
