-- ===== src/Versions/Files/Rows.antt =====
-- `createVersionFiles` of version-files.ts: the rows of validated files.
use moddery.Base.{
  ℕ, ◌+◌, ◌≡◌, ◌≢◌, refl, List, [], ◌∷◌, ◌++◌, Text, text, teq, trim, not, internal_error, to_lower,
  is_empty, ◌==◌, ◌&&◌, Bool, false, ℤ, Number, whole, Result, ok, err, bad_request, range_error,
  ◌>>=◌, ◌>>◌, throw_if,
}
use moddery.Database.{Table, upsert}
use moddery.Versions.Files.{
  HashAlgorithm, same_algorithm, VersionFileHashInput, VersionFileInput, hashes_of,
  normalize_hash_algorithm,
}
use moddery.Versions.Files.Valid.{Digests, done, more}

pub record VersionFileRow : Type 0 where
  pub id : ℕ
  pub bucket : Text
  pub file_name : Text
  pub is_primary : Bool
  pub key : Text
  pub size_bytes : ℤ
  pub url : Text
  pub version_id : Text

pub record FileHashRow : Type 0 where
  pub algorithm : HashAlgorithm
  pub file_id : ℕ
  pub value : Text

pub record CreatedVersionFile : Type 0 where
  pub file_name : Text
  pub id : ℕ

-- `BigInt(value)`.
abbrev pub big_int : Number → Result ℤ
big_int (whole z) = ok z
big_int _ =
    err (range_error "The number cannot be converted to a BigInt because it is not an integer")

abbrev pub external : Text
external = text "external"

abbrev pub key_of : Text → Text → Text
key_of version_id name = version_id ++ (b'/' ∷ name)

-- The unique index on the bucket and the key.
abbrev pub is_stored_as : Text → VersionFileRow → Bool
is_stored_as key r = teq r.bucket external && teq r.key key

lower-not_empty : (s : Text) → s ≢ [] → is_empty (to_lower s) ≡ false
lower-not_empty [] h = absurd (h refl)
lower-not_empty (c ∷ s) h = refl

module _ (version_files : Table VersionFileRow) (file_hashes : Table FileHashRow) where
  -- The tables of the transaction, and the identifier of the next file.
  pub record Rows : Type 0 where
    pub files : version_files.Store
    pub hashes : file_hashes.Store
    pub next_id : ℕ

  pub create_hashes : ℕ → List VersionFileHashInput → file_hashes.Store → Result file_hashes.Store
  create_hashes file_id [] s = ok s
  create_hashes file_id (hash ∷ hashes) s = elim (normalize_hash_algorithm hash.algorithm) [
    | err e ↦ err e
    | ok algorithm ↦
        let value = to_lower (trim hash.value) in
        let row : FileHashRow = record {
          algorithm = algorithm;
          file_id = file_id;
          value = value;
        } in
        let rest = create_hashes file_id hashes (
          upsert file_hashes (λ r. r.file_id == file_id && same_algorithm r.algorithm algorithm)
            (λ r. record r { value = value }) row s) in
        throw_if (is_empty value) (bad_request "Version file hash value is required") >> rest
  ]

  unfoldable pub file_row : Text → ℕ → VersionFileInput → ℤ → VersionFileRow
  file_row version_id id f size = record {
    id = id;
    bucket = external;
    file_name = trim f.file_name;
    is_primary = f.primary;
    key = key_of version_id (trim f.file_name);
    size_bytes = size;
    url = trim f.url;
    version_id = version_id;
  }

  unfoldable pub create_version_file : Text → VersionFileInput → Rows → Result Rows
  unfolding create_hashes file_row
  create_version_file version_id f s = do
    size ← big_int f.size_bytes
    let key = key_of version_id (trim f.file_name)
    unique_key ←
        throw_if (not (version_files.count (is_stored_as key) s.files == 0))
          (internal_error "Unique constraint failed on the fields: (`bucket`,`key`)")
    hashes ← create_hashes s.next_id (hashes_of f) s.hashes
    ok (record {
      files = version_files.create (file_row version_id s.next_id f size) s.files;
      hashes = hashes;
      next_id = s.next_id + 1;
    })

  unfoldable pub create_version_files :
      Text → List VersionFileInput → Rows → Result (Rows × List CreatedVersionFile)
  unfolding create_version_file
  create_version_files version_id [] s = ok (s, [])
  create_version_files version_id (f ∷ files) s = do
    t ← create_version_file version_id f s
    (u, created) ← create_version_files version_id files t
    ok (u, record { file_name = trim f.file_name; id = s.next_id } ∷ created)

  pub created_hashes :
      (file_id : ℕ) {hashes : List VersionFileHashInput} {algorithms : List HashAlgorithm}
      (s : file_hashes.Store)
      → Digests hashes algorithms
      → (t : file_hashes.Store) × (create_hashes file_id hashes s ≡ ok t)
  unfolding create_hashes
  created_hashes file_id s done = (s, refl)
  created_hashes file_id s (more {hash = hash} {a = a} e valued rest) =
      let value = to_lower (trim hash.value) in
      let (t, same) =
        created_hashes file_id
          (upsert file_hashes (λ r. r.file_id == file_id && same_algorithm r.algorithm a)
            (λ r. record r { value = value })
            (record { algorithm = a; file_id = file_id; value = value }) s)
          rest in
      (t, rw (e, create_hashes) (rw (lower-not_empty (trim hash.value) valued) same))
