-- ===== src/Versions/Files.antt =====
-- apps/api/src/versions/services/version-files.ts: the files of a new release.
-- The URL parser of the platform is a parameter.
pub mod Valid
pub mod Rows
pub mod Stored
pub mod Tests
use moddery.Base.{
  ℕ, ◌+◌, ◌-◌, ◌^◌, ◌<◌, ◌≡◌, List, [], ◌∷◌, ◌++◌, map, Option, none, some, Text, text, teq, trim,
  to_lower, to_upper, lower_unit, upper_unit, is_empty, strip_trailing, starts_with, ltb, leb, ◌==◌,
  ◌&&◌, ◌||◌, Bool, true, false, not, if◌then◌else◌, length, keep_if, any_of, ℤ, pos, negsuc,
  Number, whole, between, not_finite, Result, ok, err, HttpError, bad_request, ◌>>=◌, ◌>>◌,
  throw_if,
}

pub data HashAlgorithm : Type 0 where
  sha1 sha256 sha512 : HashAlgorithm

pub record VersionFileHashInput : Type 0 where
  pub algorithm : Text
  pub value : Text

pub record VersionFileInput : Type 0 where
  pub file_name : Text
  pub url : Text
  pub primary : Bool
  pub size_bytes : Number
  pub hashes : Option (List VersionFileHashInput)

abbrev pub max_version_files : ℕ
max_version_files = 8

abbrev pub max_file_hashes : ℕ
max_file_hashes = 8

abbrev pub allowed_version_file_extensions : List Text
allowed_version_file_extensions = text ".jar" ∷ text ".mrpack" ∷ text ".zip" ∷ []

-- `Set.prototype.has` and `Array.prototype.includes` on strings.
pub has : Text → List Text → Bool
unfolding teq
has s seen = any_of (λ t. teq t s) seen

pub same_algorithm : HashAlgorithm → HashAlgorithm → Bool
same_algorithm sha1 sha1 = true
same_algorithm sha256 sha256 = true
same_algorithm sha512 sha512 = true
same_algorithm _ _ = false

-- `file.hashes ?? []`.
abbrev pub hashes_of : VersionFileInput → List VersionFileHashInput
hashes_of f = elim f.hashes [ none ↦ [] | some hashes ↦ hashes ]

unfoldable pub normalize_hash_algorithm : Text → Result HashAlgorithm
unfolding teq trim upper_unit
normalize_hash_algorithm value =
    let normalized = to_upper (trim value) in
    if teq normalized (text "SHA1")
    then ok sha1
    else if teq normalized (text "SHA256")
    then ok sha256
    else if teq normalized (text "SHA512")
    then ok sha512
    else err (bad_request "Unsupported version file hash algorithm")

-- What stands behind the last dot, with the dot.
pub last_extension : Text → Option Text
last_extension [] = none
last_extension (c ∷ s) = elim (last_extension s) [
  | some t ↦ some t
  | none ↦ if c == b'.' then some (c ∷ s) else none
]

pub file_extension : Text → Text
unfolding last_extension lower_unit
file_extension name = elim (last_extension name) [ none ↦ [] | some t ↦ to_lower t ]

-- `/[^a-z0-9._-]/gi`.
abbrev pub is_key_unit : ℕ → Bool
is_key_unit c =
    (leb b'a' c && leb c b'z')
    || (leb b'A' c && leb c b'Z')
    || (leb b'0' c && leb c b'9')
    || c == b'.'
    || c == b'_'
    || c == b'-'

unfoldable pub encode_storage_key_part : Text → Text
unfolding lower_unit
encode_storage_key_part value = to_lower (map (λ c. if is_key_unit c then c else b'-') value)

-- `Number.isSafeInteger(size) && size > 0`.
pub is_positive_size : Number → Bool
is_positive_size (whole (pos n)) = ltb 0 n && ltb n (2 ^ 53)
is_positive_size _ = false

pub record Url : Type 0 where
  pub protocol : Text
  pub host : Text
  pub pathname : Text

-- The inner loop over the hashes of a file, with the algorithms that it has seen.
pub validate_hashes : List HashAlgorithm → List VersionFileHashInput → Result (Unit {0})
unfolding normalize_hash_algorithm same_algorithm
validate_hashes seen [] = ok tt
validate_hashes seen (hash ∷ hashes) = elim (normalize_hash_algorithm hash.algorithm) [
  | err e ↦ err e
  | ok algorithm ↦
      let rest = validate_hashes (algorithm ∷ seen) hashes in
      throw_if (any_of (same_algorithm algorithm) seen)
        (bad_request "Version file hash algorithms must be unique")
      >> throw_if (is_empty (trim hash.value)) (bad_request "Version file hash value is required")
      >> rest
]

-- `new URL(text)`, with `none` where the constructor throws.
module _ (parse_url : Text → Option Url) where
  -- `expectedPathPrefix`.
  abbrev pub release_prefix : Url → Text → Text
  release_prefix base project_slug =
      strip_trailing b'/' base.pathname
      ++ (text "/projects/" ++ (encode_storage_key_part project_slug ++ text "/version-file/"))

  pub is_project_version_file_url : Text → Text → Text → Bool
  unfolding strip_trailing starts_with teq trim encode_storage_key_part
  is_project_version_file_url url public_base_url project_slug =
      let normalized_base = strip_trailing b'/' (trim public_base_url) in
      if is_empty normalized_base then false else elim (parse_url url) [
        | none ↦ false
        | some candidate ↦ elim (parse_url (normalized_base ++ b'/' ∷ [])) [
          | none ↦ false
          | some base ↦
              teq candidate.protocol base.protocol
              && teq candidate.host base.host
              && starts_with candidate.pathname (release_prefix base project_slug)
        ]
      ]

  -- One round of the loop over the files, with the names that it has seen.
  pub validate_file : Text → Text → List Text → VersionFileInput → Result (Unit {0})
  unfolding has file_extension is_project_version_file_url is_positive_size validate_hashes trim
  validate_file public_base_url project_slug seen f =
      throw_if (is_empty (trim f.file_name)) (bad_request "Version file name is required")
      >> throw_if (not (has (file_extension (trim f.file_name)) allowed_version_file_extensions))
          (bad_request "Version files must be JAR, MRPACK, or ZIP archives")
      >> throw_if (has (trim f.file_name) seen) (bad_request "Version file names must be unique")
      >> throw_if (is_empty (trim f.url)) (bad_request "Version file URL is required")
      >> throw_if (not (is_project_version_file_url (trim f.url) public_base_url project_slug))
          (bad_request "Version file URL must use this project release storage")
      >> throw_if (not (is_positive_size f.size_bytes))
          (bad_request "Version file size must be positive")
      >> throw_if (ltb max_file_hashes (length (hashes_of f)))
          (bad_request "A version file can include at most 8 hashes")
      >> validate_hashes [] (hashes_of f)

  pub validate_each : Text → Text → List Text → List VersionFileInput → Result (Unit {0})
  unfolding validate_file
  validate_each public_base_url project_slug seen [] = ok tt
  validate_each public_base_url project_slug seen (f ∷ files) =
      let rest = validate_each public_base_url project_slug (trim f.file_name ∷ seen) files in
      validate_file public_base_url project_slug seen f >> rest

  unfoldable pub validate_version_files : List VersionFileInput → Text → Text → Result (Unit {0})
  unfolding validate_each
  validate_version_files files public_base_url project_slug =
      throw_if (length files == 0) (bad_request "At least one version file is required")
      >> throw_if (ltb max_version_files (length files))
          (bad_request "A version can include at most 8 files")
      >> throw_if (length (keep_if (λ f. f.primary) files) == 0)
          (bad_request "A primary version file is required")
      >> throw_if (ltb 1 (length (keep_if (λ f. f.primary) files)))
          (bad_request "Only one primary version file is allowed")
      >> validate_each public_base_url project_slug [] files
