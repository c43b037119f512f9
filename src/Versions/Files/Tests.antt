-- ===== src/Versions/Files/Tests.antt =====
-- A release of one archive, with two hashes; the URL parser of the tests knows one origin.
use moddery.Base.{
  ◌≤◌, ◌<◌, ◌≡◌, refl, List, [], ◌∷◌, Option, none, some, Text, text, starts_with, true, false,
  if◌then◌else◌, length, keep_if, drop, All, AreDistinct, pos, whole, ok, err, bad_request,
  internal_error, trim, trim_start, is_space, teq, ◌++◌,
}
use moddery.Database.Memory.{memory}
use moddery.Versions.Files.{
  VersionFileInput, Url, max_version_files, validate_version_files, normalize_hash_algorithm,
}
use moddery.Versions.Files.Valid.{IsReleaseFile, trimmed_names, validate_version_files_sound}
use moddery.Versions.Files.Rows.{
  VersionFileRow, FileHashRow, CreatedVersionFile, Rows, create_version_files,
}
use moddery.Versions.Files.Stored.{create-validate_version_files, AreCreated}

abbrev origin : Text
origin = text "https://cdn.test"

-- "https://cdn.test" and a path.
abbrev parse_url : Text → Option Url
parse_url s =
    if starts_with s origin
    then some (record { protocol = text "https:"; host = text "cdn.test"; pathname = drop 16 s })
    else none

abbrev archive : VersionFileInput
archive = record {
  file_name = text " mod.JAR ";
  url = text "https://cdn.test/files/projects/my-mod/version-file/1-mod.jar";
  primary = true;
  size_bytes = whole (pos 1000);
  hashes = some (
      record { algorithm = text "sha1"; value = text "AB" }
      ∷ record { algorithm = text " Sha512"; value = text "cd" }
      ∷ []);
}

abbrev base : Text
base = text "https://cdn.test/files/ "

accepted : validate_version_files parse_url (archive ∷ []) base (text "My Mod") ≡ ok tt
unfolding validate_version_files normalize_hash_algorithm starts_with
accepted = refl

refused :
    (validate_version_files parse_url [] base (text "My Mod")
      ≡ err (bad_request "At least one version file is required"))
    × (validate_version_files parse_url (archive ∷ archive ∷ []) base (text "My Mod")
        ≡ err (bad_request "Only one primary version file is allowed"))
    × (validate_version_files parse_url
          (archive ∷ record archive { primary = false } ∷ [])
          base
          (text "My Mod")
        ≡ err (bad_request "Version file names must be unique"))
    × (validate_version_files parse_url (archive ∷ []) base (text "other")
        ≡ err (bad_request "Version file URL must use this project release storage"))
unfolding validate_version_files normalize_hash_algorithm starts_with
refused = (refl, refl, refl, refl)

validate_version_files_sound_example :
    (0 < 1)
    × (1 ≤ max_version_files)
    × (length (keep_if (λ (f : VersionFileInput). f.primary) (archive ∷ [])) ≡ 1)
    × All (IsReleaseFile parse_url base (text "My Mod")) (archive ∷ [])
    × AreDistinct (trimmed_names (archive ∷ []))
validate_version_files_sound_example =
    validate_version_files_sound parse_url base (text "My Mod") (archive ∷ []) accepted

abbrev empty : Rows (memory VersionFileRow) (memory FileHashRow)
empty = record { files = []; hashes = []; next_id = 5 }

create-validate_version_files_example :
    (t : Rows (memory VersionFileRow) (memory FileHashRow)) × (created : List CreatedVersionFile)
    × (create_version_files
          (memory VersionFileRow)
          (memory FileHashRow)
          (text "v1")
          (archive ∷ [])
          empty
        ≡ ok (t, created))
    × AreCreated
        (memory VersionFileRow)
        (memory FileHashRow)
        parse_url
        base
        (text "My Mod")
        (text "v1")
        (archive ∷ [])
        empty
        t
        created
create-validate_version_files_example =
    create-validate_version_files (memory VersionFileRow) (memory FileHashRow) parse_url base
      (text "My Mod") (text "v1") (archive ∷ []) empty accepted (λ name m r held. absurd held)

abbrev taken : VersionFileRow
taken = record {
  id = 4;
  bucket = text "external";
  file_name = text "old";
  is_primary = true;
  key = text "v1/" ++ trim archive.file_name;
  size_bytes = pos 1;
  url = [];
  version_id = text "v1";
}

-- A key is stored once.
key_conflict :
    create_version_files
      (memory VersionFileRow)
      (memory FileHashRow)
      (text "v1")
      (archive ∷ [])
      (record empty { files = taken ∷ [] })
    ≡ err (internal_error "Unique constraint failed on the fields: (`bucket`,`key`)")
unfolding create_version_files teq trim trim_start is_space
key_conflict = refl
