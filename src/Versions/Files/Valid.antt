-- ===== src/Versions/Files/Valid.antt =====
-- What a list of release files has established when its validation lets it through.
use moddery.Base.{
  ℕ, ◌^◌, ◌≤◌, ◌<◌, ◌≡◌, ◌≢◌, refl, sym, List, [], ◌∷◌, ◌++◌, map, Option, some, Text, teq, teq_iff,
  teq_sound, trim, is_empty, strip_trailing, starts_with_sound, ltb, ◌==◌, inl, inr, Bool, true,
  false, not, length, keep_if, any_of, any_of_complete, All, Among, AreDistinct, pos, Number, whole,
  ok, throw_if-eq-ok, >>-eq-ok, Result-cases, Bool-cases, Option-cases, arith,
}
use moddery.Versions.Files.{
  HashAlgorithm, sha1, sha256, sha512, VersionFileHashInput, VersionFileInput, max_version_files,
  max_file_hashes, allowed_version_file_extensions, has, same_algorithm, hashes_of,
  normalize_hash_algorithm, file_extension, is_positive_size, Url, validate_hashes, release_prefix,
  is_project_version_file_url, validate_file, validate_each, validate_version_files,
}

-- The algorithms that the hashes of a file name, one for each, every hash with a value.
pub data Digests : List VersionFileHashInput → List HashAlgorithm → Type 0 where
  done : Digests [] []
  more :
      {hash : VersionFileHashInput} {hashes : List VersionFileHashInput} {a : HashAlgorithm}
      {algorithms : List HashAlgorithm}
      → normalize_hash_algorithm hash.algorithm ≡ ok a
      → trim hash.value ≢ []
      → Digests hashes algorithms
      → Digests (hash ∷ hashes) (a ∷ algorithms)

same_algorithm_refl : (a : HashAlgorithm) → same_algorithm a a ≡ true
unfolding same_algorithm
same_algorithm_refl sha1 = refl
same_algorithm_refl sha256 = refl
same_algorithm_refl sha512 = refl

not_seen :
    (a : HashAlgorithm) (seen : List HashAlgorithm)
    → any_of (same_algorithm a) seen ≡ false
    → ¬ (Among a seen)
not_seen a seen h m = cc (any_of_complete (same_algorithm a) seen a m (same_algorithm_refl a))

not_empty : (s : Text) → is_empty s ≡ false → s ≢ []
not_empty [] h e = cc
not_empty (c ∷ s) h e = cc

split_new :
    {A : Type 0} (x : A) (seen xs : List A)
    → All (λ a. ¬ (Among a (x ∷ seen))) xs
    → ¬ (Among x xs) × All (λ a. ¬ (Among a seen)) xs
split_new x seen [] h = (λ m. m, tt)
split_new x seen (a ∷ xs) (p, h) =
    let (fresh, rest) = split_new x seen xs h in
    (λ m. elim m [ inl e ↦ p (inl (sym e)) | inr k ↦ fresh k ], (λ k. p (inr k), rest))

validate_hashes_sound :
    (seen : List HashAlgorithm) (hashes : List VersionFileHashInput)
    → validate_hashes seen hashes ≡ ok tt
    → (algorithms : List HashAlgorithm) × Digests hashes algorithms
      × AreDistinct algorithms
      × All (λ a. ¬ (Among a seen)) algorithms
unfolding validate_hashes
validate_hashes_sound seen [] h = ([], done, tt, tt)
validate_hashes_sound seen (hash ∷ hashes) h =
    elim (Result-cases (normalize_hash_algorithm hash.algorithm)) [
      | inr (error, e) ↦ absurd (ground (arith, e))
      | inl (a, e) ↦
          let (checks, rest) = >>-eq-ok _ _ (rw (e, validate_hashes) at h) in
          let (unseen, valued) = >>-eq-ok _ _ checks in
          let (algorithms, digests, distinct, fresh) =
            validate_hashes_sound (a ∷ seen) hashes rest in
          let (apart, new) = split_new a seen algorithms fresh in
          (
            a ∷ algorithms,
            more e (not_empty _ (throw_if-eq-ok _ _ valued)) digests,
            (apart, distinct),
            (not_seen a seen (throw_if-eq-ok _ _ unseen), new),
          )
    ]

has-Among : (s : Text) (seen : List Text) → has s seen ≡ true → Among s seen
unfolding has
has-Among s [] h = cc
has-Among s (t ∷ seen) h = elim (Bool-cases (teq t s)) [
  | inl e ↦ inl (sym (teq_sound t s e))
  | inr e ↦ inr (has-Among s seen (ground arith))
]

Among-has : (s : Text) (seen : List Text) → Among s seen → has s seen ≡ true
unfolding has
Among-has s seen m = any_of_complete (λ t. teq t s) seen s m ((teq_iff s s).1 refl)

size_sound :
    (size : Number)
    → is_positive_size size ≡ true
    → (n : ℕ) × (size ≡ whole (pos n)) × (0 < n) × (n < 2 ^ 53)
unfolding is_positive_size
size_sound (whole (pos n)) h = (n, refl, ground arith, ground arith)
size_sound _ h = cc

not-true : (b : Bool) → not b ≡ false → b ≡ true
not-true true h = refl
not-true false h = cc

count_pos : (n : ℕ) → (n == 0) ≡ false → 0 < n
count_pos n h = ground arith

count_le : (m n : ℕ) → ltb m n ≡ false → n ≤ m
count_le m n h = ground arith

count_one : (n : ℕ) → (n == 0) ≡ false → ltb 1 n ≡ false → n ≡ 1
count_one n h k = ground arith

-- The names that the loop compares.
abbrev pub trimmed_names : List VersionFileInput → List Text
trimmed_names files = map (λ f. trim f.file_name) files

module _ (parse_url : Text → Option Url) (public_base_url project_slug : Text) where
  -- The URL and the base both parse, with one origin, and the path goes on from the place of the
  -- project's release files.
  pub record IsReleaseUrl (url : Text) : Type 0 where
    pub candidate : Url
    pub base : Url
    pub rest : Text
    pub parsed : parse_url url ≡ some candidate
    pub based : parse_url (strip_trailing b'/' (trim public_base_url) ++ b'/' ∷ []) ≡ some base
    pub same_protocol : candidate.protocol ≡ base.protocol
    pub same_host : candidate.host ≡ base.host
    pub under : candidate.pathname ≡ release_prefix parse_url base project_slug ++ rest

  pub record IsReleaseFile (f : VersionFileInput) : Type 0 where
    pub named : trim f.file_name ≢ []
    pub archive : Among (file_extension (trim f.file_name)) allowed_version_file_extensions
    pub located : IsReleaseUrl (trim f.url)
    pub size : ℕ
    pub sized : (f.size_bytes ≡ whole (pos size)) × (0 < size) × (size < 2 ^ 53)
    pub few_hashes : length (hashes_of f) ≤ max_file_hashes
    pub algorithms : List HashAlgorithm
    pub digests : Digests (hashes_of f) algorithms
    pub one_each : AreDistinct algorithms

  url_sound :
      (url : Text)
      → is_project_version_file_url parse_url url public_base_url project_slug ≡ true
      → IsReleaseUrl url
  unfolding is_project_version_file_url
  url_sound url h = elim (Bool-cases (is_empty (strip_trailing b'/' (trim public_base_url)))) [
    | inl e ↦ absurd (ground arith)
    | inr e ↦ elim (Option-cases (parse_url url)) [
      | inl e₁ ↦ absurd (ground arith)
      | inr (candidate, e₁) ↦
          elim (Option-cases
            (parse_url (strip_trailing b'/' (trim public_base_url) ++ b'/' ∷ []))) [
              | inl e₂ ↦ absurd (ground arith)
              | inr (base, e₂) ↦
                  let (rest, under) =
                    starts_with_sound candidate.pathname
                      (release_prefix parse_url base project_slug) (ground arith) in
                  record {
                    candidate = candidate;
                    base = base;
                    rest = rest;
                    parsed = e₁;
                    based = e₂;
                    same_protocol = teq_sound _ _ (ground arith);
                    same_host = teq_sound _ _ (ground arith);
                    under = under;
                  }
            ]
    ]
  ]

  file_sound :
      (seen : List Text) (f : VersionFileInput)
      → validate_file parse_url public_base_url project_slug seen f ≡ ok tt
      → IsReleaseFile f × ¬ (Among (trim f.file_name) seen)
  unfolding validate_file
  file_sound seen f h =
      let (t₇, hashed) = >>-eq-ok _ _ h in
      let (t₆, few) = >>-eq-ok _ _ t₇ in
      let (t₅, sized) = >>-eq-ok _ _ t₆ in
      let (t₄, located) = >>-eq-ok _ _ t₅ in
      let (t₃, linked) = >>-eq-ok _ _ t₄ in
      let (t₂, unseen) = >>-eq-ok _ _ t₃ in
      let (named, archive) = >>-eq-ok _ _ t₂ in
      let (n, whole_size, positive, safe) =
        size_sound f.size_bytes (not-true _ (throw_if-eq-ok _ _ sized)) in
      let (algorithms, digests, distinct, _) = validate_hashes_sound [] (hashes_of f) hashed in
      (
        record {
          named = not_empty _ (throw_if-eq-ok _ _ named);
          archive =
              has-Among (file_extension (trim f.file_name)) allowed_version_file_extensions
                (not-true _ (throw_if-eq-ok _ _ archive));
          located = url_sound _ (not-true _ (throw_if-eq-ok _ _ located));
          size = n;
          sized = (whole_size, positive, safe);
          few_hashes = let few' = throw_if-eq-ok _ _ few in ground arith;
          algorithms = algorithms;
          digests = digests;
          one_each = distinct;
        },
        λ m. let fresh = throw_if-eq-ok _ _ unseen in cc (Among-has _ seen m, fresh),
      )

  each_sound :
      (seen : List Text) (files : List VersionFileInput)
      → validate_each parse_url public_base_url project_slug seen files ≡ ok tt
      → All IsReleaseFile files
        × AreDistinct (trimmed_names files)
        × All (λ name. ¬ (Among name seen)) (trimmed_names files)
  unfolding validate_each
  each_sound seen [] h = (tt, tt, tt)
  each_sound seen (f ∷ files) h =
      let (here, rest) = >>-eq-ok _ _ h in
      let (valid, fresh) = file_sound seen f here in
      let (all, distinct, new) = each_sound (trim f.file_name ∷ seen) files rest in
      let (apart, older) = split_new (trim f.file_name) seen (trimmed_names files) new in
      ((valid, all), (apart, distinct), (fresh, older))

  -- A list of files that the validation lets through holds between one and eight files with one
  -- primary among them; their trimmed names are not empty, pairwise different and end in an allowed
  -- extension; each has a URL under the release storage of the project, a positive safe size and at
  -- most eight hashes, of pairwise different known algorithms and with values.
  pub validate_version_files_sound :
      (files : List VersionFileInput)
      → validate_version_files parse_url files public_base_url project_slug ≡ ok tt
      → (0 < length files)
        × (length files ≤ max_version_files)
        × (length (keep_if (λ f. f.primary) files) ≡ 1)
        × All IsReleaseFile files
        × AreDistinct (trimmed_names files)
  unfolding validate_version_files
  validate_version_files_sound files h =
      let (t₃, each) = >>-eq-ok _ _ h in
      let (t₂, one) = >>-eq-ok _ _ t₃ in
      let (t₁, primary) = >>-eq-ok _ _ t₂ in
      let (some_file, few) = >>-eq-ok _ _ t₁ in
      let (all, distinct, _) = each_sound [] files each in
      (
        count_pos _ (throw_if-eq-ok _ _ some_file),
        count_le _ _ (throw_if-eq-ok _ _ few),
        count_one _ (throw_if-eq-ok _ _ primary) (throw_if-eq-ok _ _ one),
        all,
        distinct,
      )
