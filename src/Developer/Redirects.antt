-- ===== src/Developer/Redirects.antt =====
-- Which addresses sanitizeRedirectUris of apps/api/src/developer/services/developer.service.ts takes,
-- and what the revocation of an application touches.
use moddery.Base.{
  List, [], ◌∷◌, ◌≡◌, ◌≢◌, ◌↔◌, inl, inr, refl, sym, ◌∙◌, subst, Text, trim, is_empty, true, false,
  not, true_of_not, Bool-cases, Option, some, unique, unique-Among, unique-AreDistinct,
  keep_if-AreDistinct, AreDistinct, Among, Among-keep_if, keep_if-Among, map, ok, bad_request,
  throw_if, throw_if-eq-ok, or_throw, or_throw-eq-ok, >>=-eq-ok, ok_injective,
}
use moddery.Auth.Tokens.{text_leb, insert, sort}
use moddery.Auth.Tokens.Scopes.{insert-Among, sort-Among, map-Among, Among-map}
use moddery.Developer.{trimmed_uris, is_full, is_nil, is_web, check_uris, sanitize_redirect_uris}

insert-AreDistinct :
    (s : Text) (ts : List Text) → ¬ (Among s ts) → AreDistinct ts → AreDistinct (insert s ts)
unfolding insert
insert-AreDistinct s [] fresh d = ((λ m. m), tt)
insert-AreDistinct s (t ∷ ts) fresh d = elim (Bool-cases (text_leb s t)) [
  | inl e ↦ rw (e, insert) (fresh, d)
  | inr e ↦
      rw (e, insert)
        (
          (λ m. elim ((insert-Among s ts t).0 m) [
            | inl same ↦ fresh (inl (sym same))
            | inr k ↦ d.0 k
          ]),
          insert-AreDistinct s ts (λ k. fresh (inr k)) d.1,
        )
]

sort-AreDistinct : (ts : List Text) → AreDistinct ts → AreDistinct (sort ts)
unfolding sort
sort-AreDistinct [] d = tt
sort-AreDistinct (t ∷ ts) (fresh, d) =
    insert-AreDistinct t (sort ts) (λ m. fresh ((sort-Among ts t).0 m)) (sort-AreDistinct ts d)

-- The trimmed texts that are not blank.
abbrev pub IsGiven : List Text → Text → Type 0
IsGiven uris a = (is_empty a ≡ false) × ((r : Text) × Among r uris × (a ≡ trim r))

empty_of_full : (a : Text) → is_full a ≡ true → is_empty a ≡ false
empty_of_full [] h = cc
empty_of_full (c ∷ a) h = refl

non_nil : (uris : List Text) (a : Text) → Among a uris → is_nil uris ≡ false
non_nil [] a m = absurd m
non_nil (uri ∷ uris) a m = refl

sorted_non_nil : (uris : List Text) → is_nil uris ≡ false → sort uris ≢ []
sorted_non_nil [] h e = cc
sorted_non_nil (uri ∷ uris) h e =
    subst (λ (xs : List Text). Among uri xs) e ((sort-Among (uri ∷ uris) uri).1 (inl refl))

trimmed_uris-AreDistinct : (uris : List Text) → AreDistinct (trimmed_uris uris)
unfolding trimmed_uris
trimmed_uris-AreDistinct uris =
    keep_if-AreDistinct is_full (unique (map trim uris)) (unique-AreDistinct (map trim uris))

trimmed_uris-Among : (uris : List Text) (a : Text) → Among a (trimmed_uris uris) ↔ IsGiven uris a
unfolding trimmed_uris
trimmed_uris-Among uris a = (
  λ m.
      let (k, full) = Among-keep_if is_full (unique (map trim uris)) a m in
      (empty_of_full a full, map-Among trim uris a ((unique-Among (map trim uris) a).0 k)),
  λ given.
      let (full, (r, m, e)) = given in
      keep_if-Among is_full (unique (map trim uris)) a
        ((unique-Among (map trim uris) a).1 (rw e (Among-map trim uris r m))) (rw full refl),
)

-- An address of the web, by its protocol.
abbrev pub IsWeb : (Text → Option Text) → Text → Type 0
IsWeb protocol_of uri = (p : Text) × (protocol_of uri ≡ some p) × (is_web p ≡ true)

module _ (protocol_of : Text → Option Text) where
  check_uris-eq-ok :
      (uris : List Text) (u : Unit {0})
      → check_uris protocol_of uris ≡ ok u
      → (a : Text) → Among a uris
      → IsWeb protocol_of a
  unfolding check_uris
  check_uris-eq-ok [] u h a m = absurd m
  check_uris-eq-ok (uri ∷ uris) u h a m =
      let invalid = bad_request "Redirect URIs must be valid URLs" in
      let scheme = bad_request "Redirect URIs must use http or https" in
      let (p, e₁, h₁) = >>=-eq-ok (or_throw (protocol_of uri) invalid) _ h in
      let (v, e₂, h₂) = >>=-eq-ok (throw_if (not (is_web p)) scheme) _ h₁ in
      elim m [
        | inl e ↦ rw e (
          p,
          or_throw-eq-ok (protocol_of uri) invalid e₁,
          true_of_not (is_web p) (throw_if-eq-ok (not (is_web p)) scheme e₂),
        )
        | inr k ↦ check_uris-eq-ok uris u h₂ a k
      ]

  check_uris-ok :
      (uris : List Text)
      → ((a : Text) → Among a uris → IsWeb protocol_of a)
      → check_uris protocol_of uris ≡ ok tt
  unfolding check_uris
  check_uris-ok [] all = refl
  check_uris-ok (uri ∷ uris) all =
      let (p, e, web) = all uri (inl refl) in
      rw e (rw web (check_uris-ok uris (λ a m. all a (inr m))))

  -- The addresses that are taken are the trimmed ones that are not blank, each once; there is at least
  -- one, and each is an address of the web.
  pub sanitize_redirect_uris_sound :
      (uris result : List Text)
      → sanitize_redirect_uris protocol_of uris ≡ ok result
      → (result ≢ [])
        × AreDistinct result
        × ((a : Text) → Among a result ↔ IsGiven uris a)
        × ((a : Text) → Among a result → IsWeb protocol_of a)
  unfolding sanitize_redirect_uris
  sanitize_redirect_uris_sound uris result h =
      let given = trimmed_uris uris in
      let missing = bad_request "At least one redirect URI is required" in
      let (u, e₁, h₁) = >>=-eq-ok (throw_if (is_nil given) missing) _ h in
      let (v, e₂, h₂) =
        >>=-eq-ok (check_uris protocol_of given) (λ (x : Unit {0}). ok (sort given)) h₁ in
      let same : result ≡ sort given = ok_injective h₂ in
      let some_uri = throw_if-eq-ok (is_nil given) missing e₁ in
      let back = λ (a : Text) (m : Among a result).
        (sort-Among given a).0 (subst (λ (xs : List Text). Among a xs) same m) in
      (
        λ none_left. sorted_non_nil given some_uri (sym same ∙ none_left),
        rw same (sort-AreDistinct given (trimmed_uris-AreDistinct uris)),
        λ a. (
          λ m. (trimmed_uris-Among uris a).0 (back a m),
          λ g.
              subst (λ (xs : List Text). Among a xs) (sym same)
                ((sort-Among given a).1 ((trimmed_uris-Among uris a).1 g)),
        ),
        λ a m. check_uris-eq-ok given v e₂ a (back a m),
      )

  -- Where some address is not blank and all that are not are addresses of the web, they are taken.
  pub web_uris_are_taken :
      (uris : List Text) (a : Text)
      → IsGiven uris a
      → ((b : Text) → IsGiven uris b → IsWeb protocol_of b)
      → (result : List Text) × (sanitize_redirect_uris protocol_of uris ≡ ok result)
        × ((b : Text) → Among b result ↔ IsGiven uris b)
  unfolding sanitize_redirect_uris
  web_uris_are_taken uris a given all =
      let uris' = trimmed_uris uris in
      let full = non_nil uris' a ((trimmed_uris-Among uris a).1 given) in
      let checked = check_uris-ok uris' (λ b m. all b ((trimmed_uris-Among uris b).0 m)) in
      (
        sort uris',
        rw full (rw checked refl),
        λ b. (
          λ m. (trimmed_uris-Among uris b).0 ((sort-Among uris' b).0 m),
          λ g. (sort-Among uris' b).1 ((trimmed_uris-Among uris b).1 g),
        ),
      )
