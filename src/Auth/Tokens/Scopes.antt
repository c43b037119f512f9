-- ===== src/Auth/Tokens/Scopes.antt =====
-- What scopes a new token is given by normalizeCredentialScopes of
-- apps/api/src/auth/services/credential-scopes.ts.
use moddery.Base.{
  List, [], ◌∷◌, ◌≡◌, ◌≢◌, ◌↔◌, ◌⊎◌, inl, inr, refl, sym, ap, ◌∙◌, subst, Text, trim, is_empty,
  true, false, not, true_of_not, Bool-cases, Option, unique, unique-Among, includes, includes-Among,
  Among, Among-keep_if, keep_if-Among, keep_if, map, ok, HttpError, throw_if, throw_if-eq-ok,
  >>=-eq-ok, ok_injective,
}
use moddery.Auth.Tokens.{
  default_credential_scopes, allowed_credential_scopes, text_leb, insert, sort, normalized_scopes,
  requested_or_default, check_scopes, scopes_or_default, normalize_credential_scopes,
}

pub insert-Among :
    (s : Text) (ts : List Text) (a : Text) → Among a (insert s ts) ↔ ((a ≡ s) ⊎ Among a ts)
unfolding insert
insert-Among s [] a = ((λ m. m), λ m. m)
insert-Among s (t ∷ ts) a =
    let (to, back) = insert-Among s ts a in
    elim (Bool-cases (text_leb s t)) [
      | inl e ↦ (λ m. (rw (e, insert) at m), λ m. rw (e, insert) m)
      | inr e ↦ (
        λ m. elim (rw (e, insert) at m) [
          | inl here ↦ inr (inl here)
          | inr k ↦ elim (to k) [ inl same ↦ inl same | inr later ↦ inr (inr later) ]
        ],
        λ m.
            rw (e, insert)
              (elim m [
                | inl same ↦ inr (back (inl same))
                | inr k ↦ elim k [ inl here ↦ inl here | inr later ↦ inr (back (inr later)) ]
              ]),
      )
    ]

pub sort-Among : (ts : List Text) (a : Text) → Among a (sort ts) ↔ Among a ts
unfolding sort
sort-Among [] a = ((λ m. m), λ m. m)
sort-Among (t ∷ ts) a =
    let (to, back) = sort-Among ts a in
    let (in_to, in_back) = insert-Among t (sort ts) a in
    (
      λ m. elim (in_to m) [ inl e ↦ inl e | inr k ↦ inr (to k) ],
      λ m. in_back (elim m [ inl e ↦ inl e | inr k ↦ inr (back k) ]),
    )

pub map-Among :
    (f : Text → Text) (ts : List Text) (a : Text)
    → Among a (map f ts)
    → (r : Text) × Among r ts × (a ≡ f r)
map-Among f [] a m = absurd m
map-Among f (t ∷ ts) a (inl e) = (t, inl refl, e)
map-Among f (t ∷ ts) a (inr m) = let (r, k, e) = map-Among f ts a m in (r, inr k, e)

pub Among-map : (f : Text → Text) (ts : List Text) (r : Text) → Among r ts → Among (f r) (map f ts)
Among-map f [] r m = absurd m
Among-map f (t ∷ ts) r (inl e) = inl (ap f e)
Among-map f (t ∷ ts) r (inr m) = inr (Among-map f ts r m)

normalized_scopes-Among :
    (scopes : Option (List Text)) (a : Text)
    → Among a (normalized_scopes scopes)
    → (r : Text) × Among r (requested_or_default scopes) × (a ≡ trim r)
unfolding normalized_scopes
normalized_scopes-Among scopes a m =
    let named = map trim (unique (requested_or_default scopes)) in
    let full = λ (s : Text). not (is_empty s) in
    let (k, some_text) = Among-keep_if full named a ((sort-Among (keep_if full named) a).0 m) in
    let (r, j, e) = map-Among trim (unique (requested_or_default scopes)) a k in
    (r, (unique-Among (requested_or_default scopes) r).0 j, e)

Among-normalized_scopes :
    (scopes : Option (List Text)) (r : Text)
    → Among r (requested_or_default scopes)
    → is_empty (trim r) ≡ false
    → Among (trim r) (normalized_scopes scopes)
unfolding normalized_scopes
Among-normalized_scopes scopes r m some_text =
    let named = map trim (unique (requested_or_default scopes)) in
    let full = λ (s : Text). not (is_empty s) in
    let k =
      Among-map trim (unique (requested_or_default scopes)) r
        ((unique-Among (requested_or_default scopes) r).1 m) in
    (sort-Among (keep_if full named) (trim r)).1
      (keep_if-Among full named (trim r) k (rw some_text refl))

check_scopes-eq-ok :
    (unsupported : Text → HttpError) (scopes granted : List Text)
    → check_scopes unsupported scopes ≡ ok granted
    → (granted ≡ scopes) × ((a : Text) → Among a scopes → Among a allowed_credential_scopes)
unfolding check_scopes
check_scopes-eq-ok unsupported [] granted h = (ok_injective h, λ a m. absurd m)
check_scopes-eq-ok unsupported (scope ∷ scopes) granted h =
    let known = includes allowed_credential_scopes scope in
    let (u, allowed, h₁) = >>=-eq-ok (throw_if (not known) (unsupported scope)) _ h in
    let (rest, checked, h₂) =
      >>=-eq-ok (check_scopes unsupported scopes) (λ (rest : List Text). ok (scope ∷ rest)) h₁ in
    let (same, all) = check_scopes-eq-ok unsupported scopes rest checked in
    let off = throw_if-eq-ok (not known) (unsupported scope) allowed in
    (
      ok_injective h₂ ∙ ap (λ (t : List Text). scope ∷ t) same,
      λ a m. elim m [
        | inl e ↦ rw e (includes-Among allowed_credential_scopes scope (true_of_not known off))
        | inr k ↦ all a k
      ],
    )

-- Each scope was asked for, or nothing was and the scopes are the default ones.
abbrev pub AreAskedFor : Option (List Text) → List Text → Type 0
AreAskedFor scopes granted =
    ((a : Text)
      → Among a granted
      → (r : Text) × Among r (requested_or_default scopes) × (a ≡ trim r))
    ⊎ ((granted ≡ default_credential_scopes)
        × ((r : Text) → Among r (requested_or_default scopes) → is_empty (trim r) ≡ true))

scopes_or_default_sound :
    (unsupported : Text → HttpError) (scopes : Option (List Text)) (normalized granted : List Text)
    → normalized ≡ normalized_scopes scopes
    → scopes_or_default unsupported normalized ≡ ok granted
    → (granted ≢ [])
      × ((a : Text) → Among a granted → Among a allowed_credential_scopes)
      × AreAskedFor scopes granted
unfolding scopes_or_default
scopes_or_default_sound unsupported scopes [] granted e h =
    let default : granted ≡ default_credential_scopes = ok_injective h in
    (
      (λ none_left. cc),
      (λ a m. elim (subst (λ (xs : List Text). Among a xs) default m) [
        | inl same ↦ inl same
        | inr k ↦ absurd k
      ]),
      inr (
        default,
        λ r m. elim (Bool-cases (is_empty (trim r))) [
          | inl blank ↦ blank
          | inr full ↦ absurd (
              subst (λ (xs : List Text). Among (trim r) xs) (sym e)
                (Among-normalized_scopes scopes r m full))
        ],
      ),
    )
scopes_or_default_sound unsupported scopes (scope ∷ rest) granted e h =
    let (same, all) = check_scopes-eq-ok unsupported (scope ∷ rest) granted h in
    let in_list =
      λ (a : Text) (m : Among a granted). subst (λ (xs : List Text). Among a xs) same m in
    (
      (λ none_left. cc),
      (λ a m. all a (in_list a m)),
      inl (λ a m.
          normalized_scopes-Among scopes a
            (subst (λ (xs : List Text). Among a xs) e (in_list a m))),
    )

-- A token is given a scope only if there is such a scope and it was asked for, by a text that reads
-- so without the white space around it, or if nothing was asked for: then it is `read:projects`
-- alone. It is always given a scope.
pub normalize_credential_scopes_sound :
    (unsupported : Text → HttpError) (scopes : Option (List Text)) (granted : List Text)
    → normalize_credential_scopes unsupported scopes ≡ ok granted
    → (granted ≢ [])
      × ((a : Text) → Among a granted → Among a allowed_credential_scopes)
      × AreAskedFor scopes granted
unfolding normalize_credential_scopes
normalize_credential_scopes_sound unsupported scopes granted h =
    scopes_or_default_sound unsupported scopes (normalized_scopes scopes) granted refl h
