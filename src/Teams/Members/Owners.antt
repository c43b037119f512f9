-- ===== src/Teams/Members/Owners.antt =====
-- What adding and removing a member does to the rows of the team, whatever other requests did in
-- between.
use moddery.Base.{
  not_found, subst, ℕ, ◌≡◌, ◌↔◌, ◌⊎◌, inl, inr, refl, sym, true, false, some, Text, ok, or_throw,
  >>=-eq-ok, >>-eq-ok, or_throw-eq-ok, throw_if-eq-ok, ok-first, Option-cases, Bool-cases, List,
  arith,
}
use moddery.Database.{counted, upsert, upsert_rows, upsert_keeps}
use moddery.Teams.Members.{
  TeamMemberRow, ResourceRow, Deps, Policy, Caller, MemberInput, Event, is_accepted, is_manager,
  is_member_of, is_owner_row, find_managed, find_user, regranted, invited, is_named, is_removable,
  add_team_member, remove_team_member,
}

module _ (d : Deps) (resources : d.resources.Store) (people : d.users.Store) where
  open d use {members}
  open members use {Store, Holds}

  -- An accepted member of the team that owns it or holds the permission to manage its members.
  abbrev pub IsManagedBy : ℕ → ℕ → Store → Type 0
  IsManagedBy team_id user_id s =
      (m : TeamMemberRow) × Holds s m × (is_manager team_id user_id m ≡ true)

  abbrev Removal : Policy → (Store → Store) → Caller → Text → Text → Store → Store → Type 0
  Removal policy meanwhile caller name username s t =
      (resource : ResourceRow) × (member : TeamMemberRow) × (find_managed d resources people policy
          name caller.user_id s
        ≡ some resource)
      × (members.find_first (is_named d resources people resource.team_id username) s ≡ some member)
      × (member.is_owner ≡ false)
      × (t ≡ members.delete (is_removable d resources people member resource.team_id) (meanwhile s))

  remove-eq-ok :
      (policy : Policy) (meanwhile : Store → Store) (caller : Caller) (name username : Text)
      (s t : Store) (events : List Event)
      → remove_team_member d resources people policy meanwhile caller name username s
        ≡ ok (t, events)
      → Removal policy meanwhile caller name username s t
  unfolding remove_team_member
  remove-eq-ok policy meanwhile caller name username s t events h =
      let (resource, found, h1) = >>=-eq-ok _ _ h in
      let (member, named, h2) = >>=-eq-ok _ _ h1 in
      let (lowly, h3) = >>-eq-ok _ _ h2 in
      let (there, h4) = >>-eq-ok _ _ h3 in
      (
        resource,
        member,
        or_throw-eq-ok _ _ found,
        or_throw-eq-ok _ _ named,
        throw_if-eq-ok _ _ lowly,
        ok-first h4,
      )

  pub find_managed-IsManagedBy :
      (policy : Policy) (name : Text) (user_id : ℕ) (s : Store) (resource : ResourceRow)
      → find_managed d resources people policy name user_id s ≡ some resource
      → IsManagedBy resource.team_id user_id s
  unfolding find_managed
  find_managed-IsManagedBy policy name user_id s resource h =
      let (held, fits) = d.resources.find_sound _ resources h in
      counted members (is_manager resource.team_id user_id) s (λ z. ground (arith, fits))

  -- A removal that succeeds was asked for by an accepted member that manages the team of the
  -- resource; it deletes the row that it read if that is still a member's of the team and not an
  -- owner's, and every other row stays. So no owner is removed, whatever was served meanwhile.
  pub remove_keeps_owners :
      (policy : Policy) (meanwhile : Store → Store) (caller : Caller) (name username : Text)
      (s t : Store) (events : List Event)
      → remove_team_member d resources people policy meanwhile caller name username s
        ≡ ok (t, events)
      → (resource : ResourceRow) × (member : TeamMemberRow) × IsManagedBy resource.team_id
          caller.user_id s
        × Holds s member
        × (member.team_id ≡ resource.team_id)
        × ((r : TeamMemberRow)
            → Holds t r ↔ (
                Holds (meanwhile s) r
                × (is_removable d resources people member resource.team_id r ≡ false)))
        × ((r : TeamMemberRow) → Holds (meanwhile s) r → r.is_owner ≡ true → Holds t r)
  remove_keeps_owners policy meanwhile caller name username s t events h =
      let (resource, member, found, named, lowly, e) =
        remove-eq-ok policy meanwhile caller name username s t events h in
      let (held, fits) = members.find_sound _ s named in
      let p = is_removable d resources people member resource.team_id in
      let after = members.holds_delete p (meanwhile s) in
      (
        resource,
        member,
        find_managed-IsManagedBy policy name caller.user_id s resource found,
        held,
        ground arith,
        (λ r. subst (λ z. Holds z r ↔ (Holds (meanwhile s) r × (p r ≡ false))) (sym e) (after r)),
        λ r there owner. rw e ((after r).1 (there, ground arith)),
      )

  abbrev Addition : Policy → (Store → Store) → Caller → MemberInput → Store → Store → Type 0
  Addition policy meanwhile caller input s t =
      (resource : ResourceRow) × (user_id : ℕ) × (find_managed d resources people policy
          input.resource caller.user_id s
        ≡ some resource)
      × (is_owner_row d resources people
            (members.find_first (is_member_of resource.team_id user_id) s)
          ≡ false)
      × (t
          ≡ upsert members (is_member_of resource.team_id user_id)
              (regranted d resources people policy input)
              (invited d resources people policy input caller resource.team_id user_id)
              (meanwhile s))

  add-eq-ok :
      (policy : Policy) (meanwhile : Store → Store) (caller : Caller) (input : MemberInput)
      (s t : Store) (events : List Event)
      → add_team_member d resources people policy meanwhile caller input s ≡ ok (t, events)
      → Addition policy meanwhile caller input s t
  unfolding add_team_member
  add-eq-ok policy meanwhile caller input s t events h =
      let (resource, found, h1) = >>=-eq-ok _ _ h in
      let (user, named, h2) =
        >>=-eq-ok
          (or_throw (find_user d resources people input.username) (not_found "User not found")) _
          h1 in
      let (lowly, h3) = >>-eq-ok _ _ h2 in
      (resource, user.id, or_throw-eq-ok _ _ found, throw_if-eq-ok _ _ lowly, ok-first h3)

  -- The same membership with the same owner and the same acceptance.
  abbrev pub SameStanding : TeamMemberRow → TeamMemberRow → Type 0
  SameStanding q r =
      (q.id ≡ r.id)
      × (q.team_id ≡ r.team_id)
      × (q.user_id ≡ r.user_id)
      × (q.is_owner ≡ r.is_owner)
      × (q.accepted_at ≡ r.accepted_at)

  -- Adding a member or changing one's role never accepts in the user's place and makes nobody an
  -- owner, whatever was served meanwhile: each row that is accepted or an owner's afterwards was so
  -- before the write.
  pub add_needs_consent :
      (policy : Policy) (meanwhile : Store → Store) (caller : Caller) (input : MemberInput)
      (s t : Store) (events : List Event)
      → add_team_member d resources people policy meanwhile caller input s ≡ ok (t, events)
      → (r : TeamMemberRow) → Holds t r
      → (is_accepted r ≡ true) ⊎ (r.is_owner ≡ true)
      → (q : TeamMemberRow) × Holds (meanwhile s) q × SameStanding q r
  add_needs_consent policy meanwhile caller input s t events h r held standing =
      let (resource, user_id, found, lowly, e) =
        add-eq-ok policy meanwhile caller input s t events h in
      elim (upsert_rows members (is_member_of resource.team_id user_id)
        (regranted d resources people policy input)
        (invited d resources people policy input caller resource.team_id user_id) (meanwhile s) r
        (rw e at held)) [
          | inl (k, off) ↦ (r, k, (refl, refl, refl, refl, refl))
          | inr (inl fresh) ↦ absurd (elim standing [ inl x ↦ cc | inr x ↦ cc ])
          | inr (inr (q, k, fits, same)) ↦ (q, k, (cc, cc, cc, cc, cc))
        ]

  abbrev pub IsUniquePair : Store → Type 0
  IsUniquePair s =
      (q r : TeamMemberRow)
      → Holds s q
      → Holds s r
      → q.team_id ≡ r.team_id
      → q.user_id ≡ r.user_id
      → q ≡ r

  owner_apart :
      (team_id user_id : ℕ) (s : Store)
      → IsUniquePair s
      → is_owner_row d resources people (members.find_first (is_member_of team_id user_id) s)
        ≡ false
      → (r : TeamMemberRow) → Holds s r
      → r.is_owner ≡ true
      → is_member_of team_id user_id r ≡ false
  owner_apart team_id user_id s u lowly r held owner =
      elim (Option-cases (members.find_first (is_member_of team_id user_id) s)) [
        | inl miss ↦ members.find_complete (is_member_of team_id user_id) s miss r held
        | inr (q, found) ↦
            let (k, fits) = members.find_sound (is_member_of team_id user_id) s found in
            let low : q.is_owner ≡ false = rw found at lowly in
            elim (Bool-cases (is_member_of team_id user_id r)) [
              | inl same ↦ ground (arith, u q r k held, low, owner)
              | inr off ↦ off
            ]
      ]

  -- An addition that succeeds, with nothing served meanwhile and one row for each user of a team,
  -- was asked for by an accepted member that manages the team, and leaves each owner's row and each
  -- row of another team or of another user as it was.
  pub add_keeps_owners :
      (policy : Policy) (caller : Caller) (input : MemberInput) (s t : Store) (events : List Event)
      → IsUniquePair s
      → add_team_member d resources people policy (λ x. x) caller input s ≡ ok (t, events)
      → (resource : ResourceRow) × (user_id : ℕ) × IsManagedBy resource.team_id caller.user_id s
        × ((r : TeamMemberRow)
            → Holds s r
            → (r.is_owner ≡ true) ⊎ (is_member_of resource.team_id user_id r ≡ false)
            → Holds t r)
  add_keeps_owners policy caller input s t events u h =
      let (resource, user_id, found, lowly, e) =
        add-eq-ok policy (λ x. x) caller input s t events h in
      let p = is_member_of resource.team_id user_id in
      (
        resource,
        user_id,
        find_managed-IsManagedBy policy input.resource caller.user_id s resource found,
        λ r held standing. rw e (
            upsert_keeps members (is_member_of resource.team_id user_id)
              (regranted d resources people policy input)
              (invited d resources people policy input caller resource.team_id user_id) s r held
              (elim standing [
                | inl owner ↦ owner_apart resource.team_id user_id s u lowly r held owner
                | inr off ↦ off
              ])),
      )
