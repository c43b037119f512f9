-- ===== src/Teams/Invitations/Consent.antt =====
-- An invitation is answered by the user that it is addressed to, and by nobody else.
use moddery.Base.{
  ℕ, ◌≡◌, ◌↔◌, ◌⊎◌, inl, inr, refl, true, false, some, Text, ok, err, >>=-eq-ok, >>-eq-ok,
  or_throw-eq-ok, ok-first_of_three, Result-cases, List, arith,
}
use moddery.Teams.Members.{
  TeamMemberRow, Deps, Policy, Caller, MemberInput, Event, is_accepted, add_team_member,
  remove_team_member,
}
use moddery.Teams.Members.Owners.{SameStanding, add_needs_consent, remove_keeps_owners}
use moddery.Teams.Invitations.{
  TeamTarget, InvitationContract, is_pending_of, accepted_row, accept_invitation,
  decline_invitation,
}

module _ (d : Deps) (team_of : ℕ → TeamTarget) where
  open d use {members}
  open members use {Store, Holds}

  pending_id :
      (invitation_id user_id : ℕ) (r : TeamMemberRow)
      → is_pending_of invitation_id user_id r ≡ true
      → r.id ≡ invitation_id
  pending_id invitation_id user_id r fits = ground arith

  -- An invitation that is accepted was the viewer's and pending when it was read; each row that is
  -- not the viewer's pending row with its identifier stays as it was, the others are stamped with
  -- the time, and nothing else is added, whatever was served meanwhile.
  pub accept_invitation_lem :
      (meanwhile : Store → Store) (now user_id invitation_id : ℕ) (s t : Store)
      (events : List Event) (reply : InvitationContract)
      → accept_invitation d team_of meanwhile now user_id invitation_id s ≡ ok (t, events, reply)
      → (r : TeamMemberRow)
      → Holds t r ↔ (
          (Holds (meanwhile s) r × (is_pending_of invitation_id user_id r ≡ false))
          ⊎ ((q : TeamMemberRow) × Holds (meanwhile s) q
              × (is_pending_of invitation_id user_id q ≡ true)
              × (r ≡ record q { accepted_at = some now })))
  unfolding accept_invitation
  accept_invitation_lem meanwhile now user_id invitation_id s t events reply h r =
      let (invitation, found, h1) = >>=-eq-ok _ _ h in
      let (there, h2) = >>-eq-ok _ _ h1 in
      let (held, fits) = members.find_sound _ s (or_throw-eq-ok _ _ found) in
      let same = pending_id invitation_id user_id invitation fits in
      let e : t
          ≡ members.update (is_pending_of invitation.id user_id) (accepted_row d team_of now)
              (meanwhile s) =
        ok-first_of_three h2 in
      rw e (
        rw same (
          members.holds_update (is_pending_of invitation_id user_id) (accepted_row d team_of now)
            (meanwhile s) r))

  -- A membership that was accepted is not lost to a decline, and neither is another user's row:
  -- declining deletes the viewer's pending rows with that identifier and no other, whatever was
  -- served meanwhile.
  pub decline_invitation_lem :
      (meanwhile : Store → Store) (user_id invitation_id : ℕ) (s t : Store) (events : List Event)
      (reply : InvitationContract)
      → decline_invitation d team_of meanwhile user_id invitation_id s ≡ ok (t, events, reply)
      → (r : TeamMemberRow)
      → Holds t r ↔ (Holds (meanwhile s) r × (is_pending_of invitation_id user_id r ≡ false))
  unfolding decline_invitation
  decline_invitation_lem meanwhile user_id invitation_id s t events reply h r =
      let (invitation, found, h1) = >>=-eq-ok _ _ h in
      let (lowly, h2) = >>-eq-ok _ _ h1 in
      let (there, h3) = >>-eq-ok _ _ h2 in
      let (held, fits) = members.find_sound _ s (or_throw-eq-ok _ _ found) in
      let same = pending_id invitation_id user_id invitation fits in
      let e : t ≡ members.delete (is_pending_of invitation.id user_id) (meanwhile s) =
        ok-first_of_three h3 in
      rw e (rw same (members.holds_delete (is_pending_of invitation_id user_id) (meanwhile s) r))

-- A call of the four handlers; an addition and a removal may be a project's or an organization's.
pub data TeamCall : Type 0 where
  adds : Policy → Caller → MemberInput → TeamCall
  removes : Policy → Caller → (name username : Text) → TeamCall
  accepts : (now user_id invitation_id : ℕ) → TeamCall
  declines : (user_id invitation_id : ℕ) → TeamCall

module _ (d : Deps) (team_of : ℕ → TeamTarget) (resources : d.resources.Store)
    (people : d.users.Store) where
  open d use {members}
  open members use {Store, Holds}

  -- The table after a call: a call that throws leaves it as the others left it.
  unfoldable pub team_step : (Store → Store) → TeamCall → Store → Store
  unfolding add_team_member remove_team_member accept_invitation decline_invitation
  team_step meanwhile (adds policy caller input) s =
      elim (add_team_member d resources people policy meanwhile caller input s) [
        | ok (t, events) ↦ t
        | err error ↦ meanwhile s
      ]
  team_step meanwhile (removes policy caller name username) s =
      elim (remove_team_member d resources people policy meanwhile caller name username s) [
        | ok (t, events) ↦ t
        | err error ↦ meanwhile s
      ]
  team_step meanwhile (accepts now user_id invitation_id) s =
      elim (accept_invitation d team_of meanwhile now user_id invitation_id s) [
        | ok (t, events, contract) ↦ t
        | err error ↦ meanwhile s
      ]
  team_step meanwhile (declines user_id invitation_id) s =
      elim (decline_invitation d team_of meanwhile user_id invitation_id s) [
        | ok (t, events, contract) ↦ t
        | err error ↦ meanwhile s
      ]

  -- The user's own acceptance of the row.
  abbrev pub IsConsent : TeamCall → TeamMemberRow → Type 0
  IsConsent (accepts now user_id invitation_id) r =
      (r.user_id ≡ user_id) × (r.id ≡ invitation_id) × (r.accepted_at ≡ some now)
  IsConsent _ r = ⊥

  -- Whatever call is made, by whomever, and whatever was served meanwhile: a row that is accepted
  -- afterwards was accepted just before the write, or the call is its user's own acceptance.
  pub team_step-IsConsent :
      (meanwhile : Store → Store) (call : TeamCall) (s : Store) (r : TeamMemberRow)
      → Holds (team_step meanwhile call s) r
      → is_accepted r ≡ true
      → ((q : TeamMemberRow) × Holds (meanwhile s) q × SameStanding d resources people q r)
        ⊎ IsConsent call r
  unfolding team_step
  team_step-IsConsent meanwhile (adds policy caller input) s r h a =
      elim (Result-cases (add_team_member d resources people policy meanwhile caller input s)) [
        | inl ((t, events), e) ↦ inl (
            add_needs_consent d resources people policy meanwhile caller input s t events e r
              (rw (e, team_step) at h) (inl a))
        | inr (error, e) ↦ inl (r, rw (e, team_step) at h, (refl, refl, refl, refl, refl))
      ]
  team_step-IsConsent meanwhile (removes policy caller name username) s r h a =
      elim (Result-cases
        (remove_team_member d resources people policy meanwhile caller name username s)) [
          | inl ((t, events), e) ↦
              let (resource, member, managed, k, same, after, owners) =
                remove_keeps_owners d resources people policy meanwhile caller name username s t
                  events e in
              inl (r, ((after r).0 (rw (e, team_step) at h)).0, (refl, refl, refl, refl, refl))
          | inr (error, e) ↦ inl (r, rw (e, team_step) at h, (refl, refl, refl, refl, refl))
        ]
  team_step-IsConsent meanwhile (accepts now user_id invitation_id) s r h a =
      elim (Result-cases (accept_invitation d team_of meanwhile now user_id invitation_id s)) [
        | inl ((t, events, contract), e) ↦
            elim ((accept_invitation_lem d team_of meanwhile now user_id invitation_id s t events
                contract e r).0
              (rw (e, team_step) at h)) [
                | inl (k, off) ↦ inl (r, k, (refl, refl, refl, refl, refl))
                | inr (q, k, mine, same) ↦ inr (ground arith, ground arith, cc)
              ]
        | inr (error, e) ↦ inl (r, rw (e, team_step) at h, (refl, refl, refl, refl, refl))
      ]
  team_step-IsConsent meanwhile (declines user_id invitation_id) s r h a =
      elim (Result-cases (decline_invitation d team_of meanwhile user_id invitation_id s)) [
        | inl ((t, events, contract), e) ↦
            let (k, off) =
              (decline_invitation_lem d team_of meanwhile user_id invitation_id s t events contract
                  e r).0
                (rw (e, team_step) at h) in
            inl (r, k, (refl, refl, refl, refl, refl))
        | inr (error, e) ↦ inl (r, rw (e, team_step) at h, (refl, refl, refl, refl, refl))
      ]
