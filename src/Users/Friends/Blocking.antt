-- ===== src/Users/Friends/Blocking.antt =====
-- What blocking, removing and crossing requests do to the row of two users.
use moddery.Base.{
  ℕ, ◌≡◌, ◌≢◌, refl, ap, ◌∙◌, inl, inr, true, false, ◌&&◌, none, some, ok, ◌==◌, arith, Bool-cases,
  Option-cases, eq-false_of_ne, eq_self, ◌>>=◌, ◌↔◌, >>=-eq-ok, or_throw-eq-ok, subst,
}
use moddery.Users.Friends.{
  FriendshipRow, FriendshipUserRow, FriendshipContract, accepted, blocked, outgoing, incoming,
  mutually, Deps, Request, sends, accepts, blocks, between, is_pending, is_request_from,
  as_accepted, as_blocked, new_friendship, find_friend_target, find_friendship_between,
  friendship_row_to_contract, answer_existing, accept_friend_request, send_friend_request,
  remove_friend, block_user, stored, step,
}
use moddery.Users.Friends.Rows.{IsWellFormed, IsFresh, updated_cases}
use moddery.Users.Friends.Invariant.{accept_cases, send_cases, step-IsWellFormed}
use moddery.Users.Friends.Effects.{kept_by_update}

module _ (d : Deps) (people : d.users.Store) where
  open d use {friends}
  open friends use {Store, Holds}

  module _ (q : Request) (s : Store) (w : IsWellFormed d s) (r : FriendshipRow)
      (held : Holds s r) where
    accept_keeps_blocked :
        r.state ≡ blocked → Holds (stored d s (accept_friend_request d people q s)) r
    accept_keeps_blocked shut =
        accept_cases d (λ t. Holds t r) people q s held
          λ target e hit found.
            let (there, fits) = friends.find_sound _ s found in
            kept_by_update d people e.id (as_accepted q) s r
              (λ x. let same = w.unique_id r e held there x in ground arith) held

    send_keeps_blocked : r.state ≡ blocked → Holds (stored d s (send_friend_request d people q s)) r
    send_keeps_blocked shut =
        send_cases d (λ t. Holds t r) people q s held (accept_keeps_blocked shut)
          (λ target hit other miss. (friends.holds_create _ s r).1 (inr held))

    -- The row that two users share, as `findFriendshipBetween` finds it.
    found_between :
        (user target : ℕ)
        → between user target r ≡ true
        → find_friendship_between d user target s ≡ some r
    found_between user target fits = elim (Option-cases (find_friendship_between d user target s)) [
      | inl miss ↦ ground (arith, friends.find_complete _ s miss r held)
      | inr (e, found) ↦
          let (there, near) = friends.find_sound _ s found in
          found ∙ ap some (w.one_per_pair e r there held (ground arith))
    ]

    found_request :
        (target viewer : ℕ)
        → is_request_from target viewer r ≡ true
        → friends.find_first (is_request_from target viewer) s ≡ some r
    found_request target viewer fits =
        elim (Option-cases (friends.find_first (is_request_from target viewer) s)) [
          | inl miss ↦ ground (arith, friends.find_complete _ s miss r held)
          | inr (e, found) ↦
              let (there, near) = friends.find_sound _ s found in
              found ∙ ap some (w.one_per_pair e r there held (ground arith))
        ]

  -- In a well-formed table neither a friend request nor an acceptance takes away or changes a row
  -- whose state is `BLOCKED`.
  pub requests_keep_blocks :
      (q : Request) (s : Store) (r : FriendshipRow)
      → IsWellFormed d s
      → Holds s r
      → r.state ≡ blocked
      → Holds (step d people (sends q) s) r × Holds (step d people (accepts q) s) r
  unfolding step
  requests_keep_blocks q s r w held shut =
      (send_keeps_blocked q s w r held shut, accept_keeps_blocked q s w r held shut)

  -- If the named user has asked the viewer, the viewer's own request accepts that one: the row of
  -- the two becomes `ACCEPTED` at the time of the request, and nothing is created.
  pub crossed_requests :
      (q : Request) (s : Store) (r : FriendshipRow) (target : FriendshipUserRow)
      → IsWellFormed d s
      → Holds s r
      → find_friend_target d people q.username ≡ some target
      → target.id ≢ q.viewer_id
      → is_request_from target.id q.viewer_id r ≡ true
      → send_friend_request d people q s
        ≡ ok (
          friends.update (λ x. x.id == r.id) (as_accepted q) s,
          friendship_row_to_contract d (as_accepted q r) q.viewer_id,
        )
  unfolding send_friend_request
  crossed_requests q s r target w held hit other fits =
      rw (hit, send_friend_request)
        (rw (eq-false_of_ne _ _ other) (
          rw (found_between q s w r held q.viewer_id target.id (ground arith)) (
            rw (asked, answer_existing)
              (rw (hit, accept_friend_request)
                (rw (found_request q s w r held target.id q.viewer_id fits))))))
    where
      asked : (is_pending r.state && r.requester_id == target.id) ≡ true
      asked = ground arith

  -- The two users share no row.
  abbrev pub AreStrangers : ℕ → ℕ → Store → Type 0
  AreStrangers user target s = (r : FriendshipRow) → Holds s r → between user target r ≡ false

  -- The one who blocks is the requester of each row of the two, and there is such a row.
  pub record IsBlockedBy (viewer target : ℕ) (s : Store) : Type 0 where
    pub row : FriendshipRow
    pub held : Holds s row
    pub near : between viewer target row ≡ true
    pub every :
        (r : FriendshipRow)
        → Holds s r
        → between viewer target r ≡ true
        → (r.state ≡ blocked) × (r.requester_id ≡ viewer)

  delete-AreStrangers :
      (user target : ℕ) (e : FriendshipRow) (s : Store)
      → IsWellFormed d s
      → Holds s e
      → between user target e ≡ true
      → AreStrangers user target (friends.delete (λ x. x.id == e.id) s)
  delete-AreStrangers user target e s w he near r hr = elim (Bool-cases (between user target r)) [
    | inl close ↦
        let (kept, off) = (friends.holds_delete (λ x. x.id == e.id) s r).0 hr in
        let same = w.one_per_pair r e kept he (ground arith) in ground arith
    | inr far ↦ far
  ]

  -- A removal that answers leaves no row of the viewer and the named user, whatever state it had.
  pub remove-AreStrangers :
      (q : Request) (s t : Store)
      → IsWellFormed d s
      → remove_friend d people q s ≡ ok t
      → (target : FriendshipUserRow) × (find_friend_target d people q.username ≡ some target)
        × AreStrangers q.viewer_id target.id t
  unfolding remove_friend
  remove-AreStrangers q s t w h =
      let (target, got, rest) = >>=-eq-ok _ _ h in
      (
        target,
        or_throw-eq-ok _ _ got,
        elim (Option-cases (find_friendship_between d q.viewer_id target.id s)) [
          | inl miss ↦
              let same : s ≡ t = cc (rw miss at rest) in
              subst (AreStrangers q.viewer_id target.id) same (friends.find_complete _ s miss)
          | inr (e, found) ↦
              let same : friends.delete (λ x. x.id == e.id) s ≡ t = cc (rw found at rest) in
              let (there, near) = friends.find_sound _ s found in
              subst (AreStrangers q.viewer_id target.id) same
                (delete-AreStrangers q.viewer_id target.id e s w there near)
        ],
      )

  update-IsBlockedBy :
      (q : Request) (target_id : ℕ) (e : FriendshipRow) (s : Store)
      → IsWellFormed d s
      → Holds s e
      → between q.viewer_id target_id e ≡ true
      → IsBlockedBy q.viewer_id target_id
          (friends.update (λ x. x.id == e.id) (as_blocked q target_id) s)
  update-IsBlockedBy q target_id e s w he near = record {
    row = as_blocked q target_id e;
    held =
        (friends.holds_update (λ x. x.id == e.id) (as_blocked q target_id) s _).1
          (inr (e, he, eq_self e.id, refl));
    near = ground arith;
    every = λ r hr close. elim (updated_cases d e (as_blocked q target_id) s r w he hr) [
      | inl (kept, off) ↦
          absurd
            (off (ap (λ (x : FriendshipRow). x.id) (w.one_per_pair r e kept he (ground arith))))
      | inr same ↦ rw same (refl, refl)
    ];
  }

  create-IsBlockedBy :
      (q : Request) (target_id : ℕ) (s : Store)
      → find_friendship_between d q.viewer_id target_id s ≡ none
      → IsBlockedBy q.viewer_id target_id (friends.create (new_friendship q target_id blocked) s)
  create-IsBlockedBy q target_id s miss = record {
    row = new_friendship q target_id blocked;
    held = (friends.holds_create _ s _).1 (inl refl);
    near = ground arith;
    every = λ r hr close. elim ((friends.holds_create _ s r).0 hr) [
      | inl same ↦ rw same (refl, refl)
      | inr kept ↦ ground (arith, friends.find_complete _ s miss r kept)
    ];
  }

  between_swaps :
      (user target : ℕ) (r : FriendshipRow)
      → between user target r ≡ true
      → between target user r ≡ true
  between_swaps user target r h = ground arith

  -- When the viewer blocks a user that is found and is not the viewer, the two share a row
  -- afterwards, and each row of theirs is `BLOCKED` with the viewer as its requester; the row that
  -- is returned says so.
  pub block-IsBlockedBy :
      (q : Request) (s : Store) (target : FriendshipUserRow)
      → IsWellFormed d s
      → find_friend_target d people q.username ≡ some target
      → target.id ≢ q.viewer_id
      → (t : Store) × (c : FriendshipContract) × (block_user d people q s ≡ ok (t, c))
        × IsBlockedBy q.viewer_id target.id t
        × (c.state ≡ blocked)
        × (c.direction ≡ outgoing)
  unfolding block_user friendship_row_to_contract
  block-IsBlockedBy q s target w hit other =
      elim (Option-cases (find_friendship_between d q.viewer_id target.id s)) [
        | inl miss ↦ (
          friends.create (new_friendship q target.id blocked) s,
          friendship_row_to_contract d (new_friendship q target.id blocked) q.viewer_id,
          rw (hit, block_user) (rw (eq-false_of_ne _ _ other) (rw (miss, ◌>>=◌) refl)),
          create-IsBlockedBy q target.id s miss,
          refl,
          ground arith,
        )
        | inr (e, found) ↦
            let (there, near) = friends.find_sound _ s found in
            (
              friends.update (λ x. x.id == e.id) (as_blocked q target.id) s,
              friendship_row_to_contract d (as_blocked q target.id e) q.viewer_id,
              rw (hit, block_user) (rw (eq-false_of_ne _ _ other) (rw (found, ◌>>=◌) refl)),
              update-IsBlockedBy q target.id e s w there near,
              refl,
              ground arith,
            )
      ]

  -- A user whom another blocks lifts the block: after the block has been stored, a removal by the
  -- blocked user that names the blocker answers, and the two share no row any more. The table is
  -- well-formed before the block, with one row at most for two users, the new row has an unused
  -- identifier, each of the two is found by the name that the other gives, and they are not the same.
  pub blocked_user_lifts_block :
      (q r : Request) (s : Store) (target blocker : FriendshipUserRow)
      → IsWellFormed d s
      → IsFresh d q.new_id s
      → find_friend_target d people q.username ≡ some target
      → target.id ≢ q.viewer_id
      → find_friend_target d people r.username ≡ some blocker
      → (blocker.id ≡ q.viewer_id) × (target.id ≡ r.viewer_id)
      → (t u : Store) × (c : FriendshipContract) × (block_user d people q s ≡ ok (t, c))
        × IsBlockedBy q.viewer_id target.id t
        × (remove_friend d people r t ≡ ok u)
        × AreStrangers r.viewer_id blocker.id u
  unfolding remove_friend step
  blocked_user_lifts_block q r s target blocker w fresh hit other hit_back (ours, theirs) =
      let (t, c, e, shut, state, direction) = block-IsBlockedBy q s target w hit other in
      let row = shut.row in
      let kept : IsWellFormed d t =
        subst (λ x. IsWellFormed d (stored d s x)) e
          (step-IsWellFormed d people (blocks q) s w fresh) in
      let near : between r.viewer_id blocker.id row ≡ true =
        rw (ours, ← theirs) (between_swaps q.viewer_id target.id row shut.near) in
      let found = found_between r t kept row shut.held r.viewer_id blocker.id near in
      (
        t,
        friends.delete (λ x. x.id == row.id) t,
        c,
        e,
        shut,
        rw (hit_back, remove_friend) (rw (found, ◌>>=◌) refl),
        delete-AreStrangers r.viewer_id blocker.id row t kept shut.held near,
      )

-- The two users of a row see it from opposite sides: it is outgoing for the one exactly when it is
-- incoming for the other, mutual for both exactly when it is accepted, and each sees the user row
-- of the other.
pub contracts_of_both :
    (d : Deps) (r : FriendshipRow)
    → r.requester_id ≢ r.addressee_id
    → let mine = friendship_row_to_contract d r r.requester_id in
      let theirs = friendship_row_to_contract d r r.addressee_id in
      ((mine.direction ≡ outgoing) ↔ (theirs.direction ≡ incoming))
      × ((mine.direction ≡ mutually) ↔ (r.state ≡ accepted))
      × ((theirs.direction ≡ mutually) ↔ (r.state ≡ accepted))
      × (mine.user ≡ d.related r.addressee_id)
      × (theirs.user ≡ d.related r.requester_id)
unfolding friendship_row_to_contract
contracts_of_both d r apart = ground arith
