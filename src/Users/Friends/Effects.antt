-- ===== src/Users/Friends/Effects.antt =====
-- What a request changes, and what it leaves alone.
use moddery.Base.{ℕ, ◌≡◌, ◌≢◌, ◌↔◌, refl, inl, inr, ◌⊎◌, eq-false_of_ne, ◌==◌, arith}
use moddery.Users.Friends.{
  FriendshipRow, FriendState, pending, blocked, Deps, Request, Action, sends, accepts, removes,
  blocks, as_accepted, as_blocked, new_friendship, accept_friend_request, send_friend_request,
  remove_friend, block_user, stored, removed, step,
}
use moddery.Users.Friends.Rows.{IsWellFormed, updated_cases}
use moddery.Users.Friends.Invariant.{
  accept_cases, remove_cases, block_cases, send_cases, request_of,
}

module _ (d : Deps) (people : d.users.Store) where
  open d use {friends}
  open friends use {Store, Holds}

  -- A row keeps its place when a row with another identifier is updated or deleted.
  pub kept_by_update :
      (id : ℕ) (f : FriendshipRow → FriendshipRow) (s : Store) (r : FriendshipRow)
      → r.id ≢ id
      → Holds s r
      → Holds (friends.update (λ q. q.id == id) f s) r
  kept_by_update id f s r off h =
      (friends.holds_update (λ q. q.id == id) f s r).1 (inl (h, ground arith))

  abbrev Same : FriendshipRow → Store → Store → Type 0
  Same r s t = Holds t r ↔ Holds s r

  update-Same :
      (e r : FriendshipRow) (f : FriendshipRow → FriendshipRow) (s : Store)
      → IsWellFormed d s
      → Holds s e
      → r ≢ e
      → r ≢ f e
      → Same r s (friends.update (λ q. q.id == e.id) f s)
  update-Same e r f s w he off new = (
    λ h. elim (updated_cases d e f s r w he h) [ inl (k, _) ↦ k | inr x ↦ absurd (new x) ],
    λ h. kept_by_update e.id f s r (λ x. off (w.unique_id r e h he x)) h,
  )

  -- The viewer takes part in the friendship.
  abbrev pub Concerns : ℕ → FriendshipRow → Type 0
  Concerns viewer_id r = (r.requester_id ≡ viewer_id) ⊎ (r.addressee_id ≡ viewer_id)

  create-Same : (x r : FriendshipRow) (s : Store) → r ≢ x → Same r s (friends.create x s)
  create-Same x r s off = (
    λ h. elim ((friends.holds_create x s r).0 h) [ inl e ↦ absurd (off e) | inr k ↦ k ],
    λ h. (friends.holds_create x s r).1 (inr h),
  )

  delete-Same :
      (e r : FriendshipRow) (s : Store)
      → IsWellFormed d s
      → Holds s e
      → r ≢ e
      → Same r s (friends.delete (λ q. q.id == e.id) s)
  delete-Same e r s w he off = (
    λ h. ((friends.holds_delete (λ q. q.id == e.id) s r).0 h).0,
    λ h.
        (friends.holds_delete (λ q. q.id == e.id) s r).1
          (h, eq-false_of_ne r.id e.id (λ x. off (w.unique_id r e h he x))),
  )

  module _ (q : Request) (s : Store) (w : IsWellFormed d s) (r : FriendshipRow)
      (far : ¬ (Concerns q.viewer_id r)) where
    ne_of_Concerns : (x : FriendshipRow) → Concerns q.viewer_id x → r ≢ x
    ne_of_Concerns x near e = far (rw e near)

    accept_frame : Same r s (stored d s (accept_friend_request d people q s))
    accept_frame =
        accept_cases d (Same r s) people q s (λ h. h, λ h. h)
          λ target e hit found.
            let (held, fits) = friends.find_sound _ s found in
            update-Same e r (as_accepted q) s w held (ne_of_Concerns e (ground arith))
              (ne_of_Concerns (as_accepted q e) (ground arith))

    remove_frame : Same r s (removed d s (remove_friend d people q s))
    remove_frame =
        remove_cases d (Same r s) people q s (λ h. h, λ h. h)
          λ target e hit found.
            let (held, fits) = friends.find_sound _ s found in
            delete-Same e r s w held (ne_of_Concerns e (ground arith))

    created_frame :
        (target_id : ℕ) (state : FriendState)
        → Same r s (friends.create (new_friendship q target_id state) s)
    created_frame target_id state =
        create-Same (new_friendship q target_id state) r s (ne_of_Concerns _ (inl refl))

    block_frame : Same r s (stored d s (block_user d people q s))
    block_frame =
        block_cases d (Same r s) people q s (λ h. h, λ h. h)
          (λ target e hit other found.
            let (held, fits) = friends.find_sound _ s found in
            update-Same e r (as_blocked q target.id) s w held (ne_of_Concerns e (ground arith))
              (ne_of_Concerns (as_blocked q target.id e) (inl refl)))
          (λ target hit other miss. created_frame target.id blocked)

    send_frame : Same r s (stored d s (send_friend_request d people q s))
    send_frame =
        send_cases d (Same r s) people q s (λ h. h, λ h. h) accept_frame
          (λ target hit other miss. created_frame target.id pending)

  -- In a well-formed table a request changes no friendship in which its viewer has no part: such a
  -- row is there after the call exactly when it was there before.
  pub step_frame :
      (a : Action) (s : Store) (r : FriendshipRow)
      → IsWellFormed d s
      → ¬ (Concerns (request_of a).viewer_id r)
      → Holds (step d people a s) r ↔ Holds s r
  unfolding step
  step_frame (sends q) s r w far = send_frame q s w r far
  step_frame (accepts q) s r w far = accept_frame q s w r far
  step_frame (removes q) s r w far = remove_frame q s w r far
  step_frame (blocks q) s r w far = block_frame q s w r far
