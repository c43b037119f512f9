-- ===== src/Users/Friends/Invariant.antt =====
-- The friendship table stays well formed under the four handlers.
use moddery.Base.{
  ◌&&◌, ℕ, ◌≡◌, ◌≢◌, refl, sym, inl, inr, none, some, List, [], ◌∷◌, Bool-cases, Option-cases, ◌==◌,
  arith, ◌>>=◌,
}
use moddery.Users.Friends.{
  FriendshipRow, FriendshipUserRow, FriendState, pending, accepted, blocked, Deps, Request, Action,
  sends, accepts, removes, blocks, is_pending, answer_existing, is_request_from, as_accepted,
  as_blocked, new_friendship, find_friend_target, find_friendship_between, accept_friend_request,
  send_friend_request, remove_friend, block_user, stored, removed, step, run,
}
use moddery.Users.Friends.Rows.{
  IsWellFormed, IsFresh, create-IsWellFormed, update-IsWellFormed, delete-IsWellFormed,
}

module _ (d : Deps) where
  open d use {friends, users}
  open friends use {Store, Holds}

  module _ {ℓ} (P : Store → Type ℓ) (people : users.Store) (q : Request) (s : Store) where
    abbrev Named : FriendshipUserRow → Type 0
    Named target = find_friend_target d people q.username ≡ some target

    pub accept_cases :
        P s
        → ((target : FriendshipUserRow) (e : FriendshipRow)
            → Named target
            → friends.find_first (is_request_from target.id q.viewer_id) s ≡ some e
            → P (friends.update (λ r. r.id == e.id) (as_accepted q) s))
        → P (stored d s (accept_friend_request d people q s))
    unfolding accept_friend_request
    accept_cases same update = elim (Option-cases (find_friend_target d people q.username)) [
      | inl miss ↦ rw (miss, accept_friend_request) same
      | inr (target, hit) ↦
          elim (Option-cases (friends.find_first (is_request_from target.id q.viewer_id) s)) [
            | inl miss ↦ rw (hit, accept_friend_request) (rw miss same)
            | inr (e, found) ↦
                rw (hit, accept_friend_request) (rw found (update target e hit found))
          ]
    ]

    pub remove_cases :
        P s
        → ((target : FriendshipUserRow) (e : FriendshipRow)
            → Named target
            → find_friendship_between d q.viewer_id target.id s ≡ some e
            → P (friends.delete (λ r. r.id == e.id) s))
        → P (removed d s (remove_friend d people q s))
    unfolding remove_friend
    remove_cases same delete = elim (Option-cases (find_friend_target d people q.username)) [
      | inl miss ↦ rw (miss, remove_friend) same
      | inr (target, hit) ↦
          elim (Option-cases (find_friendship_between d q.viewer_id target.id s)) [
            | inl miss ↦ rw (hit, remove_friend) (rw (miss, removed, ◌>>=◌) same)
            | inr (e, found) ↦
                rw (hit, remove_friend) (rw (found, removed, ◌>>=◌) (delete target e hit found))
          ]
    ]

    pub block_cases :
        P s
        → ((target : FriendshipUserRow) (e : FriendshipRow)
            → Named target
            → target.id ≢ q.viewer_id
            → find_friendship_between d q.viewer_id target.id s ≡ some e
            → P (friends.update (λ r. r.id == e.id) (as_blocked q target.id) s))
        → ((target : FriendshipUserRow)
            → Named target
            → target.id ≢ q.viewer_id
            → find_friendship_between d q.viewer_id target.id s ≡ none
            → P (friends.create (new_friendship q target.id blocked) s))
        → P (stored d s (block_user d people q s))
    unfolding block_user
    block_cases same update create = elim (Option-cases (find_friend_target d people q.username)) [
      | inl miss ↦ rw (miss, block_user) same
      | inr (target, hit) ↦ elim (Bool-cases (target.id == q.viewer_id)) [
        | inl self ↦ rw (hit, block_user) (rw self same)
        | inr other ↦ elim (Option-cases (find_friendship_between d q.viewer_id target.id s)) [
          | inl miss ↦
              rw (hit, block_user) (rw other (rw miss (create target hit (ground arith) miss)))
          | inr (e, found) ↦
              rw (hit, block_user) (rw other (rw found (update target e hit (ground arith) found)))
        ]
      ]
    ]

    pub send_cases :
        P s
        → P (stored d s (accept_friend_request d people q s))
        → ((target : FriendshipUserRow)
            → Named target
            → target.id ≢ q.viewer_id
            → find_friendship_between d q.viewer_id target.id s ≡ none
            → P (friends.create (new_friendship q target.id pending) s))
        → P (stored d s (send_friend_request d people q s))
    unfolding send_friend_request
    send_cases same accept create = elim (Option-cases (find_friend_target d people q.username)) [
      | inl miss ↦ rw (miss, send_friend_request) same
      | inr (target, hit) ↦ elim (Bool-cases (target.id == q.viewer_id)) [
        | inl self ↦ rw (hit, send_friend_request) (rw self same)
        | inr other ↦ elim (Option-cases (find_friendship_between d q.viewer_id target.id s)) [
          | inl miss ↦
              rw (hit, send_friend_request)
                (rw other (rw miss (create target hit (ground arith) miss)))
          | inr (e, found) ↦ elim (Bool-cases (is_pending e.state && e.requester_id == target.id)) [
            | inl theirs ↦
                rw (hit, send_friend_request)
                  (rw other (rw found (rw (theirs, answer_existing) accept)))
            | inr ours ↦
                rw (hit, send_friend_request)
                  (rw other (rw found (rw (ours, answer_existing) same)))
          ]
        ]
      ]
    ]

  module _ (people : users.Store) (q : Request) (s : Store) (w : IsWellFormed d s) where
    accept-IsWellFormed : IsWellFormed d (stored d s (accept_friend_request d people q s))
    accept-IsWellFormed = accept_cases (IsWellFormed d) people q s w λ target e hit found.
        let (held, fits) = friends.find_sound _ s found in
        update-IsWellFormed d e (as_accepted q) s w held refl (ground arith)
          (record { apart = (w.sound e held).apart; stamped = ground arith })

    remove-IsWellFormed : IsWellFormed d (removed d s (remove_friend d people q s))
    remove-IsWellFormed =
        remove_cases (IsWellFormed d) people q s w λ target e hit found. delete-IsWellFormed d _ s w

    module _ (fresh : IsFresh d q.new_id s) where
      created-IsWellFormed :
          (target_id : ℕ) (state : FriendState)
          → target_id ≢ q.viewer_id
          → state ≢ accepted
          → find_friendship_between d q.viewer_id target_id s ≡ none
          → IsWellFormed d (friends.create (new_friendship q target_id state) s)
      created-IsWellFormed target_id state other open_state miss =
          create-IsWellFormed d (new_friendship q target_id state) s w fresh
            (λ r held pair. ground (arith, friends.find_complete _ s miss r held))
            (record { apart = λ e. other (sym e); stamped = ground arith })

      block-IsWellFormed : IsWellFormed d (stored d s (block_user d people q s))
      block-IsWellFormed =
          block_cases (IsWellFormed d) people q s w
            (λ target e hit other found.
              let (held, fits) = friends.find_sound _ s found in
              update-IsWellFormed d e (as_blocked q target.id) s w held refl (ground arith)
                (record { apart = λ x. other (sym x); stamped = ground arith }))
            (λ target hit other miss. created-IsWellFormed target.id blocked other (λ x. cc) miss)

      send-IsWellFormed : IsWellFormed d (stored d s (send_friend_request d people q s))
      send-IsWellFormed =
          send_cases (IsWellFormed d) people q s w accept-IsWellFormed
            (λ target hit other miss. created-IsWellFormed target.id pending other (λ x. cc) miss)

-- The request of a call.
abbrev pub request_of : Action → Request
request_of (sends q) = q
request_of (accepts q) = q
request_of (removes q) = q
request_of (blocks q) = q

module _ (d : Deps) (people : d.users.Store) where
  pub step-IsWellFormed :
      (a : Action) (s : d.friends.Store)
      → IsWellFormed d s
      → IsFresh d (request_of a).new_id s
      → IsWellFormed d (step d people a s)
  unfolding step
  step-IsWellFormed (sends q) s w fresh = send-IsWellFormed d people q s w fresh
  step-IsWellFormed (accepts q) s w fresh = accept-IsWellFormed d people q s w
  step-IsWellFormed (removes q) s w fresh = remove-IsWellFormed d people q s w
  step-IsWellFormed (blocks q) s w fresh = block-IsWellFormed d people q s w fresh

  -- Each call of a history is given an identifier that no row has when it is served.
  pub data FreshRun : d.friends.Store → List Action → Type 0 where
    done : {s : d.friends.Store} → FreshRun s []
    next :
        {s : d.friends.Store} {a : Action} {rest : List Action}
        → IsFresh d (request_of a).new_id s
        → FreshRun (step d people a s) rest
        → FreshRun s (a ∷ rest)

  -- After any history of requests from a well-formed table: identifiers are unique, any two users
  -- share one row at most, nobody is a friend of themselves, and a row has a time of acceptance
  -- exactly when its state is `ACCEPTED`. Each new row is given an unused identifier.
  pub run-IsWellFormed :
      (actions : List Action) (s : d.friends.Store)
      → IsWellFormed d s
      → FreshRun s actions
      → IsWellFormed d (run d people actions s)
  unfolding run
  run-IsWellFormed [] s w fresh = w
  run-IsWellFormed (a ∷ rest) s w (next unused fresh) =
      run-IsWellFormed rest (step d people a s) (step-IsWellFormed a s w unused) fresh
