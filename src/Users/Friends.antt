-- ===== src/Users/Friends.antt =====
-- apps/api/src/users/services/user-friendship-actions.service.ts and user-friendship-contracts.ts.
-- An identifier is a number, since the code only compares it. The time and the identifier of a new
-- row are arguments of a request; `same_name` is the case-insensitive comparison of the database,
-- and `related` the user row that a relation field joins.
pub mod Rows
pub mod Invariant
pub mod Effects
pub mod Blocking
pub mod Tests
use moddery.Base.{
  ℕ, ◌≡◌, Text, Bool, true, false, ◌&&◌, ◌||◌, Option, none, some, List, [], ◌∷◌, Result, ok, err,
  HttpError, not_found, bad_request, ◌>>=◌, ◌>>◌, or_throw, throw_if, if◌then◌else◌, ◌==◌,
}
use moddery.Database.{Table}
use moddery.Users.Accounts.{AccountStatus, is_active}

pub data FriendState : Type 0 where
  pending accepted blocked : FriendState

pub record FriendshipUserRow : Type 0 where
  pub id : ℕ
  pub username : Text
  pub display_name : Option Text
  pub avatar_url : Option Text
  pub status : AccountStatus

pub record FriendshipRow : Type 0 where
  pub id : ℕ
  pub requester_id : ℕ
  pub addressee_id : ℕ
  pub state : FriendState
  pub created_at : ℕ
  pub accepted_at : Option ℕ

pub data Direction : Type 0 where
  outgoing incoming mutually : Direction

pub record FriendshipContract : Type 0 where
  pub accepted_at : Option ℕ
  pub created_at : ℕ
  pub direction : Direction
  pub id : ℕ
  pub state : FriendState
  pub user : FriendshipUserRow

abbrev pub is_pending : FriendState → Bool
is_pending pending = true
is_pending _ = false

-- The `where` clause of `findFriendshipBetween`.
abbrev pub between : ℕ → ℕ → FriendshipRow → Bool
between user target r =
    (r.addressee_id == target && r.requester_id == user)
    || (r.addressee_id == user && r.requester_id == target)

unfoldable pub direction_of : FriendState → Bool → Direction
direction_of blocked viewer_is_requester = if viewer_is_requester then outgoing else incoming
direction_of accepted viewer_is_requester = mutually
direction_of pending viewer_is_requester = if viewer_is_requester then outgoing else incoming

-- What the services are given: two tables, how names compare and what a relation joins.
pub record Deps : Type 1 where
  pub friends : Table FriendshipRow
  pub users : Table FriendshipUserRow
  pub same_name : Text → Text → Bool
  pub related : ℕ → FriendshipUserRow

-- A request: who asks, whom it names, when it is served, and the next identifier.
pub record Request : Type 0 where
  pub viewer_id : ℕ
  pub username : Text
  pub now : ℕ
  pub new_id : ℕ

-- The `data` of `friend.create`, with the defaults of the schema.
abbrev pub new_friendship : Request → ℕ → FriendState → FriendshipRow
new_friendship q target_id state = record {
  id = q.new_id;
  requester_id = q.viewer_id;
  addressee_id = target_id;
  state = state;
  created_at = q.now;
  accepted_at = none;
}

-- The `data` of the two calls of `friend.update`.
abbrev pub as_accepted : Request → FriendshipRow → FriendshipRow
as_accepted q r = record r { accepted_at = some q.now; state = accepted }

abbrev pub as_blocked : Request → ℕ → FriendshipRow → FriendshipRow
as_blocked q target_id r = record r {
  accepted_at = none;
  addressee_id = target_id;
  requester_id = q.viewer_id;
  state = blocked;
}

-- The `where` clause of `acceptFriendRequest`.
abbrev pub is_request_from : ℕ → ℕ → FriendshipRow → Bool
is_request_from target_id viewer_id r =
    (r.addressee_id == viewer_id && r.requester_id == target_id) && is_pending r.state

-- A call of one of the four handlers.
pub data Action : Type 0 where
  sends accepts removes blocks : Request → Action

module _ (d : Deps) where
  unfoldable pub friendship_row_to_contract : FriendshipRow → ℕ → FriendshipContract
  unfolding direction_of
  friendship_row_to_contract r viewer_id =
      let viewer_is_requester = r.requester_id == viewer_id in
      record {
        accepted_at = r.accepted_at;
        created_at = r.created_at;
        direction = direction_of r.state viewer_is_requester;
        id = r.id;
        state = r.state;
        user = d.related (if viewer_is_requester then r.addressee_id else r.requester_id);
      }

  pub find_friend_target : d.users.Store → Text → Option FriendshipUserRow
  find_friend_target people username =
      d.users.find_first (λ u. is_active u.status && d.same_name u.username username) people

  abbrev pub find_friendship_between : ℕ → ℕ → d.friends.Store → Option FriendshipRow
  find_friendship_between user target s = d.friends.find_first (between user target) s

  -- The state of the handlers: the table of friendships. `people` is only read.
  abbrev pub Reply : Type 0
  Reply = Result (d.friends.Store × FriendshipContract)

  -- `prisma.friend.update` by the identifier, with the updated row returned.
  abbrev pub update_row :
      ℕ → FriendshipRow → (FriendshipRow → FriendshipRow) → d.friends.Store → Reply
  update_row viewer_id r change s = ok (
    d.friends.update (λ q. q.id == r.id) change s,
    friendship_row_to_contract (change r) viewer_id,
  )

  unfoldable pub accept_friend_request : d.users.Store → Request → d.friends.Store → Reply
  accept_friend_request people q s = do
    target ← or_throw (find_friend_target people q.username) (not_found "User not found")
    existing ←
        or_throw (d.friends.find_first (is_request_from target.id q.viewer_id) s)
          (not_found "Friend request not found")
    update_row q.viewer_id existing (as_accepted q) s

  create_row : Request → ℕ → FriendState → d.friends.Store → Reply
  create_row q target_id state s =
      let r = new_friendship q target_id state in
      ok (d.friends.create r s, friendship_row_to_contract r q.viewer_id)

  answer_existing : d.users.Store → Request → ℕ → FriendshipRow → d.friends.Store → Reply
  unfolding accept_friend_request
  answer_existing people q target_id existing s =
      if is_pending existing.state && existing.requester_id == target_id
      then accept_friend_request people q s
      else ok (s, friendship_row_to_contract existing q.viewer_id)

  unfoldable pub send_friend_request : d.users.Store → Request → d.friends.Store → Reply
  unfolding answer_existing create_row
  send_friend_request people q s = do
    target ← or_throw (find_friend_target people q.username) (not_found "User not found")
    throw_if (target.id == q.viewer_id) (bad_request "Cannot add yourself as a friend")
    elim (find_friendship_between q.viewer_id target.id s) [
      | some existing ↦ answer_existing people q target.id existing s
      | none ↦ create_row q target.id pending s
    ]

  unfoldable pub remove_friend : d.users.Store → Request → d.friends.Store → Result d.friends.Store
  remove_friend people q s = do
    target ← or_throw (find_friend_target people q.username) (not_found "User not found")
    elim (find_friendship_between q.viewer_id target.id s) [
      | none ↦ ok s
      | some existing ↦ ok (d.friends.delete (λ r. r.id == existing.id) s)
    ]

  unfoldable pub block_user : d.users.Store → Request → d.friends.Store → Reply
  unfolding create_row
  block_user people q s = do
    target ← or_throw (find_friend_target people q.username) (not_found "User not found")
    throw_if (target.id == q.viewer_id) (bad_request "Cannot block yourself")
    elim (find_friendship_between q.viewer_id target.id s) [
      | some existing ↦ update_row q.viewer_id existing (as_blocked q target.id) s
      | none ↦ create_row q target.id blocked s
    ]

  -- A handler that throws changes nothing.
  abbrev pub stored : d.friends.Store → Reply → d.friends.Store
  stored s (ok (t, c)) = t
  stored s (err e) = s

  abbrev pub removed : d.friends.Store → Result d.friends.Store → d.friends.Store
  removed s (ok t) = t
  removed s (err e) = s

  unfoldable pub step : d.users.Store → Action → d.friends.Store → d.friends.Store
  step people (sends q) s = stored s (send_friend_request people q s)
  step people (accepts q) s = stored s (accept_friend_request people q s)
  step people (removes q) s = removed s (remove_friend people q s)
  step people (blocks q) s = stored s (block_user people q s)

  unfoldable pub run : d.users.Store → List Action → d.friends.Store → d.friends.Store
  run people [] s = s
  run people (a ∷ actions) s = run people actions (step people a s)
