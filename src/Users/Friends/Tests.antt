-- ===== src/Users/Friends/Tests.antt =====
-- Two accounts that ask, accept, block and remove, on tables kept in memory.
use moddery.Base.{
  ℕ, ◌+◌, ◌≡◌, refl, inl, inr, none, some, List, [], ◌∷◌, ok, text, teq, Text, arith,
}
use moddery.Database.Memory.{memory}
use moddery.Users.Accounts.{active}
use moddery.Users.Friends.{
  FriendshipRow, FriendshipUserRow, FriendshipContract, pending, blocked, Deps, Request, sends,
  removes, blocks, find_friend_target, friendship_row_to_contract, send_friend_request,
  remove_friend, block_user, step, run,
}
use moddery.Users.Friends.Rows.{IsSound, IsWellFormed}
use moddery.Users.Friends.Invariant.{done, next, run-IsWellFormed}
use moddery.Users.Friends.Blocking.{AreStrangers, IsBlockedBy, blocked_user_lifts_block}

abbrev ann : FriendshipUserRow
ann = record {
  id = 1;
  username = text "ann";
  display_name = none;
  avatar_url = none;
  status = active;
}

abbrev bob : FriendshipUserRow
bob = record ann { id = 2; username = text "bob" }

abbrev deps : Deps
deps = record {
  friends = memory FriendshipRow;
  users = memory FriendshipUserRow;
  same_name = teq;
  related = λ id. record ann { id = id };
}

abbrev people : List FriendshipUserRow
people = ann ∷ bob ∷ []

abbrev ask : ℕ → Text → ℕ → Request
ask viewer name id = record { viewer_id = viewer; username = name; now = 50 + id; new_id = id }

-- Ann has asked Bob.
abbrev asked : FriendshipRow
asked = record {
  id = 7;
  requester_id = 1;
  addressee_id = 2;
  state = pending;
  created_at = 57;
  accepted_at = none;
}

abbrev shut : FriendshipRow
shut = record asked { state = blocked }

run_tests :
    (run deps people (sends (ask 1 (text "bob") 7) ∷ []) [] ≡ asked ∷ [])
    × (run deps people (sends (ask 1 (text "ann") 7) ∷ sends (ask 1 (text "eve") 8) ∷ []) [] ≡ [])
    × (run deps people (blocks (ask 1 (text "bob") 7) ∷ removes (ask 2 (text "ann") 8) ∷ []) []
        ≡ [])
unfolding run step send_friend_request block_user remove_friend find_friend_target teq
    friendship_row_to_contract
run_tests = (refl, refl, refl)

empty-IsWellFormed : IsWellFormed deps []
empty-IsWellFormed = record {
  unique_id = λ r q hr. absurd hr;
  one_per_pair = λ r q hr. absurd hr;
  sound = λ r hr. absurd hr;
}

one-IsWellFormed : (r : FriendshipRow) → IsSound r → IsWellFormed deps (r ∷ [])
one-IsWellFormed r good = record {
  unique_id = λ x y hx hy e. ground arith;
  one_per_pair = λ x y hx hy e. ground arith;
  sound = λ x hx. elim hx [ inl e ↦ rw e good | inr no_row ↦ absurd no_row ];
}

asked-IsWellFormed : IsWellFormed deps (asked ∷ [])
asked-IsWellFormed = one-IsWellFormed asked (record { apart = omega arith; stamped = ground arith })

shut-IsWellFormed : IsWellFormed deps (shut ∷ [])
shut-IsWellFormed = one-IsWellFormed shut (record { apart = omega arith; stamped = ground arith })

target_bob : find_friend_target deps people (text "bob") ≡ some bob
unfolding find_friend_target teq
target_bob = refl

target_ann : find_friend_target deps people (text "ann") ≡ some ann
unfolding find_friend_target teq
target_ann = refl

run-IsWellFormed_example :
    IsWellFormed deps (run deps people (sends (ask 1 (text "bob") 7) ∷ []) [])
run-IsWellFormed_example =
    run-IsWellFormed deps people (sends (ask 1 (text "bob") 7) ∷ []) [] empty-IsWellFormed
      (next (λ r h. absurd h) done)

blocked_user_lifts_block_example :
    (t u : List FriendshipRow) × (c : FriendshipContract) × (block_user deps people
        (ask 1 (text "bob") 7)
        []
      ≡ ok (t, c))
    × IsBlockedBy deps people 1 2 t
    × (remove_friend deps people (ask 2 (text "ann") 8) t ≡ ok u)
    × AreStrangers deps people 2 1 u
blocked_user_lifts_block_example =
    blocked_user_lifts_block deps people (ask 1 (text "bob") 7) (ask 2 (text "ann") 8) [] bob ann
      empty-IsWellFormed (λ r h. absurd h) target_bob
      (λ e. let e' : 2 ≡ 1 = e in absurd (omega arith)) target_ann (refl, refl)
