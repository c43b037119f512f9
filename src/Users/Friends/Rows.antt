-- ===== src/Users/Friends/Rows.antt =====
-- A well-formed friendship table, under the calls that create, update and delete one row.
use moddery.Base.{ℕ, ◌≡◌, ◌≢◌, ◌↔◌, sym, ap, ◌∙◌, inl, inr, ◌⊎◌, Bool, none, ◌==◌, arith}
use moddery.Users.Friends.{FriendshipRow, accepted, Deps}

-- The same two users, in either order.
abbrev pub SamePair : FriendshipRow → FriendshipRow → Type 0
SamePair r q =
    ((r.requester_id ≡ q.requester_id) × (r.addressee_id ≡ q.addressee_id))
    ⊎ ((r.requester_id ≡ q.addressee_id) × (r.addressee_id ≡ q.requester_id))

-- Two different users, with a time of acceptance exactly when the state is `ACCEPTED`.
pub record IsSound (r : FriendshipRow) : Type 0 where
  pub apart : r.requester_id ≢ r.addressee_id
  pub stamped : (r.state ≡ accepted) ↔ (r.accepted_at ≢ none)

module _ (d : Deps) where
  open d use {friends}
  open friends use {Store, Holds}

  pub record IsWellFormed (s : Store) : Type 0 where
    pub unique_id : (r q : FriendshipRow) → Holds s r → Holds s q → r.id ≡ q.id → r ≡ q
    pub one_per_pair : (r q : FriendshipRow) → Holds s r → Holds s q → SamePair r q → r ≡ q
    pub sound : (r : FriendshipRow) → Holds s r → IsSound r

  -- No row has the identifier that the request would give to a new one.
  abbrev pub IsFresh : ℕ → Store → Type 0
  IsFresh new_id s = (r : FriendshipRow) → Holds s r → r.id ≢ new_id

  abbrev pub NoneBetween : FriendshipRow → Store → Type 0
  NoneBetween x s = (r : FriendshipRow) → Holds s r → ¬ (SamePair r x)

  pub create-IsWellFormed :
      (x : FriendshipRow) (s : Store)
      → IsWellFormed s
      → IsFresh x.id s
      → NoneBetween x s
      → IsSound x
      → IsWellFormed (friends.create x s)
  create-IsWellFormed x s w fresh free good = record {
    unique_id = λ r q hr hq e. elim ((friends.holds_create x s r).0 hr) [
      | inl er ↦ elim ((friends.holds_create x s q).0 hq) [
        | inl eq ↦ er ∙ sym eq
        | inr kq ↦ absurd (fresh q kq (sym e ∙ ap (λ (t : FriendshipRow). t.id) er))
      ]
      | inr kr ↦ elim ((friends.holds_create x s q).0 hq) [
        | inl eq ↦ absurd (fresh r kr (e ∙ ap (λ (t : FriendshipRow). t.id) eq))
        | inr kq ↦ w.unique_id r q kr kq e
      ]
    ];
    one_per_pair = λ r q hr hq e. elim ((friends.holds_create x s r).0 hr) [
      | inl er ↦ elim ((friends.holds_create x s q).0 hq) [
        | inl eq ↦ er ∙ sym eq
        | inr kq ↦ absurd (free q kq (ground arith))
      ]
      | inr kr ↦ elim ((friends.holds_create x s q).0 hq) [
        | inl eq ↦ absurd (free r kr (ground arith))
        | inr kq ↦ w.one_per_pair r q kr kq e
      ]
    ];
    sound = λ r hr. elim ((friends.holds_create x s r).0 hr) [
      | inl er ↦ rw er good
      | inr kr ↦ w.sound r kr
    ];
  }

  -- After an update by the identifier of `e`, each row is an old one or the changed `e`.
  pub updated_cases :
      (e : FriendshipRow) (f : FriendshipRow → FriendshipRow) (s : Store) (r : FriendshipRow)
      → IsWellFormed s
      → Holds s e
      → Holds (friends.update (λ q. q.id == e.id) f s) r
      → (Holds s r × (r.id ≢ e.id)) ⊎ (r ≡ f e)
  updated_cases e f s r w he h = elim ((friends.holds_update (λ q. q.id == e.id) f s r).0 h) [
    | inl (k, off) ↦ inl (k, ground arith)
    | inr (q, kq, on, er) ↦ inr (er ∙ ap f (w.unique_id q e kq he (ground arith)))
  ]

  pub update-IsWellFormed :
      (e : FriendshipRow) (f : FriendshipRow → FriendshipRow) (s : Store)
      → IsWellFormed s
      → Holds s e
      → (f e).id ≡ e.id
      → SamePair (f e) e
      → IsSound (f e)
      → IsWellFormed (friends.update (λ q. q.id == e.id) f s)
  update-IsWellFormed e f s w he same_id same_pair good = record {
    unique_id = λ r q hr hq eid. elim (updated_cases e f s r w he hr) [
      | inl (kr, off) ↦ elim (updated_cases e f s q w he hq) [
        | inl (kq, _) ↦ w.unique_id r q kr kq eid
        | inr eq ↦ absurd (off (ground arith))
      ]
      | inr er ↦ elim (updated_cases e f s q w he hq) [
        | inl (kq, off) ↦ absurd (off (ground arith))
        | inr eq ↦ er ∙ sym eq
      ]
    ];
    one_per_pair = λ r q hr hq pair. elim (updated_cases e f s r w he hr) [
      | inl (kr, off) ↦ elim (updated_cases e f s q w he hq) [
        | inl (kq, _) ↦ w.one_per_pair r q kr kq pair
        | inr eq ↦
            absurd
              (off (ap (λ (t : FriendshipRow). t.id) (w.one_per_pair r e kr he (ground arith))))
      ]
      | inr er ↦ elim (updated_cases e f s q w he hq) [
        | inl (kq, off) ↦
            absurd
              (off (ap (λ (t : FriendshipRow). t.id) (w.one_per_pair q e kq he (ground arith))))
        | inr eq ↦ er ∙ sym eq
      ]
    ];
    sound = λ r hr. elim (updated_cases e f s r w he hr) [
      | inl (kr, _) ↦ w.sound r kr
      | inr er ↦ rw er good
    ];
  }

  pub delete-IsWellFormed :
      (p : FriendshipRow → Bool) (s : Store) → IsWellFormed s → IsWellFormed (friends.delete p s)
  delete-IsWellFormed p s w = record {
    unique_id = λ r q hr hq.
        w.unique_id r q ((friends.holds_delete p s r).0 hr).0 ((friends.holds_delete p s q).0 hq).0;
    one_per_pair = λ r q hr hq.
        w.one_per_pair r q ((friends.holds_delete p s r).0 hr).0
          ((friends.holds_delete p s q).0 hq).0;
    sound = λ r hr. w.sound r ((friends.holds_delete p s r).0 hr).0;
  }
