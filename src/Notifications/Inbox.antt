-- ===== src/Notifications/Inbox.antt =====
-- The count of the notices that a user has not read, and whom a request touches:
-- apps/api/src/notifications/services/notifications.service.ts and
-- notification-dispatch.service.ts.
use moddery.Base.{
  ℕ, ◌≡◌, ◌≢◌, ◌+◌, refl, sym, ◌∙◌, ap, inl, inr, none, some, Text, trim, to_lower, Bool, true,
  false, ok, >>=-eq-ok, or_throw-eq-ok, not_found, nullable_trim, required_text, is_empty, or_throw,
  throw_if, ==_iff, eq_self, eq-false_of_ne, ok-first, ok-second, ◌==◌, ◌&&◌, Option, Bool-cases,
}
use moddery.Notifications.{
  Notification, NotificationDeps, NotificationTables, unread_count, mark_read, mark_all_read,
  is_unread_of, as_read, is_own_notice, send_user_notification, enabled_preferences, pending,
  Recipient, send_notification, is_null,
}

owned : (is_mine : Bool) (a b : ℕ) → (is_mine && (a == b)) ≡ true → a ≡ b
owned true a b h = (==_iff a b).0 h
owned false a b h = cc

not_theirs : (other : ℕ) (n : Notification) → n.user_id ≢ other → is_unread_of other n ≡ false
not_theirs other n apart = elim (Bool-cases (is_unread_of other n)) [
  | inl e ↦ absurd (apart (owned (is_null n.read_at) n.user_id other e))
  | inr e ↦ e
]

-- Reading a notice of one user is nothing to another.
reading_is_ones_own :
    (now user_id other : ℕ) (n : Notification)
    → other ≢ user_id
    → n.user_id ≡ user_id
    → is_unread_of other (as_read now n) ≡ is_unread_of other n
reading_is_ones_own now user_id other n apart mine =
    let theirs = λ (e : n.user_id ≡ other). apart (sym e ∙ mine) in
    not_theirs other (as_read now n) theirs ∙ sym (not_theirs other n theirs)

module _ (d : NotificationDeps) (now : ℕ) (user_id : ℕ) (s : NotificationTables d) where
  abbrev mark_of : Notification → Bool
  mark_of = is_unread_of user_id

  none_is_left :
      (n : Notification)
      → d.notifications.Holds (d.notifications.update mark_of (as_read now) s.notifications) n
      → mark_of n ≡ false
  none_is_left n h =
      elim ((d.notifications.holds_update mark_of (as_read now) s.notifications n).0 h) [
        | inl (k, off) ↦ off
        | inr (q, k, on, e) ↦ ap mark_of e
      ]

  -- Marking everything as read answers with the number of notices that the user had not read, leaves
  -- none unread, and leaves the count of every other user as it was.
  pub mark_all_read_clears :
      let w = mark_all_read d now user_id s in
      (w.1 ≡ unread_count d user_id s)
      × (unread_count d user_id w.0 ≡ 0)
      × ((other : ℕ) → other ≢ user_id → unread_count d other w.0 ≡ unread_count d other s)
  unfolding mark_all_read unread_count
  mark_all_read_clears = (
    refl,
    (d.notifications.count_zero mark_of
          (d.notifications.update mark_of (as_read now) s.notifications)).1
        none_is_left,
    λ other apart.
        d.notifications.count_update (is_unread_of other) mark_of (as_read now) s.notifications
          (λ r on.
            reading_is_ones_own now user_id other r apart
              (owned (is_null r.read_at) r.user_id user_id on)),
  )

-- A notice with a type and a title that are not blank is sent: its deliveries are the channels that the
-- recipient has enabled for the type in lower case, the recipient has one unread notice more, and the
-- count of every other user stays.
pub send_user_notification_lem :
    (d : NotificationDeps) (id : ℕ) (action_url body : Option Text) (title type : Text)
    (user_id : ℕ) (s : NotificationTables d)
    → is_empty (trim type) ≡ false
    → is_empty (trim title) ≡ false
    → (w : NotificationTables d) × (n : Notification) × (send_user_notification d id action_url body
          title type user_id s
        ≡ ok (w, n))
      × (n.deliveries ≡ enabled_preferences d user_id (to_lower (trim type)) s)
      × (unread_count d user_id w ≡ unread_count d user_id s + 1)
      × ((other : ℕ) → other ≢ user_id → unread_count d other w ≡ unread_count d other s)
unfolding send_user_notification unread_count required_text
send_user_notification_lem d id action_url body title type user_id s typed titled =
    let row : Notification = record {
      id = id;
      user_id = user_id;
      type = to_lower (trim type);
      title = trim title;
      body = body;
      action_url = action_url;
      state = pending;
      read_at = none;
      deliveries = enabled_preferences d user_id (to_lower (trim type)) s;
    } in
    let counted =
      λ (other : ℕ). d.notifications.count_create (is_unread_of other) row s.notifications in
    (
      record s { notifications = d.notifications.create row s.notifications },
      row,
      rw (typed, titled),
      refl,
      counted user_id ∙ rw (eq_self user_id),
      λ other apart. counted other ∙ rw (eq-false_of_ne user_id other (λ e. apart (sym e))),
    )

-- Marking a notice as read answers with a notice of that identifier and that owner, which is read, and
-- leaves the count of every other user as it was.
pub mark_read_keeps :
    (d : NotificationDeps) (now user_id notification_id : ℕ) (s w : NotificationTables d)
    (row : Notification)
    → mark_read d now user_id notification_id s ≡ ok (w, row)
    → (is_own_notice notification_id user_id row ≡ true)
      × (is_null row.read_at ≡ false)
      × ((other : ℕ) → other ≢ user_id → unread_count d other w ≡ unread_count d other s)
unfolding mark_read unread_count
mark_read_keeps d now user_id notification_id s w row h =
    let mine = is_own_notice notification_id user_id in
    let after = d.notifications.update mine (as_read now) s.notifications in
    let (u, e₁, h₁) =
      >>=-eq-ok
        (throw_if (d.notifications.count mine s.notifications == 0)
          (not_found "Notification not found"))
        _ h in
    let (r, e₂, h₂) =
      >>=-eq-ok
        (or_throw (d.notifications.find_first mine after) (not_found "Notification not found")) _
        h₁ in
    let found =
      or_throw-eq-ok (d.notifications.find_first mine after) (not_found "Notification not found")
        e₂ in
    let (held, fits) = d.notifications.find_sound mine after found in
    let same = ok-second h₂ in
    let moved = ok-first h₂ in
    let is_read : is_null r.read_at ≡ false =
      elim ((d.notifications.holds_update mine (as_read now) s.notifications r).0 held) [
        | inl (k, off) ↦ cc (fits, off)
        | inr (q, k, on, e) ↦ ap (λ n. is_null n.read_at) e
      ] in
    (
      rw same fits,
      rw same is_read,
      λ other apart. rw moved (
          d.notifications.count_update (is_unread_of other) mine (as_read now) s.notifications
            (λ n on.
              reading_is_ones_own now user_id other n apart
                (owned (n.id == notification_id) n.user_id user_id on))),
    )

-- A notice to a name that a user has is the notice to that user, with the address and the body
-- trimmed, and the same refusals.
pub send_notification-send_user_notification :
    (d : NotificationDeps) (id : ℕ) (action_url body : Option Text) (title type username : Text)
    (s : NotificationTables d) (u : Recipient)
    → d.users.find_first (λ u. d.same_username u.username (trim username)) s.users ≡ some u
    → send_notification d id action_url body title type username s
      ≡ send_user_notification d id
          (nullable_trim action_url)
          (nullable_trim body)
          title
          type
          u.id
          s
unfolding send_notification send_user_notification
send_notification-send_user_notification d id action_url body title type username s u found =
    rw found refl
