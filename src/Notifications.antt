-- ===== src/Notifications.antt =====
-- The notices that users are sent, the channels on which they want them, and what they have read:
-- apps/api/src/notifications/services/notification-dispatch.service.ts,
-- notification-preferences.service.ts and notifications.service.ts.
pub mod Channels
pub mod Inbox
pub mod Tests
use moddery.Base.{
  ℕ, ◌≡◌, List, [], ◌∷◌, Option, none, some, Text, text, teq, trim, is_empty, to_lower, to_upper,
  ◌==◌, ◌&&◌, Bool, true, false, not, if◌then◌else◌, keep_if, map, Result, ok, err, bad_request,
  not_found, ◌>>=◌, ◌>>◌, or_throw, throw_if, required_text, nullable_trim, String,
}
use moddery.Database.{Table, upsert}

pub data NotificationChannel : Type 0 where
  in_app email : NotificationChannel

abbrev pub same_channel : NotificationChannel → NotificationChannel → Bool
same_channel in_app in_app = true
same_channel email email = true
same_channel _ _ = false

pub data NotificationState : Type 0 where
  pending sent read failed : NotificationState

pub record NotificationPreference : Type 0 where
  pub user_id : ℕ
  pub type : Text
  pub channel : NotificationChannel
  pub enabled : Bool

pub record Notification : Type 0 where
  pub id : ℕ
  pub user_id : ℕ
  pub type : Text
  pub title : Text
  pub body : Option Text
  pub action_url : Option Text
  pub state : NotificationState
  pub read_at : Option ℕ
  -- The channels of its deliveries.
  pub deliveries : List NotificationChannel

pub record Recipient : Type 0 where
  pub id : ℕ
  pub username : Text

pub record NotificationDeps : Type 1 where
  pub preferences : Table NotificationPreference
  pub notifications : Table Notification
  pub users : Table Recipient
  -- The comparison that ignores case.
  pub same_username : Text → Text → Bool

pub record NotificationTables (d : NotificationDeps) : Type 0 where
  pub preferences : d.preferences.Store
  pub notifications : d.notifications.Store
  pub users : d.users.Store

pub record DefaultPreference : Type 0 where
  pub channel : NotificationChannel
  pub enabled : Bool
  pub type : Text

abbrev prefer : NotificationChannel → Bool → Text → DefaultPreference
prefer channel enabled type = record { channel = channel; enabled = enabled; type = type }

unfoldable pub default_preferences : List DefaultPreference
default_preferences =
    prefer in_app true (text "project")
    ∷ prefer email true (text "project")
    ∷ prefer in_app true (text "moderation")
    ∷ prefer email false (text "moderation")
    ∷ prefer in_app true (text "message")
    ∷ prefer email false (text "message")
    ∷ prefer in_app true (text "team")
    ∷ prefer email true (text "team")
    ∷ []

-- Whatever is not `EMAIL` is the channel inside the application.
unfoldable pub notification_channel : Text → NotificationChannel
unfolding teq trim
notification_channel channel =
    if teq (to_upper (trim channel)) (text "EMAIL") then email else in_app

abbrev pub is_preference : ℕ → Text → NotificationChannel → NotificationPreference → Bool
is_preference user_id type channel r =
    r.user_id == user_id && teq r.type type && same_channel r.channel channel

abbrev pub with_enabled : Bool → NotificationPreference → NotificationPreference
with_enabled enabled r = record r { enabled = enabled }

abbrev pub of_type : Text → DefaultPreference → Bool
of_type type p = teq p.type type

abbrev pub required_trim : Text → String → Result Text
required_trim value message = required_text value message

abbrev pub is_null : Option ℕ → Bool
is_null none = true
is_null (some at) = false

abbrev pub is_unread_of : ℕ → Notification → Bool
is_unread_of user_id n = is_null n.read_at && n.user_id == user_id

abbrev pub as_read : ℕ → Notification → Notification
as_read now n = record n { read_at = some now; state = read }

abbrev pub is_own_notice : ℕ → ℕ → Notification → Bool
is_own_notice notification_id user_id n = n.id == notification_id && n.user_id == user_id

module _ (d : NotificationDeps) where
  unfoldable pub update_preference :
      Text → Bool → Text → ℕ → NotificationTables d → NotificationTables d
  unfolding notification_channel
  update_preference channel enabled type user_id s =
      let normalized_type = to_lower (trim type) in
      let normalized_channel = notification_channel channel in
      record s {
        preferences =
            upsert d.preferences (is_preference user_id normalized_type normalized_channel)
              (with_enabled enabled)
              (record {
                user_id = user_id;
                type = normalized_type;
                channel = normalized_channel;
                enabled = enabled;
              })
              s.preferences;
      }

  -- `(savedByChannel.get(channel) ?? default).enabled`. The key of the table is the user, the type and
  -- the channel.
  abbrev pub is_enabled : ℕ → Text → NotificationTables d → DefaultPreference → Bool
  is_enabled user_id type s p =
      elim (d.preferences.find_first (is_preference user_id type p.channel) s.preferences) [
        | none ↦ p.enabled
        | some r ↦ r.enabled
      ]

  -- The channels of `enabledPreferences`.
  unfoldable pub enabled_preferences : ℕ → Text → NotificationTables d → List NotificationChannel
  unfolding default_preferences
  enabled_preferences user_id type s =
      map (λ p. p.channel)
        (keep_if (is_enabled user_id type s) (keep_if (of_type type) default_preferences))

  unfoldable pub send_user_notification :
      ℕ
      → Option Text
      → Option Text
      → Text
      → Text
      → ℕ
      → NotificationTables d
      → Result (NotificationTables d × Notification)
  unfolding enabled_preferences
  send_user_notification id action_url body title type user_id s = do
    trimmed_type ← required_trim type "Notification type is required"
    let normalized_type = to_lower trimmed_type
    let channels = enabled_preferences user_id normalized_type s
    trimmed_title ← required_trim title "Notification title is required"
    let row : Notification = record {
      id = id;
      user_id = user_id;
      type = normalized_type;
      title = trimmed_title;
      body = body;
      action_url = action_url;
      state = pending;
      read_at = none;
      deliveries = channels;
    }
    ok (record s { notifications = d.notifications.create row s.notifications }, row)

  unfoldable pub send_notification :
      ℕ
      → Option Text
      → Option Text
      → Text
      → Text
      → Text
      → NotificationTables d
      → Result (NotificationTables d × Notification)
  unfolding enabled_preferences
  send_notification id action_url body title type username s = do
    trimmed_type ← required_trim type "Notification type is required"
    let normalized_type = to_lower trimmed_type
    trimmed_title ← required_trim title "Notification title is required"
    recipient ←
        or_throw (d.users.find_first (λ u. d.same_username u.username (trim username)) s.users)
          (not_found "User not found")
    let row : Notification = record {
      id = id;
      user_id = recipient.id;
      type = normalized_type;
      title = trimmed_title;
      body = nullable_trim body;
      action_url = nullable_trim action_url;
      state = pending;
      read_at = none;
      deliveries = enabled_preferences recipient.id normalized_type s;
    }
    ok (record s { notifications = d.notifications.create row s.notifications }, row)

  unfoldable pub unread_count : ℕ → NotificationTables d → ℕ
  unread_count user_id s = d.notifications.count (is_unread_of user_id) s.notifications

  unfoldable pub mark_read :
      ℕ → ℕ → ℕ → NotificationTables d → Result (NotificationTables d × Notification)
  mark_read now user_id notification_id s = do
    let mine = is_own_notice notification_id user_id
    some_row ←
        throw_if (d.notifications.count mine s.notifications == 0)
          (not_found "Notification not found")
    let after = d.notifications.update mine (as_read now) s.notifications
    row ← or_throw (d.notifications.find_first mine after) (not_found "Notification not found")
    ok (record s { notifications = after }, row)

  -- The reply is the number of notices that were unread.
  unfoldable pub mark_all_read : ℕ → ℕ → NotificationTables d → NotificationTables d × ℕ
  mark_all_read now user_id s = (
    record s {
      notifications = d.notifications.update (is_unread_of user_id) (as_read now) s.notifications;
    },
    d.notifications.count (is_unread_of user_id) s.notifications,
  )
