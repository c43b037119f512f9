-- ===== src/Notifications/Tests.antt =====
-- Two users with their notices, in tables kept in memory.
use moddery.Base.{
  ℕ, ◌≡◌, ◌≢◌, ◌↔◌, ◌+◌, refl, inl, inr, none, some, [], ◌∷◌, ok, err, not_found, text, teq, trim,
  to_lower, trim_start, is_space, lower_unit, true, false, Among, nullable_trim,
}
use moddery.Database.Memory.{memory}
use moddery.Notifications.{
  in_app, email, pending, read, Notification, NotificationPreference, Recipient, NotificationDeps,
  NotificationTables, update_preference, enabled_preferences, unread_count, mark_read,
  mark_all_read, send_notification, send_user_notification, notification_channel,
}
use moddery.Notifications.Channels.{update_preference_governs}
use moddery.Notifications.Inbox.{
  mark_all_read_clears, send_user_notification_lem, send_notification-send_user_notification,
}

abbrev deps : NotificationDeps
deps = record {
  preferences = memory NotificationPreference;
  notifications = memory Notification;
  users = memory Recipient;
  same_username = teq;
}

abbrev notice : ℕ → ℕ → Notification
notice id user_id = record {
  id = id;
  user_id = user_id;
  type = text "team";
  title = text "Hi";
  body = none;
  action_url = none;
  state = pending;
  read_at = none;
  deliveries = in_app ∷ email ∷ [];
}

abbrev tables : NotificationTables deps
tables = record {
  preferences = [];
  notifications = notice 1 1 ∷ notice 2 1 ∷ notice 3 2 ∷ [];
  users = record { id = 1; username = text "ada" } ∷ record { id = 2; username = text "bob" } ∷ [];
}

-- The default of the notices about the team.
team_default : enabled_preferences deps 1 (text "team") tables ≡ in_app ∷ email ∷ []
unfolding enabled_preferences teq
team_default = refl

update_preference_governs_example :
    Among (notification_channel (text " email")) (
      enabled_preferences deps 1
        (to_lower (trim (text " Team ")))
        (update_preference deps (text " email") false (text " Team ") 1 tables))
    ↔ (false ≡ true)
unfolding trim trim_start is_space lower_unit
update_preference_governs_example =
    update_preference_governs deps (text " email") false (text " Team ") 1 tables
      (inr (inr (inr (inl refl))))

mark_all_read_clears_example :
    let w = mark_all_read deps 9 1 tables in
    (w.1 ≡ unread_count deps 1 tables)
    × (unread_count deps 1 w.0 ≡ 0)
    × ((other : ℕ) → other ≢ 1 → unread_count deps other w.0 ≡ unread_count deps other tables)
mark_all_read_clears_example = mark_all_read_clears deps 9 1 tables

send_user_notification_lem_example :
    (w : NotificationTables deps) × (n : Notification) × (send_user_notification deps 4 none none
        (text "Hi")
        (text "Team")
        1
        tables
      ≡ ok (w, n))
    × (n.deliveries ≡ enabled_preferences deps 1 (to_lower (trim (text "Team"))) tables)
    × (unread_count deps 1 w ≡ unread_count deps 1 tables + 1)
    × ((other : ℕ) → other ≢ 1 → unread_count deps other w ≡ unread_count deps other tables)
unfolding trim trim_start is_space lower_unit
send_user_notification_lem_example =
    send_user_notification_lem deps 4 none none (text "Hi") (text "Team") 1 tables refl refl

abbrev read_notice : Notification
read_notice = record (notice 2 1) { read_at = some 9; state = read }

abbrev after_reading : NotificationTables deps
after_reading = record tables { notifications = notice 1 1 ∷ read_notice ∷ notice 3 2 ∷ [] }

reads_one_notice : mark_read deps 9 1 2 tables ≡ ok (after_reading, read_notice)
unfolding mark_read
reads_one_notice = refl

-- The notice of another user is not found.
reads_own_notices : mark_read deps 9 1 3 tables ≡ err (not_found "Notification not found")
unfolding mark_read
reads_own_notices = refl

send_notification-send_user_notification_example :
    send_notification deps 4 none (some (text " ")) (text "Hi") (text "team") (text "bob") tables
    ≡ send_user_notification deps 4 none none (text "Hi") (text "team") 2 tables
unfolding teq trim trim_start is_space nullable_trim
send_notification-send_user_notification_example =
    send_notification-send_user_notification deps 4 none (some (text " ")) (text "Hi") (text "team")
      (text "bob") tables (record { id = 2; username = text "bob" }) refl
