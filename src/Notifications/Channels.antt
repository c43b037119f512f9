-- ===== src/Notifications/Channels.antt =====
-- What a preference that a user saves does to the channels of a later notice:
-- apps/api/src/notifications/services/notification-preferences.service.ts.
use moddery.Base.{
  ℕ, ◌≡◌, ◌≢◌, ◌↔◌, refl, sym, ◌∙◌, ap, inl, inr, List, [], ◌∷◌, none, Option-cases, Text, text,
  teq, trim, to_lower, Bool, true, Among, arith, keep_if, Among-keep_if, keep_if-Among, map,
  teq_refl,
}
use moddery.Database.{upsert, upsert_rows, upsert_writes}
use moddery.Notifications.{
  NotificationChannel, in_app, email, NotificationPreference, NotificationDeps, NotificationTables,
  DefaultPreference, default_preferences, notification_channel, is_preference, with_enabled,
  update_preference, enabled_preferences, is_enabled, of_type, same_channel,
}

-- The types of the notices that have preferences.
abbrev pub IsKnown : Text → Type 0
IsKnown type = Among type (text "project" ∷ text "moderation" ∷ text "message" ∷ text "team" ∷ [])

same_channel_refl : (c : NotificationChannel) → same_channel c c ≡ true
same_channel_refl in_app = refl
same_channel_refl email = refl

module _ (f : DefaultPreference → NotificationChannel) where
  Among-channels :
      (xs : List DefaultPreference) (c : NotificationChannel)
      → Among c (map f xs)
      → (p : DefaultPreference) × Among p xs × (f p ≡ c)
  Among-channels [] c m = absurd m
  Among-channels (x ∷ xs) c (inl e) = (x, inl refl, sym e)
  Among-channels (x ∷ xs) c (inr m) = let (p, k, e) = Among-channels xs c m in (p, inr k, e)

  channels-Among :
      (xs : List DefaultPreference) (p : DefaultPreference) → Among p xs → Among (f p) (map f xs)
  channels-Among [] p m = absurd m
  channels-Among (x ∷ xs) p (inl e) = inl (ap f e)
  channels-Among (x ∷ xs) p (inr m) = inr (channels-Among xs p m)

-- Each known type has a default on each channel.
default_of :
    (type : Text) (c : NotificationChannel)
    → IsKnown type
    → (p : DefaultPreference) × Among p default_preferences × (p.channel ≡ c) × (p.type ≡ type)
unfolding default_preferences
default_of type in_app (inl e) = (_, inl refl, refl, sym e)
default_of type email (inl e) = (_, inr (inl refl), refl, sym e)
default_of type in_app (inr (inl e)) = (_, inr (inr (inl refl)), refl, sym e)
default_of type email (inr (inl e)) = (_, inr (inr (inr (inl refl))), refl, sym e)
default_of type in_app (inr (inr (inl e))) = (_, inr (inr (inr (inr (inl refl)))), refl, sym e)
default_of type email (inr (inr (inl e))) = (_, inr (inr (inr (inr (inr (inl refl))))), refl, sym e)
default_of type in_app (inr (inr (inr (inl e)))) =
    (_, inr (inr (inr (inr (inr (inr (inl refl)))))), refl, sym e)
default_of type email (inr (inr (inr (inl e)))) =
    (_, inr (inr (inr (inr (inr (inr (inr (inl refl))))))), refl, sym e)
default_of type in_app (inr (inr (inr (inr m)))) = absurd m
default_of type email (inr (inr (inr (inr m)))) = absurd m

module _ (d : NotificationDeps) (user_id : ℕ) (s : NotificationTables d) where
  -- With a channel whose preference is settled, the list of the channels has it as it is settled.
  enabled_preferences_iff :
      (type : Text) (c : NotificationChannel) (b : Bool)
      → IsKnown type
      → ((p : DefaultPreference) → p.channel ≡ c → is_enabled d user_id type s p ≡ b)
      → Among c (enabled_preferences d user_id type s) ↔ (b ≡ true)
  unfolding enabled_preferences
  enabled_preferences_iff type c b known settled =
      let typed : List DefaultPreference = keep_if (of_type type) default_preferences in
      (
        (λ m.
            let (p, k, e) =
              Among-channels (λ p. p.channel) (keep_if (is_enabled d user_id type s) typed) c m in
            sym (settled p e) ∙ (Among-keep_if (is_enabled d user_id type s) typed p k).1),
        (λ on.
            let (p, m, e, t) = default_of type c known in
            let k =
              keep_if-Among (of_type type) default_preferences p m
                (ap (λ x. teq x type) t ∙ teq_refl type) in
            let n = keep_if-Among (is_enabled d user_id type s) typed p k (settled p e ∙ on) in
            rw (← e)
              (channels-Among (λ x. x.channel) (keep_if (is_enabled d user_id type s) typed) p n)),
      )

module _ (d : NotificationDeps) (enabled : Bool) (user_id : ℕ) (t : Text) (c : NotificationChannel)
    (s : d.preferences.Store) where
  abbrev row : NotificationPreference
  row = record { user_id = user_id; type = t; channel = c; enabled = enabled }

  abbrev after : d.preferences.Store
  after = upsert d.preferences (is_preference user_id t c) (with_enabled enabled) row s

  row_fits : is_preference user_id t c row ≡ true
  row_fits = ground (arith, teq_refl t, same_channel_refl c)

  saved_is :
      (r : NotificationPreference)
      → d.preferences.Holds after r
      → is_preference user_id t c r ≡ true
      → r.enabled ≡ enabled
  saved_is r h fits =
      elim (upsert_rows d.preferences (is_preference user_id t c) (with_enabled enabled) row s r
        h) [
          | inl (k, off) ↦ cc (fits, off)
          | inr (inl e) ↦ ap (λ x. x.enabled) e
          | inr (inr (q, k, on, e)) ↦ ap (λ x. x.enabled) e
        ]

  saved_is_found : d.preferences.find_first (is_preference user_id t c) after ≢ none
  saved_is_found miss =
      let test = is_preference user_id t c in
      let (r, h, cases) = upsert_writes d.preferences test (with_enabled enabled) row s in
      let off = d.preferences.find_complete test after miss r h in
      elim cases [
        | inl e ↦ cc (sym (ap test e) ∙ off, row_fits)
        | inr (q, k, on, e) ↦ cc (sym (ap test e) ∙ off, on)
      ]

  saved_settles :
      (w : NotificationTables d) (p : DefaultPreference)
      → w.preferences ≡ after
      → p.channel ≡ c
      → is_enabled d user_id t w p ≡ enabled
  saved_settles w p e k =
      elim (Option-cases (d.preferences.find_first (is_preference user_id t c) after)) [
        | inl miss ↦ absurd (saved_is_found miss)
        | inr (r, found) ↦
            let (h, fits) = d.preferences.find_sound (is_preference user_id t c) after found in
            rw (e, k, found, is_enabled) (saved_is r h fits)
      ]

-- After a user has saved a preference for a type of notice that has defaults and for a channel, the
-- notices of that type go to that channel if, and only if, the preference enables it. The type is
-- taken without the white space around it and in lower case; a channel that is not `EMAIL`, in
-- whatever case, is the channel inside the application.
pub update_preference_governs :
    (d : NotificationDeps) (channel : Text) (enabled : Bool) (type : Text) (user_id : ℕ)
    (s : NotificationTables d)
    → IsKnown (to_lower (trim type))
    → Among (notification_channel channel) (
        enabled_preferences d user_id
          (to_lower (trim type))
          (update_preference d channel enabled type user_id s))
      ↔ (enabled ≡ true)
unfolding update_preference
update_preference_governs d channel enabled type user_id s known =
    let t = to_lower (trim type) in
    let c = notification_channel channel in
    let w = update_preference d channel enabled type user_id s in
    enabled_preferences_iff d user_id w t c enabled known
      (λ p k. saved_settles d enabled user_id t c s.preferences w p refl k)
