-- ===== src/Notifications/Dispatch/Channels.antt =====
-- What the preferences of a user decide.
use async_fastapi_template.Prelude.{
  some_injective, ap, ◌∙◌, ℕ, ◌==◌, ◌≡◌, refl, Bool, true, false, Option, none, some, List, [], ◌∷◌,
  map, arith, if◌then◌else◌, Bool-cases, Option-cases, inl, inr,
}
use async_fastapi_template.Notifications.Dispatch.{
  NotificationPreference, NotificationPreferenceUpdate, Channel, email, in_app, webhook,
  get_preference, default_preference, get_or_create, or_old, updated, update_for_user,
  channel_enabled_for_preference, channel_enabled,
}

-- The field of an update that is about a channel
abbrev pub asked : NotificationPreferenceUpdate → Channel → Option Bool
asked body email = body.new_email
asked body in_app = body.new_in_app
asked body webhook = body.new_webhook

module _ (body : NotificationPreferenceUpdate) (user_id : ℕ) where
  abbrev write : List NotificationPreference → List NotificationPreference
  write = map (λ (x : NotificationPreference). if x.user_id == user_id then updated body x else x)

  written :
      (p : NotificationPreference) (rows : List NotificationPreference)
      → get_preference rows user_id ≡ some p
      → get_preference (write rows) user_id ≡ some (updated body p)
  unfolding get_preference
  written p [] e = absurd cc
  written p (x ∷ rows) e = elim (Bool-cases (x.user_id == user_id)) [
    | inl b ↦ rw (b, b) (ap (λ t. some (updated body t)) (some_injective x p (rw b at e)))
    | inr b ↦ rw (b, b) (written p rows (rw b at e))
  ]

  unwritten :
      (other : ℕ) (rows : List NotificationPreference)
      → (other == user_id) ≡ false
      → get_preference (write rows) other ≡ get_preference rows other
  unfolding get_preference
  unwritten other [] e = refl
  unwritten other (x ∷ rows) e = elim (Bool-cases (x.user_id == user_id)) [
    | inl b ↦ rw b (ground (arith, b, e, unwritten other rows e))
    | inr b ↦ rw b (ground (arith, b, e, unwritten other rows e))
  ]

  enabled_for :
      (p : NotificationPreference) (channel : Channel)
      → channel_enabled_for_preference (updated body p) channel
        ≡ or_old (asked body channel) (channel_enabled_for_preference p channel)
  unfolding channel_enabled_for_preference
  enabled_for p email = refl
  enabled_for p in_app = refl
  enabled_for p webhook = refl

  at_row :
      (id : ℕ) (rows : List NotificationPreference) (channel : Channel) (p : NotificationPreference)
      → get_preference rows id ≡ some p
      → channel_enabled rows id channel ≡ channel_enabled_for_preference p channel
  unfolding channel_enabled
  at_row id rows channel p e = rw (channel_enabled, e) refl

  no_row :
      (id : ℕ) (rows : List NotificationPreference) (channel : Channel)
      → get_preference rows id ≡ none
      → channel_enabled rows id channel ≡ true
  unfolding channel_enabled
  no_row id rows channel e = rw (channel_enabled, e) refl

  default_enabled :
      (channel : Channel)
      → channel_enabled_for_preference (default_preference user_id) channel ≡ true
  unfolding channel_enabled_for_preference
  default_enabled email = refl
  default_enabled in_app = refl
  default_enabled webhook = refl

  default_found :
      (rows : List NotificationPreference)
      → get_preference (write (default_preference user_id ∷ rows)) user_id
        ≡ some (updated body (default_preference user_id))
  unfolding get_preference
  default_found rows = ground arith

  default_other :
      (other : ℕ) (rows : List NotificationPreference)
      → (other == user_id) ≡ false
      → get_preference (default_preference user_id ∷ rows) other ≡ get_preference rows other
  unfolding get_preference
  default_other other rows e = ground (arith, e)

  same_row :
      (id : ℕ) (rows rows' : List NotificationPreference) (channel : Channel)
      → get_preference rows' id ≡ get_preference rows id
      → channel_enabled rows' id channel ≡ channel_enabled rows id channel
  unfolding channel_enabled
  same_row id rows rows' channel e = rw (channel_enabled, e) refl

  created :
      (rows : List NotificationPreference)
      → get_preference rows user_id ≡ none
      → (get_or_create user_id rows).1 ≡ default_preference user_id ∷ rows
  unfolding get_or_create
  created rows e = rw (get_or_create, e) refl

  kept :
      (rows : List NotificationPreference) (p : NotificationPreference)
      → get_preference rows user_id ≡ some p
      → (get_or_create user_id rows).1 ≡ rows
  unfolding get_or_create
  kept rows p e = rw (get_or_create, e) refl

  -- After an update of a user's preferences, each channel of the user is as the update asks, or
  -- as before where it asks nothing, whether or not the user had a row; no other user's channel
  -- changes.
  pub update_for_user-channel_enabled :
      (rows : List NotificationPreference) (channel : Channel) (other : ℕ)
      → (other == user_id) ≡ false
      → let rows' = (update_for_user body user_id rows).1 in
        (channel_enabled rows' user_id channel
          ≡ or_old (asked body channel) (channel_enabled rows user_id channel))
        × (channel_enabled rows' other channel ≡ channel_enabled rows other channel)
  unfolding update_for_user
  update_for_user-channel_enabled rows channel other e =
      elim (Option-cases (get_preference rows user_id)) [
        | inl f ↦
            let d = default_preference user_id in
            rw (created rows f) (
              at_row user_id (write (d ∷ rows)) channel (updated body d) (default_found rows)
                  ∙ enabled_for d channel
                  ∙ rw (default_enabled channel, no_row user_id rows channel f) refl,
              same_row other rows (write (d ∷ rows)) channel
                  (unwritten other (d ∷ rows) e ∙ default_other other rows e),
            )
        | inr (p, f) ↦ rw (kept rows p f) (
          at_row user_id (write rows) channel (updated body p) (written p rows f)
              ∙ enabled_for p channel
              ∙ rw (at_row user_id rows channel p f) refl,
          same_row other rows (write rows) channel (unwritten other rows e),
        )
      ]
