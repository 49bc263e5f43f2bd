-- ===== src/Handlers/Channels/Edited.antt =====
-- The alert channels that a user changes (internal/api/handlers/notification_channels.go).
use text.Mathlib.TextEquality.{eq_iff}
use upguardly_server.Base.{
  ◌≤◌, ◌≡◌, ◌⊎◌, sym, ap, subst, ◌∙◌, ◌&&◌, ◌||◌, List, [], ◌∷◌, Option, none, some, String, ok,
  >>=-eq-ok, >>-eq-ok, past_guard, ok-injective, is_some, or_else, ◌=?◌, string_eq, Distinct, arith,
  inl, inr, Bool-cases,
}
use upguardly_server.Models.Plan.{AlertChannel, max_channels_for, same_channel, same_channel-eq}
use upguardly_server.Database.{Db, NotificationChannelRow, conflict}
use upguardly_server.Database.Channels.{
  ChannelUpdate, find_channel, replace_channel, list_notification_channels, key_taken,
  update_notification_channel, updated_channel_row, get_notification_channel,
}
use upguardly_server.Database.Monitors.{or_not_found}
use upguardly_server.Handlers.{Problem, because, Workspace}
use upguardly_server.Handlers.Settings.{or_refuse}
use upguardly_server.Handlers.CreateMonitor.Granted.{or_refuse-eq-ok}
use upguardly_server.Handlers.Channels.{
  Accounts, update_channel, rivals, room_under, check_channel_room, user_limits,
  require_own_channels, settle_target, pinned_update, store_refusal,
}
use upguardly_server.Handlers.Channels.Room.{
  tally, ids, rivals-le-tally, tally-replace, found-tally,
}
use upguardly_server.Handlers.Channels.Added.{Fits, NoRoomOverrun, room_under-Fits}

module _ (a : Accounts) (db : Db) (ws : Workspace) (user : String) where
  or_not_found-eq :
      {o : Option NotificationChannelRow} {c : NotificationChannelRow}
      → or_not_found o ≡ ok c
      → o ≡ some c
  or_not_found-eq {o = none} h = cc
  or_not_found-eq {o = some d} h = cc

  -- A type that stays, or room for the type that comes.
  abbrev Roomy : String → NotificationChannelRow → ChannelUpdate → Option String → Type 0
  Roomy id c req target =
      (req.channel ≡ none)
      ⊎ (check_channel_room (list_notification_channels db user) (user_limits db user)
            (or_else req.channel c.channel) (or_else target c.target) id
          ≡ ok tt)

  settle_target-Roomy :
      (id : String) (c : NotificationChannelRow) (req : ChannelUpdate) {target : Option String}
      → settle_target a db ws user id c req ≡ ok target
      → Roomy id c req target
  unfolding settle_target
  settle_target-Roomy id c req {target} h =
      elim (Bool-cases (is_some req.target || is_some req.channel)) [
        | inr e ↦ inl (ground (arith, e))
        | inl e ↦
            let (t, pinned, h1) =
              >>=-eq-ok (pinned_update a db ws user (or_else req.channel c.channel) req.target) _
                (rw e at h) in
            let (good, h2) = past_guard _ (because 400 Problem.bad_alert_target) _ h1 in
            let (room, last) = >>-eq-ok (check_channel_room _ _ _ _ _) _ h2 in
            inr (
              subst
                (λ (target' : Option String).
                  check_channel_room (list_notification_channels db user) (user_limits db user)
                    (or_else req.channel c.channel) (or_else target' c.target) id
                  ≡ ok tt)
                {x = t} (ok-injective last) room)
      ]

  -- What an accepted update has passed.
  update_channel-Passed :
      (id : String) (req : ChannelUpdate) {out : Db × NotificationChannelRow}
      → update_channel a db ws user id req ≡ ok out
      → (c : NotificationChannelRow) × (target : Option String) × (find_channel id user db.channels
          ≡ some c)
        × Roomy id c req target
        × (replace_channel id (updated_channel_row (record req { target = target }) c) db.channels
            ≡ out.0.channels)
  unfolding update_channel update_notification_channel get_notification_channel
  update_channel-Passed id req {out} h =
      let (own, h1) = >>-eq-ok (require_own_channels db ws user) _ h in
      let (some_field, h2) = past_guard _ (because 400 Problem.no_fields) _ h1 in
      let (c, found, h3) =
        >>=-eq-ok
          (or_refuse (λ e. because 404 Problem.not_found) (get_notification_channel db id user)) _
          h2 in
      let here = or_refuse-eq-ok (λ e. because 404 Problem.not_found) _ found in
      let (allowed, h4) = past_guard _ (because 402 Problem.channel_not_in_plan) _ h3 in
      let (target, settled, h5) = >>=-eq-ok (settle_target a db ws user id c req) _ h4 in
      let stored = or_refuse-eq-ok (store_refusal Problem.update_failed) _ h5 in
      let (c', found', h6) = >>=-eq-ok (get_notification_channel db id user) _ stored in
      let (free, last) = past_guard (key_taken _ db.channels) conflict _ h6 in
      let same : c' ≡ c = ok-injective (sym found' ∙ here) in
      (
        c,
        target,
        or_not_found-eq here,
        settle_target-Roomy id c req settled,
        subst
            (λ old.
              replace_channel id (updated_channel_row (record req { target = target }) old)
                db.channels
              ≡ out.0.channels)
            same (ap (λ (o : Db × NotificationChannelRow). o.0.channels) (ok-injective last)),
      )

  -- The owner of the row that is edited.
  find_channel-owner :
      (id : String) (rows : List NotificationChannelRow) {c : NotificationChannelRow}
      → find_channel id user rows ≡ some c
      → c.user_id ≡ user
  unfolding find_channel
  find_channel-owner id [] h = cc
  find_channel-owner id (d ∷ rows) {c = c} h = elim (Bool-cases (d.id =? id && d.user_id =? user)) [
    | inl e ↦ ground (arith, e, eq_iff d.user_id user, eq_iff d.id id)
    | inr e ↦ find_channel-owner id rows (rw e at h)
  ]

  edited_tally :
      (id : String) (c : NotificationChannelRow) (req : ChannelUpdate) (target : Option String)
      → Distinct (ids db.channels)
      → find_channel id user db.channels ≡ some c
      → Roomy id c req target
      → (ch : AlertChannel)
      → let rows =
          replace_channel id (updated_channel_row (record req { target = target }) c) db.channels in
        (tally user ch rows ≤ tally user ch db.channels)
        ⊎ Fits (max_channels_for (user_limits db user) ch) (tally user ch rows)
  unfolding check_channel_room list_notification_channels max_channels_for
  edited_tally id c req target distinct found roomy ch =
      let row = updated_channel_row (record req { target = target }) c in
      let moved = tally-replace user ch id row db.channels distinct in
      let was = found-tally user ch id db.channels found in
      let fewer = rivals-le-tally user ch id db.channels in
      elim (Bool-cases (same_channel row.channel ch)) [
        | inr e ↦ inl (ground (arith, moved, e, fewer))
        | inl e ↦ elim roomy [
          | inl kept ↦ inl (ground (arith, moved, e, was, kept))
          | inr room ↦
              let same : row.channel ≡ ch = same_channel-eq row.channel ch e in
              inr (
                room_under-Fits (max_channels_for (user_limits db user) ch)
                  (rivals (list_notification_channels db user) ch id) (or_else target c.target) _
                  (subst
                    (λ k.
                      room_under (max_channels_for (user_limits db user) k)
                        (rivals (list_notification_channels db user) k id) (or_else target c.target)
                      ≡ ok tt)
                    same room)
                  (ground (arith, moved, e)))
        ]
      ]

  pub update_channel-Fits :
      (id : String) (req : ChannelUpdate) {out : Db × NotificationChannelRow}
      → Distinct (ids db.channels)
      → update_channel a db ws user id req ≡ ok out
      → NoRoomOverrun db user out.0
  update_channel-Fits id req {out} distinct h ch =
      let (c, target, found, roomy, rows) = update_channel-Passed id req h in
      subst
        (λ rows.
          (tally user ch rows ≤ tally user ch db.channels)
          ⊎ Fits (max_channels_for (user_limits db user) ch) (tally user ch rows))
        rows (edited_tally id c req target distinct found roomy ch)
