-- ===== src/Handlers/Channels/Added.antt =====
-- The alert channels that a user creates (internal/api/handlers/notification_channels.go).
use text.Mathlib.TextEquality.{eq_iff}
use upguardly_server.Base.{
  ℕ, ◌+◌, ◌≤◌, ◌≡◌, ◌⊎◌, refl, ap, subst, true, false, not, ◌&&◌, List, [], ◌∷◌, ◌++◌, Option, none,
  some, String, ℤ, pos, lez, eqz, ◌≤ℤ◌, ok, refuse, refuse-eq-ok, >>=-eq-ok, >>-eq-ok, past_guard,
  ok-injective, or_else, string_eq, length, contains, arith, inl, inr, Bool-cases, eq_of_parts,
}
use upguardly_server.Models.Plan.{
  AlertChannel, unlimited, max_channels_for, same_channel, same_channel-eq,
}
use upguardly_server.Database.{Db, NotificationChannelRow, conflict}
use upguardly_server.Database.Channels.{
  list_notification_channels, key_taken, create_notification_channel,
}
use upguardly_server.Handlers.{Problem, because, Workspace}
use upguardly_server.Handlers.CreateMonitor.Granted.{or_refuse-eq-ok}
use upguardly_server.Handlers.Channels.{
  Accounts, CreateChannelRequest, create_channel, rivals, room_under, check_channel_room,
  cap_status, has_target, user_limits, require_own_channels, pinned_target, store_refusal,
}
use upguardly_server.Handlers.Channels.Room.{tally, ids, rivals_absent, tally-snoc}

-- A number of channels that the plan has room for.
abbrev pub Fits : Option ℤ → ℕ → Type 0
Fits none n = ⊥
Fits (some max) n = (max ≡ unlimited) ⊎ (pos n ≤ℤ max)

-- A type of channel that grew is within its cap.
abbrev pub NoRoomOverrun : Db → String → Db → Type 0
NoRoomOverrun db user db' =
    (ch : AlertChannel)
    → (tally user ch db'.channels ≤ tally user ch db.channels)
      ⊎ Fits (max_channels_for (user_limits db user) ch) (tally user ch db'.channels)

pub room_under-Fits :
    (max : Option ℤ) (others : List NotificationChannelRow) (target : String) (n : ℕ) {u : Unit {0}}
    → room_under max others target ≡ ok u
    → n ≤ length others + 1
    → Fits max n
room_under-Fits none others target n h few = cc
room_under-Fits (some max) others target n h few =
    let (_, _, h1) =
      >>=-eq-ok (refuse (has_target target others) (because 409 Problem.duplicate_channel)) _ h in
    let room =
      refuse-eq-ok (not (eqz max unlimited) && lez max (pos (length others)))
        (because (cap_status max) Problem.channel_capped) h1 in
    elim (Bool-cases (eqz max unlimited)) [
      | inl e ↦ inl (eq_of_parts max unlimited (ground arith))
      | inr e ↦ inr (ground (arith, e, room))
    ]

module _ (a : Accounts) (db : Db) (ws : Workspace) (user : String) where
  abbrev new_channel : String → CreateChannelRequest → String → NotificationChannelRow
  new_channel id req target = record {
    id = id;
    user_id = user;
    channel = req.channel;
    target = target;
    enabled = or_else req.enabled true;
  }

  -- What an accepted creation has passed.
  create_channel-Passed :
      (id : String) (req : CreateChannelRequest) {out : Db × NotificationChannelRow}
      → create_channel a db ws user id req ≡ ok out
      → (target : String) × (check_channel_room
            (list_notification_channels db user)
            (user_limits db user)
            req.channel
            target
            ""
          ≡ ok tt)
        × (create_notification_channel db (new_channel id req target) ≡ ok out)
  unfolding create_channel
  create_channel-Passed id req h =
      let (own, h1) = >>-eq-ok (require_own_channels db ws user) _ h in
      let (target, pinned, h2) =
        >>=-eq-ok (pinned_target a db ws user req.channel req.target) _ h1 in
      let (good, h3) = past_guard _ (because 400 Problem.bad_alert_target) _ h2 in
      let (allowed, h4) = past_guard _ (because 402 Problem.channel_not_in_plan) _ h3 in
      let (room, h5) = >>-eq-ok (check_channel_room _ _ _ _ _) _ h4 in
      (target, room, or_refuse-eq-ok (store_refusal Problem.create_failed) _ h5)

  created_rows :
      (c : NotificationChannelRow) {out : Db × NotificationChannelRow}
      → create_notification_channel db c ≡ ok out
      → db.channels ++ c ∷ [] ≡ out.0.channels
  unfolding create_notification_channel
  created_rows c h =
      let (_, last) = past_guard (key_taken c db.channels) conflict _ h in
      ap (λ (o : Db × NotificationChannelRow). o.0.channels) (ok-injective last)

  added_tally :
      (c : NotificationChannelRow)
      → contains (ids db.channels) "" ≡ false
      → c.user_id ≡ user
      → check_channel_room
          (list_notification_channels db user)
          (user_limits db user)
          c.channel
          c.target
          ""
        ≡ ok tt
      → (ch : AlertChannel)
      → (tally user ch (db.channels ++ c ∷ []) ≤ tally user ch db.channels)
        ⊎ Fits (max_channels_for (user_limits db user) ch) (tally user ch (db.channels ++ c ∷ []))
  unfolding check_channel_room list_notification_channels max_channels_for
  added_tally c named mine room ch =
      let grown = tally-snoc user ch db.channels c in
      elim (Bool-cases (same_channel c.channel ch)) [
        | inr e ↦ inl (ground (arith, grown, e))
        | inl e ↦
            let same : c.channel ≡ ch = same_channel-eq c.channel ch e in
            inr (
              room_under-Fits (max_channels_for (user_limits db user) ch)
                (rivals (list_notification_channels db user) ch "") c.target _
                (subst
                  (λ k.
                    room_under (max_channels_for (user_limits db user) k)
                      (rivals (list_notification_channels db user) k "") c.target
                    ≡ ok tt)
                  same room)
                (ground (
                  arith,
                  grown,
                  e,
                  mine,
                  eq_iff c.user_id user,
                  rivals_absent user ch "" db.channels named,
                )))
      ]

  pub create_channel-Fits :
      (id : String) (req : CreateChannelRequest) {out : Db × NotificationChannelRow}
      → contains (ids db.channels) "" ≡ false
      → create_channel a db ws user id req ≡ ok out
      → NoRoomOverrun db user out.0
  create_channel-Fits id req {out} named h ch =
      let (target, room, stored) = create_channel-Passed id req h in
      let c = new_channel id req target in
      subst
        (λ rows.
          (tally user ch rows ≤ tally user ch db.channels)
          ⊎ Fits (max_channels_for (user_limits db user) ch) (tally user ch rows))
        (created_rows c stored) (added_tally c named refl room ch)
