-- ===== src/Handlers/Channels.antt =====
-- internal/api/handlers/notification_channels.go: a user's alert channels, on the database tables.
-- In an organization's workspace they are the owner's, and only the owner changes them.
pub mod Room
pub mod Added
pub mod Edited
pub mod Change
use upguardly_server.Base.{
  ℕ, Bool, true, false, not, ◌&&◌, ◌||◌, List, [], ◌∷◌, Option, none, some, String, ℤ, pos, lez,
  eqz, Result, ok, err, ◌>>=◌, ◌>>◌, refuse, is_some, or_else, if◌then◌else◌, ◌=?◌, string_eq,
  length, filter, contains,
}
use upguardly_server.Models.Plan.{
  Plan, PlanLimits, AlertChannel, email, unlimited, limits_for_plan, channel_allowed,
  max_channels_for, same_channel,
}
use upguardly_server.Database.{
  Db, NotificationChannelRow, OrganizationRow, StoreError, conflict, not_found,
}
use upguardly_server.Database.Monitors.{find_organization}
use upguardly_server.Database.Channels.{
  ChannelUpdate, list_notification_channels, get_notification_channel, create_notification_channel,
  update_notification_channel, delete_notification_channel,
}
use upguardly_server.Handlers.{Refusal, Problem, because, Workspace}
use upguardly_server.Handlers.Limits.{plan_for_user}
use upguardly_server.Handlers.Bun.{bun_store}
use upguardly_server.Handlers.Settings.{or_refuse}
use upguardly_server.Handlers.Targets.{validate_alert_target}

-- What the handlers ask of others: the account's email (SuperTokens), and a webhook's URL.
pub record Accounts : Type 0 where
  pub email_of : String → Option String
  pub webhook_ok : String → Bool

-- `CreateNotificationChannelRequest`
pub record CreateChannelRequest : Type 0 where
  pub channel : AlertChannel
  pub target : String
  pub enabled : Option Bool

abbrev pub user_limits : Db → String → PlanLimits
user_limits db user = limits_for_plan (plan_for_user (bun_store "" 0) db user)

abbrev pub owner_or_404 : Option OrganizationRow → Result Refusal String
owner_or_404 none = err (because 404 Problem.not_found)
owner_or_404 (some o) = ok o.owner_id

unfoldable pub workspace_channel_owner : Db → Workspace → String → Result Refusal String
workspace_channel_owner db ws user =
    if ws.org_id =? "" then ok user else owner_or_404 (find_organization ws.org_id db.organizations)

unfoldable pub require_own_channels : Db → Workspace → String → Result Refusal (Unit {0})
unfolding workspace_channel_owner
require_own_channels db ws user = do
  owner ← workspace_channel_owner db ws user
  refuse (not (owner =? user)) (because 403 Problem.org_owner_only)

abbrev pub is_email : AlertChannel → Bool
is_email email = true
is_email _ = false

abbrev pub known_email : Option String → Result Refusal String
known_email none = err (because 500 Problem.email_unknown)
known_email (some address) = ok address

-- The integrations that the loop of `checkChannelRoom` counts.
abbrev pub rivals :
    List NotificationChannelRow → AlertChannel → String → List NotificationChannelRow
rivals existing channel skip =
    filter (λ c. not (c.id =? skip) && same_channel c.channel channel) existing

abbrev pub has_target : String → List NotificationChannelRow → Bool
has_target target [] = false
has_target target (c ∷ cs) = c.target =? target || has_target target cs

-- `channelCapStatus`
abbrev pub cap_status : ℤ → ℕ
cap_status max = if eqz max (pos 1) then 409 else 402

abbrev pub room_under : Option ℤ → List NotificationChannelRow → String → Result Refusal (Unit {0})
room_under none others target = err (because 402 Problem.channel_not_in_plan)
room_under (some max) others target = do
  refuse (has_target target others) (because 409 Problem.duplicate_channel)
  refuse (not (eqz max unlimited) && lez max (pos (length others)))
      (because (cap_status max) Problem.channel_capped)

unfoldable pub check_channel_room :
    List NotificationChannelRow
    → PlanLimits
    → AlertChannel
    → String
    → String
    → Result Refusal (Unit {0})
unfolding max_channels_for
check_channel_room existing limits channel target skip =
    room_under (max_channels_for limits channel) (rivals existing channel skip) target

abbrev pub store_refusal : Problem → StoreError → Refusal
store_refusal other conflict = because 409 Problem.duplicate_channel
store_refusal other _ = because 500 other

abbrev pub delete_refusal : StoreError → Refusal
delete_refusal not_found = because 404 Problem.not_found
delete_refusal _ = because 500 Problem.delete_failed

module _ (a : Accounts) (db : Db) (ws : Workspace) (user : String) where
  -- An email channel is pinned to the account's address.
  abbrev pub pinned_target : AlertChannel → String → Result Refusal String
  pinned_target channel target =
      if is_email channel then known_email (a.email_of user) else ok target

  -- `CreateNotificationChannel`; `id` is that of the new row.
  unfoldable pub create_channel :
      String → CreateChannelRequest → Result Refusal (Db × NotificationChannelRow)
  create_channel id req = do
    require_own_channels db ws user
    target ← pinned_target req.channel req.target
    refuse (not (validate_alert_target a.webhook_ok req.channel target))
        (because 400 Problem.bad_alert_target)
    refuse (not (channel_allowed (user_limits db user) req.channel))
        (because 402 Problem.channel_not_in_plan)
    check_channel_room (list_notification_channels db user) (user_limits db user) req.channel target
        ""
    or_refuse (store_refusal Problem.create_failed) (
        create_notification_channel db (record {
          id = id;
          user_id = user;
          channel = req.channel;
          target = target;
          enabled = or_else req.enabled true;
        }))

  abbrev pub switches : NotificationChannelRow → ChannelUpdate → Bool
  switches c req =
      is_some req.channel && not (same_channel (or_else req.channel c.channel) c.channel)

  abbrev pub pinned_update : AlertChannel → Option String → Result Refusal (Option String)
  pinned_update channel target =
      if is_email channel
      then (do address ← known_email (a.email_of user); ok (some address))
      else ok target

  -- The checks of a retargeted or retyped channel, and the target that it gets.
  unfoldable pub settle_target :
      String → NotificationChannelRow → ChannelUpdate → Result Refusal (Option String)
  settle_target id c req =
      if is_some req.target || is_some req.channel
      then (do
        target ← pinned_update (or_else req.channel c.channel) req.target
        refuse
            (not (
              validate_alert_target a.webhook_ok (or_else req.channel c.channel)
                (or_else target c.target)))
            (because 400 Problem.bad_alert_target)
        check_channel_room (list_notification_channels db user) (user_limits db user)
            (or_else req.channel c.channel) (or_else target c.target) id
        ok target)
      else ok req.target

  -- `UpdateNotificationChannel`
  unfoldable pub update_channel :
      String → ChannelUpdate → Result Refusal (Db × NotificationChannelRow)
  update_channel id req = do
    require_own_channels db ws user
    refuse (not (is_some req.channel || (is_some req.target || is_some req.enabled)))
        (because 400 Problem.no_fields)
    c ← or_refuse (λ e. because 404 Problem.not_found) (get_notification_channel db id user)
    refuse
        (switches c req
          && not (channel_allowed (user_limits db user) (or_else req.channel c.channel)))
        (because 402 Problem.channel_not_in_plan)
    target ← settle_target id c req
    or_refuse (store_refusal Problem.update_failed)
        (update_notification_channel db id user (record req { target = target }))

  -- `DeleteNotificationChannel`
  unfoldable pub delete_channel : String → Result Refusal Db
  delete_channel id = do
    require_own_channels db ws user
    or_refuse delete_refusal (delete_notification_channel db id user)

-- A request that changes the user's channels; a new channel comes with its id.
pub data ChannelChange : Type 0 where
  add : String → CreateChannelRequest → ChannelChange
  edit : String → ChannelUpdate → ChannelChange
  drop : String → ChannelChange

unfoldable pub change : Accounts → Db → Workspace → String → ChannelChange → Result Refusal Db
change a db ws user (add id req) = create_channel a db ws user id req >>= λ out. ok out.0
change a db ws user (edit id req) = update_channel a db ws user id req >>= λ out. ok out.0
change a db ws user (drop id) = delete_channel a db ws user id
