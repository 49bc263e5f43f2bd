-- ===== src/Handlers/MonitorChannels.antt =====
-- internal/api/handlers/notification_channels.go: a monitor's own settings for the alert channels of
-- its owner, on the database tables.
pub mod Overrides
use upguardly_server.Base.{
  Bool, true, false, List, [], ◌∷◌, Option, none, some, String, Result, ok, err, ◌>>=◌, ◌>>◌,
  is_some, or_else, if◌then◌else◌, ◌=?◌, string_eq, map,
}
use upguardly_server.Database.{
  Db, MonitorRow, NotificationChannelRow, MonitorChannelSetting, OrganizationRow,
}
use upguardly_server.Database.Monitors.{find_organization, get_monitor}
use upguardly_server.Database.Channels.{
  list_notification_channels, get_notification_channel, list_monitor_channel_settings,
  upsert_monitor_channel_setting, delete_monitor_channel_setting,
}
use upguardly_server.Handlers.{Refusal, Problem, because}
use upguardly_server.Handlers.Bun.{bun_store}
use upguardly_server.Handlers.Channels.{owner_or_404}
use upguardly_server.Handlers.Settings.{or_refuse}
use upguardly_server.Handlers.UpdateMonitor.{require_monitor_write}

-- `MonitorChannelState`
pub record MonitorChannelState : Type 0 where
  pub channel : NotificationChannelRow
  pub overridden : Bool
  pub effective_enabled : Bool

abbrev pub owner_of : Db → String → Option String → Result Refusal String
owner_of db user none = ok user
owner_of db user (some org) = owner_or_404 (find_organization org db.organizations)

unfoldable pub monitor_channel_owner : Db → String → String → Result Refusal (MonitorRow × String)
monitor_channel_owner db monitor user = do
  m ← or_refuse (λ e. because 404 Problem.not_found) (get_monitor db monitor user)
  owner ← owner_of db user m.org_id
  ok (m, owner)

-- The map `overrides` that the loop over the settings fills, at a channel: the last setting wins.
unfoldable pub override : List MonitorChannelSetting → String → Option Bool
override [] id = none
override (s ∷ ss) id =
    let here = if s.notification_channel_id =? id then some s.enabled else none in
    elim (override ss id) [ none ↦ here | some enabled ↦ some enabled ]

unfoldable pub channel_state :
    List MonitorChannelSetting → NotificationChannelRow → MonitorChannelState
channel_state settings ch =
    let own = override settings ch.id in
    record { channel = ch; overridden = is_some own; effective_enabled = or_else own ch.enabled }

-- `ListMonitorChannels`
unfoldable pub list_monitor_channels :
    Db → String → String → Result Refusal (List MonitorChannelState)
list_monitor_channels db monitor user = do
  found ← monitor_channel_owner db monitor user
  ok (
      map (channel_state (list_monitor_channel_settings db monitor))
        (list_notification_channels db found.1))

-- `SetMonitorChannel`
unfoldable pub set_monitor_channel :
    Db → String → String → String → Bool → Result Refusal (Db × MonitorChannelSetting)
set_monitor_channel db monitor user channel enabled = do
  found ← monitor_channel_owner db monitor user
  require_monitor_write (bun_store "" 0) db user found.0
  _ ← or_refuse (λ e. because 404 Problem.not_found) (get_notification_channel db channel found.1)
  let setting : MonitorChannelSetting = record {
    monitor_id = monitor;
    notification_channel_id = channel;
    enabled = enabled;
  }
  ok (upsert_monitor_channel_setting db setting, setting)

-- `DeleteMonitorChannel`
unfoldable pub delete_monitor_channel : Db → String → String → String → Result Refusal Db
delete_monitor_channel db monitor user channel = do
  found ← monitor_channel_owner db monitor user
  require_monitor_write (bun_store "" 0) db user found.0
  ok (delete_monitor_channel_setting db monitor channel)

-- The two routes on one setting: a value sets it, none removes it.
unfoldable pub change_setting : Db → String → String → String → Option Bool → Result Refusal Db
change_setting db monitor user channel (some enabled) =
    set_monitor_channel db monitor user channel enabled >>= λ out. ok out.0
change_setting db monitor user channel none = delete_monitor_channel db monitor user channel
