-- ===== src/Database/Channels.antt =====
-- internal/database/bun/store.go: a user's alert channels, and a monitor's own settings for them. The
-- unique index is the one on (user_id, channel, target); a setting goes with its channel.
use upguardly_server.Base.{
  Bool, false, not, ◌&&◌, ◌||◌, List, [], ◌∷◌, ◌++◌, Option, none, some, String, Result, ok, ◌>>=◌,
  ◌>>◌, refuse, or_else, if◌then◌else◌, ◌=?◌, string_eq, filter,
}
use upguardly_server.Models.Plan.{AlertChannel, same_channel}
use upguardly_server.Database.{
  NotificationChannelRow, MonitorChannelSetting, Db, StoreError, conflict,
}
use upguardly_server.Database.Monitors.{or_not_found}

-- `UpdateNotificationChannelRequest`
pub record ChannelUpdate : Type 0 where
  pub channel : Option AlertChannel
  pub target : Option String
  pub enabled : Option Bool

unfoldable pub list_notification_channels : Db → String → List NotificationChannelRow
list_notification_channels db user = filter (λ c. c.user_id =? user) db.channels

unfoldable pub find_channel :
    String → String → List NotificationChannelRow → Option NotificationChannelRow
find_channel id user [] = none
find_channel id user (c ∷ cs) =
    if c.id =? id && c.user_id =? user then some c else find_channel id user cs

unfoldable pub get_notification_channel :
    Db → String → String → Result StoreError NotificationChannelRow
get_notification_channel db id user = or_not_found (find_channel id user db.channels)

-- Another row has the key of `c` in the unique index.
unfoldable pub key_taken : NotificationChannelRow → List NotificationChannelRow → Bool
key_taken c [] = false
key_taken c (d ∷ ds) =
    (not (d.id =? c.id)
      && (d.user_id =? c.user_id && (same_channel d.channel c.channel && d.target =? c.target)))
    || key_taken c ds

-- `CreateNotificationChannel`; the id is that of the new row.
unfoldable pub create_notification_channel :
    Db → NotificationChannelRow → Result StoreError (Db × NotificationChannelRow)
create_notification_channel db c = do
  refuse (key_taken c db.channels) conflict
  ok (record db { channels = db.channels ++ c ∷ [] }, c)

abbrev pub updated_channel_row : ChannelUpdate → NotificationChannelRow → NotificationChannelRow
updated_channel_row r c = record c {
  channel = or_else r.channel c.channel;
  target = or_else r.target c.target;
  enabled = or_else r.enabled c.enabled;
}

abbrev pub replace_channel :
    String → NotificationChannelRow → List NotificationChannelRow → List NotificationChannelRow
replace_channel id row [] = []
replace_channel id row (c ∷ cs) = (if c.id =? id then row else c) ∷ replace_channel id row cs

-- `UpdateNotificationChannel`; a request with no field writes the row back as it is.
unfoldable pub update_notification_channel :
    Db → String → String → ChannelUpdate → Result StoreError (Db × NotificationChannelRow)
unfolding get_notification_channel
update_notification_channel db id user r = do
  c ← get_notification_channel db id user
  let row = updated_channel_row r c
  refuse (key_taken row db.channels) conflict
  ok (record db { channels = replace_channel id row db.channels }, row)

-- `DeleteNotificationChannel`
unfoldable pub delete_notification_channel : Db → String → String → Result StoreError Db
unfolding get_notification_channel
delete_notification_channel db id user = do
  _ ← get_notification_channel db id user
  ok record db {
    channels = filter (λ c. not (c.id =? id)) db.channels;
    channel_settings = filter (λ s. not (s.notification_channel_id =? id)) db.channel_settings;
  }

unfoldable pub list_monitor_channel_settings : Db → String → List MonitorChannelSetting
list_monitor_channel_settings db monitor = filter (λ s. s.monitor_id =? monitor) db.channel_settings

abbrev pub is_setting : String → String → MonitorChannelSetting → Bool
is_setting monitor channel s = s.monitor_id =? monitor && s.notification_channel_id =? channel

abbrev pub has_setting : MonitorChannelSetting → List MonitorChannelSetting → Bool
has_setting new [] = false
has_setting new (s ∷ ss) =
    is_setting new.monitor_id new.notification_channel_id s || has_setting new ss

abbrev pub set_enabled :
    MonitorChannelSetting → List MonitorChannelSetting → List MonitorChannelSetting
set_enabled new [] = []
set_enabled new (s ∷ ss) =
    (if is_setting new.monitor_id new.notification_channel_id s
      then record s { enabled = new.enabled }
      else s)
    ∷ set_enabled new ss

-- The pair of ids is unique: a conflict updates the row that has it.
abbrev pub upsert_setting :
    MonitorChannelSetting → List MonitorChannelSetting → List MonitorChannelSetting
upsert_setting new ss = if has_setting new ss then set_enabled new ss else ss ++ new ∷ []

-- `UpsertMonitorChannelSetting`
unfoldable pub upsert_monitor_channel_setting : Db → MonitorChannelSetting → Db
upsert_monitor_channel_setting db new = record db {
  channel_settings = upsert_setting new db.channel_settings;
}

-- `DeleteMonitorChannelSetting`
unfoldable pub delete_monitor_channel_setting : Db → String → String → Db
delete_monitor_channel_setting db monitor channel = record db {
  channel_settings = filter (λ s. not (is_setting monitor channel s)) db.channel_settings;
}
