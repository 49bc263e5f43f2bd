-- ===== src/Handlers/MonitorChannels/Overrides.antt =====
-- What a monitor's channel list shows after its settings change
-- (internal/api/handlers/notification_channels.go).
use text.Mathlib.TextEquality.{eq_iff}
use upguardly_server.Base.{
  ◌≡◌, refl, ap, ap₂, subst, ◌∙◌, Bool, true, not, ◌&&◌, List, [], ◌∷◌, ◌++◌, Option, none, some,
  String, ok, >>=-eq-ok, >>-eq-ok, ok-injective, is_some, or_else, if◌then◌else◌, ◌=?◌, =?_refl,
  string_eq, filter, map, arith,
}
use upguardly_server.Database.{Db, MonitorRow, NotificationChannelRow, MonitorChannelSetting}
use upguardly_server.Database.Monitors.{find_accessible, may_access, get_monitor}
use upguardly_server.Database.Channels.{
  is_setting, has_setting, set_enabled, upsert_setting, list_monitor_channel_settings,
  list_notification_channels, upsert_monitor_channel_setting, delete_monitor_channel_setting,
  get_notification_channel,
}
use upguardly_server.Handlers.{Problem, because}
use upguardly_server.Handlers.Bun.{bun_store}
use upguardly_server.Handlers.Settings.{or_refuse}
use upguardly_server.Handlers.UpdateMonitor.{require_monitor_write}
use upguardly_server.Handlers.MonitorChannels.{
  MonitorChannelState, override, channel_state, monitor_channel_owner, list_monitor_channels,
  set_monitor_channel, delete_monitor_channel, change_setting,
}

abbrev settings_of : String → List MonitorChannelSetting → List MonitorChannelSetting
settings_of monitor ss = filter (λ s. s.monitor_id =? monitor) ss

module _ (new : MonitorChannelSetting) (monitor id : String) where
  override-set_enabled :
      (ss : List MonitorChannelSetting)
      → override (settings_of monitor (set_enabled new ss)) id ≡ (
          if new.monitor_id =? monitor && new.notification_channel_id =? id
          then elim (override (settings_of monitor ss) id) [
            | none ↦ none
            | some b ↦ some new.enabled
          ]
          else override (settings_of monitor ss) id)
  unfolding override
  override-set_enabled [] = ground arith
  override-set_enabled (s ∷ ss) = ground (
    arith,
    override-set_enabled ss,
    eq_iff s.monitor_id monitor,
    eq_iff s.monitor_id new.monitor_id,
    eq_iff new.monitor_id monitor,
    eq_iff s.notification_channel_id id,
    eq_iff s.notification_channel_id new.notification_channel_id,
    eq_iff new.notification_channel_id id,
  )

  override-snoc :
      (ss : List MonitorChannelSetting)
      → override (settings_of monitor (ss ++ new ∷ [])) id ≡ (
          if new.monitor_id =? monitor && new.notification_channel_id =? id
          then some new.enabled
          else override (settings_of monitor ss) id)
  unfolding override
  override-snoc [] = ground arith
  override-snoc (s ∷ ss) = ground (arith, override-snoc ss)

  override-drop :
      (ss : List MonitorChannelSetting)
      → override
          (settings_of monitor
            (filter (λ s. not (is_setting new.monitor_id new.notification_channel_id s)) ss))
          id
        ≡ (if new.monitor_id =? monitor && new.notification_channel_id =? id
            then none
            else override (settings_of monitor ss) id)
  unfolding override
  override-drop [] = ground arith
  override-drop (s ∷ ss) = ground (
    arith,
    override-drop ss,
    eq_iff s.monitor_id monitor,
    eq_iff s.monitor_id new.monitor_id,
    eq_iff new.monitor_id monitor,
    eq_iff s.notification_channel_id id,
    eq_iff s.notification_channel_id new.notification_channel_id,
    eq_iff new.notification_channel_id id,
  )

has_setting-override :
    (new : MonitorChannelSetting) (ss : List MonitorChannelSetting)
    → has_setting new ss
      ≡ is_some (override (settings_of new.monitor_id ss) new.notification_channel_id)
unfolding override
has_setting-override new [] = refl
has_setting-override new (s ∷ ss) = ground (arith, has_setting-override new ss)

override-upsert :
    (new : MonitorChannelSetting) (monitor id : String) (ss : List MonitorChannelSetting)
    → override (settings_of monitor (upsert_setting new ss)) id ≡ (
        if new.monitor_id =? monitor && new.notification_channel_id =? id
        then some new.enabled
        else override (settings_of monitor ss) id)
override-upsert new monitor id ss = ground (
  arith,
  override-set_enabled new monitor id ss,
  override-snoc new monitor id ss,
  has_setting-override new ss,
  eq_iff new.monitor_id monitor,
  eq_iff new.notification_channel_id id,
)

module _ (db : Db) (ss : List MonitorChannelSetting) where
  abbrev with_settings : Db
  with_settings = record db { channel_settings = ss }

  find_accessible_frame :
      (id user : String) (ms : List MonitorRow)
      → find_accessible with_settings id user ms ≡ find_accessible db id user ms
  unfolding find_accessible may_access
  find_accessible_frame id user [] = refl
  find_accessible_frame id user (m ∷ ms) = rw (find_accessible_frame id user ms)

  monitor_channel_owner_frame :
      (monitor user : String)
      → monitor_channel_owner with_settings monitor user ≡ monitor_channel_owner db monitor user
  unfolding monitor_channel_owner get_monitor
  monitor_channel_owner_frame monitor user = rw (find_accessible_frame monitor user db.monitors)

-- The list's entry of one channel, with the monitor's own setting as given.
abbrev pub with_own : String → Option Bool → MonitorChannelState → MonitorChannelState
with_own channel own s =
    if s.channel.id =? channel
    then record {
      channel = s.channel;
      overridden = is_some own;
      effective_enabled = or_else own s.channel.enabled;
    }
    else s

-- Settings that differ by one channel's entry show lists that differ by it.
states_moved :
    (old new : List MonitorChannelSetting) (channel : String) (own : Option Bool)
    → ((id : String) → override new id ≡ (if channel =? id then own else override old id))
    → (chs : List NotificationChannelRow)
    → map (channel_state new) chs ≡ map (with_own channel own) (map (channel_state old) chs)
unfolding channel_state
states_moved old new channel own moved [] = refl
states_moved old new channel own moved (ch ∷ chs) =
    ap₂ (λ x xs. x ∷ xs) (ground (arith, moved ch.id, eq_iff channel ch.id, eq_iff ch.id channel))
      (states_moved old new channel own moved chs)

module _ (db : Db) (monitor user channel : String) where
  listed :
      (ss : List MonitorChannelSetting) (own : Option Bool) {before : List MonitorChannelState}
      → ((id : String)
          → override (settings_of monitor ss) id ≡ (
              if channel =? id then own else override (settings_of monitor db.channel_settings) id))
      → list_monitor_channels db monitor user ≡ ok before
      → list_monitor_channels (with_settings db ss) monitor user
        ≡ ok (map (with_own channel own) before)
  unfolding list_monitor_channels list_monitor_channel_settings list_notification_channels
  listed ss own {before} moved h =
      let (found, e, last) = >>=-eq-ok (monitor_channel_owner db monitor user) _ h in
      rw (monitor_channel_owner_frame db ss monitor user ∙ e) (
        ap ok (
          states_moved (settings_of monitor db.channel_settings) (settings_of monitor ss) channel
            own moved (filter (λ c. c.user_id =? found.1) db.channels)
          ∙ ap (map (with_own channel own)) (ok-injective last)))

  upsert_shown :
      (enabled : Bool) (id : String)
      → let new : MonitorChannelSetting = record {
        monitor_id = monitor;
        notification_channel_id = channel;
        enabled = enabled;
      } in
        override (settings_of monitor (upsert_setting new db.channel_settings)) id ≡ (
          if channel =? id
          then some enabled
          else override (settings_of monitor db.channel_settings) id)
  upsert_shown enabled id =
      override-upsert _ monitor id db.channel_settings ∙ (rw (=?_refl monitor))

  drop_shown :
      (id : String)
      → override
          (settings_of monitor
            (filter (λ s. not (is_setting monitor channel s)) db.channel_settings))
          id
        ≡ (if channel =? id then none else override (settings_of monitor db.channel_settings) id)
  drop_shown id =
      override-drop
        (record { monitor_id = monitor; notification_channel_id = channel; enabled = true }) monitor
        id db.channel_settings
      ∙ (rw (=?_refl monitor))

  -- After a monitor's setting for a channel is set or removed, the monitor's list shows that channel
  -- with the setting, or with its own flag and no override, and every other channel as before.
  pub change_setting-list :
      (own : Option Bool) {before : List MonitorChannelState} {db' : Db}
      → list_monitor_channels db monitor user ≡ ok before
      → change_setting db monitor user channel own ≡ ok db'
      → list_monitor_channels db' monitor user ≡ ok (map (with_own channel own) before)
  unfolding change_setting set_monitor_channel delete_monitor_channel upsert_monitor_channel_setting
      delete_monitor_channel_setting
  change_setting-list (some enabled) {before} {db'} shown h =
      let (out, accepted, last) =
        >>=-eq-ok (set_monitor_channel db monitor user channel enabled) _ h in
      let (found, e, h1) = >>=-eq-ok (monitor_channel_owner db monitor user) _ accepted in
      let (writes, h2) = >>-eq-ok (require_monitor_write (bun_store "" 0) db user found.0) _ h1 in
      let (c, there, stored) =
        >>=-eq-ok
          (or_refuse (λ e. because 404 Problem.not_found)
            (get_notification_channel db channel found.1))
          _ h2 in
      subst
        (λ (d : Db).
          list_monitor_channels d monitor user ≡ ok (map (with_own channel (some enabled)) before))
        (ap (λ (o : Db × MonitorChannelSetting). o.0) (ok-injective stored) ∙ ok-injective last)
        (listed _ (some enabled) (upsert_shown enabled) shown)
  change_setting-list none {before} {db'} shown h =
      let (found, e, h1) = >>=-eq-ok (monitor_channel_owner db monitor user) _ h in
      let (writes, last) = >>-eq-ok (require_monitor_write (bun_store "" 0) db user found.0) _ h1 in
      subst
        (λ (d : Db). list_monitor_channels d monitor user ≡ ok (map (with_own channel none) before))
        (ok-injective last) (listed _ none drop_shown shown)
