-- ===== src/Handlers/Channels/Change.antt =====
-- The handlers that change a user's alert channels (internal/api/handlers/notification_channels.go).

use upguardly_server.Base.{
  ◌≤◌, ◌≡◌, subst, false, not, List, [], ◌∷◌, String, ok, >>=-eq-ok, >>-eq-ok, ok-injective, ◌=?◌,
  string_eq, filter, contains, Distinct, arith, inl,
}
use upguardly_server.Models.Plan.{AlertChannel}
use upguardly_server.Database.{Db, NotificationChannelRow}
use upguardly_server.Database.Channels.{delete_notification_channel, get_notification_channel}
use upguardly_server.Handlers.{Workspace}
use upguardly_server.Handlers.CreateMonitor.Granted.{or_refuse-eq-ok}
use upguardly_server.Handlers.Channels.{
  Accounts, ChannelChange, add, edit, drop, change, create_channel, update_channel, delete_channel,
  require_own_channels, delete_refusal,
}
use upguardly_server.Handlers.Channels.Room.{tally, ids}
use upguardly_server.Handlers.Channels.Added.{NoRoomOverrun, create_channel-Fits}
use upguardly_server.Handlers.Channels.Edited.{update_channel-Fits}

module _ (a : Accounts) (db : Db) (ws : Workspace) (user : String) where
  tally-drop :
      (id : String) (ch : AlertChannel) (rows : List NotificationChannelRow)
      → tally user ch (filter (λ c. not (c.id =? id)) rows) ≤ tally user ch rows
  tally-drop id ch [] = omega arith
  tally-drop id ch (c ∷ rows) = ground (arith, tally-drop id ch rows)

  delete_channel-Fits :
      (id : String) {db' : Db} → delete_channel a db ws user id ≡ ok db' → NoRoomOverrun db user db'
  unfolding delete_channel delete_notification_channel
  delete_channel-Fits id {db'} h ch =
      let (own, h1) = >>-eq-ok (require_own_channels db ws user) _ h in
      let stored = or_refuse-eq-ok delete_refusal _ h1 in
      let (c, found, last) = >>=-eq-ok (get_notification_channel db id user) _ stored in
      inl (
        subst (λ (o : Db). tally user ch o.channels ≤ tally user ch db.channels) (ok-injective last)
          (tally-drop id ch db.channels))

  -- No accepted change of the channels takes a type of channel of the user over its cap: a type that
  -- grew is in the plan and within it. A type that was over the cap before, as after a downgrade,
  -- does not grow.
  pub change-NoRoomOverrun :
      (r : ChannelChange) {db' : Db}
      → contains (ids db.channels) "" ≡ false
      → Distinct (ids db.channels)
      → change a db ws user r ≡ ok db'
      → NoRoomOverrun db user db'
  unfolding change
  change-NoRoomOverrun (add id req) {db'} named distinct h =
      let (out, accepted, last) = >>=-eq-ok (create_channel a db ws user id req) _ h in
      subst (NoRoomOverrun db user) (ok-injective last)
        (create_channel-Fits a db ws user id req named accepted)
  change-NoRoomOverrun (edit id req) {db'} named distinct h =
      let (out, accepted, last) = >>=-eq-ok (update_channel a db ws user id req) _ h in
      subst (NoRoomOverrun db user) (ok-injective last)
        (update_channel-Fits a db ws user id req distinct accepted)
  change-NoRoomOverrun (drop id) named distinct h = delete_channel-Fits id h
