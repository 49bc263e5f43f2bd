-- ===== src/Database.antt =====
-- The tables behind internal/database/bun, as far as the modelled statements read or write them.
pub mod Monitors
pub mod Reconcile
pub mod Subscriptions
pub mod Members
pub mod Channels
pub mod Invitations
pub mod Organizations
pub mod Recipients
use upguardly_server.Base.{ℕ, Bool, List, [], ◌∷◌, Option, String, ℤ, if◌then◌else◌}
use upguardly_server.Models.Plan.{Plan, AlertChannel}
use upguardly_server.Models.Role.{OrgRole}
use upguardly_server.Models.Monitor.{MonitorType}

-- `time.Time` as a number of seconds.
pub record MonitorRow : Type 0 where
  pub id : String
  pub user_id : String
  pub org_id : Option String
  pub name : String
  pub type : MonitorType
  pub target : String
  pub interval : Option ℤ
  pub timeout : ℤ
  pub degraded_threshold_ms : Option ℤ
  pub repeat_alert_interval_secs : Option ℤ
  pub repeat_alert_max_count : Option ℤ
  pub enabled : Bool
  pub cert_check_enabled : Bool
  pub cert_expiry_threshold_days : ℤ
  pub domain_check_enabled : Bool
  pub domain_expiry_threshold_days : ℤ
  pub regions : List String
  pub updated_at : ℕ

pub record OrganizationRow : Type 0 where
  pub id : String
  pub name : String
  pub owner_id : String

pub record MemberRow : Type 0 where
  pub organization_id : String
  pub user_id : String
  pub role : OrgRole

-- The stored status; `other` is any value outside the four that the code writes.
pub data SubscriptionStatus : Type 0 where
  active trialing past_due canceled : SubscriptionStatus
  other : String → SubscriptionStatus

pub record SubscriptionRow : Type 0 where
  pub user_id : String
  pub plan : Plan
  pub status : SubscriptionStatus
  pub stripe_customer_id : Option String
  pub stripe_subscription_id : Option String
  pub stripe_price_id : Option String
  pub current_period_start : Option ℕ
  pub current_period_end : Option ℕ
  pub cancel_at_period_end : Bool

-- The invitation's status; the code writes these four.
pub data InvitationStatus : Type 0 where
  pending accepted revoked expired : InvitationStatus

pub record InvitationRow : Type 0 where
  pub id : String
  pub organization_id : String
  pub email : String
  pub role : OrgRole
  pub token : String
  pub status : InvitationStatus
  pub invited_by : String
  pub expires_at : ℕ

-- A user's alert channel; `ORDER BY created_at` is the order of the table.
pub record NotificationChannelRow : Type 0 where
  pub id : String
  pub user_id : String
  pub channel : AlertChannel
  pub target : String
  pub enabled : Bool

-- A monitor's own setting for one channel.
pub record MonitorChannelSetting : Type 0 where
  pub monitor_id : String
  pub notification_channel_id : String
  pub enabled : Bool

-- `OrgAlertRecipient`: a contact of an organization that is told of every alert.
pub record RecipientRow : Type 0 where
  pub id : String
  pub organization_id : String
  pub channel : AlertChannel
  pub target : String

pub record Db : Type 0 where
  pub monitors : List MonitorRow
  pub organizations : List OrganizationRow
  pub members : List MemberRow
  pub subscriptions : List SubscriptionRow
  pub invitations : List InvitationRow
  pub channels : List NotificationChannelRow
  pub channel_settings : List MonitorChannelSetting
  pub recipients : List RecipientRow
  -- `monitor_region_status`: the monitor and the region of each row.
  pub region_status : List (String × String)

-- `models.ErrNotFound` and its siblings, and any other failure of the database.
pub data StoreError : Type 0 where
  not_found conflict seat_limit monitor_limit db_failure : StoreError

-- `UPDATE monitors SET … WHERE …`
unfoldable pub update_where :
    (MonitorRow → Bool) → (MonitorRow → MonitorRow) → List MonitorRow → List MonitorRow
update_where p f [] = []
update_where p f (m ∷ ms) = (if p m then f m else m) ∷ update_where p f ms
