-- ===== src/Handlers.antt =====
-- internal/api/handlers: what the handlers share. `Store` is the part of the models.Store interface
-- that they call; a method that fails leaves the state as it was.
pub mod Limits
pub mod Bun
pub mod Regions
pub mod Settings
pub mod CreateMonitor
pub mod UpdateMonitor
pub mod Subscriptions
pub mod Members
pub mod Targets
pub mod Channels
pub mod MonitorChannels
pub mod Invitations
pub mod Organizations
pub mod Recipients
use upguardly_server.Base.{ℕ, Bool, List, Option, String, Result}
use upguardly_server.Models.Monitor.{CreateMonitorParams, MonitorType, UpdateMonitorRequest}
use upguardly_server.Models.Monitor.Validate.{Invalid}
use upguardly_server.Models.Role.{OrgRole}
use upguardly_server.Models.Region.{RegionError}
use upguardly_server.Database.{MonitorRow, OrganizationRow, SubscriptionRow, StoreError}

pub record Store : Type 1 where
  pub State : Type 0
  pub get_subscription_by_user : State → String → Result StoreError SubscriptionRow
  pub get_organization : State → String → Result StoreError (Option OrganizationRow)
  pub get_membership : State → String → String → Result StoreError (Option OrgRole)
  pub get_monitor : State → String → String → Result StoreError (Option MonitorRow)
  pub create_monitor : State → CreateMonitorParams → Result StoreError (State × MonitorRow)
  pub update_monitor :
      State → String → String → UpdateMonitorRequest → Result StoreError (State × MonitorRow)

-- internal/api/middleware/workspace.go: the resolved workspace of a request.
pub record Workspace : Type 0 where
  pub org_id : String
  pub role : OrgRole
  pub explicit : Bool

-- Why a handler refuses, one constructor for each message of the modelled handlers.
pub data Problem : Type 0 where
  unauthorized bad_target workspace_mismatch not_a_member role_forbidden : Problem
  quota_unknown threshold_needs_plan repeats_need_plan repeats_capped repeats_together : Problem
  timeout_not_below interval_needs_plan expiry_http_only expiry_needs_plan : Problem
  limit_reached create_failed update_failed not_found no_fields : Problem
  expiry_not_applied : Problem
  org_owner_only email_unknown bad_alert_target channel_not_in_plan : Problem
  duplicate_channel channel_capped delete_failed : Problem
  already_invited seats_full invitation_closed invitation_lapsed wrong_email : Problem
  already_in_organization accept_failed : Problem
  needs_enterprise name_taken recipients_full duplicate_recipient : Problem
  invalid : Invalid → Problem
  bad_region : RegionError → Problem
  -- A nil pointer is dereferenced: the handler panics.
  nil_dereference : Problem

-- The HTTP status, and the reason.
pub record Refusal : Type 0 where
  pub code : ℕ
  pub problem : Problem

abbrev pub because : ℕ → Problem → Refusal
because code problem = record { code = code; problem = problem }

-- The deployment: the regions with a scheduler pool, and the SSRF check of
-- internal/monitor/validate.go, which asks the DNS.
pub record Deployment : Type 0 where
  pub available_regions : List String
  pub target_allowed : String → MonitorType → Bool
