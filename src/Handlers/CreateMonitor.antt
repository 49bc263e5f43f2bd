-- ===== src/Handlers/CreateMonitor.antt =====
-- internal/api/handlers/monitors.go, CreateMonitor: the checks in their order, the parameters that
-- reach the store, and the follow-up write of the expiry settings.
pub mod Granted
use upguardly_server.Base.{
  ℕ, Bool, true, false, not, ◌&&◌, ◌||◌, List, [], ◌∷◌, Option, none, some, String, ℤ, pos, ltz,
  lez, eqz, Result, ok, err, ◌>>=◌, ◌>>◌, refuse, is_some, or_else, if◌then◌else◌, ◌=?◌, string_eq,
}
use upguardly_server.Models.Plan.{PlanLimits, limits_for_plan}
use upguardly_server.Models.Role.{OrgRole, member, role_at_least}
use upguardly_server.Models.Region.{RegionError, plan_cap, default_region}
use upguardly_server.Models.Monitor.{
  MonitorType, http, CreateMonitorRequest, CreateMonitorParams, UpdateMonitorRequest, set_defaults,
}
use upguardly_server.Models.Monitor.Validate.{Invalid, validate_create}
use upguardly_server.Database.{MonitorRow, StoreError, monitor_limit}
use upguardly_server.Handlers.{Store, Workspace, Problem, Refusal, Deployment, because}
use upguardly_server.Handlers.Limits.{billing_owner, plan_for_user}
use upguardly_server.Handlers.Settings.{Settings, settings, or_refuse}

abbrev pub role_of : Result StoreError (Option OrgRole) → Option OrgRole
role_of (ok r) = r
role_of (err e) = none

abbrev pub member_of_org : String → Option OrgRole → Result Refusal (String × OrgRole)
member_of_org org none = err (because 403 Problem.not_a_member)
member_of_org org (some role) = ok (org, role)

module _ (store : Store) (st : store.State) (user : String) (ws : Workspace) where
  -- The workspace: the header decides, without it the body's `orgId` does.
  unfoldable pub resolve_workspace : String → Result Refusal (String × OrgRole)
  resolve_workspace org =
      if ws.explicit
      then (do
        refuse (not (org =? "") && not (org =? ws.org_id)) (because 400 Problem.workspace_mismatch)
        ok (ws.org_id, ws.role))
      else (if org =? ""
          then ok (ws.org_id, ws.role)
          else member_of_org org (role_of (store.get_membership st org user)))

-- Org VIEWERs are read-only.
unfoldable pub require_role : String → OrgRole → Result Refusal (Unit {0})
require_role org role =
    refuse (not (org =? "") && not (role_at_least role member)) (because 403 Problem.role_forbidden)

-- `*req.Enabled`
abbrev pub enabled_arg : Option Bool → Result Refusal Bool
enabled_arg none = err (because 500 Problem.nil_dereference)
enabled_arg (some b) = ok b

-- What the handler hands to the store, and the follow-up write.
pub record Prepared : Type 0 where
  pub params : CreateMonitorParams
  pub expiry : Option UpdateMonitorRequest

module _ (store : Store) (deployed : Deployment) (st : store.State) where
  -- Everything before the first write. `r` has passed gin's binding.
  unfoldable pub prepare_create :
      String → Workspace → CreateMonitorRequest → Result Refusal Prepared
  prepare_create user ws req = do
    let r = set_defaults req
    or_refuse (λ e. because 400 (Problem.invalid e)) (validate_create r)
    refuse (not (deployed.target_allowed r.target r.type)) (because 400 Problem.bad_target)
    (org, role) ← resolve_workspace store st user ws r.org_id
    require_role org role
    owner ← or_refuse (λ e. because 500 Problem.quota_unknown) (billing_owner store st user org)
    let limits = limits_for_plan (plan_for_user store st owner)
    s ← settings deployed.available_regions limits r
    enabled ← enabled_arg r.enabled
    ok (record {
      params = record {
        user_id = user;
        org_id = org;
        billing_owner_id = owner;
        max_monitors = limits.max_monitors;
        name = r.name;
        type = r.type;
        target = r.target;
        interval = s.interval;
        timeout = r.timeout;
        degraded_threshold_ms = s.threshold;
        repeat_alert_interval_secs = s.repeats.0;
        repeat_alert_max_count = s.repeats.1;
        enabled = enabled;
        regions = s.regions;
      };
      expiry = s.expiry;
    })

  abbrev create_refusal : StoreError → Refusal
  create_refusal monitor_limit = because 402 Problem.limit_reached
  create_refusal _ = because 500 Problem.create_failed

  -- The follow-up: a failure is reported, and the monitor stays.
  unfoldable pub apply_expiry :
      String
      → Option UpdateMonitorRequest
      → store.State
      → MonitorRow
      → store.State × Result Refusal MonitorRow
  apply_expiry user none st' m = (st', ok m)
  apply_expiry user (some u) st' m = elim (store.update_monitor st' m.id user u) [
    | ok (st'', updated) ↦ (st'', ok updated)
    | err e ↦ (st', err (because 500 Problem.expiry_not_applied))
  ]

  abbrev store_create : String → Prepared → store.State × Result Refusal MonitorRow
  store_create user p = elim (store.create_monitor st p.params) [
    | ok (st', m) ↦ apply_expiry user p.expiry st' m
    | err e ↦ (st, err (create_refusal e))
  ]

  -- `CreateMonitor`
  unfoldable pub create_monitor :
      Option String → Workspace → CreateMonitorRequest → store.State × Result Refusal MonitorRow
  create_monitor none ws req = (st, err (because 401 Problem.unauthorized))
  create_monitor (some user) ws req = elim (prepare_create user ws req) [
    | ok p ↦ store_create user p
    | err e ↦ (st, err e)
  ]
