-- ===== src/Handlers/UpdateMonitor.antt =====
-- internal/api/handlers/monitors.go, UpdateMonitor: the checks in their order, and
-- the request that reaches the store with its regions normalized.
pub mod Complies
use upguardly_server.Base.{
  Bool, true, false, not, ◌&&◌, ◌||◌, List, Option, none, some, String, ℤ, pos, ltz, lez, eqz,
  Result, ok, err, ◌>>=◌, ◌>>◌, refuse, is_some, or_else, if◌then◌else◌, ◌=?◌, string_eq,
}
use upguardly_server.Models.Plan.{Plan, PlanLimits, limits_for_plan}
use upguardly_server.Models.Role.{OrgRole, member, role_at_least}
use upguardly_server.Models.Monitor.{MonitorType, UpdateMonitorRequest}
use upguardly_server.Models.Monitor.Validate.{validate_update}
use upguardly_server.Database.{MonitorRow, StoreError, not_found}
use upguardly_server.Database.Monitors.{has_updates}
use upguardly_server.Handlers.{Store, Problem, Refusal, Deployment, because}
use upguardly_server.Handlers.Limits.{plan_for_org, plan_for_user}
use upguardly_server.Handlers.Regions.{validate_regions}
use upguardly_server.Handlers.Settings.{or_refuse, region_refusal, is_http}

-- An interval of 0 reverts to the plan's; the timeout stays under the interval that results.
unfoldable pub update_interval : PlanLimits → ℤ → Option ℤ → Result Refusal (Unit {0})
update_interval limits timeout none = ok tt
update_interval limits timeout (some v) =
    if eqz v (pos 0)
    then refuse (lez limits.min_interval timeout) (because 400 Problem.timeout_not_below)
    else (do
      refuse (ltz v limits.min_interval) (because 402 Problem.interval_needs_plan)
      refuse (lez v timeout) (because 400 Problem.timeout_not_below))

abbrev pub update_regions :
    List String → PlanLimits → Option (List String) → Result Refusal (Option (List String))
update_regions available limits none = ok none
update_regions available limits (some regions) = do
  normalized ← or_refuse region_refusal (validate_regions available regions limits)
  ok (some normalized)

unfoldable pub update_threshold : PlanLimits → Option ℤ → Result Refusal (Unit {0})
update_threshold limits v =
    refuse
      ((is_some v && not (eqz (or_else v (pos 0)) (pos 0))) && not limits.custom_degraded_threshold)
      (because 402 Problem.threshold_needs_plan)

unfoldable pub update_repeats : PlanLimits → Option ℤ → Option ℤ → Result Refusal (Unit {0})
update_repeats limits interval count =
    let iv = or_else interval (pos 0) in
    let cv = or_else count (pos 0) in
    if is_some interval || is_some count
    then (if not (eqz iv (pos 0)) && not (eqz cv (pos 0))
        then (do
          refuse (eqz limits.max_alert_repeats (pos 0)) (because 402 Problem.repeats_need_plan)
          refuse (ltz limits.max_alert_repeats cv) (because 400 Problem.repeats_capped))
        else refuse (not (eqz iv (pos 0)) || not (eqz cv (pos 0)))
            (because 400 Problem.repeats_together))
    else ok tt

unfoldable pub update_expiry :
    PlanLimits → MonitorType → Option Bool → Option Bool → Result Refusal (Unit {0})
update_expiry limits type cert domain =
    let wants_cert = or_else cert false in
    let wants_domain = or_else domain false in
    if is_some cert || is_some domain
    then (do
      refuse ((wants_cert || wants_domain) && not (is_http type))
          (because 400 Problem.expiry_http_only)
      refuse
          ((wants_cert && not limits.ssl_monitoring)
            || (wants_domain && not limits.domain_monitoring))
          (because 402 Problem.expiry_needs_plan))
    else ok tt

-- The fields that need the plan of the monitor's owning scope.
abbrev pub plan_gated : UpdateMonitorRequest → Bool
plan_gated r =
    is_some r.interval
    || is_some r.regions
    || is_some r.degraded_threshold_ms
    || is_some r.repeat_alert_interval_secs
    || is_some r.repeat_alert_max_count
    || is_some r.cert_check_enabled
    || is_some r.domain_check_enabled

unfoldable pub update_settings :
    List String
    → PlanLimits
    → MonitorRow
    → UpdateMonitorRequest
    → Result Refusal UpdateMonitorRequest
update_settings available limits m r = do
  update_interval limits (or_else r.timeout m.timeout) r.interval
  regions ← update_regions available limits r.regions
  update_threshold limits r.degraded_threshold_ms
  update_repeats limits r.repeat_alert_interval_secs r.repeat_alert_max_count
  update_expiry limits (or_else r.type m.type) r.cert_check_enabled r.domain_check_enabled
  ok (record r { regions = regions })

-- `existing.OrgID != nil && *existing.OrgID != ""`
abbrev pub in_org : Option String → Bool
in_org none = false
in_org (some org) = not (org =? "")

abbrev pub found_or_404 : Result StoreError (Option MonitorRow) → Result Refusal MonitorRow
found_or_404 (ok (some m)) = ok m
found_or_404 _ = err (because 404 Problem.not_found)

abbrev may_write : Result StoreError (Option OrgRole) → Bool
may_write (ok (some role)) = role_at_least role member
may_write _ = false

module _ (store : Store) (st : store.State) (user : String) where
  -- `requireMonitorWrite`
  unfoldable pub require_monitor_write : MonitorRow → Result Refusal (Unit {0})
  require_monitor_write m =
      refuse
        (in_org m.org_id && not (may_write (store.get_membership st (or_else m.org_id "") user)))
        (because 403 Problem.role_forbidden)

  -- The plan of the monitor's owning scope.
  unfoldable pub scope_plan : MonitorRow → Plan
  scope_plan m =
      if in_org m.org_id
      then plan_for_org store st (or_else m.org_id "")
      else plan_for_user store st user

module _ (store : Store) (deployed : Deployment) (st : store.State) (user id : String) where
  abbrev pub settle : MonitorRow → UpdateMonitorRequest → Result Refusal UpdateMonitorRequest
  settle m req =
      if plan_gated req
      then update_settings deployed.available_regions (limits_for_plan (scope_plan store st user m))
          m req
      else ok req

  -- Everything before the write: the monitor as it is, and the request for the store.
  unfoldable pub prepare_update :
      UpdateMonitorRequest → Result Refusal (MonitorRow × UpdateMonitorRequest)
  prepare_update req = do
    refuse (not (has_updates req)) (because 400 Problem.no_fields)
    or_refuse (λ e. because 400 (Problem.invalid e)) (validate_update req)
    m ← found_or_404 (store.get_monitor st id user)
    require_monitor_write store st user m
    settled ← settle m req
    refuse
        ((is_some req.target || is_some req.type)
          && not (deployed.target_allowed (or_else req.target m.target) (or_else req.type m.type)))
        (because 400 Problem.bad_target)
    ok (m, settled)

  abbrev update_refusal : StoreError → Refusal
  update_refusal not_found = because 404 Problem.not_found
  update_refusal _ = because 500 Problem.update_failed

  abbrev store_update : UpdateMonitorRequest → store.State × Result Refusal MonitorRow
  store_update req = elim (store.update_monitor st id user req) [
    | ok (st', m) ↦ (st', ok m)
    | err e ↦ (st, err (update_refusal e))
  ]

  -- `UpdateMonitor`, for an authenticated user.
  unfoldable pub update_monitor : UpdateMonitorRequest → store.State × Result Refusal MonitorRow
  update_monitor req = elim (prepare_update req) [
    | ok (m, settled) ↦ store_update settled
    | err e ↦ (st, err e)
  ]
