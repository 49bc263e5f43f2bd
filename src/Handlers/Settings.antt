-- ===== src/Handlers/Settings.antt =====
-- internal/api/handlers/monitors.go, CreateMonitor: the plan-gated checks on a new monitor's settings.
use upguardly_server.Base.{
  Bool, true, false, not, ◌&&◌, ◌||◌, List, [], ◌∷◌, Option, none, some, String, ℤ, pos, ltz, lez,
  eqz, Result, ok, err, ◌>>=◌, ◌>>◌, refuse, is_some, or_else, if◌then◌else◌,
}
use upguardly_server.Models.Plan.{PlanLimits}
use upguardly_server.Models.Region.{RegionError, plan_cap, default_region}
use upguardly_server.Models.Monitor.{MonitorType, http, CreateMonitorRequest, UpdateMonitorRequest}
use upguardly_server.Handlers.{Problem, Refusal, because}
use upguardly_server.Handlers.Regions.{validate_regions}

-- The error of a helper, answered with a status.
abbrev pub or_refuse {ℓ} : {E A : Type ℓ} → (E → Refusal) → Result E A → Result Refusal A
or_refuse f (ok a) = ok a
or_refuse f (err e) = err (f e)

-- `respondRegionError`
abbrev pub region_refusal : RegionError → Refusal
region_refusal (plan_cap max) = because 402 (Problem.bad_region (plan_cap max))
region_refusal e = because 400 (Problem.bad_region e)

-- No regions stand for the platform's default.
abbrev pub requested_regions : List String → List String
requested_regions [] = default_region ∷ []
requested_regions (r ∷ rs) = r ∷ rs

-- A custom slow-response threshold is plan-gated.
unfoldable pub threshold_arg : PlanLimits → Option ℤ → Result Refusal (Option ℤ)
threshold_arg limits none = ok none
threshold_arg limits (some v) = if eqz v (pos 0) then ok none else (do
  refuse (not limits.custom_degraded_threshold) (because 402 Problem.threshold_needs_plan)
  ok (some v))

-- `*req.RepeatAlertMaxCount`, and the plan's cap on it.
abbrev pub repeat_count : PlanLimits → ℤ → Option ℤ → Result Refusal (Option ℤ × Option ℤ)
repeat_count limits iv none = err (because 500 Problem.nil_dereference)
repeat_count limits iv (some cv) = do
  refuse (ltz limits.max_alert_repeats cv) (because 400 Problem.repeats_capped)
  ok (some iv, some cv)

unfoldable pub repeat_args : PlanLimits → Option ℤ → Option ℤ → Result Refusal (Option ℤ × Option ℤ)
repeat_args limits none count = ok (none, none)
repeat_args limits (some iv) count = if eqz iv (pos 0) then ok (none, none) else (do
  refuse (eqz limits.max_alert_repeats (pos 0)) (because 402 Problem.repeats_need_plan)
  repeat_count limits iv count)

-- 0 follows the plan, and stores NULL.
unfoldable pub interval_arg : PlanLimits → ℤ → ℤ → Result Refusal (Option ℤ)
interval_arg limits interval timeout =
    if eqz interval (pos 0)
    then (do
      refuse (lez limits.min_interval timeout) (because 400 Problem.timeout_not_below)
      ok none)
    else (if ltz interval limits.min_interval
        then err (because 402 Problem.interval_needs_plan)
        else ok (some interval))

abbrev pub is_http : MonitorType → Bool
is_http http = true
is_http _ = false

-- A request that sets nothing.
abbrev pub no_update : UpdateMonitorRequest
no_update = record {
  name = none;
  type = none;
  target = none;
  interval = none;
  timeout = none;
  enabled = none;
  degraded_threshold_ms = none;
  repeat_alert_interval_secs = none;
  repeat_alert_max_count = none;
  cert_check_enabled = none;
  cert_expiry_threshold_days = none;
  domain_check_enabled = none;
  domain_expiry_threshold_days = none;
  regions = none;
}

-- Expiry monitoring goes in by a follow-up UpdateMonitor.
unfoldable pub expiry_update :
    PlanLimits → CreateMonitorRequest → Result Refusal (Option UpdateMonitorRequest)
expiry_update limits r =
    if is_some r.cert_check_enabled || is_some r.domain_check_enabled
    then (do
      refuse (not (is_http r.type)) (because 400 Problem.expiry_http_only)
      refuse
          ((or_else r.cert_check_enabled false && not limits.ssl_monitoring)
            || (or_else r.domain_check_enabled false && not limits.domain_monitoring))
          (because 402 Problem.expiry_needs_plan)
      ok (
          some (record no_update {
            cert_check_enabled = r.cert_check_enabled;
            cert_expiry_threshold_days = r.cert_expiry_threshold_days;
            domain_check_enabled = r.domain_check_enabled;
            domain_expiry_threshold_days = r.domain_expiry_threshold_days;
          })))
    else ok none

-- What the plan-gated checks decide.
pub record Settings : Type 0 where
  pub regions : List String
  pub threshold : Option ℤ
  pub repeats : Option ℤ × Option ℤ
  pub interval : Option ℤ
  pub expiry : Option UpdateMonitorRequest

-- The checks from the regions to the expiry settings.
unfoldable pub settings : List String → PlanLimits → CreateMonitorRequest → Result Refusal Settings
settings available limits r = do
  regions ←
      or_refuse region_refusal (validate_regions available (requested_regions r.regions) limits)
  threshold ← threshold_arg limits r.degraded_threshold_ms
  repeats ← repeat_args limits r.repeat_alert_interval_secs r.repeat_alert_max_count
  interval ← interval_arg limits r.interval r.timeout
  expiry ← expiry_update limits r
  ok (record {
    regions = regions;
    threshold = threshold;
    repeats = repeats;
    interval = interval;
    expiry = expiry;
  })
