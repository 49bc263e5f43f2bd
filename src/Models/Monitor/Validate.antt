-- ===== src/Models/Monitor/Validate.antt =====
-- internal/models/monitor.go: the checks on a request that need no plan and no database.
use Prim.Native.String.{len}
use mathlib.Core.Option
use upguardly_server.Base.{
  Bool, false, not, ◌&&◌, ◌||◌, List, [], ◌∷◌, Option, none, some, ℤ, pos, ltz, lez, eqz, Result,
  ok, ◌>>◌, refuse, if◌then◌else◌, or_else, is_some,
}
use upguardly_server.Models.Monitor.{
  CreateMonitorRequest, UpdateMonitorRequest, monitor_name_max_len, monitor_target_max_len,
  monitor_interval_min, monitor_interval_max, monitor_timeout_min, monitor_timeout_max,
  degraded_threshold_min_ms, degraded_threshold_max_ms, repeat_alert_interval_min_secs,
  repeat_alert_interval_max_secs, expiry_threshold_min_days, expiry_threshold_max_days,
}

-- One constructor for each message.
pub data Invalid : Type 0 where
  name_too_long target_too_long interval_range timeout_range timeout_not_below : Invalid
  degraded_range repeat_together repeat_interval_range repeat_count expiry_range : Invalid

abbrev pub Check : Type 0
Check = Result Invalid (Unit {0})

-- `v < lo || v > hi`
abbrev pub outside : ℤ → ℤ → ℤ → Bool
outside lo hi v = ltz v lo || ltz hi v

unfoldable pub validate_degraded_threshold : Option ℤ → Check
validate_degraded_threshold none = ok tt
validate_degraded_threshold (some v) =
    if eqz v (pos 0)
    then ok tt
    else refuse (outside degraded_threshold_min_ms degraded_threshold_max_ms v) degraded_range

unfoldable pub validate_repeat_alerts : Option ℤ → Option ℤ → Check
validate_repeat_alerts interval count =
    let iv = or_else interval (pos 0) in
    let cv = or_else count (pos 0) in
    if eqz iv (pos 0) && eqz cv (pos 0) then ok tt else (do
      refuse (eqz iv (pos 0) || eqz cv (pos 0)) repeat_together
      refuse (outside repeat_alert_interval_min_secs repeat_alert_interval_max_secs iv)
          repeat_interval_range
      refuse (ltz cv (pos 1)) repeat_count)

-- The loop over the two expiry thresholds.
unfoldable pub validate_expiry_thresholds : List (Option ℤ) → Check
validate_expiry_thresholds [] = ok tt
validate_expiry_thresholds (none ∷ ts) = validate_expiry_thresholds ts
validate_expiry_thresholds (some t ∷ ts) =
    refuse (outside expiry_threshold_min_days expiry_threshold_max_days t) expiry_range
    >> validate_expiry_thresholds ts

-- `func (r *CreateMonitorRequest) Validate`
unfoldable pub validate_create : CreateMonitorRequest → Check
validate_create r = do
  let given = not (eqz r.interval (pos 0))
  refuse (ltz monitor_name_max_len (pos (len r.name))) name_too_long
  refuse (ltz monitor_target_max_len (pos (len r.target))) target_too_long
  refuse (given && outside monitor_interval_min monitor_interval_max r.interval) interval_range
  refuse (outside monitor_timeout_min monitor_timeout_max r.timeout) timeout_range
  refuse (given && lez r.interval r.timeout) timeout_not_below
  validate_degraded_threshold r.degraded_threshold_ms
  validate_repeat_alerts r.repeat_alert_interval_secs r.repeat_alert_max_count
  validate_expiry_thresholds (r.cert_expiry_threshold_days ∷ r.domain_expiry_threshold_days ∷ [])

abbrev pub too_long : ℤ → Option ℤ → Bool
too_long max none = false
too_long max (some n) = ltz max n

-- A field that the request leaves out is not checked.
abbrev pub absent_or : (ℤ → Bool) → Option ℤ → Bool
absent_or bad none = false
absent_or bad (some v) = bad v

-- The repeat pair is checked when both sides are given and not 0.
unfoldable pub validate_repeat_update : Option ℤ → Option ℤ → Check
unfolding validate_repeat_alerts
validate_repeat_update interval count =
    let iv = or_else interval (pos 0) in
    let cv = or_else count (pos 0) in
    if (is_some interval || is_some count) && (not (eqz iv (pos 0)) && not (eqz cv (pos 0)))
    then validate_repeat_alerts (some iv) (some cv)
    else ok tt

-- `func (r *UpdateMonitorRequest) Validate`
unfoldable pub validate_update : UpdateMonitorRequest → Check
validate_update r = do
  refuse (too_long monitor_name_max_len (Option.map (λ s. pos (len s)) r.name)) name_too_long
  refuse (too_long monitor_target_max_len (Option.map (λ s. pos (len s)) r.target)) target_too_long
  refuse
      (absent_or (λ v. not (eqz v (pos 0)) && outside monitor_interval_min monitor_interval_max v)
        r.interval)
      interval_range
  refuse (absent_or (outside monitor_timeout_min monitor_timeout_max) r.timeout) timeout_range
  validate_degraded_threshold r.degraded_threshold_ms
  validate_expiry_thresholds (r.cert_expiry_threshold_days ∷ r.domain_expiry_threshold_days ∷ [])
  validate_repeat_update r.repeat_alert_interval_secs r.repeat_alert_max_count
