-- ===== src/Models/Monitor.antt =====
-- internal/models/monitor.go: monitor types, thresholds and the requests that configure a monitor.
-- A Go pointer is an `Option`; a JSON `int` may be negative, so it is a `ℤ`.
pub mod Validate
pub mod Bounds
use upguardly_server.Base.{Bool, true, List, Option, none, some, String, ℤ, pos, eqz, if◌then◌else◌}

-- `type MonitorType string`; `other` is any value outside the constants.
pub data MonitorType : Type 0 where
  http port ping : MonitorType
  other : String → MonitorType

abbrev pub monitor_name_max_len : ℤ
monitor_name_max_len = pos 255

abbrev pub monitor_target_max_len : ℤ
monitor_target_max_len = pos 2048

abbrev pub monitor_interval_min : ℤ
monitor_interval_min = pos 60

abbrev pub monitor_interval_max : ℤ
monitor_interval_max = pos 86400

abbrev pub monitor_timeout_min : ℤ
monitor_timeout_min = pos 5

abbrev pub monitor_timeout_max : ℤ
monitor_timeout_max = pos 300

abbrev pub degraded_threshold_min_ms : ℤ
degraded_threshold_min_ms = pos 100

abbrev pub degraded_threshold_max_ms : ℤ
degraded_threshold_max_ms = pos 60000

abbrev pub repeat_alert_interval_min_secs : ℤ
repeat_alert_interval_min_secs = pos 300

abbrev pub repeat_alert_interval_max_secs : ℤ
repeat_alert_interval_max_secs = pos 86400

-- internal/models/expiry.go
abbrev pub expiry_threshold_min_days : ℤ
expiry_threshold_min_days = pos 1

abbrev pub expiry_threshold_max_days : ℤ
expiry_threshold_max_days = pos 90

unfoldable pub default_degraded_threshold_ms : MonitorType → ℤ
default_degraded_threshold_ms port = pos 1000
default_degraded_threshold_ms ping = pos 500
default_degraded_threshold_ms _ = pos 2000

unfoldable pub effective_degraded_threshold : Option ℤ → MonitorType → ℤ
effective_degraded_threshold (some raw) t = raw
effective_degraded_threshold none t = default_degraded_threshold_ms t

pub record CreateMonitorRequest : Type 0 where
  pub org_id : String
  pub name : String
  pub type : MonitorType
  pub target : String
  pub interval : ℤ
  pub timeout : ℤ
  pub enabled : Option Bool
  pub degraded_threshold_ms : Option ℤ
  pub repeat_alert_interval_secs : Option ℤ
  pub repeat_alert_max_count : Option ℤ
  pub cert_check_enabled : Option Bool
  pub cert_expiry_threshold_days : Option ℤ
  pub domain_check_enabled : Option Bool
  pub domain_expiry_threshold_days : Option ℤ
  pub regions : List String

pub record CreateMonitorParams : Type 0 where
  pub user_id : String
  pub org_id : String
  pub billing_owner_id : String
  pub max_monitors : ℤ
  pub name : String
  pub type : MonitorType
  pub target : String
  pub interval : Option ℤ
  pub timeout : ℤ
  pub degraded_threshold_ms : Option ℤ
  pub repeat_alert_interval_secs : Option ℤ
  pub repeat_alert_max_count : Option ℤ
  pub enabled : Bool
  pub regions : List String

pub record UpdateMonitorRequest : Type 0 where
  pub name : Option String
  pub type : Option MonitorType
  pub target : Option String
  pub interval : Option ℤ
  pub timeout : Option ℤ
  pub enabled : Option Bool
  pub degraded_threshold_ms : Option ℤ
  pub repeat_alert_interval_secs : Option ℤ
  pub repeat_alert_max_count : Option ℤ
  pub cert_check_enabled : Option Bool
  pub cert_expiry_threshold_days : Option ℤ
  pub domain_check_enabled : Option Bool
  pub domain_expiry_threshold_days : Option ℤ
  pub regions : Option (List String)

abbrev default_true : Option Bool → Option Bool
default_true none = some true
default_true (some b) = some b

unfoldable pub set_defaults : CreateMonitorRequest → CreateMonitorRequest
set_defaults r = record r {
  timeout = if eqz r.timeout (pos 0) then pos 30 else r.timeout;
  enabled = default_true r.enabled;
}
