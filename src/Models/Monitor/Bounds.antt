-- ===== src/Models/Monitor/Bounds.antt =====
-- What the two Validate methods of internal/models/monitor.go accept, field by field.
use Prim.Native.String.{len}
use upguardly_server.Base.{
  ℕ, ◌≡◌, ◌↔◌, ◌⊎◌, ◌≤◌, Option, none, some, ℤ, pos, ◌≤ℤ◌, ◌<ℤ◌, ok, String, arith, or_else, [],
  ◌∷◌,
}
use upguardly_server.Models.Monitor.{CreateMonitorRequest, UpdateMonitorRequest}
use upguardly_server.Models.Monitor.Validate.{
  validate_degraded_threshold, validate_repeat_alerts, validate_expiry_thresholds, validate_create,
  validate_repeat_update, validate_update,
}

-- `none` and 0 follow the default of the monitor's type.
abbrev pub DegradedInRange : Option ℤ → Type 0
DegradedInRange none = Unit
DegradedInRange (some v) = (v ≡ pos 0) ⊎ ((pos 100 ≤ℤ v) × (v ≤ℤ pos 60000))

-- Off on both sides, or on with a spacing and a count in range.
abbrev pub RepeatInRange : Option ℤ → Option ℤ → Type 0
RepeatInRange interval count =
    let iv = or_else interval (pos 0) in
    let cv = or_else count (pos 0) in
    ((iv ≡ pos 0) × (cv ≡ pos 0)) ⊎ ((pos 300 ≤ℤ iv) × (iv ≤ℤ pos 86400) × (pos 1 ≤ℤ cv))

abbrev pub ExpiryInRange : Option ℤ → Type 0
ExpiryInRange none = Unit
ExpiryInRange (some t) = (pos 1 ≤ℤ t) × (t ≤ℤ pos 90)

-- 0 means that the plan's interval is followed.
abbrev pub IntervalInRange : ℤ → ℤ → Type 0
IntervalInRange interval timeout =
    (interval ≡ pos 0) ⊎ ((pos 60 ≤ℤ interval) × (interval ≤ℤ pos 86400) × (timeout <ℤ interval))

pub record InBounds (r : CreateMonitorRequest) : Type 0 where
  pub name : len r.name ≤ 255
  pub target : len r.target ≤ 2048
  pub interval : IntervalInRange r.interval r.timeout
  pub timeout : (pos 5 ≤ℤ r.timeout) × (r.timeout ≤ℤ pos 300)
  pub degraded : DegradedInRange r.degraded_threshold_ms
  pub repeats : RepeatInRange r.repeat_alert_interval_secs r.repeat_alert_max_count
  pub cert : ExpiryInRange r.cert_expiry_threshold_days
  pub domain : ExpiryInRange r.domain_expiry_threshold_days

validate_degraded_threshold_iff :
    (v : Option ℤ) → (validate_degraded_threshold v ≡ ok tt) ↔ DegradedInRange v
unfolding validate_degraded_threshold
validate_degraded_threshold_iff none = ground arith
validate_degraded_threshold_iff (some v) = ground arith

validate_repeat_alerts_iff :
    (i c : Option ℤ) → (validate_repeat_alerts i c ≡ ok tt) ↔ RepeatInRange i c
unfolding validate_repeat_alerts
validate_repeat_alerts_iff i c = ground arith

validate_expiry_thresholds_iff :
    (c d : Option ℤ)
    → (validate_expiry_thresholds (c ∷ d ∷ []) ≡ ok tt) ↔ (ExpiryInRange c × ExpiryInRange d)
unfolding validate_expiry_thresholds
validate_expiry_thresholds_iff none none = ground arith
validate_expiry_thresholds_iff none (some d) = ground arith
validate_expiry_thresholds_iff (some c) none = ground arith
validate_expiry_thresholds_iff (some c) (some d) = ground arith

-- A create request passes Validate exactly when every field is in its range; an interval of 0 and
-- a missing threshold or repeat pair stand for the default.
pub validate_create_iff : (r : CreateMonitorRequest) → (validate_create r ≡ ok tt) ↔ InBounds r
unfolding validate_create
validate_create_iff r = ground (
  arith,
  validate_degraded_threshold_iff r.degraded_threshold_ms,
  validate_repeat_alerts_iff r.repeat_alert_interval_secs r.repeat_alert_max_count,
  validate_expiry_thresholds_iff r.cert_expiry_threshold_days r.domain_expiry_threshold_days,
)

-- A repeat pair is checked only where both sides are given and not 0.
abbrev pub RepeatUpdateInRange : Option ℤ → Option ℤ → Type 0
RepeatUpdateInRange interval count =
    let iv = or_else interval (pos 0) in
    let cv = or_else count (pos 0) in
    (iv ≡ pos 0) ⊎ ((cv ≡ pos 0) ⊎ ((pos 300 ≤ℤ iv) × (iv ≤ℤ pos 86400) × (pos 1 ≤ℤ cv)))

abbrev pub NameInRange : ℕ → Option String → Type 0
NameInRange max none = Unit
NameInRange max (some s) = len s ≤ max

abbrev pub IntervalUpdateInRange : Option ℤ → Type 0
IntervalUpdateInRange none = Unit
IntervalUpdateInRange (some v) = (v ≡ pos 0) ⊎ ((pos 60 ≤ℤ v) × (v ≤ℤ pos 86400))

abbrev pub TimeoutUpdateInRange : Option ℤ → Type 0
TimeoutUpdateInRange none = Unit
TimeoutUpdateInRange (some v) = (pos 5 ≤ℤ v) × (v ≤ℤ pos 300)

pub record UpdateInBounds (r : UpdateMonitorRequest) : Type 0 where
  pub name : NameInRange 255 r.name
  pub target : NameInRange 2048 r.target
  pub interval : IntervalUpdateInRange r.interval
  pub timeout : TimeoutUpdateInRange r.timeout
  pub degraded : DegradedInRange r.degraded_threshold_ms
  pub repeats : RepeatUpdateInRange r.repeat_alert_interval_secs r.repeat_alert_max_count
  pub cert : ExpiryInRange r.cert_expiry_threshold_days
  pub domain : ExpiryInRange r.domain_expiry_threshold_days

validate_repeat_update_iff :
    (i c : Option ℤ) → (validate_repeat_update i c ≡ ok tt) ↔ RepeatUpdateInRange i c
unfolding validate_repeat_update validate_repeat_alerts
validate_repeat_update_iff i c = ground arith

-- An update request passes Validate exactly when every field that it gives is in its range; the
-- timeout is not compared with an interval.
pub validate_update_iff :
    (r : UpdateMonitorRequest) → (validate_update r ≡ ok tt) ↔ UpdateInBounds r
unfolding validate_update
validate_update_iff r = ground (
  arith,
  validate_degraded_threshold_iff r.degraded_threshold_ms,
  validate_repeat_update_iff r.repeat_alert_interval_secs r.repeat_alert_max_count,
  validate_expiry_thresholds_iff r.cert_expiry_threshold_days r.domain_expiry_threshold_days,
)
