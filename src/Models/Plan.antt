-- ===== src/Models/Plan.antt =====
-- internal/models/plan.go and alert.go: what each subscription plan allows, and the interval and
-- threshold that a monitor without one of its own follows (monitor.go).
use text.Mathlib.TextEquality.{eq_iff}
use upguardly_server.Base.{
  ◌≡◌, refl, ap, Bool, true, false, Option, none, some, String, ℤ, pos, negsuc, ◌+ℤ◌, lez, is_some,
  if◌then◌else◌, ◌=?◌, =?_refl, string_eq, arith,
}

-- `type AlertChannel string`; `other` is any value outside the constants.
pub data AlertChannel : Type 0 where
  email sms discord slack telegram : AlertChannel
  other : String → AlertChannel

-- The plan names "FREE", "PRO" and "ENTERPRISE", and any other text.
pub data Plan : Type 0 where
  free pro enterprise : Plan
  other : String → Plan

pub record PlanLimits : Type 0 where
  pub max_monitors : ℤ
  pub max_channels_of_type : AlertChannel → Option ℤ
  pub min_interval : ℤ
  pub max_regions : ℤ
  pub max_login_seats : ℤ
  pub max_alert_recipients : ℤ
  pub custom_degraded_threshold : Bool
  pub maintenance_windows : Bool
  pub max_alert_repeats : ℤ
  pub ssl_monitoring : Bool
  pub domain_monitoring : Bool

abbrev pub unlimited : ℤ
unlimited = negsuc 0

unfoldable pub free_channel_caps : AlertChannel → Option ℤ
free_channel_caps email = some (pos 1)
free_channel_caps sms = some (pos 1)
free_channel_caps discord = some (pos 2)
free_channel_caps _ = none

unfoldable pub pro_channel_caps : AlertChannel → Option ℤ
pro_channel_caps email = some (pos 1)
pro_channel_caps sms = some (pos 1)
pro_channel_caps discord = some (pos 5)
pro_channel_caps slack = some (pos 5)
pro_channel_caps telegram = some (pos 5)
pro_channel_caps (AlertChannel.other _) = none

unfoldable pub enterprise_channel_caps : AlertChannel → Option ℤ
enterprise_channel_caps email = some (pos 1)
enterprise_channel_caps sms = some (pos 1)
enterprise_channel_caps discord = some unlimited
enterprise_channel_caps slack = some unlimited
enterprise_channel_caps telegram = some unlimited
enterprise_channel_caps (AlertChannel.other _) = none

unfoldable pub channel_allowed : PlanLimits → AlertChannel → Bool
channel_allowed l ch = is_some (l.max_channels_of_type ch)

unfoldable pub max_channels_for : PlanLimits → AlertChannel → Option ℤ
max_channels_for l ch = l.max_channels_of_type ch

-- A field that the source's literal leaves out is Go's zero value.
unfoldable pub limits_for_plan : Plan → PlanLimits
limits_for_plan pro = record {
  max_monitors = pos 20;
  max_channels_of_type = pro_channel_caps;
  min_interval = pos 60;
  max_regions = pos 3;
  max_login_seats = pos 0;
  max_alert_recipients = pos 0;
  custom_degraded_threshold = true;
  maintenance_windows = false;
  max_alert_repeats = pos 0;
  ssl_monitoring = false;
  domain_monitoring = false;
}
limits_for_plan enterprise = record {
  max_monitors = pos 200;
  max_channels_of_type = enterprise_channel_caps;
  min_interval = pos 60;
  max_regions = unlimited;
  max_login_seats = pos 3;
  max_alert_recipients = pos 3;
  custom_degraded_threshold = true;
  maintenance_windows = true;
  max_alert_repeats = pos 10;
  ssl_monitoring = true;
  domain_monitoring = true;
}
limits_for_plan _ = record {
  max_monitors = pos 5;
  max_channels_of_type = free_channel_caps;
  min_interval = pos 300;
  max_regions = pos 1;
  max_login_seats = pos 0;
  max_alert_recipients = pos 0;
  custom_degraded_threshold = false;
  maintenance_windows = false;
  max_alert_repeats = pos 0;
  ssl_monitoring = false;
  domain_monitoring = false;
}

-- A stored interval of `none` follows the plan.
unfoldable pub effective_interval : Option ℤ → Plan → ℤ → ℤ
effective_interval (some raw) plan timeout = raw
effective_interval none plan timeout =
    let floor = (limits_for_plan plan).min_interval in
    if lez floor timeout then timeout +ℤ pos 1 else floor

-- Go compares the channels as texts.
unfoldable pub same_channel : AlertChannel → AlertChannel → Bool
same_channel email email = true
same_channel sms sms = true
same_channel discord discord = true
same_channel slack slack = true
same_channel telegram telegram = true
same_channel (AlertChannel.other a) (AlertChannel.other b) = a =? b
same_channel _ _ = false

pub same_channel-eq : (a b : AlertChannel) → same_channel a b ≡ true → a ≡ b
unfolding same_channel
same_channel-eq email b h = ground arith
same_channel-eq sms b h = ground arith
same_channel-eq discord b h = ground arith
same_channel-eq slack b h = ground arith
same_channel-eq telegram b h = ground arith
same_channel-eq (AlertChannel.other a) (AlertChannel.other b) h =
    ap AlertChannel.other ((eq_iff a b).0 h)
same_channel-eq (AlertChannel.other a) b h = ground arith

pub same_channel_refl : (a : AlertChannel) → same_channel a a ≡ true
unfolding same_channel
same_channel_refl email = refl
same_channel_refl sms = refl
same_channel_refl discord = refl
same_channel_refl slack = refl
same_channel_refl telegram = refl
same_channel_refl (AlertChannel.other a) = =?_refl a
