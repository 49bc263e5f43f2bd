-- ===== src/Scheduler/Expiry.antt =====
-- internal/scheduler/expiry.go with its statements in internal/database/bun/store_scheduler.go: the
-- daily checks of certificates and domains. Times are seconds. ExpiryDaysLeft divides Go floats; here
-- the division is exact.
pub mod Alerts
pub mod Buckets
pub mod Sweep
use upguardly_server.Base.{
  ℕ, suc, ◌+◌, ◌-◌, ◌*◌, ◌/◌, ◌%◌, Bool, true, false, not, ◌&&◌, ◌||◌, List, [], ◌∷◌, ◌++◌, Option,
  none, some, String, ℤ, pos, negsuc, ltz, eqz, if◌then◌else◌, ltb, leb, ◌==◌, ◌=?◌, string_eq,
}
use upguardly_server.Models.Expiry.{expiry_alert_bucket}

pub data ExpiryKind : Type 0 where
  cert domain : ExpiryKind

abbrev pub same_kind : ExpiryKind → ExpiryKind → Bool
same_kind cert cert = true
same_kind domain domain = true
same_kind _ _ = false

pub record MonitorExpiryStatus : Type 0 where
  pub monitor_id : String
  pub kind : ExpiryKind
  pub expires_at : Option ℕ
  pub checked_at : ℕ
  pub last_error : Option String
  pub last_alert_bucket : Option ℤ
  pub alerted_expires_at : Option ℕ

pub record ExpiryCheckClaim : Type 0 where
  pub monitor_id : String
  pub kind : ExpiryKind
  pub target : String
  pub threshold_days : ℤ

-- The status that goes to the outbox, and the four texts of `expiryAlertContent`.
pub data AlertStatus : Type 0 where
  degraded down : AlertStatus

pub data ExpiryText : Type 0 where
  has_expired expires_today expires_in_1_day : ExpiryText
  expires_in : ℤ → ExpiryText

-- One call of maintenance.enqueue_monitor_alerts, with the bucket that it was made for.
pub record ExpiryAlert : Type 0 where
  pub monitor_id : String
  pub kind : ExpiryKind
  pub bucket : ℤ
  pub status : AlertStatus
  pub text : ExpiryText

-- The table, and the calls so far.
pub record ExpiryState : Type 0 where
  pub rows : List MonitorExpiryStatus
  pub alerts : List ExpiryAlert

abbrev pub day : ℕ
day = 86400

-- -n
abbrev pub negated : ℕ → ℤ
negated n = if n == 0 then pos 0 else negsuc (n - 1)

-- `ExpiryDaysLeft`: truncated towards zero, then moved down where the expiry is past.
unfoldable pub expiry_days_left : ℕ → ℕ → ℤ
expiry_days_left expires_at now =
    if leb now expires_at
    then pos ((expires_at - now) / day)
    else (let past = now - expires_at in
        if past % day == 0 then negated (past / day) else negsuc (past / day))

-- `expiryAlertContent`, the subject and the date aside.
unfoldable pub expiry_alert_content : ℤ → AlertStatus × ExpiryText
expiry_alert_content days =
    if ltz days (pos 0)
    then (down, has_expired)
    else (if eqz days (pos 0)
        then (degraded, expires_today)
        else (if eqz days (pos 1)
            then (degraded, expires_in_1_day)
            else (degraded, expires_in days)))

abbrev pub is_key : String → ExpiryKind → MonitorExpiryStatus → Bool
is_key monitor kind r = r.monitor_id =? monitor && same_kind r.kind kind

-- What a check came back with: a date, or the text of an error.
pub data ExpiryOutcome : Type 0 where
  date : ℕ → ExpiryOutcome
  failed : String → ExpiryOutcome

-- `st.AlertedExpiresAt == nil || !st.AlertedExpiresAt.Equal(*expiresAt)`
abbrev pub rearmed : Option ℕ → ℕ → Bool
rearmed none expires_at = true
rearmed (some alerted) expires_at = not (alerted == expires_at)

-- `st.LastAlertBucket == nil || *bucket < *st.LastAlertBucket`
abbrev pub deeper : ℤ → Option ℤ → Bool
deeper bucket none = true
deeper bucket (some last) = ltz bucket last

-- The bucket that the check alerts for, if it does.
unfoldable pub alert_bucket : MonitorExpiryStatus → ℕ → Option ℤ → Option ℤ
alert_bucket r expires_at none = none
alert_bucket r expires_at (some bucket) =
    if rearmed r.alerted_expires_at expires_at || deeper bucket r.last_alert_bucket
    then some bucket
    else none

abbrev pub dated : ℕ → Option ℤ → MonitorExpiryStatus → MonitorExpiryStatus
dated expires_at none r = record r { expires_at = some expires_at; last_error = none }
dated expires_at (some bucket) r = record r {
  expires_at = some expires_at;
  last_error = none;
  last_alert_bucket = some bucket;
  alerted_expires_at = some expires_at;
}

unfoldable pub update_status :
    String
    → ExpiryKind
    → (MonitorExpiryStatus → MonitorExpiryStatus)
    → List MonitorExpiryStatus
    → List MonitorExpiryStatus
update_status monitor kind f [] = []
update_status monitor kind f (r ∷ rs) =
    (if is_key monitor kind r then f r else r) ∷ update_status monitor kind f rs

unfoldable pub find_status :
    String → ExpiryKind → List MonitorExpiryStatus → Option MonitorExpiryStatus
find_status monitor kind [] = none
find_status monitor kind (r ∷ rs) =
    if is_key monitor kind r then some r else find_status monitor kind rs

-- An alert is enqueued unless the monitor is in maintenance.
abbrev pub enqueued : ExpiryCheckClaim → Bool → ℤ → Option ℤ → List ExpiryAlert → List ExpiryAlert
enqueued claim in_maintenance days none alerts = alerts
enqueued claim in_maintenance days (some bucket) alerts =
    let (status, text) = expiry_alert_content days in
    if in_maintenance
    then alerts
    else alerts
      ++ record {
        monitor_id = claim.monitor_id;
        kind = claim.kind;
        bucket = bucket;
        status = status;
        text = text;
      }
        ∷ []

abbrev pub found_status :
    ExpiryCheckClaim → ℕ → ℕ → Bool → ExpiryState → Option MonitorExpiryStatus → ExpiryState
found_status claim expires_at now in_maintenance s none = s
found_status claim expires_at now in_maintenance s (some r) =
    let days = expiry_days_left expires_at now in
    let fire = alert_bucket r expires_at (expiry_alert_bucket days claim.threshold_days) in
    record {
      rows = update_status claim.monitor_id claim.kind (dated expires_at fire) s.rows;
      alerts = enqueued claim in_maintenance days fire s.alerts;
    }

-- `RecordExpiryCheck`; `in_maintenance` is the answer of maintenance.in_maintenance. Without a row,
-- a date or the text of an error it changes nothing.
unfoldable pub record_expiry_check :
    ExpiryCheckClaim → ExpiryOutcome → ℕ → Bool → ExpiryState → ExpiryState
unfolding expiry_days_left
record_expiry_check claim (failed text) now in_maintenance s = if text =? "" then s else record s {
  rows =
      update_status claim.monitor_id claim.kind (λ r. record r { last_error = some text }) s.rows;
}
record_expiry_check claim (date expires_at) now in_maintenance s =
    found_status claim expires_at now in_maintenance s
      (find_status claim.monitor_id claim.kind s.rows)
