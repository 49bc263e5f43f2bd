-- ===== src/Database/Monitors.antt =====
-- internal/database/bun/store.go: plan resolution, the access and billing scopes, and the statements
-- on the monitors table. SQL conditions are Boolean tests on a row.
pub mod Quota
pub mod Access
use upguardly_server.Base.{
  ℕ, ◌+◌, ◌≡◌, Bool, true, false, not, ◌&&◌, ◌||◌, List, [], ◌∷◌, ◌++◌, Option, none, some, String,
  ℤ, pos, eqz, lez, Result, ok, err, ◌>>=◌, ◌>>◌, refuse, is_some, or_else, if◌then◌else◌, ◌=?◌,
  string_eq, length, filter, contains,
}
use upguardly_server.Models.Plan.{Plan, free, unlimited}
use upguardly_server.Models.Monitor.{CreateMonitorParams, UpdateMonitorRequest}
use upguardly_server.Database.{
  MonitorRow, OrganizationRow, MemberRow, SubscriptionRow, SubscriptionStatus, canceled, Db,
  StoreError, not_found, monitor_limit, update_where,
}

-- `org_id = ?` on a nullable column.
abbrev pub has_id : Option String → String → Bool
has_id none id = false
has_id (some o) id = o =? id

unfoldable pub find_organization : String → List OrganizationRow → Option OrganizationRow
find_organization id [] = none
find_organization id (o ∷ os) = if o.id =? id then some o else find_organization id os

unfoldable pub find_subscription : String → List SubscriptionRow → Option SubscriptionRow
find_subscription user [] = none
find_subscription user (s ∷ ss) = if s.user_id =? user then some s else find_subscription user ss

unfoldable pub find_member : String → String → List MemberRow → Option MemberRow
find_member org user [] = none
find_member org user (m ∷ ms) =
    if m.organization_id =? org && m.user_id =? user then some m else find_member org user ms

-- `CASE WHEN s.status = 'CANCELED' THEN 'FREE' ELSE s.plan END`
unfoldable pub entitled_plan : SubscriptionStatus → Plan → Plan
entitled_plan canceled plan = free
entitled_plan _ plan = plan

abbrev pub plan_of_row : Option SubscriptionRow → Plan
plan_of_row none = free
plan_of_row (some s) = entitled_plan s.status s.plan

-- The user of `COALESCE((SELECT o.owner_id …), user_id)`.
unfoldable pub plan_subject : Db → MonitorRow → String
plan_subject db m = elim m.org_id [
  | none ↦ m.user_id
  | some org ↦ elim (find_organization org db.organizations) [
    | none ↦ m.user_id
    | some o ↦ o.owner_id
  ]
]

-- `ownerPlanExpr`
unfoldable pub owner_plan : Db → MonitorRow → Plan
unfolding plan_subject
owner_plan db m = plan_of_row (find_subscription (plan_subject db m) db.subscriptions)

-- `SELECT organization_id FROM organization_members WHERE user_id = ?` has the org.
unfoldable pub is_member : String → String → List MemberRow → Bool
is_member org user [] = false
is_member org user (m ∷ ms) =
    (m.organization_id =? org && m.user_id =? user) || is_member org user ms

-- `SELECT id FROM organizations WHERE owner_id = ?` has the org.
unfoldable pub owns_organization : String → String → List OrganizationRow → Bool
owns_organization org owner [] = false
owns_organization org owner (o ∷ os) =
    (o.id =? org && o.owner_id =? owner) || owns_organization org owner os

-- `monitorAccessClause`
unfoldable pub may_access : Db → String → MonitorRow → Bool
may_access db user m = elim m.org_id [
  | none ↦ m.user_id =? user
  | some org ↦ is_member org user db.members
]

-- `billingScopeClause`
unfoldable pub in_billing_scope : Db → String → MonitorRow → Bool
in_billing_scope db owner m = elim m.org_id [
  | none ↦ m.user_id =? owner
  | some org ↦ owns_organization org owner db.organizations
]

unfoldable pub count_monitors_for_billing_owner : Db → String → ℕ
count_monitors_for_billing_owner db owner = length (filter (in_billing_scope db owner) db.monitors)

abbrev org_id_of : String → Option String
org_id_of org_id = if org_id =? "" then none else some org_id

abbrev is_nil : List String → Bool
is_nil [] = true
is_nil (x ∷ xs) = false

-- The row that `CreateMonitor` inserts. The sub-check columns that it leaves zero take the
-- defaults of migration 20260723120000.
-- A zero value in a column with a default is sent as DEFAULT.
unfoldable pub new_row : CreateMonitorParams → String → ℕ → MonitorRow
new_row p id now = record {
  id = id;
  user_id = p.user_id;
  org_id = org_id_of p.org_id;
  name = p.name;
  type = p.type;
  target = p.target;
  interval = p.interval;
  timeout = if eqz p.timeout (pos 0) then pos 30 else p.timeout;
  degraded_threshold_ms = p.degraded_threshold_ms;
  repeat_alert_interval_secs = p.repeat_alert_interval_secs;
  repeat_alert_max_count = p.repeat_alert_max_count;
  enabled = p.enabled;
  cert_check_enabled = false;
  cert_expiry_threshold_days = pos 14;
  domain_check_enabled = false;
  domain_expiry_threshold_days = pos 14;
  regions = if is_nil p.regions then "ca-east" ∷ [] else p.regions;
  updated_at = now;
}

-- `CreateMonitor`: the quota is counted and the row inserted in one transaction; `id` is the fresh
-- uuid, and `now` the clock.
unfoldable pub create_monitor :
    Db → CreateMonitorParams → String → ℕ → Result StoreError (Db × MonitorRow)
create_monitor db p id now = do
  refuse
      (not (eqz p.max_monitors unlimited)
        && lez p.max_monitors (pos (count_monitors_for_billing_owner db p.billing_owner_id)))
      monitor_limit
  let row = new_row p id now
  ok (record db { monitors = db.monitors ++ row ∷ [] }, row)

-- `ListMonitors`: the personal monitors of the user, or those of the org.
unfoldable pub list_monitors : Db → String → String → List MonitorRow
list_monitors db user org =
    filter
      (λ m. if org =? "" then m.user_id =? user && not (is_some m.org_id) else has_id m.org_id org)
      db.monitors

unfoldable pub find_accessible : Db → String → String → List MonitorRow → Option MonitorRow
find_accessible db id user [] = none
find_accessible db id user (m ∷ ms) =
    if m.id =? id && may_access db user m then some m else find_accessible db id user ms

abbrev pub or_not_found {ℓ} : {A : Type ℓ} → Option A → Result StoreError A
or_not_found none = err not_found
or_not_found (some a) = ok a

unfoldable pub get_monitor : Db → String → String → Result StoreError MonitorRow
unfolding find_accessible
get_monitor db id user = or_not_found (find_accessible db id user db.monitors)

-- `DeleteMonitor`: the channel settings and the region statuses of the monitor go with it.
unfoldable pub delete_monitor : Db → String → String → Result StoreError Db
unfolding get_monitor
delete_monitor db id user = do
  _ ← get_monitor db id user
  ok (record db {
    monitors = filter (λ m. not (m.id =? id)) db.monitors;
    channel_settings = filter (λ s. not (s.monitor_id =? id)) db.channel_settings;
    region_status = filter (λ s. not (s.0 =? id)) db.region_status;
  })

-- 0 stores NULL, another value is stored as it is, and no value leaves the column alone.
abbrev pub or_cleared : Option ℤ → Option ℤ → Option ℤ
or_cleared none old = old
or_cleared (some v) old = if eqz v (pos 0) then none else some v

-- The pair of columns: a request that touches it sets both, or clears both.
abbrev pub repeat_pair : Option ℤ → Option ℤ → Option ℤ → Option ℤ → Option ℤ × Option ℤ
repeat_pair interval count old_interval old_count =
    let iv = or_else interval (pos 0) in
    let cv = or_else count (pos 0) in
    if is_some interval || is_some count
    then (if eqz iv (pos 0) || eqz cv (pos 0) then (none, none) else (some iv, some cv))
    else (old_interval, old_count)

-- The columns that `UpdateMonitor` sets, `updated_at` aside.
unfoldable pub updated_row : UpdateMonitorRequest → MonitorRow → MonitorRow
updated_row r m =
    let repeats =
      repeat_pair r.repeat_alert_interval_secs r.repeat_alert_max_count m.repeat_alert_interval_secs
        m.repeat_alert_max_count in
    record m {
      name = or_else r.name m.name;
      type = or_else r.type m.type;
      target = or_else r.target m.target;
      interval = or_cleared r.interval m.interval;
      timeout = or_else r.timeout m.timeout;
      degraded_threshold_ms = or_cleared r.degraded_threshold_ms m.degraded_threshold_ms;
      repeat_alert_interval_secs = repeats.0;
      repeat_alert_max_count = repeats.1;
      enabled = or_else r.enabled m.enabled;
      cert_check_enabled = or_else r.cert_check_enabled m.cert_check_enabled;
      cert_expiry_threshold_days =
          or_else r.cert_expiry_threshold_days m.cert_expiry_threshold_days;
      domain_check_enabled = or_else r.domain_check_enabled m.domain_check_enabled;
      domain_expiry_threshold_days =
          or_else r.domain_expiry_threshold_days m.domain_expiry_threshold_days;
      regions = or_else r.regions m.regions;
    }

-- `hasUpdates`
unfoldable pub has_updates : UpdateMonitorRequest → Bool
has_updates r =
    is_some r.name
    || is_some r.type
    || is_some r.target
    || is_some r.interval
    || is_some r.timeout
    || is_some r.degraded_threshold_ms
    || is_some r.repeat_alert_interval_secs
    || is_some r.repeat_alert_max_count
    || is_some r.enabled
    || is_some r.cert_check_enabled
    || is_some r.cert_expiry_threshold_days
    || is_some r.domain_check_enabled
    || is_some r.domain_expiry_threshold_days
    || is_some r.regions

-- The clean-up of `monitor_region_status` after a change of the monitor's regions.
unfoldable pub drop_region_status :
    String → Option (List String) → List (String × String) → List (String × String)
drop_region_status id none rows = rows
drop_region_status id (some regions) rows =
    filter (λ (s : String × String). not (s.0 =? id && not (contains regions s.1))) rows

-- `UpdateMonitor`
unfoldable pub update_monitor :
    Db → String → String → UpdateMonitorRequest → ℕ → Result StoreError (Db × MonitorRow)
unfolding get_monitor
update_monitor db id user r now = do
  m ← get_monitor db id user
  let row = if has_updates r then record (updated_row r m) { updated_at = now } else m
  ok (
    record db {
      monitors = update_where (λ old. old.id =? id) (λ old. row) db.monitors;
      region_status = drop_region_status id r.regions db.region_status;
    },
    row,
  )
