-- ===== src/Scheduler/Expiry/Sweep.antt =====
-- internal/scheduler/expiry.go, the sweep, and ClaimDueExpiryChecks in
-- internal/database/bun/store_scheduler.go: which checks of certificates and domains are due.
pub mod Stamp
pub mod Claimed
use upguardly_server.Base.{
  ℕ, ◌+◌, Bool, true, false, ◌&&◌, ◌||◌, List, [], ◌∷◌, ◌++◌, Option, none, some, String, ℤ,
  if◌then◌else◌, ltb, leb, ◌=?◌, string_eq, take, filter,
}
use upguardly_server.Database.{MonitorRow}
use upguardly_server.Handlers.Settings.{is_http}
use upguardly_server.Scheduler.Expiry.{
  ExpiryKind, cert, domain, MonitorExpiryStatus, ExpiryCheckClaim, ExpiryOutcome, ExpiryState,
  find_status, is_key, day, record_expiry_check,
}

-- The monitor has the sub-check: `m.type = 'HTTP' AND (…)`.
abbrev pub wants : ExpiryKind → MonitorRow → Bool
wants cert m = is_http m.type && m.cert_check_enabled
wants domain m = is_http m.type && m.domain_check_enabled

abbrev pub threshold_of : ExpiryKind → MonitorRow → ℤ
threshold_of cert m = m.cert_expiry_threshold_days
threshold_of domain m = m.domain_expiry_threshold_days

abbrev pub seed_one : ExpiryKind → MonitorRow → List MonitorExpiryStatus → List MonitorExpiryStatus
seed_one kind m rows = elim (find_status m.id kind rows) [
  | some r ↦ rows
  | none ↦
      if wants kind m
      then rows
        ++ record {
          monitor_id = m.id;
          kind = kind;
          expires_at = none;
          checked_at = 0;
          last_error = none;
          last_alert_bucket = none;
          alerted_expires_at = none;
        }
          ∷ []
      else rows
]

-- The insertion of missing rows, `ON CONFLICT DO NOTHING`; they are due at once.
unfoldable pub seed : List MonitorRow → List MonitorExpiryStatus → List MonitorExpiryStatus
seed [] rows = rows
seed (m ∷ ms) rows = seed ms (seed_one domain m (seed_one cert m rows))

unfoldable pub find_monitor : String → List MonitorRow → Option MonitorRow
find_monitor id [] = none
find_monitor id (m ∷ ms) = if m.id =? id then some m else find_monitor id ms

abbrev pub wanted : List MonitorRow → MonitorExpiryStatus → Bool
wanted monitors r = elim (find_monitor r.monitor_id monitors) [
  | none ↦ false
  | some m ↦ wants r.kind m
]

-- `s.checked_at < now() - interval '24 hours'`, and the join.
abbrev pub is_due : List MonitorRow → ℕ → MonitorExpiryStatus → Bool
is_due monitors now r = ltb (r.checked_at + day) now && wanted monitors r

-- `ORDER BY s.checked_at`
abbrev pub insert_checked :
    MonitorExpiryStatus → List MonitorExpiryStatus → List MonitorExpiryStatus
insert_checked r [] = r ∷ []
insert_checked r (x ∷ xs) =
    if leb r.checked_at x.checked_at then r ∷ x ∷ xs else x ∷ insert_checked r xs

abbrev pub order_by_checked : List MonitorExpiryStatus → List MonitorExpiryStatus
order_by_checked [] = []
order_by_checked (r ∷ rs) = insert_checked r (order_by_checked rs)

unfoldable pub due_rows :
    List MonitorRow → ℕ → ℕ → List MonitorExpiryStatus → List MonitorExpiryStatus
due_rows monitors limit now rows = take limit (order_by_checked (filter (is_due monitors now) rows))

abbrev pub among : List MonitorExpiryStatus → String → ExpiryKind → Bool
among [] monitor kind = false
among (x ∷ xs) monitor kind = is_key monitor kind x || among xs monitor kind

-- The rows of the UPDATE, as the claims that RETURNING gives.
unfoldable pub claims_of :
    List MonitorRow → List MonitorExpiryStatus → List MonitorExpiryStatus → List ExpiryCheckClaim
claims_of monitors due [] = []
claims_of monitors due (r ∷ rs) =
    let rest = claims_of monitors due rs in
    if among due r.monitor_id r.kind
    then elim (find_monitor r.monitor_id monitors) [
      | none ↦ rest
      | some m ↦
          record {
            monitor_id = r.monitor_id;
            kind = r.kind;
            target = m.target;
            threshold_days = threshold_of r.kind m;
          }
          ∷ rest
    ]
    else rest

unfoldable pub mark_checked :
    List MonitorExpiryStatus → ℕ → List MonitorExpiryStatus → List MonitorExpiryStatus
mark_checked due now [] = []
mark_checked due now (r ∷ rs) =
    (if among due r.monitor_id r.kind then record r { checked_at = now } else r)
    ∷ mark_checked due now rs

-- `ClaimDueExpiryChecks`
unfoldable pub claim_due_expiry_checks :
    List MonitorRow
    → ℕ
    → ℕ
    → List MonitorExpiryStatus
    → List MonitorExpiryStatus × List ExpiryCheckClaim
claim_due_expiry_checks monitors limit now rows =
    let seeded = seed monitors rows in
    let due = due_rows monitors limit now seeded in
    (mark_checked due now seeded, claims_of monitors due seeded)

abbrev pub expiry_batch_size : ℕ
expiry_batch_size = 50

-- The claims of a batch in turn, `runOne` each; `check` is what the network answers.
abbrev pub run_all :
    (ExpiryCheckClaim → ExpiryOutcome)
    → (String → Bool)
    → ℕ
    → List ExpiryCheckClaim
    → ExpiryState
    → ExpiryState
run_all check in_maintenance now [] s = s
run_all check in_maintenance now (c ∷ cs) s =
    run_all check in_maintenance now cs
      (record_expiry_check c (check c) now (in_maintenance c.monitor_id) s)

-- `sweepBatch`
unfoldable pub sweep_batch :
    (ExpiryCheckClaim → ExpiryOutcome)
    → (String → Bool)
    → List MonitorRow
    → ℕ
    → ExpiryState
    → ExpiryState
unfolding claim_due_expiry_checks
sweep_batch check in_maintenance monitors now s =
    let (rows, claims) = claim_due_expiry_checks monitors expiry_batch_size now s.rows in
    run_all check in_maintenance now claims (record s { rows = rows })
