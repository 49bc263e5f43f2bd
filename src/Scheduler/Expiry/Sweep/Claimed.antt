-- ===== src/Scheduler/Expiry/Sweep/Claimed.antt =====
-- Claims of expiry checks and their outcomes in any order (ClaimDueExpiryChecks and RecordExpiryCheck
-- of internal/database/bun/store_scheduler.go).

use upguardly_server.Base.{
  ℕ, ◌+◌, ◌≤◌, ◌≡◌, refl, sym, ap₂, ◌∙◌, Bool, true, false, ◌||◌, List, [], ◌∷◌, ◌++◌, Option, none,
  some, ℤ, String, ◌=?◌, string_eq, filter, is_some, arith, inl, inr, Bool-cases, Option-cases,
}
use upguardly_server.Database.{MonitorRow}
use upguardly_server.Scheduler.Expiry.{
  ExpiryKind, is_key, MonitorExpiryStatus, ExpiryCheckClaim, find_status, day,
}
use upguardly_server.Scheduler.Expiry.Sweep.{
  seed, is_due, order_by_checked, due_rows, among, mark_checked, claim_due_expiry_checks,
}
use upguardly_server.Models.Expiry.{expiry_alert_bucket}
use upguardly_server.Scheduler.Expiry.{
  ExpiryState, ExpiryOutcome, date, failed, record_expiry_check, update_status, dated, alert_bucket,
  expiry_days_left,
}
use upguardly_server.Scheduler.Expiry.Sweep.Stamp.{
  has_claim, key_eq, stamped, Kept, claims-among, mark_checked-stamped, mark_checked-find,
  seed-Kept, among-order_by_checked, among-take, not_due,
}

-- What an instance does at some time: it claims up to a limit of the checks, over the monitors as
-- they then are, or it records the outcome of a check that it claimed.
pub data SweepStep : Type 0 where
  claims : List MonitorRow → ℕ → ℕ → SweepStep
  records : ExpiryCheckClaim → ExpiryOutcome → ℕ → Bool → SweepStep

abbrev pub after_step : ExpiryState → SweepStep → ExpiryState
after_step s (claims monitors limit at) = record s {
  rows = (claim_due_expiry_checks monitors limit at s.rows).0;
}
after_step s (records claim o at in_maintenance) = record_expiry_check claim o at in_maintenance s

abbrev pub claimed_by : ExpiryState → SweepStep → List ExpiryCheckClaim
claimed_by s (claims monitors limit at) = (claim_due_expiry_checks monitors limit at s.rows).1
claimed_by s (records claim o at in_maintenance) = []

-- Everything that the steps claim.
pub all_claims : ExpiryState → List SweepStep → List ExpiryCheckClaim
all_claims s [] = []
all_claims s (e ∷ es) = claimed_by s e ++ all_claims (after_step s e) es

-- No claim stands after `until`.
abbrev pub Until : ℕ → List SweepStep → Type 0
Until until [] = Unit
Until until (claims monitors limit at ∷ es) = (at ≤ until) × Until until es
Until until (records claim o at in_maintenance ∷ es) = Until until es

module _ (monitor : String) (kind : ExpiryKind) where
  has_claim-append :
      (xs ys : List ExpiryCheckClaim)
      → has_claim monitor kind (xs ++ ys) ≡ (has_claim monitor kind xs || has_claim monitor kind ys)
  has_claim-append [] ys = refl
  has_claim-append (x ∷ xs) ys = ground (arith, has_claim-append xs ys)

  -- A claim that leaves the key out leaves its rows alone.
  mark_checked-Kept :
      (due rows : List MonitorExpiryStatus) (now at : ℕ)
      → among due monitor kind ≡ false
      → stamped monitor kind now (mark_checked due at rows) ≡ stamped monitor kind now rows
  unfolding mark_checked
  mark_checked-Kept due [] now at h = refl
  mark_checked-Kept due (r ∷ rows) now at h =
      ground (arith, mark_checked-Kept due rows now at h, key_eq monitor kind due r, h)

  mark_checked-there :
      (due rows : List MonitorExpiryStatus) (at : ℕ)
      → is_some (find_status monitor kind (mark_checked due at rows))
        ≡ is_some (find_status monitor kind rows)
  unfolding mark_checked find_status
  mark_checked-there due [] at = refl
  mark_checked-there due (r ∷ rows) at = ground (arith, mark_checked-there due rows at)

  -- An update of a row that keeps its key and the time of its check.
  module _ (f : MonitorExpiryStatus → MonitorExpiryStatus)
      (same_key : (r : MonitorExpiryStatus) → is_key monitor kind (f r) ≡ is_key monitor kind r)
      (same_time : (r : MonitorExpiryStatus) → (f r).checked_at ≡ r.checked_at) where
    update_status-stamped :
        (m : String) (k : ExpiryKind) (now : ℕ) (rows : List MonitorExpiryStatus)
        → stamped monitor kind now (update_status m k f rows) ≡ stamped monitor kind now rows
    unfolding update_status
    update_status-stamped m k now [] = refl
    update_status-stamped m k now (r ∷ rows) =
        ground (arith, update_status-stamped m k now rows, same_key r, same_time r)

    update_status-there :
        (m : String) (k : ExpiryKind) (rows : List MonitorExpiryStatus)
        → is_some (find_status monitor kind (update_status m k f rows))
          ≡ is_some (find_status monitor kind rows)
    unfolding update_status find_status
    update_status-there m k [] = refl
    update_status-there m k (r ∷ rows) = elim (Bool-cases (is_key m k r)) [
      | inr e ↦ elim (Bool-cases (is_key monitor kind r)) [
        | inl own ↦ rw (e, own) refl
        | inr other ↦ rw (e, other) (update_status-there m k rows)
      ]
      | inl e ↦ elim (Bool-cases (is_key monitor kind r)) [
        | inl own ↦ rw (e, own, same_key r ∙ own) refl
        | inr other ↦ rw (e, other, same_key r ∙ other) (update_status-there m k rows)
      ]
    ]

    update_status-Kept :
        (m : String) (k : ExpiryKind) (now : ℕ) (rows : List MonitorExpiryStatus)
        → Kept monitor kind now rows
        → Kept monitor kind now (update_status m k f rows)
    update_status-Kept m k now rows h =
        (update_status-stamped m k now rows ∙ h.0, update_status-there m k rows ∙ h.1)

  dated-Kept :
      (claim : ExpiryCheckClaim) (d now : ℕ) (fire : Option ℤ) (rows : List MonitorExpiryStatus)
      → Kept monitor kind now rows
      → Kept monitor kind now (update_status claim.monitor_id claim.kind (dated d fire) rows)
  dated-Kept claim d now none rows h =
      update_status-Kept (dated d none) (λ r. refl) (λ r. refl) claim.monitor_id claim.kind now rows
        h
  dated-Kept claim d now (some b) rows h =
      update_status-Kept (dated d (some b)) (λ r. refl) (λ r. refl) claim.monitor_id claim.kind now
        rows h

  record-Kept :
      (claim : ExpiryCheckClaim) (o : ExpiryOutcome) (at now : ℕ) (in_maintenance : Bool)
      (s : ExpiryState)
      → Kept monitor kind now s.rows
      → Kept monitor kind now (record_expiry_check claim o at in_maintenance s).rows
  unfolding record_expiry_check
  record-Kept claim (failed text) at now in_maintenance s h = elim (Bool-cases (text =? "")) [
    | inl e ↦ rw e h
    | inr e ↦ rw e (
        update_status-Kept (λ r. record r { last_error = some text }) (λ r. refl) (λ r. refl)
          claim.monitor_id claim.kind now s.rows h)
  ]
  record-Kept claim (date d) at now in_maintenance s h =
      elim (Option-cases (find_status claim.monitor_id claim.kind s.rows)) [
        | inl missing ↦ rw missing h
        | inr (r, there) ↦ rw there (
            dated-Kept claim d now
              (alert_bucket r d (expiry_alert_bucket (expiry_days_left d at) claim.threshold_days))
              s.rows h)
      ]

  -- A claim within the day leaves the key out and its rows as they are.
  claim-Kept :
      (monitors : List MonitorRow) (limit now at : ℕ) (rows : List MonitorExpiryStatus)
      → at ≤ now + day
      → Kept monitor kind now rows
      → (has_claim monitor kind (claim_due_expiry_checks monitors limit at rows).1 ≡ false)
        × Kept monitor kind now (claim_due_expiry_checks monitors limit at rows).0
  unfolding claim_due_expiry_checks due_rows
  claim-Kept monitors limit now at rows soon h =
      let seeded = seed monitors rows in
      let kept = seed-Kept monitor kind monitors now rows h in
      let due = due_rows monitors limit at seeded in
      let out : among due monitor kind ≡ false =
        among-take monitor kind limit (order_by_checked (filter (is_due monitors at) seeded)) (
          among-order_by_checked monitor kind (filter (is_due monitors at) seeded)
          ∙ not_due monitor kind monitors now at seeded soon kept.0) in
      (
        claims-among monitor kind monitors due seeded out,
        (
          mark_checked-Kept due seeded now at out ∙ kept.0,
          mark_checked-there due seeded at ∙ kept.1,
        ),
      )

  all_claims-Kept :
      (now : ℕ) (s : ExpiryState) (es : List SweepStep)
      → Kept monitor kind now s.rows
      → Until (now + day) es
      → has_claim monitor kind (all_claims s es) ≡ false
  unfolding all_claims
  all_claims-Kept now s [] h soon = refl
  all_claims-Kept now s (claims monitors limit at ∷ es) h soon =
      let (out, kept) = claim-Kept monitors limit now at s.rows soon.0 h in
      let rest = all_claims-Kept now (after_step s (claims monitors limit at)) es kept soon.1 in
      has_claim-append (claimed_by s (claims monitors limit at))
        (all_claims (after_step s (claims monitors limit at)) es)
      ∙ ap₂ (λ a b. a || b) out rest
  all_claims-Kept now s (records claim o at in_maintenance ∷ es) h soon =
      all_claims-Kept now (after_step s (records claim o at in_maintenance)) es
        (record-Kept claim o at now in_maintenance s h) soon

  -- A check that was claimed is not claimed again for 24 hours, by any instance: however many claims
  -- are made in that time and however many outcomes are recorded, in whatever order, whatever
  -- monitors are added or changed in between, and whatever the limits.
  pub claim_due_expiry_checks-once :
      (monitors : List MonitorRow) (limit now : ℕ) (s : ExpiryState) (es : List SweepStep)
      → has_claim monitor kind (claim_due_expiry_checks monitors limit now s.rows).1 ≡ true
      → Until (now + day) es
      → has_claim monitor kind (all_claims (after_step s (claims monitors limit now)) es) ≡ false
  unfolding claim_due_expiry_checks
  claim_due_expiry_checks-once monitors limit now s es claimed soon =
      let seeded = seed monitors s.rows in
      let due = due_rows monitors limit now seeded in
      let stamp : stamped monitor kind now (mark_checked due now seeded) ≡ true =
        elim (Bool-cases (among due monitor kind)) [
          | inl e ↦ mark_checked-stamped monitor kind due seeded now e
          | inr e ↦
              let clash : true ≡ false =
                sym claimed ∙ claims-among monitor kind monitors due seeded e in
              cc
        ] in
      all_claims-Kept now (after_step s (claims monitors limit now)) es
        (stamp, mark_checked-find monitor kind monitors due seeded now claimed) soon
