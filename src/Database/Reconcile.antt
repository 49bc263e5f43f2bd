-- ===== src/Database/Reconcile.antt =====
-- internal/database/bun/store.go, ReconcileMonitorsToPlan: a plan change snaps the monitors billed
-- to the user to the new plan's limits. Each UPDATE is one pass over the table.
pub mod Complies
pub mod Others
use upguardly_server.Base.{
  ℕ, ◌+◌, Bool, true, false, not, ◌&&◌, ◌||◌, List, [], ◌∷◌, none, some, String, pos, ltz, eqz,
  pos_part, is_some, if◌then◌else◌, ◌=?◌, string_eq, length, filter, contains, take, ltb, ◌==◌,
}
use upguardly_server.Models.Plan.{Plan, PlanLimits, unlimited, limits_for_plan}
use upguardly_server.Database.{MonitorRow, Db, update_where}
use upguardly_server.Database.Monitors.{in_billing_scope}

-- What one UPDATE does: when it is due at all, which rows it changes, and how.
pub record Pass : Type 0 where
  pub due : Bool
  pub matches : MonitorRow → Bool
  pub change : MonitorRow → MonitorRow

-- The rows after the statement, and `RowsAffected`.
unfoldable pub run_pass : Pass → List MonitorRow → List MonitorRow × ℕ
run_pass p ms =
    if p.due then (update_where p.matches p.change ms, length (filter p.matches ms)) else (ms, 0)

module _ (scope : MonitorRow → Bool) (now : ℕ) (old new : PlanLimits) where
  -- Explicit intervals below a floor that rises are raised to it.
  abbrev pub interval_pass : Pass
  interval_pass = record {
    due = ltz old.min_interval new.min_interval;
    matches = λ m. scope m && elim m.interval [ none ↦ false | some v ↦ ltz v new.min_interval ];
    change = λ m. record m { interval = some new.min_interval; updated_at = now };
  }

  -- `regions[1:max]` of the monitors with more regions than that.
  abbrev pub regions_pass : Pass
  regions_pass = record {
    due = not (eqz new.max_regions unlimited);
    matches = λ m. scope m && ltz new.max_regions (pos (length m.regions));
    change =
        λ m. record m { regions = take (pos_part new.max_regions) m.regions; updated_at = now };
  }

  abbrev pub threshold_pass : Pass
  threshold_pass = record {
    due = old.custom_degraded_threshold && not new.custom_degraded_threshold;
    matches = λ m. scope m && is_some m.degraded_threshold_ms;
    change = λ m. record m { degraded_threshold_ms = none; updated_at = now };
  }

  abbrev pub expiry_pass : Pass
  expiry_pass = record {
    due =
        (old.ssl_monitoring && not new.ssl_monitoring)
        || (old.domain_monitoring && not new.domain_monitoring);
    matches = λ m. scope m && (m.cert_check_enabled || m.domain_check_enabled);
    change = λ m. record m {
      cert_check_enabled = false;
      domain_check_enabled = false;
      updated_at = now;
    };
  }

  abbrev pub repeats_pass : Pass
  repeats_pass = record {
    due = ltz (pos 0) old.max_alert_repeats && eqz new.max_alert_repeats (pos 0);
    matches = λ m. scope m && is_some m.repeat_alert_interval_secs;
    change = λ m. record m {
      repeat_alert_interval_secs = none;
      repeat_alert_max_count = none;
      updated_at = now;
    };
  }

  -- The five statements in their order, and the sum of the rows they changed.
  unfoldable pub reconcile_rows : List MonitorRow → List MonitorRow × ℕ
  reconcile_rows ms =
      let (ms1, n1) = run_pass interval_pass ms in
      let (ms2, n2) = run_pass regions_pass ms1 in
      let (ms3, n3) = run_pass threshold_pass ms2 in
      let (ms4, n4) = run_pass expiry_pass ms3 in
      let (ms5, n5) = run_pass repeats_pass ms4 in (ms5, n1 + n2 + n3 + n4 + n5)

-- Whether no monitor of the table makes the DELETE remove the status row.
unfoldable pub status_kept : (MonitorRow → Bool) → List MonitorRow → String × String → Bool
status_kept scope [] s = true
status_kept scope (m ∷ ms) s =
    not (m.id =? s.0 && (scope m && not (contains m.regions s.1))) && status_kept scope ms s

-- `ReconcileMonitorsToPlan`. The status rows are cleaned when the regions pass changed something.
unfoldable pub reconcile_monitors_to_plan : Db → String → Plan → Plan → ℕ → Db × ℕ
reconcile_monitors_to_plan db user old_plan new_plan now =
    let old = limits_for_plan old_plan in
    let new = limits_for_plan new_plan in
    let scope = in_billing_scope db user in
    let after_interval = (run_pass (interval_pass scope now old new) db.monitors).0 in
    let trimmed = run_pass (regions_pass scope now old new) after_interval in
    let (monitors, total) = reconcile_rows scope now old new db.monitors in
    (
      record db {
        monitors = monitors;
        region_status =
            if ltb 0 trimmed.1
            then filter (status_kept scope trimmed.0) db.region_status
            else db.region_status;
      },
      total,
    )
