-- ===== src/Database/Reconcile/Complies.antt =====
-- The monitors billed to a user across ReconcileMonitorsToPlan (internal/database/bun/store.go).
use mathlib.Core.List.{map-map}
use upguardly_server.Base.{
  ℕ, ◌≡◌, ◌⊎◌, refl, Bool, true, false, not, ◌&&◌, List, [], ◌∷◌, Option, none, some, String, ℤ,
  pos, ltz, eqz, pos_part, if◌then◌else◌, length, length-take, filter, All, sym, ◌∙◌, ◌≤ℤ◌, map,
  arith, Bool-cases, inl, inr,
}
use upguardly_server.Models.Plan.{Plan, PlanLimits, unlimited, limits_for_plan}
use upguardly_server.Database.{MonitorRow, Db, update_where}
use upguardly_server.Database.Monitors.{in_billing_scope}
use upguardly_server.Database.Reconcile.{
  Pass, run_pass, interval_pass, regions_pass, threshold_pass, expiry_pass, repeats_pass,
  reconcile_rows, reconcile_monitors_to_plan,
}

abbrev pub IntervalFits : PlanLimits → Option ℤ → Type 0
IntervalFits l none = Unit
IntervalFits l (some v) = l.min_interval ≤ℤ v

-- `RepeatFits` reads the pair: off on both sides, or on within the plan's cap.
abbrev pub RepeatFits : PlanLimits → Option ℤ → Option ℤ → Type 0
RepeatFits l none none = Unit
RepeatFits l (some i) (some c) = (c ≤ℤ l.max_alert_repeats) × (pos 1 ≤ℤ c)
RepeatFits l _ _ = ⊥

-- The row uses nothing that the plan does not include.
pub record Complies (l : PlanLimits) (m : MonitorRow) : Type 0 where
  pub interval : IntervalFits l m.interval
  pub regions : (l.max_regions ≡ unlimited) ⊎ (pos (length m.regions) ≤ℤ l.max_regions)
  pub threshold : (l.custom_degraded_threshold ≡ true) ⊎ (m.degraded_threshold_ms ≡ none)
  pub cert : (l.ssl_monitoring ≡ true) ⊎ (m.cert_check_enabled ≡ false)
  pub domain : (l.domain_monitoring ≡ true) ⊎ (m.domain_check_enabled ≡ false)
  pub repeats : RepeatFits l m.repeat_alert_interval_secs m.repeat_alert_max_count

-- One row through a pass.
abbrev pub row_pass : Pass → MonitorRow → MonitorRow
row_pass p m = if p.due && p.matches m then p.change m else m

run_pass-map : (p : Pass) (ms : List MonitorRow) → (run_pass p ms).0 ≡ map (row_pass p) ms
unfolding run_pass update_where
run_pass-map p [] = ground arith
run_pass-map p (m ∷ ms) = ground (arith, run_pass-map p ms)

-- The limits while the passes run: the columns done so far follow the new plan.
module _ (old new : PlanLimits) where
  abbrev stage1 : PlanLimits
  stage1 = record old { min_interval = new.min_interval }

  abbrev stage2 : PlanLimits
  stage2 = record stage1 { max_regions = new.max_regions }

  abbrev stage3 : PlanLimits
  stage3 = record stage2 { custom_degraded_threshold = new.custom_degraded_threshold }

  abbrev stage4 : PlanLimits
  stage4 = record stage3 {
    ssl_monitoring = new.ssl_monitoring;
    domain_monitoring = new.domain_monitoring;
  }

  abbrev stage5 : PlanLimits
  stage5 = record stage4 { max_alert_repeats = new.max_alert_repeats }

module _ (db : Db) (user : String) (now : ℕ) (old new : PlanLimits) where
  abbrev pub scope : MonitorRow → Bool
  scope = in_billing_scope db user

  -- In the scope, and within the limits.
  abbrev Billed : PlanLimits → MonitorRow → Type 0
  Billed l m = (scope m ≡ true) × Complies l m

  interval_pass-Billed :
      (m : MonitorRow)
      → Billed old m
      → Billed (stage1 old new) (row_pass (interval_pass scope now old new) m)
  unfolding in_billing_scope
  interval_pass-Billed m (s, c) = ground arith

  regions_pass-Billed :
      (m : MonitorRow)
      → ltz new.max_regions (pos 0) ≡ eqz new.max_regions unlimited
      → Billed (stage1 old new) m
      → Billed (stage2 old new) (row_pass (regions_pass scope now old new) m)
  unfolding in_billing_scope
  regions_pass-Billed m cap (s, c) =
      ground (arith, length-take (pos_part new.max_regions) m.regions)

  threshold_pass-Billed :
      (m : MonitorRow)
      → Billed (stage2 old new) m
      → Billed (stage3 old new) (row_pass (threshold_pass scope now old new) m)
  unfolding in_billing_scope
  threshold_pass-Billed m (s, c) = ground arith

  expiry_pass-Billed :
      (m : MonitorRow)
      → Billed (stage3 old new) m
      → Billed (stage4 old new) (row_pass (expiry_pass scope now old new) m)
  unfolding in_billing_scope
  expiry_pass-Billed m (s, c) = ground arith

  repeats_pass-Billed :
      (m : MonitorRow)
      → (new.max_alert_repeats ≡ pos 0) ⊎ (old.max_alert_repeats ≤ℤ new.max_alert_repeats)
      → Billed (stage4 old new) m
      → Billed (stage5 old new) (row_pass (repeats_pass scope now old new) m)
  unfolding in_billing_scope
  repeats_pass-Billed m cap (s, c) = ground arith

  -- One row through the five passes.
  unfoldable pub reconcile_row : MonitorRow → MonitorRow
  reconcile_row m = row_pass (repeats_pass scope now old new) (
      row_pass (expiry_pass scope now old new) (
        row_pass (threshold_pass scope now old new) (
          row_pass (regions_pass scope now old new)
            (row_pass (interval_pass scope now old new) m))))

  reconcile_row-Billed :
      (m : MonitorRow)
      → ltz new.max_regions (pos 0) ≡ eqz new.max_regions unlimited
      → (new.max_alert_repeats ≡ pos 0) ⊎ (old.max_alert_repeats ≤ℤ new.max_alert_repeats)
      → Billed old m
      → Billed (stage5 old new) (reconcile_row m)
  unfolding reconcile_row
  reconcile_row-Billed m cap repeats b = repeats_pass-Billed _ repeats (
      expiry_pass-Billed _
        (threshold_pass-Billed _ (regions_pass-Billed _ cap (interval_pass-Billed m b))))

  -- A monitor that is billed to someone else is left as it is, its time stamp included.
  pub reconcile_row_other : (m : MonitorRow) → scope m ≡ false → reconcile_row m ≡ m
  unfolding reconcile_row
  reconcile_row_other m h = ground arith

  pub reconcile_rows-map :
      (ms : List MonitorRow) → (reconcile_rows scope now old new ms).0 ≡ map reconcile_row ms
  unfolding reconcile_rows reconcile_row
  reconcile_rows-map ms = simp (run_pass-map, map-map)

  scope-reconcile_row : (m : MonitorRow) → scope (reconcile_row m) ≡ scope m
  unfolding reconcile_row in_billing_scope
  scope-reconcile_row m = ground arith

  -- The rows that are billed to someone else, before and after.
  others_kept :
      (ms : List MonitorRow)
      → filter (λ m. not (scope m)) (map reconcile_row ms) ≡ filter (λ m. not (scope m)) ms
  others_kept [] = refl
  others_kept (m ∷ ms) = elim (Bool-cases (scope m)) [
    | inl h ↦ ground (arith, others_kept ms, scope-reconcile_row m)
    | inr h ↦ rw (reconcile_row_other m h, h, others_kept ms)
  ]

max_regions_cap :
    (p : Plan)
    → ltz (limits_for_plan p).max_regions (pos 0) ≡ eqz (limits_for_plan p).max_regions unlimited
unfolding limits_for_plan
max_regions_cap Plan.pro = refl
max_regions_cap _ = refl

max_repeats_cap :
    (old new : Plan)
    → ((limits_for_plan new).max_alert_repeats ≡ pos 0)
      ⊎ ((limits_for_plan old).max_alert_repeats ≤ℤ (limits_for_plan new).max_alert_repeats)
unfolding limits_for_plan
max_repeats_cap old new = ground arith

-- The monitors billed to a user, and what their plan allows them.
abbrev pub BilledComply : Db → String → Plan → List MonitorRow → Type 0
BilledComply db user plan =
    All (λ m. in_billing_scope db user m ≡ true → Complies (limits_for_plan plan) m)

module _ (db : Db) (user : String) (old new : Plan) (now : ℕ) where
  map-BilledComply :
      (ms : List MonitorRow)
      → BilledComply db user old ms
      → BilledComply db user new
          (map (reconcile_row db user now (limits_for_plan old) (limits_for_plan new)) ms)
  map-BilledComply [] h = tt
  map-BilledComply (m ∷ ms) (c, h) = (
    λ s.
        let inside =
          (scope-reconcile_row db user now (limits_for_plan old) (limits_for_plan new) m) in
        let (_, done) =
          reconcile_row-Billed db user now (limits_for_plan old) (limits_for_plan new) m
            (max_regions_cap new) (max_repeats_cap old new) (sym inside ∙ s, c (sym inside ∙ s)) in
        record {
          interval = done.interval;
          regions = done.regions;
          threshold = done.threshold;
          cert = done.cert;
          domain = done.domain;
          repeats = done.repeats;
        },
    map-BilledComply ms h,
  )

  -- If every monitor billed to the user was within the old plan, then after the plan change every
  -- one of them is within the new plan: interval floor, region cap, slow-response override,
  -- certificate and domain checks, and repeat alerts.
  pub reconcile_monitors_to_plan-Complies :
      BilledComply db user old db.monitors
      → BilledComply db user new (reconcile_monitors_to_plan db user old new now).0.monitors
  unfolding reconcile_monitors_to_plan
  reconcile_monitors_to_plan-Complies h =
      rw (reconcile_rows-map db user now (limits_for_plan old) (limits_for_plan new) db.monitors)
        (map-BilledComply db.monitors h)

  -- A plan change leaves the monitors that are billed to other users as they are, in their order.
  pub reconcile_monitors_to_plan_others :
      filter
        (λ m. not (in_billing_scope db user m))
        (reconcile_monitors_to_plan db user old new now).0.monitors
      ≡ filter (λ m. not (in_billing_scope db user m)) db.monitors
  unfolding reconcile_monitors_to_plan
  reconcile_monitors_to_plan_others =
      rw (reconcile_rows-map db user now (limits_for_plan old) (limits_for_plan new) db.monitors)
        (others_kept db user now (limits_for_plan old) (limits_for_plan new) db.monitors)
