-- ===== src/Database/Reconcile/Others.antt =====
-- ReconcileMonitorsToPlan (internal/database/bun/store.go) and the monitors that other users pay for.
use upguardly_server.Base.{
  ℕ, ◌≡◌, sym, ◌∙◌, true, false, List, [], ◌∷◌, String, arith, map, Bool-cases, inl, inr,
}
use upguardly_server.Models.Plan.{Plan, PlanLimits, limits_for_plan}
use upguardly_server.Database.{MonitorRow, Db}
use upguardly_server.Database.Monitors.{in_billing_scope}
use upguardly_server.Database.Reconcile.{reconcile_monitors_to_plan}
use upguardly_server.Database.Reconcile.Complies.{
  BilledComply, reconcile_row, reconcile_row_other, reconcile_rows-map,
}

-- No row is billed to both.
abbrev pub Apart : Db → String → String → Type 0
Apart db user other =
    (m : MonitorRow) → in_billing_scope db other m ≡ true → in_billing_scope db user m ≡ false

module _ (db : Db) (user other : String) (now : ℕ) where
  -- A reconcile moves no row to another payer.
  other_scope-reconcile_row :
      (old new : PlanLimits) (m : MonitorRow)
      → in_billing_scope db other (reconcile_row db user now old new m)
        ≡ in_billing_scope db other m
  unfolding reconcile_row in_billing_scope
  other_scope-reconcile_row old new m = ground arith

  map-other :
      Apart db user other
      → (old new : PlanLimits) (plan : Plan) (ms : List MonitorRow) → BilledComply db other plan ms
      → BilledComply db other plan (map (reconcile_row db user now old new) ms)
  map-other apart old new plan [] h = tt
  map-other apart old new plan (m ∷ ms) (c, h) = elim (Bool-cases (in_billing_scope db user m)) [
    | inl mine ↦ (
      λ s.
          let theirs = apart m (sym (other_scope-reconcile_row old new m) ∙ s) in
          let clash : true ≡ false = sym mine ∙ theirs in cc,
      map-other apart old new plan ms h,
    )
    | inr out ↦
        (rw (reconcile_row_other db user now old new m out) c, map-other apart old new plan ms h)
  ]

  pub reconcile_monitors_to_plan-other :
      Apart db user other
      → (old new plan : Plan) → BilledComply db other plan db.monitors
      → BilledComply db other plan (reconcile_monitors_to_plan db user old new now).0.monitors
  unfolding reconcile_monitors_to_plan
  reconcile_monitors_to_plan-other apart old new plan h =
      rw (reconcile_rows-map db user now (limits_for_plan old) (limits_for_plan new) db.monitors)
        (map-other apart (limits_for_plan old) (limits_for_plan new) plan db.monitors h)
