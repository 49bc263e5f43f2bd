-- ===== src/Database/Monitors/Quota.antt =====
-- The quota that CreateMonitor (internal/database/bun/store.go) enforces in its transaction.
use upguardly_server.Base.{
  ℕ, ◌+◌, ◌≡◌, ◌⊎◌, ◌↔◌, Bool, false, List, [], ◌∷◌, ◌++◌, ◌&&◌, String, pos, ok, refuse, arith,
  length, filter, ◌≤ℤ◌, ◌<ℤ◌, refl, subst, refuse-eq-ok, >>=-eq-ok, ok-injective, eqz, lez, not,
  if◌then◌else◌,
}
use upguardly_server.Models.Plan.{unlimited}
use upguardly_server.Models.Monitor.{CreateMonitorParams}
use upguardly_server.Database.{Db, MonitorRow, monitor_limit}
use upguardly_server.Database.Monitors.{
  create_monitor, count_monitors_for_billing_owner, in_billing_scope, new_row,
}

length-filter-snoc :
    (p : MonitorRow → Bool) (ms : List MonitorRow) (m : MonitorRow)
    → length (filter p (ms ++ m ∷ [])) ≡ length (filter p ms) + (if p m then 1 else 0)
length-filter-snoc p [] m = ground arith
length-filter-snoc p (n ∷ ms) m = ground (arith, length-filter-snoc p ms m)

module _ (db : Db) (p : CreateMonitorParams) (id : String) (now : ℕ) where
  abbrev used : ℕ
  used = count_monitors_for_billing_owner db p.billing_owner_id

  abbrev full : Bool
  full = not (eqz p.max_monitors unlimited) && lez p.max_monitors (pos used)

  -- A monitor is inserted exactly when the plan is unlimited or fewer monitors than its maximum are
  -- billed to the owner.
  pub create_monitor_iff :
      ((out : Db × MonitorRow) × (create_monitor db p id now ≡ ok out))
      ↔ ((p.max_monitors ≡ unlimited) ⊎ (pos used <ℤ p.max_monitors))
  unfolding create_monitor
  create_monitor_iff = (
    λ (out, h).
        let b = refuse-eq-ok _ monitor_limit (>>=-eq-ok (refuse full monitor_limit) _ h).1 in
        ground arith,
    λ room.
        let b : full ≡ false = ground arith in
        (
          (record db { monitors = db.monitors ++ new_row p id now ∷ [] }, new_row p id now),
          rw b refl,
        ),
  )

  -- The new row at the end, nothing else changed, and a limited plan's maximum respected.
  abbrev pub Inserted : Db × MonitorRow → Type 0
  Inserted out =
      (out.0 ≡ record db { monitors = db.monitors ++ out.1 ∷ [] })
      × (out.1 ≡ new_row p id now)
      × ((p.max_monitors ≡ unlimited)
          ⊎ (pos (count_monitors_for_billing_owner out.0 p.billing_owner_id) ≤ℤ p.max_monitors))

  within :
      full ≡ false
      → Inserted (record db { monitors = db.monitors ++ new_row p id now ∷ [] }, new_row p id now)
  unfolding count_monitors_for_billing_owner in_billing_scope
  within room =
      let grown =
        length-filter-snoc (in_billing_scope db p.billing_owner_id) db.monitors
          (new_row p id now) in
      (refl, refl, ground (arith, grown))

  -- One insertion adds the new row at the end and changes nothing else, and the monitors that are
  -- billed to the owner stay within a limited plan's maximum.
  pub create_monitor-within :
      {out : Db × MonitorRow} → create_monitor db p id now ≡ ok out → Inserted out
  unfolding create_monitor
  create_monitor-within {out} h =
      let (_, room, h1) = >>=-eq-ok (refuse full monitor_limit) _ h in
      subst Inserted (ok-injective h1) (within (refuse-eq-ok full monitor_limit room))
