-- ===== src/Handlers/Subscriptions/Frame.antt =====
-- The tables that syncSubscription (internal/api/handlers/subscriptions.go) leaves alone.
use upguardly_server.Base.{ℕ, ◌≡◌, refl, not, ◌&&◌, if◌then◌else◌, Bool-cases, inl, inr, String}
use upguardly_server.Database.{Db}
use upguardly_server.Models.Plan.{Plan}
use upguardly_server.Database.Reconcile.{reconcile_monitors_to_plan}
use upguardly_server.Database.Subscriptions.{UpsertSubscriptionParams, upsert_subscription}
use upguardly_server.Handlers.Subscriptions.{
  Faults, sync_subscription, reconcile_if_moved, same_plan,
}

reconcile_if_moved_frame :
    (faults : Faults) (db : Db) (user : String) (old new : Plan) (now : ℕ)
    → ((reconcile_if_moved faults db user old new now).organizations ≡ db.organizations)
      × ((reconcile_if_moved faults db user old new now).subscriptions ≡ db.subscriptions)
unfolding reconcile_monitors_to_plan
reconcile_if_moved_frame faults db user old new now =
    elim (Bool-cases (not (same_plan old new) && not faults.reconcile)) [
      | inl e ↦ rw e (refl, refl)
      | inr e ↦ rw e (refl, refl)
    ]

module _ (faults : Faults) (db : Db) (p : UpsertSubscriptionParams) (now : ℕ) where
  pub sync_subscription-organizations :
      (sync_subscription faults db p now).0.organizations ≡ db.organizations
  unfolding sync_subscription
  sync_subscription-organizations = elim (Bool-cases faults.upsert) [
    | inl e ↦ rw e refl
    | inr e ↦ rw e (reconcile_if_moved_frame faults _ p.user_id _ _ now).0
  ]

  pub sync_subscription-subscriptions :
      (sync_subscription faults db p now).0.subscriptions
      ≡ (if faults.upsert then db.subscriptions else upsert_subscription p db.subscriptions)
  unfolding sync_subscription
  sync_subscription-subscriptions = elim (Bool-cases faults.upsert) [
    | inl e ↦ rw e refl
    | inr e ↦ rw e (reconcile_if_moved_frame faults _ p.user_id _ _ now).1
  ]
