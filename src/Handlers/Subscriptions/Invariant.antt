-- ===== src/Handlers/Subscriptions/Invariant.antt =====
-- The monitors and their payers' plans across the webhook (internal/api/handlers/subscriptions.go).
use text.Mathlib.TextEquality.{eq_iff}
use upguardly_server.Base.{
  ℕ, ◌≡◌, refl, sym, ap, subst, ◌∙◌, true, false, List, some, String, ◌=?◌, string_eq, inl, inr,
  Bool-cases, Option-cases,
}
use upguardly_server.Models.Plan.{Plan}
use upguardly_server.Database.{Db, MonitorRow, OrganizationRow}
use upguardly_server.Database.Monitors.{in_billing_scope, owns_organization, find_subscription}
use upguardly_server.Database.Reconcile.{reconcile_monitors_to_plan}
use upguardly_server.Database.Reconcile.Complies.{BilledComply, reconcile_monitors_to_plan-Complies}
use upguardly_server.Database.Reconcile.Others.{Apart, reconcile_monitors_to_plan-other}
use upguardly_server.Database.Subscriptions.{
  UpsertSubscriptionParams, upserted, find_subscription-upsert,
}
use upguardly_server.Handlers.Limits.{effective_plan}
use upguardly_server.Handlers.Subscriptions.{
  Faults, user_plan, same_plan, sync_subscription, store_subscription,
}

-- `organizations.id` is the primary key: an organization has one owner.
abbrev pub OneOwner : List OrganizationRow → Type 0
OneOwner os =
    (org a b : String)
    → owns_organization org a os ≡ true
    → owns_organization org b os ≡ true
    → a ≡ b

-- Every monitor is within the plan in force for whoever pays for it.
abbrev pub AllComply : Db → Type 0
AllComply db = (user : String) → BilledComply db user (user_plan db user) db.monitors

same_plan-eq : (a b : Plan) → same_plan a b ≡ true → a ≡ b
unfolding same_plan
same_plan-eq Plan.free Plan.free h = refl
same_plan-eq Plan.pro Plan.pro h = refl
same_plan-eq Plan.enterprise Plan.enterprise h = refl
same_plan-eq (Plan.other a) (Plan.other b) h = ap Plan.other ((eq_iff a b).0 h)
same_plan-eq a b h = cc

one_payer :
    (db : Db) (m : MonitorRow) (a b : String)
    → OneOwner db.organizations
    → in_billing_scope db a m ≡ true
    → in_billing_scope db b m ≡ true
    → a ≡ b
unfolding in_billing_scope
one_payer db m a b one ha hb = elim (Option-cases m.org_id) [
  | inl e ↦
      let own_a : (m.user_id =? a) ≡ true = rw e at ha in
      let own_b : (m.user_id =? b) ≡ true = rw e at hb in
      sym ((eq_iff m.user_id a).0 own_a) ∙ (eq_iff m.user_id b).0 own_b
  | inr (org, e) ↦ one org a b (rw e at ha) (rw e at hb)
]

scopes-Apart :
    (db : Db) (user other : String)
    → OneOwner db.organizations
    → (user =? other) ≡ false
    → Apart db user other
scopes-Apart db user other one h m theirs = elim (Bool-cases (in_billing_scope db user m)) [
  | inr out ↦ out
  | inl mine ↦
      let same : (user =? other) ≡ true =
        (eq_iff user other).1 (one_payer db m user other one mine theirs) in
      let clash : true ≡ false = sym same ∙ h in cc
]

module _ (db : Db) (p : UpsertSubscriptionParams) (now : ℕ) where
  abbrev stored : Db
  stored = store_subscription p db

  abbrev old_plan : Plan
  old_plan = user_plan db p.user_id

  abbrev new_plan : Plan
  new_plan = effective_plan (some (upserted p (find_subscription p.user_id db.subscriptions)))

  -- The plans in force after the write.
  user_plan-mine : (v : String) → (p.user_id =? v) ≡ true → user_plan stored v ≡ new_plan
  user_plan-mine v h = rw (find_subscription-upsert p db.subscriptions v, h) refl

  user_plan-other : (v : String) → (p.user_id =? v) ≡ false → user_plan stored v ≡ user_plan db v
  user_plan-other v h = rw (find_subscription-upsert p db.subscriptions v, h) refl

  -- The write alone, when the plan in force stays.
  stored-AllComply : same_plan old_plan new_plan ≡ true → AllComply db → AllComply stored
  unfolding in_billing_scope
  stored-AllComply same h v = elim (Bool-cases (p.user_id =? v)) [
    | inl e ↦
        let mine : p.user_id ≡ v = (eq_iff p.user_id v).0 e in
        let plan : user_plan db v ≡ user_plan stored v =
          ap (user_plan db) (sym mine)
          ∙ same_plan-eq old_plan new_plan same
          ∙ sym (user_plan-mine v e) in
        subst (λ plan. BilledComply db v plan db.monitors) plan (h v)
    | inr e ↦ subst (λ plan. BilledComply db v plan db.monitors) (sym (user_plan-other v e)) (h v)
  ]

  abbrev after : Db
  after = (reconcile_monitors_to_plan stored p.user_id old_plan new_plan now).0

  -- The write and the reconcile.
  reconciled-AllComply : OneOwner db.organizations → AllComply db → AllComply after
  unfolding in_billing_scope reconcile_monitors_to_plan
  reconciled-AllComply one h v = elim (Bool-cases (p.user_id =? v)) [
    | inl e ↦
        let mine : p.user_id ≡ v = (eq_iff p.user_id v).0 e in
        subst (λ plan. BilledComply stored v plan after.monitors) (sym (user_plan-mine v e))
          (subst (λ w. BilledComply stored w new_plan after.monitors) mine
            (reconcile_monitors_to_plan-Complies stored p.user_id old_plan new_plan now
              (h p.user_id)))
    | inr e ↦
        subst (λ plan. BilledComply stored v plan after.monitors) (sym (user_plan-other v e))
          (reconcile_monitors_to_plan-other stored p.user_id v now
            (scopes-Apart stored p.user_id v one e) old_plan new_plan (user_plan db v) (h v))
  ]

-- A subscription write that may fail keeps every monitor within its payer's plan, for every user,
-- if the read before it and the reconcile after it do not fail.
pub sync_subscription-AllComply :
    (faults : Faults) (db : Db) (p : UpsertSubscriptionParams) (now : ℕ)
    → faults.read ≡ false
    → faults.reconcile ≡ false
    → OneOwner db.organizations
    → AllComply db
    → AllComply (sync_subscription faults db p now).0
unfolding sync_subscription
sync_subscription-AllComply faults db p now read reconcile one h = elim (Bool-cases faults.upsert) [
  | inl failed ↦ rw failed h
  | inr done ↦ elim (Bool-cases (same_plan (old_plan db p now) (new_plan db p now))) [
    | inl same ↦ rw (done, read, same) (stored-AllComply db p now same h)
    | inr moved ↦ rw (done, read, moved, reconcile) (reconciled-AllComply db p now one h)
  ]
]
