-- ===== src/Handlers/Subscriptions/Sources.antt =====
-- Where a plan that a Stripe event gives can come from (internal/api/handlers/subscriptions.go).
use text.Mathlib.TextEquality.{eq_iff}
use upguardly_server.Base.{
  ℕ, ◌≡◌, ◌≢◌, ◌⊎◌, refl, sym, ap, subst, ◌∙◌, true, Option, none, some, String, ◌=?◌, string_eq,
  inl, inr, Bool-cases, Option-cases, arith,
}
use upguardly_server.Models.Plan.{Plan, free, pro, enterprise}
use upguardly_server.Database.{Db, SubscriptionRow, SubscriptionStatus, canceled}
use upguardly_server.Database.Monitors.{find_subscription}
use upguardly_server.Database.Subscriptions.{
  UpsertSubscriptionParams, upserted, merged, fresh, find_subscription-upsert,
}
use upguardly_server.Handlers.Subscriptions.Frame.{sync_subscription-subscriptions}
use upguardly_server.Handlers.Limits.{effective_plan, plan_under}
use upguardly_server.Handlers.Subscriptions.{
  Billing, Faults, WebhookEvent, subscription_changed, payment_failed, user_plan, sync_subscription,
  map_stripe_status, plan_from_price_id, first_price, user_of_customer, StripeInvoice,
  read_subscription,
}
use upguardly_server.Handlers.Subscriptions.Webhook.{plan_or_free}

-- The plan that a row with these params stands for.
abbrev pub params_plan : UpsertSubscriptionParams → Plan
params_plan p = plan_under p.status p.plan

upserted-plan :
    (p : UpsertSubscriptionParams) (o : Option SubscriptionRow)
    → effective_plan (some (upserted p o)) ≡ params_plan p
unfolding effective_plan merged fresh
upserted-plan p none = refl
upserted-plan p (some s) = refl

status-cases :
    (st : SubscriptionStatus) (plan : Plan)
    → (plan_under st plan ≡ free) ⊎ ((st ≢ canceled) × (plan_under st plan ≡ plan))
status-cases canceled plan = inl refl
status-cases SubscriptionStatus.active plan = inr (λ h. cc, refl)
status-cases SubscriptionStatus.trialing plan = inr (λ h. cc, refl)
status-cases SubscriptionStatus.past_due plan = inr (λ h. cc, refl)
status-cases (SubscriptionStatus.other x) plan = inr (λ h. cc, refl)

module _ (faults : Faults) (db : Db) (p : UpsertSubscriptionParams) (now : ℕ) where
  -- The plan of the params' user is theirs, or the write failed; no other plan moves.
  abbrev pub Moved : String → Db → Type 0
  Moved v db' =
      (user_plan db' v ≡ user_plan db v) ⊎ ((p.user_id ≡ v) × (user_plan db' v ≡ params_plan p))

  sync_subscription-Moved : (v : String) → Moved v (sync_subscription faults db p now).0
  sync_subscription-Moved v = elim (Bool-cases faults.upsert) [
    | inl failed ↦ inl (rw (sync_subscription-subscriptions faults db p now, failed) refl)
    | inr done ↦ elim (Bool-cases (p.user_id =? v)) [
      | inl e ↦ inr (
        (eq_iff p.user_id v).0 e,
        rw
            (
              sync_subscription-subscriptions faults db p now,
              done,
              find_subscription-upsert p db.subscriptions v,
              e,
            )
            (upserted-plan p (find_subscription p.user_id db.subscriptions)),
      )
      | inr e ↦ inl (
          rw
            (
              sync_subscription-subscriptions faults db p now,
              done,
              find_subscription-upsert p db.subscriptions v,
              e,
            )
            refl)
    ]
  ]

ended-cases :
    (st : SubscriptionStatus) (plan : Plan) → (plan_under st plan ≡ plan) ⊎ (st ≡ canceled)
ended-cases canceled plan = inr refl
ended-cases SubscriptionStatus.active plan = inl refl
ended-cases SubscriptionStatus.trialing plan = inl refl
ended-cases SubscriptionStatus.past_due plan = inl refl
ended-cases (SubscriptionStatus.other x) plan = inl refl

some-injective : {x y : Plan} → ◌≡◌ {A = Option Plan} (some x) (some y) → x ≡ y
some-injective h = cc

module _ (b : Billing) (faults : Faults) (db : Db) (now : ℕ) where
  -- Stripe's statuses of a subscription that is paid for, or is still to be.
  abbrev pub Entitling : String → Type 0
  Entitling status = (status ≡ "active") ⊎ ((status ≡ "past_due") ⊎ (status ≡ "trialing"))

  -- The paid plan that the deployment sells at a price.
  abbrev pub SoldAt : String → Plan → Type 0
  SoldAt price plan =
      ((plan ≡ pro) × (b.pro_price ≡ price)) ⊎ ((plan ≡ enterprise) × (b.enterprise_price ≡ price))

  -- What can give a user another plan than FREE or the one in force: a changed subscription with an
  -- entitling status at the price of that plan; or a failed payment on a subscription of a user whose
  -- record is CANCELED and still names the plan.
  abbrev pub Source : WebhookEvent → String → Plan → Type 0
  Source (subscription_changed (some s)) v plan =
      (user_of_customer b faults db s.customer ≡ some v)
      × Entitling s.status
      × SoldAt (first_price s.items) plan
  Source (payment_failed (some inv)) v plan =
      (user_of_customer b faults db inv.customer ≡ some v)
      × (inv.of_subscription ≡ true)
      × ((row : SubscriptionRow) × (find_subscription v db.subscriptions ≡ some row)
          × (row.status ≡ canceled)
          × (row.plan ≡ plan))
  Source _ v plan = ⊥

  -- Each event leaves a user's plan as it was, takes it to FREE, or has a source for the plan that
  -- it gives.
  abbrev pub Justified : WebhookEvent → Db → String → Type 0
  Justified e db' v =
      (user_plan db' v ≡ user_plan db v) ⊎ ((user_plan db' v ≡ free) ⊎ Source e v (user_plan db' v))

  pub synced-Justified :
      (e : WebhookEvent) (p : UpsertSubscriptionParams) (v : String)
      → (p.user_id ≡ v
          → p.status ≢ canceled
          → (user_plan db v ≡ p.plan) ⊎ ((p.plan ≡ free) ⊎ Source e v p.plan))
      → Justified e (sync_subscription faults db p now).0 v
  synced-Justified e p v source = elim (sync_subscription-Moved faults db p now v) [
    | inl kept ↦ inl kept
    | inr (mine, moved) ↦ elim (status-cases p.status p.plan) [
      | inl ended ↦ inr (inl (moved ∙ ended))
      | inr (live, plan) ↦ elim (source mine live) [
        | inl same ↦ inl (moved ∙ plan ∙ sym same)
        | inr (inl nothing) ↦ inr (inl (moved ∙ plan ∙ nothing))
        | inr (inr given) ↦ inr (inr (subst (Source e v) (sym (moved ∙ plan)) given))
      ]
    ]
  ]

  pub sold_at :
      (price : String) (plan : Plan)
      → plan_from_price_id b price ≡ some plan
      → (plan ≡ free) ⊎ SoldAt price plan
  unfolding plan_from_price_id
  sold_at price plan h = elim (Bool-cases (price =? "")) [
    | inl e ↦ inl (sym (some-injective (rw e at h)))
    | inr e ↦ elim (Bool-cases (b.pro_price =? price)) [
      | inl f ↦ inr (inl (sym (some-injective (rw (e, f) at h)), (eq_iff b.pro_price price).0 f))
      | inr f ↦ elim (Bool-cases (b.enterprise_price =? price)) [
        | inl g ↦
            inr (
              inr (sym (some-injective (rw (e, f, g) at h)), (eq_iff b.enterprise_price price).0 g))
        | inr g ↦ let clash : ◌≡◌ {A = Option Plan} none (some plan) = rw (e, f, g) at h in cc
      ]
    ]
  ]

  pub entitling : (status : String) → map_stripe_status status ≢ canceled → Entitling status
  unfolding map_stripe_status
  entitling status live = elim (Bool-cases (status =? "active")) [
    | inl e ↦ inl ((eq_iff status "active").0 e)
    | inr e ↦ elim (Bool-cases (status =? "past_due")) [
      | inl f ↦ inr (inl ((eq_iff status "past_due").0 f))
      | inr f ↦ elim (Bool-cases (status =? "trialing")) [
        | inl g ↦ inr (inr ((eq_iff status "trialing").0 g))
        | inr g ↦ elim (live (rw (e, f, g) refl)) [ ]
      ]
    ]
  ]

  read-found :
      (v : String) {row : SubscriptionRow}
      → read_subscription faults db v ≡ some row
      → find_subscription v db.subscriptions ≡ some row
  read-found v h = elim (Bool-cases faults.read) [
    | inl broken ↦ ground (arith, h, broken)
    | inr fine ↦ ground (arith, h, fine)
  ]

  plan-cases :
      (row : SubscriptionRow) → (effective_plan (some row) ≡ row.plan) ⊎ (row.status ≡ canceled)
  unfolding effective_plan
  plan-cases row = elim (ended-cases row.status row.plan) [ inl live ↦ inl live | inr e ↦ inr e ]

  -- The plan that a failed payment writes back.
  pub failed-Source :
      (inv : StripeInvoice) (v : String) {plan : Plan}
      → user_of_customer b faults db inv.customer ≡ some v
      → inv.of_subscription ≡ true
      → plan ≡ plan_or_free (read_subscription faults db v)
      → (user_plan db v ≡ plan) ⊎ ((plan ≡ free) ⊎ Source (payment_failed (some inv)) v plan)
  failed-Source inv v {plan} customer paid stored =
      elim (Option-cases (read_subscription faults db v)) [
        | inl unread ↦ inr (inl (stored ∙ ap plan_or_free unread))
        | inr (row, there) ↦
            let named : plan ≡ row.plan = stored ∙ ap plan_or_free there in
            let found = read-found v there in
            elim (plan-cases row) [
              | inl live ↦ inl (ap effective_plan found ∙ live ∙ sym named)
              | inr ended ↦ inr (inr (customer, paid, (row, found, ended, sym named)))
            ]
      ]
