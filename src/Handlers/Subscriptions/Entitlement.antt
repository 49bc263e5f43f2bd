-- ===== src/Handlers/Subscriptions/Entitlement.antt =====
-- What a Stripe event can change in a user's plan (internal/api/handlers/subscriptions.go).

use upguardly_server.Base.{
  ℕ, ◌≡◌, refl, sym, ap, subst, ◌∙◌, Option, none, some, String, string_eq, inl, inr, Bool-cases,
  Option-cases,
}
use upguardly_server.Models.Plan.{free}
use upguardly_server.Database.{Db, canceled, past_due}
use upguardly_server.Handlers.Subscriptions.{
  Billing, Faults, WebhookEvent, subscription_changed, subscription_deleted, payment_failed,
  unhandled, sync_subscription, plan_from_price_id, first_price, user_of_customer, bare_params,
  upsert_params_from_stripe, params_on_plan, StripeSubscription, StripeInvoice, read_subscription,
}
use upguardly_server.Handlers.Subscriptions.Webhook.{
  stripe_webhook, handle_subscription_updated, handle_subscription_deleted, handle_payment_failed,
  plan_or_free,
}
use upguardly_server.Handlers.Subscriptions.Sources.{
  Justified, synced-Justified, sold_at, entitling, failed-Source,
}

module _ (b : Billing) (faults : Faults) (db : Db) (now : ℕ) where
  changed-Justified :
      (s : Option StripeSubscription) (v : String)
      → Justified b faults db now
          (subscription_changed s)
          (handle_subscription_updated b faults db now s)
          v
  unfolding handle_subscription_updated upsert_params_from_stripe
  changed-Justified none v = inl refl
  changed-Justified (some s) v = elim (Option-cases (user_of_customer b faults db s.customer)) [
    | inl e ↦
        let same : handle_subscription_updated b faults db now (some s) ≡ db =
          rw (handle_subscription_updated, e) refl in
        subst (λ d. Justified b faults db now (subscription_changed (some s)) d v) (sym same)
          (inl refl)
    | inr (user, e) ↦ elim (Option-cases (plan_from_price_id b (first_price s.items))) [
      | inl f ↦
          let same : handle_subscription_updated b faults db now (some s) ≡ db =
            rw (handle_subscription_updated, e, f) refl in
          subst (λ d. Justified b faults db now (subscription_changed (some s)) d v) (sym same)
            (inl refl)
      | inr (plan, f) ↦
          let p = params_on_plan user s plan in
          let same : handle_subscription_updated b faults db now (some s)
              ≡ (sync_subscription faults db p now).0 =
            rw (handle_subscription_updated, e, f) refl in
          subst (λ d. Justified b faults db now (subscription_changed (some s)) d v) (sym same)
            (synced-Justified b faults db now (subscription_changed (some s)) p v (λ mine live.
              inr (elim (sold_at b faults db now (first_price s.items) plan f) [
                | inl nothing ↦ inl nothing
                | inr sold ↦ inr (e ∙ ap some mine, entitling b faults db now s.status live, sold)
              ])))
    ]
  ]

  deleted-Justified :
      (s : Option StripeSubscription) (v : String)
      → Justified b faults db now
          (subscription_deleted s)
          (handle_subscription_deleted b faults db now s)
          v
  unfolding handle_subscription_deleted
  deleted-Justified none v = inl refl
  deleted-Justified (some s) v = elim (Option-cases (user_of_customer b faults db s.customer)) [
    | inl e ↦
        let same : handle_subscription_deleted b faults db now (some s) ≡ db =
          rw (handle_subscription_deleted, e) refl in
        subst (λ d. Justified b faults db now (subscription_deleted (some s)) d v) (sym same)
          (inl refl)
    | inr (user, e) ↦
        let p = bare_params user free canceled in
        let same : handle_subscription_deleted b faults db now (some s)
            ≡ (sync_subscription faults db p now).0 =
          rw (handle_subscription_deleted, e) refl in
        subst (λ d. Justified b faults db now (subscription_deleted (some s)) d v) (sym same)
          (synced-Justified b faults db now (subscription_deleted (some s)) p v
            (λ mine live. elim (live refl) [ ]))
  ]

  failed-Justified :
      (inv : Option StripeInvoice) (v : String)
      → Justified b faults db now (payment_failed inv) (handle_payment_failed b faults db now inv) v
  unfolding handle_payment_failed
  failed-Justified none v = inl refl
  failed-Justified (some inv) v = elim (Bool-cases inv.of_subscription) [
    | inr other ↦
        let same : handle_payment_failed b faults db now (some inv) ≡ db =
          rw (handle_payment_failed, other) refl in
        subst (λ d. Justified b faults db now (payment_failed (some inv)) d v) (sym same) (inl refl)
    | inl paid ↦ elim (Option-cases (user_of_customer b faults db inv.customer)) [
      | inl e ↦
          let same : handle_payment_failed b faults db now (some inv) ≡ db =
            rw (handle_payment_failed, paid, e) refl in
          subst (λ d. Justified b faults db now (payment_failed (some inv)) d v) (sym same)
            (inl refl)
      | inr (user, e) ↦
          let p = bare_params user (plan_or_free (read_subscription faults db user)) past_due in
          let same : handle_payment_failed b faults db now (some inv)
              ≡ (sync_subscription faults db p now).0 =
            rw (handle_payment_failed, paid, e) refl in
          subst (λ d. Justified b faults db now (payment_failed (some inv)) d v) (sym same)
            (synced-Justified b faults db now (payment_failed (some inv)) p v (λ mine live.
              failed-Source b faults db now inv v (e ∙ ap some mine) paid
                (ap (λ u. plan_or_free (read_subscription faults db u)) mine)))
    ]
  ]

  -- A webhook event leaves a user's plan in force as it was, takes it to FREE, or gives the plan that
  -- the deployment sells at the price of the user's changed subscription, whose status at Stripe is
  -- active, past due or trialing. The one further case is a failed payment of a user whose record is
  -- CANCELED and still names a plan: that plan is in force again.
  pub stripe_webhook-Justified :
      (e : WebhookEvent) (v : String)
      → Justified b faults db now e (stripe_webhook b faults db now e) v
  unfolding stripe_webhook
  stripe_webhook-Justified (subscription_changed s) v = changed-Justified s v
  stripe_webhook-Justified (subscription_deleted s) v = deleted-Justified s v
  stripe_webhook-Justified (payment_failed inv) v = failed-Justified inv v
  stripe_webhook-Justified unhandled v = inl refl
