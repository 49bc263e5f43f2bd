-- ===== src/Handlers/Subscriptions/History.antt =====
-- Sequences of billing events (internal/api/handlers/subscriptions.go), in any order.
use upguardly_server.Base.{
  ℕ, ◌≡◌, ◌⊎◌, refl, sym, subst, Bool, false, Option, none, some, String, Result, ok, err, inl, inr,
  Option-cases, if◌then◌else◌, Bool-cases,
}
use upguardly_server.Database.{Db, SubscriptionRow, canceled, past_due}
use upguardly_server.Database.Subscriptions.{UpsertSubscriptionParams}
use upguardly_server.Handlers.Subscriptions.{
  Billing, Faults, WebhookEvent, subscription_changed, subscription_deleted, payment_failed,
  unhandled, sync_subscription, StripeSubscription, StripeInvoice, user_of_customer, bare_params,
  same_plan, read_subscription, upsert_params_from_stripe,
}
use upguardly_server.Handlers.Subscriptions.Webhook.{
  stripe_webhook, handle_subscription_updated, handle_subscription_deleted, handle_payment_failed,
  sync_if_known, reconcile_subscription, respond_with_cancel, drop_stale, on_answer, customer_for,
  flag_params, plan_or_free,
}
use upguardly_server.Models.Plan.{free}
use upguardly_server.Handlers.Subscriptions.Frame.{sync_subscription-organizations}
use upguardly_server.Handlers.Subscriptions.Invariant.{
  OneOwner, AllComply, sync_subscription-AllComply,
}

-- Reads and reconciles succeed; the write may fail.
abbrev pub write_fails : Bool → Faults
write_fails b = record { read = false; upsert = b; reconcile = false }

-- One billing event: a webhook, a refresh on a read of the subscription, or a cancel or resume of
-- the row that was read.
pub data BillingStep (b : Billing) : Db → Db → Type 0 where
  webhook :
      (fails : Bool) {db : Db} (now : ℕ) (e : WebhookEvent)
      → BillingStep b db (stripe_webhook b (write_fails fails) db now e)
  refresh :
      (fails : Bool) {db : Db} (now : ℕ) (user : String) (row : Option SubscriptionRow)
      → BillingStep b db (reconcile_subscription b (write_fails fails) db now user row).0
  set_cancel :
      (fails : Bool) {db : Db} (now : ℕ) (user : String) (row : SubscriptionRow) (cancel : Bool)
      → BillingStep b db (respond_with_cancel b (write_fails fails) db now user row cancel).0

pub data History (b : Billing) : Db → Db → Type 0 where
  start : {db : Db} → History b db db
  step : {d1 d2 d3 : Db} → History b d1 d2 → BillingStep b d2 d3 → History b d1 d3

-- Organizations have one owner each, and every monitor is within its payer's plan.
abbrev pub Sound : Db → Type 0
Sound db = OneOwner db.organizations × AllComply db

sync_subscription-Sound :
    (fails : Bool) (db : Db) (p : UpsertSubscriptionParams) (now : ℕ)
    → Sound db
    → Sound (sync_subscription (write_fails fails) db p now).0
sync_subscription-Sound fails db p now (one, h) = (
  subst OneOwner (sym (sync_subscription-organizations (write_fails fails) db p now)) one,
  sync_subscription-AllComply (write_fails fails) db p now refl refl one h,
)

module _ (b : Billing) (fails : Bool) (db : Db) (now : ℕ) where
  abbrev faults : Faults
  faults = write_fails fails

  -- Nothing, or one subscription change.
  abbrev Synced : Db → Type 0
  Synced db' =
      (db' ≡ db) ⊎ ((p : UpsertSubscriptionParams) × (db' ≡ (sync_subscription faults db p now).0))

  Synced-Sound : {db' : Db} → Synced db' → Sound db → Sound db'
  Synced-Sound (inl same) h = subst Sound (sym same) h
  Synced-Sound (inr (p, same)) h = subst Sound (sym same) (sync_subscription-Sound fails db p now h)

  sync_if_known-Synced :
      (o : Option UpsertSubscriptionParams) → Synced (sync_if_known b faults db now o).0
  sync_if_known-Synced none = inl refl
  sync_if_known-Synced (some p) = inr (p, refl)

  updated-Synced :
      (s : Option StripeSubscription) → Synced (handle_subscription_updated b faults db now s)
  unfolding handle_subscription_updated
  updated-Synced none = inl refl
  updated-Synced (some s) = elim (Option-cases (user_of_customer b faults db s.customer)) [
    | inl e ↦ inl (rw (handle_subscription_updated, e) refl)
    | inr (user, e) ↦
        subst Synced (rw (handle_subscription_updated, e) refl)
          (sync_if_known-Synced (upsert_params_from_stripe b user s))
  ]

  deleted-Synced :
      (s : Option StripeSubscription) → Synced (handle_subscription_deleted b faults db now s)
  unfolding handle_subscription_deleted
  deleted-Synced none = inl refl
  deleted-Synced (some s) = elim (Option-cases (user_of_customer b faults db s.customer)) [
    | inl e ↦ inl (rw (handle_subscription_deleted, e) refl)
    | inr (user, e) ↦ inr (bare_params user free canceled, rw (handle_subscription_deleted, e) refl)
  ]

  failed-Synced : (inv : Option StripeInvoice) → Synced (handle_payment_failed b faults db now inv)
  unfolding handle_payment_failed
  failed-Synced none = inl refl
  failed-Synced (some inv) =
      elim (Option-cases
        (if inv.of_subscription then user_of_customer b faults db inv.customer else none)) [
          | inl e ↦ inl (rw (handle_payment_failed, e) refl)
          | inr (user, e) ↦ inr (
            bare_params user (plan_or_free (read_subscription faults db user)) past_due,
            rw (handle_payment_failed, e) refl,
          )
        ]

  stripe_webhook-Synced : (e : WebhookEvent) → Synced (stripe_webhook b faults db now e)
  unfolding stripe_webhook
  stripe_webhook-Synced (subscription_changed s) = updated-Synced s
  stripe_webhook-Synced (subscription_deleted s) = deleted-Synced s
  stripe_webhook-Synced (payment_failed inv) = failed-Synced inv
  stripe_webhook-Synced unhandled = inl refl

  drop_stale-Synced :
      (user : String) (row : Option SubscriptionRow)
      → Synced (drop_stale b faults db now user row).0
  drop_stale-Synced user none = inl refl
  drop_stale-Synced user (some s) = elim (Bool-cases (same_plan s.plan free)) [
    | inl e ↦ inl (rw e refl)
    | inr e ↦ inr (bare_params user free canceled, rw e refl)
  ]

  answer-Synced :
      (user : String) (row : Option SubscriptionRow)
      (a : Result (Unit {0}) (Option StripeSubscription))
      → Synced (on_answer b faults db now user row a).0
  answer-Synced user row (err e) = inl refl
  answer-Synced user row (ok none) = drop_stale-Synced user row
  answer-Synced user row (ok (some s)) = sync_if_known-Synced (upsert_params_from_stripe b user s)

  reconcile-Synced :
      (user : String) (row : Option SubscriptionRow)
      → Synced (reconcile_subscription b faults db now user row).0
  unfolding reconcile_subscription
  reconcile-Synced user row = elim (Option-cases (customer_for b faults db now user row)) [
    | inl e ↦ inl (rw (reconcile_subscription, e) refl)
    | inr (c, e) ↦
        subst Synced (rw (reconcile_subscription, e) refl)
          (answer-Synced user row (b.active_subscription c))
  ]

BillingStep-Sound : {b : Billing} {d1 d2 : Db} → BillingStep b d1 d2 → Sound d1 → Sound d2
unfolding respond_with_cancel
BillingStep-Sound {b} (webhook fails {db} now e) h =
    Synced-Sound b fails db now (stripe_webhook-Synced b fails db now e) h
BillingStep-Sound {b} (refresh fails {db} now user row) h =
    Synced-Sound b fails db now (reconcile-Synced b fails db now user row) h
BillingStep-Sound (set_cancel fails {db} now user row cancel) h =
    sync_subscription-Sound fails db (flag_params user row cancel) now h

-- After any sequence of webhooks, refreshes, cancels and resumes whose reads and reconciles succeed,
-- every monitor is within the plan in force for its payer, if every monitor was at the start.
pub History-Sound : {b : Billing} {d1 d2 : Db} → History b d1 d2 → Sound d1 → Sound d2
History-Sound start h = h
History-Sound (step past s) h = BillingStep-Sound s (History-Sound past h)
