-- ===== src/Handlers/Subscriptions/Webhook.antt =====
-- internal/api/handlers/subscriptions.go: the webhook's handlers, the reconcile against Stripe, and
-- the user's cancel and resume. Each returns the database; an ignored event leaves it alone.
use upguardly_server.Base.{
  ℕ, Bool, true, false, Option, none, some, String, Result, ok, err, if◌then◌else◌, string_eq,
  is_some, or_else,
}
use upguardly_server.Models.Plan.{Plan, free}
use upguardly_server.Database.{Db, SubscriptionRow, past_due, canceled}
use upguardly_server.Database.Subscriptions.{UpsertSubscriptionParams}
use upguardly_server.Handlers.Limits.{effective_plan}
use upguardly_server.Handlers.Subscriptions.{
  Billing, Faults, StripeSubscription, StripeInvoice, WebhookEvent, subscription_changed,
  subscription_deleted, payment_failed, unhandled, sync_subscription, upsert_params_from_stripe,
  bare_params, read_subscription, user_of_customer, same_plan,
}

-- `existingPlan`
abbrev pub plan_or_free : Option SubscriptionRow → Plan
plan_or_free none = free
plan_or_free (some s) = s.plan

-- `CancelAtPeriodEnd` written back with the row that was read.
abbrev pub flag_params : String → SubscriptionRow → Bool → UpsertSubscriptionParams
flag_params user s cancel = record {
  user_id = user;
  plan = s.plan;
  status = s.status;
  stripe_customer_id = s.stripe_customer_id;
  stripe_subscription_id = s.stripe_subscription_id;
  stripe_price_id = s.stripe_price_id;
  current_period_start = s.current_period_start;
  current_period_end = s.current_period_end;
  cancel_at_period_end = cancel;
}

module _ (b : Billing) (faults : Faults) (db : Db) (now : ℕ) where
  abbrev pub sync_if_known : Option UpsertSubscriptionParams → Db × Option SubscriptionRow
  sync_if_known none = (db, none)
  sync_if_known (some params) = sync_subscription faults db params now

  -- `handleSubscriptionUpdated`
  unfoldable pub handle_subscription_updated : Option StripeSubscription → Db
  handle_subscription_updated none = db
  handle_subscription_updated (some s) = elim (user_of_customer b faults db s.customer) [
    | none ↦ db
    | some user ↦ (sync_if_known (upsert_params_from_stripe b user s)).0
  ]

  -- `handleSubscriptionDeleted`
  unfoldable pub handle_subscription_deleted : Option StripeSubscription → Db
  handle_subscription_deleted none = db
  handle_subscription_deleted (some s) = elim (user_of_customer b faults db s.customer) [
    | none ↦ db
    | some user ↦ (sync_subscription faults db (bare_params user free canceled) now).0
  ]

  -- `handlePaymentFailed`
  unfoldable pub handle_payment_failed : Option StripeInvoice → Db
  handle_payment_failed none = db
  handle_payment_failed (some inv) =
      elim (if inv.of_subscription then user_of_customer b faults db inv.customer else none) [
        | none ↦ db
        | some user ↦
            (sync_subscription faults db
              (bare_params user (plan_or_free (read_subscription faults db user)) past_due) now).0
      ]

  -- `StripeWebhook`, after the signature check.
  unfoldable pub stripe_webhook : WebhookEvent → Db
  unfolding handle_subscription_updated handle_subscription_deleted handle_payment_failed
  stripe_webhook (subscription_changed s) = handle_subscription_updated s
  stripe_webhook (subscription_deleted s) = handle_subscription_deleted s
  stripe_webhook (payment_failed inv) = handle_payment_failed inv
  stripe_webhook unhandled = db

  abbrev pub customer_for : String → Option SubscriptionRow → Option String
  customer_for user none = b.customer_of_user user
  customer_for user (some s) =
      if is_some s.stripe_customer_id then s.stripe_customer_id else b.customer_of_user user

  -- No subscription at Stripe: a stale paid record is downgraded.
  abbrev pub drop_stale : String → Option SubscriptionRow → Db × Option SubscriptionRow
  drop_stale user none = (db, none)
  drop_stale user (some s) =
      if same_plan s.plan free
      then (db, none)
      else sync_subscription faults db (bare_params user free canceled) now

  -- What Stripe says of the customer; an error leaves the record to the next read.
  abbrev pub on_answer :
      String
      → Option SubscriptionRow
      → Result (Unit {0}) (Option StripeSubscription)
      → Db × Option SubscriptionRow
  on_answer user row (err e) = (db, none)
  on_answer user row (ok none) = drop_stale user row
  on_answer user row (ok (some s)) = sync_if_known (upsert_params_from_stripe b user s)

  -- `reconcileSubscription`
  unfoldable pub reconcile_subscription :
      String → Option SubscriptionRow → Db × Option SubscriptionRow
  reconcile_subscription user row = elim (customer_for user row) [
    | none ↦ (db, none)
    | some customer ↦ on_answer user row (b.active_subscription customer)
  ]

  -- `respondWithCancelAtPeriodEnd`
  unfoldable pub respond_with_cancel : String → SubscriptionRow → Bool → Db × SubscriptionRow
  respond_with_cancel user s cancel =
      let (db', updated) = sync_subscription faults db (flag_params user s cancel) now in
      (db', or_else updated (record s { cancel_at_period_end = cancel }))

  -- `CancelSubscription` once Stripe has scheduled it; the status code otherwise. `stripe_ok` is
  -- whether the call to Stripe succeeds.
  unfoldable pub cancel_subscription : Bool → String → Result ℕ (Db × SubscriptionRow)
  unfolding respond_with_cancel
  cancel_subscription stripe_ok user = elim (read_subscription faults db user) [
    | none ↦ err 404
    | some s ↦
        if is_some s.stripe_subscription_id
        then (if stripe_ok then ok (respond_with_cancel user s true) else err 500)
        else err 404
  ]

  -- `ResumeSubscription`
  unfoldable pub resume_subscription : Bool → String → Result ℕ (Db × SubscriptionRow)
  unfolding respond_with_cancel
  resume_subscription stripe_ok user = elim (read_subscription faults db user) [
    | none ↦ err 404
    | some s ↦
        if is_some s.stripe_subscription_id
        then (if same_plan (effective_plan (some s)) free
            then err 409
            else (if stripe_ok then ok (respond_with_cancel user s false) else err 500))
        else err 404
  ]
