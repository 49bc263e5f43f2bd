-- ===== src/Tests/Billing.antt =====
-- A downgrade of the sample account.
use text.Mathlib.TextEquality.{eq_iff}
use upguardly_server.Base.{
  ◌≡◌, refl, sym, subst, ◌∙◌, true, false, [], none, some, String, ok, filter, not, string_eq,
  arith,
}
use upguardly_server.Models.Plan.{free, enterprise, limits_for_plan}
use upguardly_server.Database.Monitors.{in_billing_scope, owns_organization, find_subscription}
use upguardly_server.Database.Reconcile.{reconcile_monitors_to_plan}
use upguardly_server.Database.Reconcile.Complies.{
  Complies, BilledComply, reconcile_monitors_to_plan-Complies, reconcile_monitors_to_plan_others,
}
use upguardly_server.Handlers.Limits.{effective_plan}
use upguardly_server.Handlers.Subscriptions.{
  Billing, StripeSubscription, subscription_deleted, user_plan,
}
use upguardly_server.Handlers.Subscriptions.Webhook.{stripe_webhook}
use upguardly_server.Handlers.Subscriptions.Invariant.{OneOwner, AllComply}
use upguardly_server.Handlers.Subscriptions.History.{
  start, step, webhook, Sound, History-Sound, write_fails,
}
use upguardly_server.Handlers.Subscriptions.Sources.{Justified}
use upguardly_server.Handlers.Subscriptions.Entitlement.{stripe_webhook-Justified}
use upguardly_server.Tests.Data.{db, owned_row}

owned_within : Complies (limits_for_plan enterprise) owned_row
unfolding limits_for_plan
owned_within = ground arith

billed_within : BilledComply db "ann" enterprise db.monitors
billed_within = (λ s. owned_within, tt)

reconcile_monitors_to_plan-Complies_example :
    BilledComply db "ann" free (reconcile_monitors_to_plan db "ann" enterprise free 50).0.monitors
reconcile_monitors_to_plan-Complies_example =
    reconcile_monitors_to_plan-Complies db "ann" enterprise free 50 billed_within

reconcile_monitors_to_plan_others_example :
    filter
      (λ m. not (in_billing_scope db "bob" m))
      (reconcile_monitors_to_plan db "bob" enterprise free 50).0.monitors
    ≡ filter (λ m. not (in_billing_scope db "bob" m)) db.monitors
reconcile_monitors_to_plan_others_example =
    reconcile_monitors_to_plan_others db "bob" enterprise free 50

one_owner : OneOwner db.organizations
unfolding owns_organization
one_owner org a b ha hb =
    let first : "ann" ≡ a = (eq_iff "ann" a).0 (ground (arith, ha)) in
    let second : "ann" ≡ b = (eq_iff "ann" b).0 (ground (arith, hb)) in sym first ∙ second

ann_plan : user_plan db "ann" ≡ enterprise
unfolding effective_plan find_subscription
ann_plan = refl

payer : (user : String) → in_billing_scope db user owned_row ≡ true → "ann" ≡ user
unfolding in_billing_scope owns_organization
payer user s = (eq_iff "ann" user).0 (ground (arith, s))

all_comply : AllComply db
all_comply user = (
  λ s.
      subst (λ u. Complies (limits_for_plan (user_plan db u)) owned_row) (payer user s)
        (subst (λ p. Complies (limits_for_plan p) owned_row) (sym ann_plan) owned_within),
  tt,
)

abbrev billing : Billing
billing = record {
  pro_price = "price_pro";
  enterprise_price = "price_ent";
  customer_user = λ c. none;
  customer_of_user = λ u. none;
  active_subscription = λ c. ok none;
}

abbrev ended : StripeSubscription
ended = record {
  id = "sub_1";
  status = "canceled";
  customer = some (record { id = "cus_1"; user_id = none });
  items = [];
  cancel_at_period_end = false;
}

History-Sound_example :
    Sound (stripe_webhook billing (write_fails false) db 50 (subscription_deleted (some ended)))
History-Sound_example =
    History-Sound (step start (webhook false {db = db} 50 (subscription_deleted (some ended))))
      (one_owner, all_comply)

stripe_webhook-Justified_example :
    Justified billing
      (write_fails false)
      db
      50
      (subscription_deleted (some ended))
      (stripe_webhook billing (write_fails false) db 50 (subscription_deleted (some ended)))
      "ann"
stripe_webhook-Justified_example =
    stripe_webhook-Justified billing (write_fails false) db 50 (subscription_deleted (some ended))
      "ann"
