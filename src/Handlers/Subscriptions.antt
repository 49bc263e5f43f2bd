-- ===== src/Handlers/Subscriptions.antt =====
-- internal/api/handlers/subscriptions.go: how Stripe's view of a subscription reaches the database.
-- The handlers run on the database tables; `Billing` is the Stripe client.
pub mod Webhook
pub mod Frame
pub mod Invariant
pub mod History
pub mod Sources
pub mod Entitlement
use upguardly_server.Base.{
  ℕ, ◌≡◌, Bool, true, false, not, ◌&&◌, ◌||◌, List, [], ◌∷◌, Option, none, some, String, Result, ok,
  err, ◌>>=◌, is_some, or_else, if◌then◌else◌, ◌=?◌, string_eq, ltb,
}
use mathlib.Core.Option
use upguardly_server.Models.Plan.{Plan, free, pro, enterprise}
use upguardly_server.Database.{
  Db, SubscriptionRow, SubscriptionStatus, active, trialing, past_due, canceled,
}
use upguardly_server.Database.Monitors.{find_subscription}
use upguardly_server.Database.Reconcile.{reconcile_monitors_to_plan}
use upguardly_server.Database.Subscriptions.{
  UpsertSubscriptionParams, upsert_subscription, upserted, find_customer,
}
use upguardly_server.Handlers.Limits.{effective_plan}

-- `stripe.Customer`: the id, and `Metadata["user_id"]`.
pub record StripeCustomer : Type 0 where
  pub id : String
  pub user_id : Option String

-- `stripe.SubscriptionItem`: `Price.ID`, and the period.
pub record StripeItem : Type 0 where
  pub price_id : Option String
  pub period_start : ℕ
  pub period_end : ℕ

pub record StripeSubscription : Type 0 where
  pub id : String
  pub status : String
  pub customer : Option StripeCustomer
  pub items : List StripeItem
  pub cancel_at_period_end : Bool

-- `stripe.Invoice`: whether it belongs to a subscription.
pub record StripeInvoice : Type 0 where
  pub customer : Option StripeCustomer
  pub of_subscription : Bool

-- `none` is a payload that does not parse.
pub data WebhookEvent : Type 0 where
  subscription_changed : Option StripeSubscription → WebhookEvent
  subscription_deleted : Option StripeSubscription → WebhookEvent
  payment_failed : Option StripeInvoice → WebhookEvent
  unhandled : WebhookEvent

-- The Stripe client: the configured prices, and the API's answers.
pub record Billing : Type 0 where
  pub pro_price : String
  pub enterprise_price : String
  -- `GetCustomer`: the user id of the customer's metadata, if the call succeeds.
  pub customer_user : String → Option String
  -- `FindCustomerByUser`, and `GetActiveSubscription`: an error, none, or the subscription.
  pub customer_of_user : String → Option String
  pub active_subscription : String → Result (Unit {0}) (Option StripeSubscription)

-- Which database calls fail; the reconcile fails at its first statement.
pub record Faults : Type 0 where
  pub read : Bool
  pub upsert : Bool
  pub reconcile : Bool

-- The plan in force for a user.
abbrev pub user_plan : Db → String → Plan
user_plan db user = effective_plan (find_subscription user db.subscriptions)

-- `oldPlan != newPlan`
unfoldable pub same_plan : Plan → Plan → Bool
same_plan free free = true
same_plan pro pro = true
same_plan enterprise enterprise = true
same_plan (Plan.other a) (Plan.other b) = a =? b
same_plan _ _ = false

abbrev pub read_subscription : Faults → Db → String → Option SubscriptionRow
read_subscription faults db user =
    if faults.read then none else find_subscription user db.subscriptions

abbrev pub store_subscription : UpsertSubscriptionParams → Db → Db
store_subscription params db = record db {
  subscriptions = upsert_subscription params db.subscriptions;
}

abbrev pub reconcile_if_moved : Faults → Db → String → Plan → Plan → ℕ → Db
reconcile_if_moved faults db user old new now =
    if not (same_plan old new) && not faults.reconcile
    then (reconcile_monitors_to_plan db user old new now).0
    else db

-- `syncSubscription`: the database, and the row if the write succeeds.
unfoldable pub sync_subscription :
    Faults → Db → UpsertSubscriptionParams → ℕ → Db × Option SubscriptionRow
sync_subscription faults db params now =
    let updated = upserted params (find_subscription params.user_id db.subscriptions) in
    if faults.upsert then (db, none) else (
      reconcile_if_moved faults (store_subscription params db) params.user_id
          (effective_plan (read_subscription faults db params.user_id))
          (effective_plan (some updated)) now,
      some updated,
    )

unfoldable pub map_stripe_status : String → SubscriptionStatus
map_stripe_status s =
    if s =? "active"
    then active
    else (if s =? "past_due" then past_due else (if s =? "trialing" then trialing else canceled))

unfoldable pub plan_from_price_id : Billing → String → Option Plan
plan_from_price_id b price =
    if price =? ""
    then some free
    else (if b.pro_price =? price
        then some pro
        else (if b.enterprise_price =? price then some enterprise else none))

abbrev first_price : List StripeItem → String
first_price [] = ""
first_price (i ∷ is) = or_else i.price_id ""

abbrev non_empty : String → Option String
non_empty s = if s =? "" then none else some s

abbrev first_start : List StripeItem → Option ℕ
first_start [] = none
first_start (i ∷ is) = if ltb 0 i.period_start then some i.period_start else none

abbrev first_end : List StripeItem → Option ℕ
first_end [] = none
first_end (i ∷ is) = if ltb 0 i.period_end then some i.period_end else none

abbrev customer_id : Option StripeCustomer → Option String
customer_id none = none
customer_id (some c) = non_empty c.id

abbrev params_on_plan : String → StripeSubscription → Plan → UpsertSubscriptionParams
params_on_plan user s plan = record {
  user_id = user;
  plan = plan;
  status = map_stripe_status s.status;
  stripe_customer_id = customer_id s.customer;
  stripe_subscription_id = some s.id;
  stripe_price_id = non_empty (first_price s.items);
  current_period_start = first_start s.items;
  current_period_end = first_end s.items;
  cancel_at_period_end = s.cancel_at_period_end;
}

-- `upsertParamsFromStripe`; `none` is an unrecognised price.
unfoldable pub upsert_params_from_stripe :
    Billing → String → StripeSubscription → Option UpsertSubscriptionParams
upsert_params_from_stripe b user s =
    Option.map (params_on_plan user s) (plan_from_price_id b (first_price s.items))

-- Params that give the user, the plan and the status only.
abbrev pub bare_params : String → Plan → SubscriptionStatus → UpsertSubscriptionParams
bare_params user plan status = record {
  user_id = user;
  plan = plan;
  status = status;
  stripe_customer_id = none;
  stripe_subscription_id = none;
  stripe_price_id = none;
  current_period_start = none;
  current_period_end = none;
  cancel_at_period_end = false;
}

abbrev known_user : Option SubscriptionRow → Option String
known_user none = none
known_user (some s) = if or_else s.stripe_customer_id "" =? "" then none else some s.user_id

abbrev non_empty_user : Option String → Option String
non_empty_user none = none
non_empty_user (some u) = non_empty u

abbrev first_some : Option String → Option String → Option String
first_some none b = b
first_some (some a) b = some a

-- `getUserIDFromCustomer`: the event's metadata, then the database, then Stripe.
unfoldable pub user_of_customer : Billing → Faults → Db → Option StripeCustomer → Option String
user_of_customer b faults db none = none
user_of_customer b faults db (some c) = first_some (non_empty_user c.user_id) (
    first_some (if faults.read then none else known_user (find_customer c.id db.subscriptions))
      (non_empty_user (b.customer_user c.id)))
