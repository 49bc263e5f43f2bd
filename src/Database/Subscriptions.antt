-- ===== src/Database/Subscriptions.antt =====
-- internal/database/bun/store.go: the subscriptions table, one row for each user.
use upguardly_server.Base.{
  ℕ, ◌≡◌, refl, Bool, false, List, [], ◌∷◌, Option, none, some, String, arith, if◌then◌else◌, ◌=?◌,
  string_eq, Bool-cases, inl, inr,
}
use text.Mathlib.TextEquality.{eq_iff}
use upguardly_server.Models.Plan.{Plan}
use upguardly_server.Database.{SubscriptionRow, SubscriptionStatus}
use upguardly_server.Database.Monitors.{find_subscription}

pub record UpsertSubscriptionParams : Type 0 where
  pub user_id : String
  pub plan : Plan
  pub status : SubscriptionStatus
  pub stripe_customer_id : Option String
  pub stripe_subscription_id : Option String
  pub stripe_price_id : Option String
  pub current_period_start : Option ℕ
  pub current_period_end : Option ℕ
  pub cancel_at_period_end : Bool

abbrev pub coalesce {ℓ} : {A : Type ℓ} → Option A → Option A → Option A
coalesce none old = old
coalesce (some v) old = some v

-- `ON CONFLICT (user_id) DO UPDATE SET …`
unfoldable pub merged : UpsertSubscriptionParams → SubscriptionRow → SubscriptionRow
merged p s = record s {
  plan = p.plan;
  status = p.status;
  stripe_customer_id = coalesce p.stripe_customer_id s.stripe_customer_id;
  stripe_subscription_id = coalesce p.stripe_subscription_id s.stripe_subscription_id;
  stripe_price_id = coalesce p.stripe_price_id s.stripe_price_id;
  current_period_start = coalesce p.current_period_start s.current_period_start;
  current_period_end = coalesce p.current_period_end s.current_period_end;
  cancel_at_period_end = p.cancel_at_period_end;
}

unfoldable pub fresh : UpsertSubscriptionParams → SubscriptionRow
fresh p = record {
  user_id = p.user_id;
  plan = p.plan;
  status = p.status;
  stripe_customer_id = p.stripe_customer_id;
  stripe_subscription_id = p.stripe_subscription_id;
  stripe_price_id = p.stripe_price_id;
  current_period_start = p.current_period_start;
  current_period_end = p.current_period_end;
  cancel_at_period_end = p.cancel_at_period_end;
}

-- The table after `UpsertSubscription`.
unfoldable pub upsert_subscription :
    UpsertSubscriptionParams → List SubscriptionRow → List SubscriptionRow
upsert_subscription p [] = fresh p ∷ []
upsert_subscription p (s ∷ ss) =
    if s.user_id =? p.user_id then merged p s ∷ ss else s ∷ upsert_subscription p ss

-- `RETURNING *`
abbrev pub upserted : UpsertSubscriptionParams → Option SubscriptionRow → SubscriptionRow
upserted p none = fresh p
upserted p (some s) = merged p s

abbrev has_customer : Option String → String → Bool
has_customer none id = false
has_customer (some c) id = c =? id

-- `GetSubscriptionByCustomerID`
unfoldable pub find_customer : String → List SubscriptionRow → Option SubscriptionRow
find_customer id [] = none
find_customer id (s ∷ ss) =
    if has_customer s.stripe_customer_id id then some s else find_customer id ss

-- An upsert sets the row of its user, merged with the row that was there, and leaves the rows of
-- the other users as they were.
pub find_subscription-upsert :
    (p : UpsertSubscriptionParams) (ss : List SubscriptionRow) (v : String)
    → find_subscription v (upsert_subscription p ss) ≡ (
        if p.user_id =? v
        then some (upserted p (find_subscription p.user_id ss))
        else find_subscription v ss)
unfolding find_subscription upsert_subscription merged fresh
find_subscription-upsert p [] v = refl
find_subscription-upsert p (s ∷ ss) v = elim (Bool-cases (s.user_id =? p.user_id)) [
  | inl h ↦
      let same : s.user_id ≡ p.user_id = (eq_iff s.user_id p.user_id).0 h in
      rw (h, same) (ground arith)
  | inr h ↦ ground (
    arith,
    h,
    eq_iff s.user_id v,
    eq_iff p.user_id v,
    eq_iff s.user_id p.user_id,
    find_subscription-upsert p ss v,
  )
]
