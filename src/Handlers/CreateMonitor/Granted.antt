-- ===== src/Handlers/CreateMonitor/Granted.antt =====
-- What CreateMonitor (internal/api/handlers/monitors.go) hands to the store.
use upguardly_server.Base.{
  ◌≡◌, ◌≢◌, ◌⊎◌, ◌≤ℤ◌, ◌<ℤ◌, refl, ap, subst, Bool, true, false, not, List, [], Option, none, some,
  String, ℤ, pos, Result, ok, err, arith, >>=-eq-ok, refuse-eq-ok, ok-injective, refuse, Distinct,
  All, contains, length, string_eq, ◌=?◌, inl, inr, Bool-cases,
}
use text.Mathlib.TextEquality.{eq_iff}
use upguardly_server.Models.Plan.{PlanLimits, limits_for_plan, unlimited, Plan, effective_interval}
use upguardly_server.Models.Role.{OrgRole, member, role_at_least}
use upguardly_server.Models.Region.{valid_region}
use upguardly_server.Models.Monitor.{CreateMonitorRequest, CreateMonitorParams, set_defaults}
use upguardly_server.Models.Monitor.Bounds.{
  InBounds, DegradedInRange, RepeatInRange, IntervalInRange, validate_create_iff,
}
use upguardly_server.Models.Monitor.Validate.{validate_create}
use upguardly_server.Handlers.{Problem, Refusal, Store, Deployment, Workspace, because}
use upguardly_server.Handlers.Limits.{billing_owner, plan_for_user}
use upguardly_server.Handlers.Settings.{
  threshold_arg, repeat_args, interval_arg, Settings, settings, requested_regions, or_refuse,
  region_refusal, expiry_update,
}
use upguardly_server.Handlers.Regions.{Allowed, validate_regions, validate_regions-Allowed}
use upguardly_server.Handlers.CreateMonitor.{
  Prepared, prepare_create, resolve_workspace, require_role, enabled_arg,
}

-- A stored interval, with the timeout under it; without one, under the plan's minimum.
abbrev pub IntervalGranted : PlanLimits → ℤ → Option ℤ → Type 0
IntervalGranted l timeout none = timeout <ℤ l.min_interval
IntervalGranted l timeout (some v) = (l.min_interval ≤ℤ v) × (v ≤ℤ pos 86400) × (timeout <ℤ v)

abbrev pub ThresholdGranted : PlanLimits → Option ℤ → Type 0
ThresholdGranted l none = Unit
ThresholdGranted l (some v) =
    (l.custom_degraded_threshold ≡ true) × (pos 100 ≤ℤ v) × (v ≤ℤ pos 60000)

-- Both columns or neither.
abbrev pub RepeatsGranted : PlanLimits → Option ℤ → Option ℤ → Type 0
RepeatsGranted l none none = Unit
RepeatsGranted l (some i) (some c) =
    (pos 300 ≤ℤ i) × (i ≤ℤ pos 86400) × (pos 1 ≤ℤ c) × (c ≤ℤ l.max_alert_repeats)
RepeatsGranted l _ _ = ⊥

module _ (l : PlanLimits) where
  threshold_arg-Granted :
      (v : Option ℤ) {out : Option ℤ}
      → DegradedInRange v
      → threshold_arg l v ≡ ok out
      → ThresholdGranted l out
  unfolding threshold_arg
  threshold_arg-Granted none {out} b h = ground arith
  threshold_arg-Granted (some v) {out} b h = ground arith

  repeat_args-Granted :
      (i c : Option ℤ) {out : Option ℤ × Option ℤ}
      → RepeatInRange i c
      → repeat_args l i c ≡ ok out
      → RepeatsGranted l out.0 out.1
  unfolding repeat_args
  repeat_args-Granted none c {out} b h = ground arith
  repeat_args-Granted (some i) c {out} b h = ground arith

  interval_arg-Granted :
      (v t : ℤ) {out : Option ℤ}
      → IntervalInRange v t
      → interval_arg l v t ≡ ok out
      → IntervalGranted l t out
  unfolding interval_arg
  interval_arg-Granted v t {out} b h = ground arith

  effective_interval-above :
      (v : Option ℤ) (t : ℤ) (plan : Plan)
      → IntervalGranted l t v
      → t <ℤ effective_interval v plan t
  unfolding effective_interval
  effective_interval-above none t plan h = ground arith
  effective_interval-above (some v) t plan h = ground arith

record SettingsGranted (available : List String) (l : PlanLimits) (r : CreateMonitorRequest)
    (s : Settings) : Type 0 where
  regions : Allowed available (requested_regions r.regions) l s.regions
  threshold : ThresholdGranted l s.threshold
  repeats : RepeatsGranted l s.repeats.0 s.repeats.1
  interval : IntervalGranted l r.timeout s.interval

pub or_refuse-eq-ok {ℓ} :
    {E A : Type ℓ} (f : E → Refusal) (m : Result E A) {a : A} → or_refuse f m ≡ ok a → m ≡ ok a
or_refuse-eq-ok f (ok a) h = ap ok (ok-injective h)
or_refuse-eq-ok f (err e) h = cc

settings-Granted :
    (available : List String) (l : PlanLimits) (r : CreateMonitorRequest) {s : Settings}
    → InBounds r
    → settings available l r ≡ ok s
    → SettingsGranted available l r s
unfolding settings
settings-Granted available l r {s} b h =
    let (regions, regions_ok, h1) =
      >>=-eq-ok
        (or_refuse region_refusal (validate_regions available (requested_regions r.regions) l)) _
        h in
    let (threshold, threshold_ok, h2) = >>=-eq-ok (threshold_arg l r.degraded_threshold_ms) _ h1 in
    let (repeats, repeats_ok, h3) =
      >>=-eq-ok (repeat_args l r.repeat_alert_interval_secs r.repeat_alert_max_count) _ h2 in
    let (interval, interval_ok, h4) = >>=-eq-ok (interval_arg l r.interval r.timeout) _ h3 in
    let (expiry, _, h5) = >>=-eq-ok (expiry_update l r) _ h4 in
    subst (SettingsGranted available l r) (ok-injective h5) (record {
      regions =
          validate_regions-Allowed available (requested_regions r.regions) l
            (or_refuse-eq-ok region_refusal _ regions_ok);
      threshold = threshold_arg-Granted l r.degraded_threshold_ms b.degraded threshold_ok;
      repeats =
          repeat_args-Granted l r.repeat_alert_interval_secs r.repeat_alert_max_count b.repeats
            repeats_ok;
      interval = interval_arg-Granted l r.interval r.timeout b.interval interval_ok;
    })

-- The parameters of a new monitor, against the plan that pays for it.
pub record Granted (available : List String) (l : PlanLimits) (p : CreateMonitorParams)
    : Type 0 where
  pub timeout : (pos 5 ≤ℤ p.timeout) × (p.timeout ≤ℤ pos 300)
  pub interval : IntervalGranted l p.timeout p.interval
  pub distinct : Distinct p.regions
  pub registered : All (λ r. valid_region r ≡ true) p.regions
  pub deployed : All (λ r. contains available r ≡ true) p.regions
  pub some_region : p.regions ≢ []
  pub capped : (l.max_regions ≡ unlimited) ⊎ (pos (length p.regions) ≤ℤ l.max_regions)
  pub threshold : ThresholdGranted l p.degraded_threshold_ms
  pub repeats : RepeatsGranted l p.repeat_alert_interval_secs p.repeat_alert_max_count
  pub quota : p.max_monitors ≡ l.max_monitors

true_of_not : {b : Bool} → not b ≡ false → b ≡ true
true_of_not {b} h = ground arith

require_role-cases :
    (org : String) (role : OrgRole) {u : Unit {0}}
    → require_role org role ≡ ok u
    → (org ≡ "") ⊎ (role_at_least role member ≡ true)
unfolding require_role
require_role-cases org role h = elim (Bool-cases (org =? "")) [
  | inl e ↦ inl ((eq_iff org "").0 e)
  | inr e ↦ inr (ground arith)
]

module _ (store : Store) (deployed : Deployment) (st : store.State) (user : String)
    (ws : Workspace) where
  -- In the personal workspace, or in an org workspace with a role of MEMBER or above.
  abbrev pub MayCreate : String → String → Type 0
  MayCreate org body_org =
      (org ≡ "")
      ⊎ ((role : OrgRole) × (resolve_workspace store st user ws body_org ≡ ok (org, role))
          × (role_at_least role member ≡ true))

  -- The plan of the user who pays for the monitor.
  abbrev pub paying_limits : CreateMonitorParams → PlanLimits
  paying_limits p = limits_for_plan (plan_for_user store st p.billing_owner_id)

  pub record Authorized (req : CreateMonitorRequest) (p : CreateMonitorParams) : Type 0 where
    pub billed : billing_owner store st user p.org_id ≡ ok p.billing_owner_id
    pub role : MayCreate p.org_id req.org_id
    pub target : deployed.target_allowed p.target p.type ≡ true
    pub creator : p.user_id ≡ user
    pub granted : Granted deployed.available_regions (paying_limits p) p

  pub prepare_create-Authorized :
      (req : CreateMonitorRequest) {p : Prepared}
      → prepare_create store deployed st user ws req ≡ ok p
      → Authorized req p.params
  unfolding prepare_create set_defaults
  prepare_create-Authorized req {p} h =
      let r = set_defaults req in
      let (_, valid, h1) =
        >>=-eq-ok (or_refuse (λ e. because 400 (Problem.invalid e)) (validate_create r)) _ h in
      let (_, target_ok, h2) =
        >>=-eq-ok
          (refuse (not (deployed.target_allowed r.target r.type)) (because 400 Problem.bad_target))
          _ h1 in
      let ((org, role), place_ok, h3) =
        >>=-eq-ok (resolve_workspace store st user ws r.org_id) _ h2 in
      let (_, role_ok, h4) = >>=-eq-ok (require_role org role) _ h3 in
      let (owner, owner_ok, h5) =
        >>=-eq-ok
          (or_refuse (λ e. because 500 Problem.quota_unknown) (billing_owner store st user org)) _
          h4 in
      let l = limits_for_plan (plan_for_user store st owner) in
      let (s, s_ok, h6) = >>=-eq-ok (settings deployed.available_regions l r) _ h5 in
      let (enabled, enabled_ok, h7) = >>=-eq-ok (enabled_arg r.enabled) _ h6 in
      let bounds =
        (validate_create_iff r).0
          (or_refuse-eq-ok (λ e. because 400 (Problem.invalid e)) _ valid) in
      let g = settings-Granted deployed.available_regions l r bounds s_ok in
      subst (λ (q : Prepared). Authorized req q.params) (ok-injective h7)
        (record {
          billed = or_refuse-eq-ok (λ e. because 500 Problem.quota_unknown) _ owner_ok;
          role = elim (require_role-cases org role role_ok) [
            | inl personal ↦ inl personal
            | inr enough ↦ inr (role, place_ok, enough)
          ];
          target = true_of_not (refuse-eq-ok _ (because 400 Problem.bad_target) target_ok);
          creator = refl;
          granted = record {
            timeout = bounds.timeout;
            interval = g.interval;
            distinct = g.regions.normal.distinct;
            registered = g.regions.normal.registered;
            deployed = g.regions.deployed;
            some_region = g.regions.normal.some_region;
            capped = g.regions.capped;
            threshold = g.threshold;
            repeats = g.repeats;
            quota = refl;
          };
        })

  -- The scheduler's interval of a new monitor is longer than its timeout, whatever the plan that is
  -- in force when the scheduler resolves it.
  pub prepare_create-effective_interval :
      (req : CreateMonitorRequest) {p : Prepared}
      → prepare_create store deployed st user ws req ≡ ok p
      → (plan : Plan)
      → p.params.timeout <ℤ effective_interval p.params.interval plan p.params.timeout
  prepare_create-effective_interval req {p} h plan =
      effective_interval-above (paying_limits p.params) p.params.interval p.params.timeout plan
        (prepare_create-Authorized req h).granted.interval
