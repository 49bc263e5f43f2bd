-- ===== src/Handlers/UpdateMonitor/Complies.antt =====
-- The row UpdateMonitor stores (internal/api/handlers/monitors.go) against the payer's plan.
use upguardly_server.Base.{
  ◌≡◌, ◌⊎◌, ◌≤ℤ◌, subst, Bool, true, false, not, ◌&&◌, ◌||◌, List, Option, none, some, String, ℤ,
  pos, is_some, or_else, ok, arith, >>=-eq-ok, refuse, ok-injective, length, string_eq, inl, inr,
  Bool-cases,
}
use upguardly_server.Models.Plan.{PlanLimits, limits_for_plan, unlimited}
use upguardly_server.Models.Monitor.{UpdateMonitorRequest, MonitorType}
use upguardly_server.Models.Monitor.Validate.{
  validate_update, validate_repeat_update, validate_repeat_alerts,
}
use upguardly_server.Database.{MonitorRow}
use upguardly_server.Database.Monitors.{updated_row, or_cleared, repeat_pair, has_updates}
use upguardly_server.Database.Reconcile.Complies.{Complies, IntervalFits, RepeatFits}
use upguardly_server.Handlers.{Store, Problem, Deployment, because}
use upguardly_server.Handlers.Settings.{or_refuse, region_refusal}
use upguardly_server.Handlers.Regions.{validate_regions, validate_regions-Allowed}
use upguardly_server.Handlers.UpdateMonitor.{
  update_interval, update_regions, update_threshold, update_repeats, update_expiry, update_settings,
  plan_gated, settle, scope_plan, prepare_update, found_or_404, require_monitor_write,
}
use upguardly_server.Handlers.CreateMonitor.Granted.{or_refuse-eq-ok}

module _ (l : PlanLimits) where
  interval_fits :
      (t : ℤ) (v old : Option ℤ) {u : Unit {0}}
      → update_interval l t v ≡ ok u
      → IntervalFits l old
      → IntervalFits l (or_cleared v old)
  unfolding update_interval
  interval_fits t none old h fits = fits
  interval_fits t (some v) old h fits = ground arith

  threshold_fits :
      (v old : Option ℤ) {u : Unit {0}}
      → update_threshold l v ≡ ok u
      → (l.custom_degraded_threshold ≡ true) ⊎ (old ≡ none)
      → (l.custom_degraded_threshold ≡ true) ⊎ (or_cleared v old ≡ none)
  unfolding update_threshold
  threshold_fits none old h fits = fits
  threshold_fits (some v) old h fits = ground arith

  repeats_fit :
      (i c oi oc : Option ℤ) {u w : Unit {0}}
      → validate_repeat_update i c ≡ ok w
      → update_repeats l i c ≡ ok u
      → RepeatFits l oi oc
      → RepeatFits l (repeat_pair i c oi oc).0 (repeat_pair i c oi oc).1
  unfolding update_repeats validate_repeat_update validate_repeat_alerts
  repeats_fit none none oi oc v h fits = fits
  repeats_fit none (some c) oi oc v h fits = ground arith
  repeats_fit (some i) none oi oc v h fits = ground arith
  repeats_fit (some i) (some c) oi oc v h fits = ground arith

  expiry_fits :
      (type : MonitorType) (c d : Option Bool) (oc od : Bool) {u : Unit {0}}
      → update_expiry l type c d ≡ ok u
      → ((l.ssl_monitoring ≡ true) ⊎ (oc ≡ false)) × ((l.domain_monitoring ≡ true) ⊎ (od ≡ false))
      → ((l.ssl_monitoring ≡ true) ⊎ (or_else c oc ≡ false))
        × ((l.domain_monitoring ≡ true) ⊎ (or_else d od ≡ false))
  unfolding update_expiry
  expiry_fits type none none oc od h fits = fits
  expiry_fits type none (some d) oc od h fits = ground arith
  expiry_fits type (some c) none oc od h fits = ground arith
  expiry_fits type (some c) (some d) oc od h fits = ground arith

  abbrev RegionsFit : List String → Type 0
  RegionsFit rs = (l.max_regions ≡ unlimited) ⊎ (pos (length rs) ≤ℤ l.max_regions)

  regions_fit :
      (available : List String) (v : Option (List String)) (old : List String)
      {out : Option (List String)}
      → update_regions available l v ≡ ok out
      → RegionsFit old
      → RegionsFit (or_else out old)
  regions_fit available none old h fits =
      subst (λ o. RegionsFit (or_else o old)) (ok-injective h) fits
  regions_fit available (some rs) old h fits =
      let (n, n_ok, h1) =
        >>=-eq-ok (or_refuse region_refusal (validate_regions available rs l)) _ h in
      subst (λ o. RegionsFit (or_else o old)) (ok-injective h1)
        (validate_regions-Allowed available rs l (or_refuse-eq-ok region_refusal _ n_ok)).capped

  update_settings-Complies :
      (available : List String) (m : MonitorRow) (r : UpdateMonitorRequest)
      {out : UpdateMonitorRequest}
      → validate_repeat_update r.repeat_alert_interval_secs r.repeat_alert_max_count ≡ ok tt
      → update_settings available l m r ≡ ok out
      → Complies l m
      → Complies l (updated_row out m)
  unfolding update_settings updated_row
  update_settings-Complies available m r {out} valid h c =
      let (_, interval_ok, h1) =
        >>=-eq-ok (update_interval l (or_else r.timeout m.timeout) r.interval) _ h in
      let (regions, regions_ok, h2) = >>=-eq-ok (update_regions available l r.regions) _ h1 in
      let (_, threshold_ok, h3) = >>=-eq-ok (update_threshold l r.degraded_threshold_ms) _ h2 in
      let (_, repeats_ok, h4) =
        >>=-eq-ok (update_repeats l r.repeat_alert_interval_secs r.repeat_alert_max_count) _ h3 in
      let (_, expiry_ok, h5) =
        >>=-eq-ok
          (update_expiry l (or_else r.type m.type) r.cert_check_enabled r.domain_check_enabled) _
          h4 in
      let (cert, domain) =
        expiry_fits (or_else r.type m.type) r.cert_check_enabled r.domain_check_enabled
          m.cert_check_enabled m.domain_check_enabled expiry_ok (c.cert, c.domain) in
      subst (λ o. Complies l (updated_row o m)) (ok-injective h5)
        (record {
          interval =
              interval_fits (or_else r.timeout m.timeout) r.interval m.interval interval_ok
                c.interval;
          regions = regions_fit available r.regions m.regions regions_ok c.regions;
          threshold =
              threshold_fits r.degraded_threshold_ms m.degraded_threshold_ms threshold_ok
                c.threshold;
          cert = cert;
          domain = domain;
          repeats =
              repeats_fit r.repeat_alert_interval_secs r.repeat_alert_max_count
                m.repeat_alert_interval_secs m.repeat_alert_max_count valid repeats_ok c.repeats;
        })

  -- A request with no plan-gated field.
  ungated-Complies :
      (m : MonitorRow) (r : UpdateMonitorRequest)
      → plan_gated r ≡ false
      → Complies l m
      → Complies l (updated_row r m)
  unfolding updated_row
  ungated-Complies m r h c =
      let i : r.interval ≡ none = ground arith in
      let rs : r.regions ≡ none = ground arith in
      let d : r.degraded_threshold_ms ≡ none = ground arith in
      let ri : r.repeat_alert_interval_secs ≡ none = ground arith in
      let rc : r.repeat_alert_max_count ≡ none = ground arith in
      let cert : r.cert_check_enabled ≡ none = ground arith in
      let domain : r.domain_check_enabled ≡ none = ground arith in
      record {
        interval = rw i c.interval;
        regions = rw rs c.regions;
        threshold = rw d c.threshold;
        cert = rw cert c.cert;
        domain = rw domain c.domain;
        repeats = rw (ri, rc) c.repeats;
      }

validate_update-repeats :
    (r : UpdateMonitorRequest)
    → validate_update r ≡ ok tt
    → validate_repeat_update r.repeat_alert_interval_secs r.repeat_alert_max_count ≡ ok tt
unfolding validate_update
validate_update-repeats r h = ground arith

module _ (store : Store) (deployed : Deployment) (st : store.State) (user id : String) where
  abbrev Keeps : MonitorRow × UpdateMonitorRequest → Type 0
  Keeps out =
      let l = limits_for_plan (scope_plan store st user out.0) in
      Complies l out.0 → Complies l (updated_row out.1 out.0)

  settle-Complies :
      (m : MonitorRow) (r : UpdateMonitorRequest) {out : UpdateMonitorRequest}
      → validate_repeat_update r.repeat_alert_interval_secs r.repeat_alert_max_count ≡ ok tt
      → settle store deployed st user id m r ≡ ok out
      → Keeps (m, out)
  settle-Complies m r {out} valid h c = elim (Bool-cases (plan_gated r)) [
    | inl g ↦
        update_settings-Complies (limits_for_plan (scope_plan store st user m))
          deployed.available_regions m r valid (rw g at h) c
    | inr g ↦
        subst (λ o. Complies (limits_for_plan (scope_plan store st user m)) (updated_row o m))
          (ok-injective (rw g at h))
          (ungated-Complies (limits_for_plan (scope_plan store st user m)) m r g c)
  ]

  -- An accepted update of a monitor that is within the plan of its owning scope leaves it within that
  -- plan: interval floor, region cap, slow-response override, expiry checks and repeat alerts.
  pub prepare_update-Complies :
      (req : UpdateMonitorRequest) {m : MonitorRow} {out : UpdateMonitorRequest}
      → prepare_update store deployed st user id req ≡ ok (m, out)
      → Complies (limits_for_plan (scope_plan store st user m)) m
      → Complies (limits_for_plan (scope_plan store st user m)) (updated_row out m)
  unfolding prepare_update
  prepare_update-Complies req {m} {out} h c =
      let (_, _, h1) =
        >>=-eq-ok (refuse (not (has_updates req)) (because 400 Problem.no_fields)) _ h in
      let (_, valid, h2) =
        >>=-eq-ok (or_refuse (λ e. because 400 (Problem.invalid e)) (validate_update req)) _ h1 in
      let (old, _, h3) = >>=-eq-ok (found_or_404 (store.get_monitor st id user)) _ h2 in
      let (_, _, h4) = >>=-eq-ok (require_monitor_write store st user old) _ h3 in
      let (settled, settled_ok, h5) = >>=-eq-ok (settle store deployed st user id old req) _ h4 in
      let same =
        ok-injective
          (>>=-eq-ok
            (refuse
              ((is_some req.target || is_some req.type)
                && not (
                    deployed.target_allowed (or_else req.target old.target)
                      (or_else req.type old.type)))
              (because 400 Problem.bad_target))
            _ h5).2 in
      let repeats =
        validate_update-repeats req
          (or_refuse-eq-ok (λ e. because 400 (Problem.invalid e)) _ valid) in
      let keeps = settle-Complies old req repeats settled_ok in subst Keeps same keeps c
