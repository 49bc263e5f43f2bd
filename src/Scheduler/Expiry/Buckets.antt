-- ===== src/Scheduler/Expiry/Buckets.antt =====
-- The alerts that the checks of one certificate or domain make (RecordExpiryCheck of
-- internal/database/bun/store_scheduler.go).
use text.Mathlib.TextEquality.{eq_iff}
use mathlib.Core.Option
use upguardly_server.Base.{
  ℕ, ◌≡◌, ◌⊎◌, refl, ap₂, subst, true, false, ◌&&◌, ◌||◌, List, [], ◌∷◌, Option, none, some, String,
  ℤ, ◌≤ℤ◌, ◌<ℤ◌, if◌then◌else◌, ◌==◌, ==_iff, ◌=?◌, =?_refl, string_eq, All, arith, inl, inr,
  Bool-cases, Option-cases,
}
use upguardly_server.Scheduler.Expiry.{
  ExpiryKind, same_kind, is_key, MonitorExpiryStatus, ExpiryState, ExpiryOutcome, date, failed,
  record_expiry_check, find_status, dated, alert_bucket, rearmed, deeper, found_status,
  expiry_days_left,
}
use upguardly_server.Models.Expiry.{expiry_alert_bucket}
use upguardly_server.Scheduler.Expiry.Alerts.{
  Check, run_check, run_checks, Decreasing, IsDate, All-snoc, Decreasing-snoc, absurd_test,
  same_kind-eq, same_kind_refl, buckets, buckets-snoc, find_status-update, find_status-update_other,
  All-map,
}

-- The deepest bucket that the row says was alerted for this date.
abbrev bound : ℕ → Option MonitorExpiryStatus → Option ℤ
bound e none = none
bound e (some r) = elim r.alerted_expires_at [
  | none ↦ none
  | some d ↦ if d == e then r.last_alert_bucket else none
]

abbrev AtOrAbove : Option ℤ → ℤ → Type 0
AtOrAbove none b = ⊥
AtOrAbove (some last) b = last ≤ℤ b

deeper-lt :
    (alerted : Option ℕ) (last : Option ℤ) (e : ℕ) (b x : ℤ)
    → (rearmed alerted e || deeper b last) ≡ true
    → AtOrAbove (elim alerted [ none ↦ none | some d ↦ if d == e then last else none ]) x
    → b <ℤ x
deeper-lt none last e b x h above = elim above [ ]
deeper-lt (some d) none e b x h above = elim (Bool-cases (d == e)) [
  | inl same ↦ let clash : ⊥ = rw same at above in elim clash [ ]
  | inr apart ↦ let clash : ⊥ = rw apart at above in elim clash [ ]
]
deeper-lt (some d) (some last) e b x h above = elim (Bool-cases (d == e)) [
  | inl same ↦ let kept : last ≤ℤ x = rw same at above in ground (arith, h, same, kept)
  | inr apart ↦ let clash : ⊥ = rw apart at above in elim clash [ ]
]

fired :
    (r : MonitorExpiryStatus) (e : ℕ) (due : Option ℤ) {b : ℤ}
    → alert_bucket r e due ≡ some b
    → (rearmed r.alerted_expires_at e || deeper b r.last_alert_bucket) ≡ true
unfolding alert_bucket
fired r e none h = cc
fired r e (some c) {b = b} h =
    elim (Bool-cases (rearmed r.alerted_expires_at e || deeper c r.last_alert_bucket)) [
      | inl t ↦
          let same : c ≡ b = cc (rw t at h) in
          subst (λ k. (rearmed r.alerted_expires_at e || deeper k r.last_alert_bucket) ≡ true) same
            t
      | inr f ↦ let clash : ◌≡◌ {A = Option ℤ} none (some b) = rw f at h in cc
    ]

bound_error :
    (e : ℕ) (text : String) (o : Option MonitorExpiryStatus)
    → bound e (Option.map {A = MonitorExpiryStatus} (λ r. record r { last_error = some text }) o)
      ≡ bound e o
bound_error e text none = refl
bound_error e text (some r) = refl

module _ (e : ℕ) (monitor : String) (kind : ExpiryKind) where
  abbrev Armed : ExpiryState → Type 0
  Armed s =
      Decreasing (buckets monitor kind s.alerts)
      × All (AtOrAbove (bound e (find_status monitor kind s.rows))) (buckets monitor kind s.alerts)

  own_monitor :
      (c : Check)
      → (c.claim.monitor_id =? monitor && same_kind c.claim.kind kind) ≡ true
      → c.claim.monitor_id ≡ monitor
  own_monitor c own = ground (arith, own, eq_iff c.claim.monitor_id monitor)

  own_kind :
      (c : Check)
      → (c.claim.monitor_id =? monitor && same_kind c.claim.kind kind) ≡ true
      → c.claim.kind ≡ kind
  own_kind c own = same_kind-eq c.claim.kind kind (ground (arith, own))

  -- A check of this certificate or domain that finds its row.
  found_status-Armed :
      (c : Check) (r : MonitorExpiryStatus) (s : ExpiryState)
      → c.claim.monitor_id ≡ monitor
      → c.claim.kind ≡ kind
      → find_status monitor kind s.rows ≡ some r
      → Armed s
      → Armed (found_status c.claim e c.now c.in_maintenance s (some r))
  found_status-Armed c r s at_monitor at_kind there h =
      let days = expiry_days_left e c.now in
      let due = expiry_alert_bucket days c.claim.threshold_days in
      let old = buckets monitor kind s.alerts in
      let above : All (AtOrAbove (bound e (some r))) old = rw there at (h.1) in
      let same : (e == e) ≡ true = (==_iff e e).1 refl in
      elim (Option-cases (alert_bucket r e due)) [
        | inl quiet ↦ rw quiet (
            rw at_monitor (
              rw at_kind (
                rw (find_status-update monitor kind (dated e none) (λ x. refl) s.rows)
                  (rw there (h.0, above)))))
        | inr (b, loud) ↦
            let below : All (λ x. b <ℤ x) old =
              All-map (AtOrAbove (bound e (some r))) (λ x. b <ℤ x) old
                (λ x k.
                  deeper-lt r.alerted_expires_at r.last_alert_bucket e b x (fired r e due loud) k)
                above in
            let kept : All (λ x. b ≤ℤ x) old =
              All-map (λ x. b <ℤ x) (λ x. b ≤ℤ x) old (λ x k. ground (arith, k)) below in
            rw loud (
              rw at_monitor (
                rw at_kind (
                  rw (find_status-update monitor kind (dated e (some b)) (λ x. refl) s.rows) (
                    rw there (
                      rw same (elim (Bool-cases c.in_maintenance) [
                        | inl hidden ↦ rw hidden (h.0, kept)
                        | inr sent ↦ rw sent (
                            rw (buckets-snoc monitor kind s.alerts _) (
                              rw (=?_refl monitor) (
                                rw (same_kind_refl kind) (
                                  Decreasing-snoc old b h.0 below,
                                  All-snoc (AtOrAbove (some b)) old b kept (omega arith),
                                ))))
                      ]))))))
      ]

  -- A check of another certificate or domain.
  other_status-Armed :
      (c : Check) (d : ℕ) (s : ExpiryState) (o : Option MonitorExpiryStatus)
      → (c.claim.monitor_id =? monitor && same_kind c.claim.kind kind) ≡ false
      → Armed s
      → Armed (found_status c.claim d c.now c.in_maintenance s o)
  other_status-Armed c d s none apart h = h
  other_status-Armed c d s (some r) apart h =
      let days = expiry_days_left d c.now in
      let due = expiry_alert_bucket days c.claim.threshold_days in
      let kept =
        λ (fire : Option ℤ)
            (keeps : (x : MonitorExpiryStatus)
              → is_key monitor kind (dated d fire x) ≡ is_key monitor kind x).
          find_status-update_other monitor kind (dated d fire) c.claim.monitor_id c.claim.kind apart
            keeps s.rows in
      elim (Option-cases (alert_bucket r d due)) [
        | inl quiet ↦ rw quiet (rw (kept none (λ x. refl)) h)
        | inr (b, loud) ↦ rw loud (
            rw (kept (some b) (λ x. refl)) (elim (Bool-cases c.in_maintenance) [
              | inl hidden ↦ rw hidden h
              | inr sent ↦ rw sent (rw (buckets-snoc monitor kind s.alerts _) (rw apart h))
            ]))
      ]

  -- The check is of another key, or comes back with the date `e` or an error.
  abbrev pub Steady : Check → Type 0
  Steady c =
      ((c.claim.monitor_id =? monitor && same_kind c.claim.kind kind) ≡ false) ⊎ IsDate e c.outcome

  failed-Armed :
      (c : Check) (text : String) (s : ExpiryState)
      → Armed s
      → Armed (record_expiry_check c.claim (failed text) c.now c.in_maintenance s)
  unfolding record_expiry_check
  failed-Armed c text s h = elim (Bool-cases (text =? "")) [
    | inl empty ↦ rw empty h
    | inr told ↦
        rw told (elim (Bool-cases (c.claim.monitor_id =? monitor && same_kind c.claim.kind kind)) [
          | inr apart ↦
              rw
                (find_status-update_other monitor kind (λ r. record r { last_error = some text })
                  c.claim.monitor_id c.claim.kind apart (λ r. refl) s.rows)
                h
          | inl own ↦ rw (own_monitor c own) (
              rw (own_kind c own) (
                rw
                  (find_status-update monitor kind (λ r. record r { last_error = some text })
                    (λ r. refl) s.rows)
                  (rw (bound_error e text (find_status monitor kind s.rows)) h)))
        ])
  ]

  outcome-Armed :
      (c : Check) (o : ExpiryOutcome) (s : ExpiryState)
      → ((c.claim.monitor_id =? monitor && same_kind c.claim.kind kind) ≡ false) ⊎ IsDate e o
      → Armed s
      → Armed (record_expiry_check c.claim o c.now c.in_maintenance s)
  unfolding record_expiry_check
  outcome-Armed c (failed text) s steady h = failed-Armed c text s h
  outcome-Armed c (date d) s steady h =
      elim (Bool-cases (c.claim.monitor_id =? monitor && same_kind c.claim.kind kind)) [
        | inr apart ↦
            other_status-Armed c d s (find_status c.claim.monitor_id c.claim.kind s.rows) apart h
        | inl own ↦
            let at : d ≡ e = elim steady [ inl apart ↦ absurd_test own apart | inr same ↦ same ] in
            let state = λ (o : Option MonitorExpiryStatus).
              Armed (found_status c.claim e c.now c.in_maintenance s o) in
            rw at (
              rw (ap₂ (λ m k. find_status m k s.rows) (own_monitor c own) (own_kind c own))
                (elim (Option-cases (find_status monitor kind s.rows)) [
                  | inl missing ↦ rw missing h
                  | inr (r, there) ↦
                      rw there
                        (found_status-Armed c r s (own_monitor c own) (own_kind c own) there h)
                ]))
      ]

  run_checks-Armed :
      (s : ExpiryState) (cs : List Check) → All Steady cs → Armed s → Armed (run_checks s cs)
  unfolding run_checks
  run_checks-Armed s [] steady h = h
  run_checks-Armed s (c ∷ cs) steady h =
      run_checks-Armed (run_check s c) cs steady.1 (outcome-Armed c c.outcome s steady.0 h)

  -- While one certificate or domain keeps its expiry date, its alerts escalate: whatever else is
  -- checked in between, whichever checks fail and however the threshold changes, the buckets that it
  -- is alerted for strictly decrease, so that no bucket is alerted twice.
  pub run_checks-Decreasing :
      (rows : List MonitorExpiryStatus) (cs : List Check)
      → All Steady cs
      → Decreasing
          (buckets monitor kind (run_checks (record { rows = rows; alerts = [] }) cs).alerts)
  run_checks-Decreasing rows cs steady =
      (run_checks-Armed (record { rows = rows; alerts = [] }) cs steady (tt, tt)).0
