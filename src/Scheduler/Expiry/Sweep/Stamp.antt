-- ===== src/Scheduler/Expiry/Sweep/Stamp.antt =====
-- The row of one certificate or domain across a claim of expiry checks (ClaimDueExpiryChecks of
-- internal/database/bun/store_scheduler.go).
use text.Mathlib.TextEquality.{eq_iff}
use upguardly_server.Base.{
  ℕ, zero, suc, ◌+◌, ◌≤◌, ◌≡◌, refl, sym, ap, ap₂, ◌∙◌, Bool, true, false, not, ◌&&◌, ◌||◌, List,
  [], ◌∷◌, ◌++◌, none, String, ltb, ◌=?◌, string_eq, take, filter, is_some, ◌==◌, arith, inl, inr,
  Bool-cases, Option-cases,
}
use upguardly_server.Database.{MonitorRow}
use upguardly_server.Scheduler.Expiry.{
  ExpiryKind, cert, domain, same_kind, is_key, MonitorExpiryStatus, ExpiryCheckClaim, find_status,
  day,
}
use upguardly_server.Scheduler.Expiry.Sweep.{
  wants, seed_one, seed, find_monitor, is_due, insert_checked, order_by_checked, among, claims_of,
  mark_checked,
}
use upguardly_server.Scheduler.Expiry.Alerts.{same_kind-eq}

module _ (monitor : String) (kind : ExpiryKind) where
  abbrev pub has_claim : List ExpiryCheckClaim → Bool
  has_claim [] = false
  has_claim (c ∷ cs) = (c.monitor_id =? monitor && same_kind c.kind kind) || has_claim cs

  pub key_eq :
      (due : List MonitorExpiryStatus) (r : MonitorExpiryStatus)
      → is_key monitor kind r ≡ true
      → among due r.monitor_id r.kind ≡ among due monitor kind
  key_eq due r h =
      let at_monitor : r.monitor_id ≡ monitor = ground (arith, h, eq_iff r.monitor_id monitor) in
      let at_kind : r.kind ≡ kind = same_kind-eq r.kind kind (ground (arith, h)) in cc

  pub claims-among :
      (monitors : List MonitorRow) (due rows : List MonitorExpiryStatus)
      → among due monitor kind ≡ false
      → has_claim (claims_of monitors due rows) ≡ false
  unfolding claims_of
  claims-among monitors due [] h = refl
  claims-among monitors due (r ∷ rows) h = elim (Bool-cases (among due r.monitor_id r.kind)) [
    | inr out ↦ rw out (claims-among monitors due rows h)
    | inl in_batch ↦ rw in_batch (elim (Option-cases (find_monitor r.monitor_id monitors)) [
      | inl gone ↦ rw gone (claims-among monitors due rows h)
      | inr (m, there) ↦
          rw there (ground (arith, claims-among monitors due rows h, key_eq due r, h, in_batch))
    ])
  ]

  -- Every row of the key was checked at `now`.
  abbrev pub stamped : ℕ → List MonitorExpiryStatus → Bool
  stamped now [] = true
  stamped now (r ∷ rows) = (not (is_key monitor kind r) || r.checked_at == now) && stamped now rows

  pub mark_checked-stamped :
      (due rows : List MonitorExpiryStatus) (now : ℕ)
      → among due monitor kind ≡ true
      → stamped now (mark_checked due now rows) ≡ true
  unfolding mark_checked
  mark_checked-stamped due [] now h = refl
  mark_checked-stamped due (r ∷ rows) now h =
      ground (arith, mark_checked-stamped due rows now h, key_eq due r, h)

  pub mark_checked-find :
      (monitors : List MonitorRow) (due rows : List MonitorExpiryStatus) (now : ℕ)
      → has_claim (claims_of monitors due rows) ≡ true
      → is_some (find_status monitor kind (mark_checked due now rows)) ≡ true
  unfolding mark_checked find_status claims_of
  mark_checked-find monitors due [] now h = cc
  mark_checked-find monitors due (r ∷ rows) now h =
      elim (Bool-cases (among due r.monitor_id r.kind)) [
        | inr out ↦
            let rest = mark_checked-find monitors due rows now (rw out at h) in
            rw out (ground (arith, rest))
        | inl in_batch ↦ elim (Option-cases (find_monitor r.monitor_id monitors)) [
          | inl gone ↦
              let rest = mark_checked-find monitors due rows now (rw gone at (rw in_batch at h)) in
              rw in_batch (ground (arith, rest))
          | inr (m, there) ↦
              let shown : ((r.monitor_id =? monitor && same_kind r.kind kind)
                    || has_claim (claims_of monitors due rows))
                  ≡ true =
                rw there at (rw in_batch at h) in
              rw in_batch (ground (arith, shown, mark_checked-find monitors due rows now))
        ]
      ]

  stamped-snoc :
      (now : ℕ) (rows : List MonitorExpiryStatus) (x : MonitorExpiryStatus)
      → is_key monitor kind x ≡ false
      → stamped now (rows ++ x ∷ []) ≡ stamped now rows
  stamped-snoc now [] x h = rw h
  stamped-snoc now (r ∷ rows) x h = ground (arith, stamped-snoc now rows x h)

  find_status-snoc :
      (rows : List MonitorExpiryStatus) (x : MonitorExpiryStatus)
      → is_some (find_status monitor kind rows) ≡ true
      → is_some (find_status monitor kind (rows ++ x ∷ [])) ≡ true
  unfolding find_status
  find_status-snoc [] x h = cc
  find_status-snoc (r ∷ rows) x h = ground (arith, find_status-snoc rows x)

  -- A row is inserted only for a key that has none.
  absent-apart :
      (id : String) (k : ExpiryKind) (rows : List MonitorExpiryStatus)
      → find_status id k rows ≡ none
      → is_some (find_status monitor kind rows) ≡ true
      → (id =? monitor && same_kind k kind) ≡ false
  absent-apart id k rows absent there = elim (Bool-cases (id =? monitor && same_kind k kind)) [
    | inr e ↦ e
    | inl e ↦
        let at_monitor : id ≡ monitor = ground (arith, e, eq_iff id monitor) in
        let at_kind : k ≡ kind = same_kind-eq k kind (ground (arith, e)) in
        let clash : false ≡ true =
          ap is_some (sym absent)
          ∙ ap₂ (λ i j. is_some (find_status i j rows)) at_monitor at_kind
          ∙ there in
        cc
  ]

  abbrev pub Kept : ℕ → List MonitorExpiryStatus → Type 0
  Kept now rows = (stamped now rows ≡ true) × (is_some (find_status monitor kind rows) ≡ true)

  seed_one-Kept :
      (k : ExpiryKind) (m : MonitorRow) (now : ℕ) (rows : List MonitorExpiryStatus)
      → Kept now rows
      → Kept now (seed_one k m rows)
  seed_one-Kept k m now rows h = elim (Option-cases (find_status m.id k rows)) [
    | inr (r, there) ↦ rw (there, seed_one) h
    | inl absent ↦ elim (Bool-cases (wants k m)) [
      | inr unwanted ↦ rw (absent, seed_one) (rw unwanted h)
      | inl wanted ↦
          rw (absent, seed_one)
            (rw wanted (
              stamped-snoc now rows _ (absent-apart m.id k rows absent h.1) ∙ h.0,
              find_status-snoc rows _ h.1,
            ))
    ]
  ]

  pub seed-Kept :
      (monitors : List MonitorRow) (now : ℕ) (rows : List MonitorExpiryStatus)
      → Kept now rows
      → Kept now (seed monitors rows)
  unfolding seed
  seed-Kept [] now rows h = h
  seed-Kept (m ∷ ms) now rows h =
      seed-Kept ms now (seed_one domain m (seed_one cert m rows))
        (seed_one-Kept domain m now (seed_one cert m rows) (seed_one-Kept cert m now rows h))

  among-insert_checked :
      (r : MonitorExpiryStatus) (xs : List MonitorExpiryStatus)
      → among (insert_checked r xs) monitor kind ≡ (is_key monitor kind r || among xs monitor kind)
  among-insert_checked r [] = refl
  among-insert_checked r (x ∷ xs) = ground (arith, among-insert_checked r xs)

  pub among-order_by_checked :
      (xs : List MonitorExpiryStatus)
      → among (order_by_checked xs) monitor kind ≡ among xs monitor kind
  among-order_by_checked [] = refl
  among-order_by_checked (x ∷ xs) =
      among-insert_checked x (order_by_checked xs)
      ∙ ap (λ b. is_key monitor kind x || b) (among-order_by_checked xs)

  pub among-take :
      (n : ℕ) (xs : List MonitorExpiryStatus)
      → among xs monitor kind ≡ false
      → among (take n xs) monitor kind ≡ false
  among-take zero xs h = refl
  among-take (suc n) [] h = refl
  among-take (suc n) (x ∷ xs) h = ground (arith, among-take n xs)

  pub not_due :
      (monitors : List MonitorRow) (now later : ℕ) (rows : List MonitorExpiryStatus)
      → later ≤ now + day
      → stamped now rows ≡ true
      → among (filter (is_due monitors later) rows) monitor kind ≡ false
  not_due monitors now later [] soon h = refl
  not_due monitors now later (r ∷ rows) soon h = elim (Bool-cases (is_due monitors later r)) [
    | inr e ↦ rw e (not_due monitors now later rows soon (ground (arith, h)))
    | inl e ↦
        let late : ltb (r.checked_at + day) later ≡ true = ground (arith, e) in
        rw e (ground (arith, h, late, soon, not_due monitors now later rows soon))
  ]
