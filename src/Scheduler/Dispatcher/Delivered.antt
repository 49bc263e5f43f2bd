-- ===== src/Scheduler/Dispatcher/Delivered.antt =====
-- One row of the outbox across a claim and its deliveries (internal/scheduler/dispatcher.go).
use text.Mathlib.TextEquality.{eq_iff}
use upguardly_server.Base.{
  ℕ, suc, ◌≡◌, refl, ap, ◌∙◌, Bool, true, false, not, ◌&&◌, ◌||◌, List, [], ◌∷◌, String, arith,
  if◌then◌else◌, leb, ◌==◌, ◌=?◌, string_eq, contains, filter, map, inl, inr, Bool-cases,
}
use upguardly_server.Scheduler.Dispatcher.{
  AlertOutboxRow, Outbox, Answers, claimed, dispatch_max_attempts, outcome, finalize,
  finalize_outbox_alert, deliver, deliver_all,
}

module _ (id : String) where
  abbrev pub has_row : List AlertOutboxRow → Bool
  has_row [] = false
  has_row (r ∷ rs) = r.id =? id || has_row rs

  -- The row of the id has been claimed so many times.
  abbrev pub tried : ℕ → List AlertOutboxRow → Bool
  tried k [] = true
  tried k (r ∷ rs) = (not (r.id =? id) || r.attempts == k) && tried k rs

  -- The batch is done with a row that it claims for the time `k`.
  abbrev pub settles : Answers → ℕ → Bool
  settles a k = a.stored id && (a.sent id || leb 8 k)

  has_row-filter :
      (other : String) (rs : List AlertOutboxRow)
      → has_row (filter (λ x. not (x.id =? other)) rs) ≡ (has_row rs && not (other =? id))
  has_row-filter other [] = refl
  has_row-filter other (r ∷ rs) =
      ground (arith, has_row-filter other rs, eq_iff r.id other, eq_iff r.id id, eq_iff other id)

  tried-filter :
      (k : ℕ) (other : String) (rs : List AlertOutboxRow)
      → tried k rs ≡ true
      → tried k (filter (λ x. not (x.id =? other)) rs) ≡ true
  tried-filter k other [] h = refl
  tried-filter k other (r ∷ rs) h = ground (arith, tried-filter k other rs)

  -- The batch is done with one of the rows that it delivers.
  abbrev pub done_in : Answers → List AlertOutboxRow → Bool
  done_in a [] = false
  done_in a (r ∷ rs) = (r.id =? id && settles a r.attempts) || done_in a rs

  deliver_once :
      (sent stored : Bool) (gave_up : String) (r : AlertOutboxRow) (o : Outbox)
      → has_row (deliver sent stored gave_up r o).rows ≡ (
          has_row o.rows
          && not (r.id =? id && (stored && (sent || leb dispatch_max_attempts r.attempts))))
  unfolding deliver outcome finalize finalize_outbox_alert
  deliver_once true true gave_up r o = ground (arith, has_row-filter r.id o.rows)
  deliver_once true false gave_up r o = ground arith
  deliver_once false stored gave_up r o = elim (Bool-cases (leb dispatch_max_attempts r.attempts)) [
    | inr more ↦ rw more (ground arith)
    | inl last ↦ elim (Bool-cases stored) [
      | inl fine ↦ rw (last, fine) (ground (arith, has_row-filter r.id o.rows))
      | inr broken ↦ rw (last, broken) (ground arith)
    ]
  ]

  deliver-has_row :
      (a : Answers) (r : AlertOutboxRow) (o : Outbox)
      → has_row (deliver (a.sent r.id) (a.stored r.id) a.gave_up r o).rows
        ≡ (has_row o.rows && not (r.id =? id && settles a r.attempts))
  deliver-has_row a r o =
      deliver_once (a.sent r.id) (a.stored r.id) a.gave_up r o ∙ (elim (Bool-cases (r.id =? id)) [
        | inr e ↦ rw e refl
        | inl e ↦
            rw
              (
                ap (λ i. a.sent i) ((eq_iff r.id id).0 e),
                ap (λ i. a.stored i) ((eq_iff r.id id).0 e),
              )
              refl
      ])

  deliver-tried :
      (sent stored : Bool) (gave_up : String) (k : ℕ) (r : AlertOutboxRow) (o : Outbox)
      → tried k o.rows ≡ true
      → tried k (deliver sent stored gave_up r o).rows ≡ true
  unfolding deliver outcome finalize finalize_outbox_alert
  deliver-tried true true gave_up k r o h = tried-filter k r.id o.rows h
  deliver-tried true false gave_up k r o h = h
  deliver-tried false stored gave_up k r o h =
      elim (Bool-cases (leb dispatch_max_attempts r.attempts)) [
        | inr more ↦ rw more h
        | inl last ↦ elim (Bool-cases stored) [
          | inl fine ↦ rw (last, fine) (tried-filter k r.id o.rows h)
          | inr broken ↦ rw (last, broken) h
        ]
      ]

  pub deliver_all-has_row :
      (a : Answers) (rs : List AlertOutboxRow) (o : Outbox)
      → has_row (deliver_all a rs o).rows ≡ (has_row o.rows && not (done_in a rs))
  deliver_all-has_row a [] o = ground arith
  deliver_all-has_row a (r ∷ rs) o = ground (
    arith,
    deliver_all-has_row a rs (deliver (a.sent r.id) (a.stored r.id) a.gave_up r o),
    deliver-has_row a r o,
  )

  pub deliver_all-tried :
      (a : Answers) (k : ℕ) (rs : List AlertOutboxRow) (o : Outbox)
      → tried k o.rows ≡ true
      → tried k (deliver_all a rs o).rows ≡ true
  deliver_all-tried a k [] o h = h
  deliver_all-tried a k (r ∷ rs) o h =
      deliver_all-tried a k rs (deliver (a.sent r.id) (a.stored r.id) a.gave_up r o)
        (deliver-tried (a.sent r.id) (a.stored r.id) a.gave_up k r o h)

  module _ (ids : List String) (now : ℕ) where
    abbrev pub claim_one : AlertOutboxRow → AlertOutboxRow
    claim_one r = if contains ids r.id then claimed now r else r

    pub claim-has_row : (rs : List AlertOutboxRow) → has_row (map claim_one rs) ≡ has_row rs
    claim-has_row [] = refl
    claim-has_row (r ∷ rs) = elim (Bool-cases (contains ids r.id)) [
      | inl e ↦ rw e (ap (λ b. r.id =? id || b) (claim-has_row rs))
      | inr e ↦ rw e (ap (λ b. r.id =? id || b) (claim-has_row rs))
    ]

    mine : (r : AlertOutboxRow) → (r.id =? id) ≡ true → contains ids r.id ≡ contains ids id
    mine r h = ap (contains ids) ((eq_iff r.id id).0 h)

    pub claim-tried :
        (k : ℕ) (rs : List AlertOutboxRow)
        → contains ids id ≡ true
        → tried k rs ≡ true
        → tried (suc k) (map claim_one rs) ≡ true
    claim-tried k [] there h = refl
    claim-tried k (r ∷ rs) there h = elim (Bool-cases (r.id =? id)) [
      | inl own ↦ rw (mine r own ∙ there) (ground (arith, h, own, claim-tried k rs there))
      | inr other ↦ elim (Bool-cases (contains ids r.id)) [
        | inl e ↦ rw e (ground (arith, h, other, claim-tried k rs there))
        | inr e ↦ rw e (ground (arith, h, other, claim-tried k rs there))
      ]
    ]

    pub claim-done_in :
        (a : Answers) (k : ℕ) (rs : List AlertOutboxRow)
        → contains ids id ≡ true
        → tried k rs ≡ true
        → done_in a (map (claimed now) (filter (λ r. contains ids r.id) rs))
          ≡ (has_row rs && settles a (suc k))
    claim-done_in a k [] there h = refl
    claim-done_in a k (r ∷ rs) there h = elim (Bool-cases (r.id =? id)) [
      | inl own ↦
          let times : r.attempts ≡ k = ground (arith, h, own) in
          rw (mine r own ∙ there) (rw (own, times) (ground (arith, h, claim-done_in a k rs there)))
      | inr other ↦ elim (Bool-cases (contains ids r.id)) [
        | inl e ↦ rw e (rw other (claim-done_in a k rs there (ground (arith, h))))
        | inr e ↦ rw e (rw other (claim-done_in a k rs there (ground (arith, h))))
      ]
    ]
