-- ===== src/Scheduler/Verifier/Drain.antt =====
-- The drain and the sweep of the verification worker (internal/scheduler/verifier.go).
use upguardly_server.Base.{
  ℕ, zero, suc, ◌+◌, ◌≤◌, ◌<◌, ◌≡◌, refl, ◌∙◌, Bool, false, not, ◌&&◌, ◌||◌, List, [], ◌∷◌, some,
  String, ltb, ◌==◌, ◌=?◌, =?_refl, string_eq, length, filter, contains, Distinct, arith, inl, inr,
  Bool-cases,
}
use text.Mathlib.TextEquality.{eq_iff}
use upguardly_server.Scheduler.Verifier.{
  VerificationRequest, claimable, taken, mark_claimed, next_ids, claim_verification_requests,
  complete, CheckEnd, unknown_type, recorded, record_failed, verify, verify_all, process_batch,
  drain, verify_batch_size, distinct_from, monitor_ids, expire_verification_requests,
}

module _ (enabled : String → Bool) (end : VerificationRequest → CheckEnd) (region : String)
    (now : ℕ) where
  -- The requests that this region could claim now.
  abbrev pub waiting : List VerificationRequest → ℕ
  waiting rows = length (filter (claimable region now) rows)

  waiting-mark_claimed :
      (chosen : List String) (rows : List VerificationRequest)
      → waiting (mark_claimed (taken enabled region now chosen) now rows)
          + length (filter (taken enabled region now chosen) rows)
        ≡ waiting rows
  unfolding mark_claimed
  waiting-mark_claimed chosen [] = omega arith
  waiting-mark_claimed chosen (r ∷ rows) = ground (arith, waiting-mark_claimed chosen rows)

  waiting-complete :
      (id : String) (rows : List VerificationRequest) → waiting (complete id rows) ≤ waiting rows
  unfolding complete
  waiting-complete id [] = omega arith
  waiting-complete id (r ∷ rows) = ground (arith, waiting-complete id rows)

  waiting-verify :
      (e : CheckEnd) (r : VerificationRequest) (rows : List VerificationRequest)
      → waiting (verify e r rows) ≤ waiting rows
  unfolding verify
  waiting-verify unknown_type r rows = waiting-complete r.id rows
  waiting-verify recorded r rows = waiting-complete r.id rows
  waiting-verify record_failed r rows = omega arith

  waiting-verify_all :
      (rs rows : List VerificationRequest) → waiting (verify_all end rs rows) ≤ waiting rows
  waiting-verify_all [] rows = omega arith
  waiting-verify_all (r ∷ rs) rows =
      omega (arith, waiting-verify_all rs (verify (end r) r rows), waiting-verify (end r) r rows)

  -- What a batch claimed is waiting no more.
  waiting-process_batch :
      (rows : List VerificationRequest)
      → waiting (process_batch enabled end region now rows).0
          + (process_batch enabled end region now rows).1
        ≤ waiting rows
  unfolding process_batch claim_verification_requests
  waiting-process_batch rows =
      let chosen = next_ids region verify_batch_size now rows in
      omega (
        arith,
        waiting-mark_claimed chosen rows,
        waiting-verify_all (filter (taken enabled region now chosen) rows)
            (mark_claimed (taken enabled region now chosen) now rows),
      )

  -- The drain of full batches ends, whatever the checks come to: as many rounds as there are
  -- requests that wait, and one more, are enough, and afterwards no more requests wait than before.
  pub drain_total :
      (fuel : ℕ) (rows : List VerificationRequest)
      → waiting rows < fuel
      → (out : List VerificationRequest) × (drain enabled end region now fuel rows ≡ some out)
        × (waiting out ≤ waiting rows)
  unfolding drain
  drain_total zero rows h = elim h [ ]
  drain_total (suc fuel) rows h =
      let batch = process_batch enabled end region now rows in
      let fewer : waiting batch.0 + batch.1 ≤ waiting rows = waiting-process_batch rows in
      elim (Bool-cases (batch.1 == verify_batch_size)) [
        | inr short ↦ (batch.0, rw short refl, omega (arith, fewer))
        | inl full ↦
            let claimed : batch.1 ≡ 50 = ground (arith, full) in
            let (out, ends, rest) = drain_total fuel batch.0 (omega (arith, fewer, claimed, h)) in
            (out, rw full ends, omega (arith, rest, fewer))
      ]

-- Whether a request of the monitor is past its expiry.
abbrev pub has_expired : ℕ → String → List VerificationRequest → Bool
has_expired now monitor [] = false
has_expired now monitor (r ∷ rs) =
    (r.monitor_id =? monitor && not (ltb now r.expires_at)) || has_expired now monitor rs

contains-distinct_from :
    (seen xs : List String) (id : String)
    → contains (distinct_from seen xs) id ≡ (not (contains seen id) && contains xs id)
contains-distinct_from seen [] id = ground arith
contains-distinct_from seen (x ∷ xs) id = elim (Bool-cases (contains seen x)) [
  | inl old ↦ rw old (ground (arith, contains-distinct_from seen xs id, eq_iff x id, old))
  | inr new ↦ rw new (ground (arith, contains-distinct_from (x ∷ seen) xs id, eq_iff x id, new))
]

Distinct-distinct_from : (seen xs : List String) → Distinct (distinct_from seen xs)
Distinct-distinct_from seen [] = tt
Distinct-distinct_from seen (x ∷ xs) = elim (Bool-cases (contains seen x)) [
  | inl old ↦ rw old (Distinct-distinct_from seen xs)
  | inr new ↦ rw new (
    contains-distinct_from (x ∷ seen) xs x ∙ (rw (=?_refl x)),
    Distinct-distinct_from (x ∷ seen) xs,
  )
]

contains-monitor_ids :
    (now : ℕ) (monitor : String) (rows : List VerificationRequest)
    → contains (monitor_ids (filter (λ r. not (ltb now r.expires_at)) rows)) monitor
      ≡ has_expired now monitor rows
contains-monitor_ids now monitor [] = refl
contains-monitor_ids now monitor (r ∷ rows) = ground (arith, contains-monitor_ids now monitor rows)

none_expired :
    (now : ℕ) (monitor : String) (rows : List VerificationRequest)
    → has_expired now monitor (filter (λ r. ltb now r.expires_at) rows) ≡ false
none_expired now monitor [] = refl
none_expired now monitor (r ∷ rows) = ground (arith, none_expired now monitor rows)

-- The sweep names each monitor that lost a request to its expiry once, and no other, and leaves no
-- expired request behind.
pub expire_verification_requests_lem :
    (now : ℕ) (rows : List VerificationRequest) (monitor : String)
    → Distinct (expire_verification_requests now rows).1
      × (contains (expire_verification_requests now rows).1 monitor ≡ has_expired now monitor rows)
      × (has_expired now monitor (expire_verification_requests now rows).0 ≡ false)
unfolding expire_verification_requests
expire_verification_requests_lem now rows monitor =
    let gone = monitor_ids (filter (λ r. not (ltb now r.expires_at)) rows) in
    (
      Distinct-distinct_from [] gone,
      contains-distinct_from [] gone monitor ∙ contains-monitor_ids now monitor rows,
      none_expired now monitor rows,
    )
