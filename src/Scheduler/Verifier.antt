-- ===== src/Scheduler/Verifier.antt =====
-- internal/scheduler/verifier.go with its statements in internal/database/bun/store_scheduler.go: the
-- confirmation checks that other regions ask of this one. Times are seconds; the checks and the SQL
-- functions of the quorum are parameters.
pub mod Drain
use upguardly_server.Base.{
  ℕ, zero, suc, ◌+◌, Bool, true, false, not, ◌&&◌, ◌||◌, List, [], ◌∷◌, ◌++◌, Option, none, some,
  String, if◌then◌else◌, ltb, leb, ◌==◌, ◌=?◌, string_eq, length, take, filter, map, contains,
  is_some,
}

pub record VerificationRequest : Type 0 where
  pub id : String
  pub monitor_id : String
  pub region : String
  pub requested_at : ℕ
  pub expires_at : ℕ
  pub claimed_at : Option ℕ

-- `region = ? AND claimed_at IS NULL AND expires_at > now()`
abbrev pub claimable : String → ℕ → VerificationRequest → Bool
claimable region now r = r.region =? region && (not (is_some r.claimed_at) && ltb now r.expires_at)

-- `ORDER BY requested_at`
abbrev pub insert_requested :
    VerificationRequest → List VerificationRequest → List VerificationRequest
insert_requested r [] = r ∷ []
insert_requested r (x ∷ xs) =
    if leb r.requested_at x.requested_at then r ∷ x ∷ xs else x ∷ insert_requested r xs

abbrev pub order_by_requested : List VerificationRequest → List VerificationRequest
order_by_requested [] = []
order_by_requested (r ∷ rs) = insert_requested r (order_by_requested rs)

abbrev pub ids : List VerificationRequest → List String
ids [] = []
ids (r ∷ rs) = r.id ∷ ids rs

-- The subselect with its limit; it does not look at the monitors.
unfoldable pub next_ids : String → ℕ → ℕ → List VerificationRequest → List String
next_ids region limit now rows =
    ids (take limit (order_by_requested (filter (claimable region now) rows)))

abbrev pub claim_row : ℕ → VerificationRequest → VerificationRequest
claim_row now r = record r { claimed_at = some now }

-- The rows that the UPDATE takes: those of the subselect, which are claimable, with an enabled
-- monitor. The id is the primary key.
abbrev pub taken : (String → Bool) → String → ℕ → List String → VerificationRequest → Bool
taken enabled region now chosen r =
    claimable region now r && (contains chosen r.id && enabled r.monitor_id)

unfoldable pub mark_claimed :
    (VerificationRequest → Bool) → ℕ → List VerificationRequest → List VerificationRequest
mark_claimed p now [] = []
mark_claimed p now (r ∷ rs) = (if p r then claim_row now r else r) ∷ mark_claimed p now rs

-- `ClaimVerificationRequests`; `enabled` tells the monitors that are there and enabled.
unfoldable pub claim_verification_requests :
    (String → Bool)
    → String
    → ℕ
    → ℕ
    → List VerificationRequest
    → List VerificationRequest × List VerificationRequest
claim_verification_requests enabled region limit now rows =
    let chosen = next_ids region limit now rows in
    (
      mark_claimed (taken enabled region now chosen) now rows,
      filter (taken enabled region now chosen) rows,
    )

-- `CompleteVerificationRequest`
unfoldable pub complete : String → List VerificationRequest → List VerificationRequest
complete id rows = filter (λ r. not (r.id =? id)) rows

-- The loop of `ExpireVerificationRequests` over the deleted rows: each monitor once.
abbrev pub distinct_from : List String → List String → List String
distinct_from seen [] = []
distinct_from seen (id ∷ rest) =
    let skipped = distinct_from seen rest in
    let kept = id ∷ distinct_from (id ∷ seen) rest in if contains seen id then skipped else kept

abbrev pub monitor_ids : List VerificationRequest → List String
monitor_ids [] = []
monitor_ids (r ∷ rs) = r.monitor_id ∷ monitor_ids rs

-- `ExpireVerificationRequests`
unfoldable pub expire_verification_requests :
    ℕ → List VerificationRequest → List VerificationRequest × List String
expire_verification_requests now rows = (
  filter (λ r. ltb now r.expires_at) rows,
  distinct_from [] (monitor_ids (filter (λ r. not (ltb now r.expires_at)) rows)),
)

-- What comes of one confirmation check.
pub data CheckEnd : Type 0 where
  unknown_type recorded record_failed : CheckEnd

-- `verify`: a request whose result could not be recorded stays, for the sweep.
unfoldable pub verify :
    CheckEnd → VerificationRequest → List VerificationRequest → List VerificationRequest
verify unknown_type r rows = complete r.id rows
verify recorded r rows = complete r.id rows
verify record_failed r rows = rows

abbrev pub verify_batch_size : ℕ
verify_batch_size = 50

abbrev pub verify_all :
    (VerificationRequest → CheckEnd)
    → List VerificationRequest
    → List VerificationRequest
    → List VerificationRequest
verify_all end [] rows = rows
verify_all end (r ∷ rs) rows = verify_all end rs (verify (end r) r rows)

module _ (enabled : String → Bool) (end : VerificationRequest → CheckEnd) (region : String)
    (now : ℕ) where
  -- `processBatch`: the rows, and how many were claimed. The checks of a batch run side by side and
  -- touch different rows, so they stand in order.
  unfoldable pub process_batch : List VerificationRequest → List VerificationRequest × ℕ
  process_batch rows =
      let (rows', claimed) =
        claim_verification_requests enabled region verify_batch_size now rows in
      (verify_all end claimed rows', length claimed)

  -- `for w.processBatch() == verifyBatchSize`, with fuel; `none` means that the fuel ran
  -- out. A stop between two rounds, which ends the loop early, is left out.
  unfoldable pub drain : ℕ → List VerificationRequest → Option (List VerificationRequest)
  unfolding process_batch
  drain zero rows = none
  drain (suc fuel) rows =
      let (rows', claimed) = process_batch rows in
      let again = drain fuel rows' in if claimed == verify_batch_size then again else some rows'
