-- ===== src/Tests/Sweeps.antt =====
-- The expiry sweep, the confirmation checks, the membership watch, and the rate limiter's table.
use upguardly_server.Base.{
  ℕ, ◌*◌, ◌≡◌, ◌↔◌, ◌≤◌, refl, true, false, List, [], ◌∷◌, Option, none, some, String, pos,
  contains, Distinct, inr, arith, string_eq, nat_eq,
}
use upguardly_server.Scheduler.Expiry.{
  cert, MonitorExpiryStatus, ExpiryCheckClaim, ExpiryState, date, failed, find_status,
  record_expiry_check, update_status, alert_bucket, expiry_alert_content, expiry_days_left,
}
use upguardly_server.Models.Expiry.{expiry_alert_bucket}
use upguardly_server.Scheduler.Expiry.Alerts.{Check, run_checks, buckets, Decreasing}
use upguardly_server.Scheduler.Expiry.Buckets.{run_checks-Decreasing}
use upguardly_server.Scheduler.Expiry.Sweep.{
  claim_due_expiry_checks, seed, due_rows, claims_of, find_monitor,
}
use upguardly_server.Scheduler.Expiry.Sweep.Stamp.{has_claim}
use upguardly_server.Scheduler.Expiry.Sweep.Claimed.{
  SweepStep, claims, records, after_step, all_claims, claim_due_expiry_checks-once,
}
use upguardly_server.Scheduler.Verifier.{
  VerificationRequest, recorded, drain, expire_verification_requests,
}
use upguardly_server.Scheduler.Verifier.Drain.{
  waiting, drain_total, has_expired, expire_verification_requests_lem,
}
use upguardly_server.Coordination.Partition.{PartitionManager, recalculate_ownership, is_owned}
use upguardly_server.Coordination.Coordinator.{sort_texts, parsed, event_buffer}
use upguardly_server.Coordination.Coordinator.Converge.{
  Member, Turn, watch, turn, turns, receives, converge-exactly_one,
}
use upguardly_server.Middleware.RateLimit.{new_rate_limiter}
use upguardly_server.Middleware.RateLimit.Counters.{answers, counted_answers, answers-counted}
use upguardly_server.Tests.Data.{owned_row}

abbrev certificate : MonitorExpiryStatus
certificate = record {
  monitor_id = "m1";
  kind = cert;
  expires_at = none;
  checked_at = 0;
  last_error = none;
  last_alert_bucket = none;
  alerted_expires_at = none;
}

abbrev claim : ExpiryCheckClaim
claim = record {
  monitor_id = "m1";
  kind = cert;
  target = "https://acme.example";
  threshold_days = pos 14;
}

abbrev day_of : ℕ → ℕ
day_of n = n * 86400

-- The certificate expires on day 30; the check of day 28 fails.
abbrev checks : List Check
checks =
    record { claim = claim; outcome = date 2592000; now = day_of 17; in_maintenance = false }
    ∷ record { claim = claim; outcome = date 2592000; now = day_of 18; in_maintenance = false }
    ∷ record { claim = claim; outcome = failed "timeout"; now = day_of 28; in_maintenance = false }
    ∷ record { claim = claim; outcome = date 2592000; now = day_of 29; in_maintenance = false }
    ∷ []

run_checks-Decreasing_example :
    Decreasing (
      buckets "m1" cert
        (run_checks (record { rows = certificate ∷ []; alerts = [] }) checks).alerts)
run_checks-Decreasing_example =
    run_checks-Decreasing 2592000 "m1" cert (certificate ∷ []) checks
      (inr refl, (inr refl, (inr tt, (inr refl, tt))))

alerted_buckets :
    buckets "m1" cert (run_checks (record { rows = certificate ∷ []; alerts = [] }) checks).alerts
    ≡ pos 14 ∷ pos 1 ∷ []
unfolding run_checks record_expiry_check find_status update_status alert_bucket expiry_alert_bucket
    expiry_alert_content expiry_days_left
alerted_buckets = refl

claimed_now : has_claim "m1" cert (claim_due_expiry_checks (owned_row ∷ []) 50 100000 []).1 ≡ true
unfolding claim_due_expiry_checks seed due_rows claims_of find_status find_monitor
claimed_now = refl

-- Another instance claims, an outcome is recorded, and both claim again.
abbrev sweep_steps : List SweepStep
sweep_steps =
    claims (owned_row ∷ []) 50 120000
    ∷ records (record { monitor_id = "m1"; kind = cert; target = "t"; threshold_days = pos 14 })
        (failed "refused") 120000 false
    ∷ claims [] 50 150000
    ∷ claims (owned_row ∷ []) 50 186400
    ∷ []

abbrev unclaimed : ExpiryState
unclaimed = record { rows = []; alerts = [] }

claim_due_expiry_checks-once_example :
    has_claim "m1" cert
      (all_claims (after_step unclaimed (claims (owned_row ∷ []) 50 100000)) sweep_steps)
    ≡ false
claim_due_expiry_checks-once_example =
    claim_due_expiry_checks-once "m1" cert (owned_row ∷ []) 50 100000 unclaimed sweep_steps
      claimed_now (omega arith, (omega arith, (omega arith, tt)))

abbrev asked : VerificationRequest
asked = record {
  id = "v1";
  monitor_id = "m1";
  region = "us-west";
  requested_at = 10;
  expires_at = 70;
  claimed_at = none;
}

drain_total_example :
    (out : List VerificationRequest) × (drain
        (λ m. true)
        (λ r. recorded)
        "us-west"
        20
        2
        (asked ∷ [])
      ≡ some out)
    × (waiting (λ m. true) (λ r. recorded) "us-west" 20 out
        ≤ waiting (λ m. true) (λ r. recorded) "us-west" 20 (asked ∷ []))
drain_total_example =
    drain_total (λ m. true) (λ r. recorded) "us-west" 20 2 (asked ∷ []) (omega arith)

expire_verification_requests_lem_example :
    Distinct (expire_verification_requests 80 (asked ∷ asked ∷ [])).1
    × (contains (expire_verification_requests 80 (asked ∷ asked ∷ [])).1 "m1"
        ≡ has_expired 80 "m1" (asked ∷ asked ∷ []))
    × (has_expired 80 "m1" (expire_verification_requests 80 (asked ∷ asked ∷ [])).0 ≡ false)
expire_verification_requests_lem_example =
    expire_verification_requests_lem 80 (asked ∷ asked ∷ []) "m1"

-- etcd lists two instances, and a value that does not parse.
abbrev listing : List (Option String)
listing = some "b" ∷ none ∷ some "a" ∷ []

converge-exactly_one_example :
    (id : String) × (contains (sort_texts (parsed listing)) id ≡ true)
    × ((before : Member) (history : List Turn) (n : ℕ) (pm : PartitionManager)
        → event_buffer ≤ n
        → pm.partition_count ≡ 4
        → (is_owned
              (recalculate_ownership pm
                (receives n (turn (turns before history) (watch (some listing)))).view).0
              3
            ≡ true)
          ↔ (pm.instance_id ≡ id))
converge-exactly_one_example =
    converge-exactly_one listing 4 3 (refl, (refl, tt)) (λ h. cc) (omega arith)

answers-counted_example :
    answers (new_rate_limiter 2 60 0) (("ip", 5) ∷ ("other", 6) ∷ ("ip", 70) ∷ [])
    ≡ counted_answers 2 60 (λ ip. none) (("ip", 5) ∷ ("other", 6) ∷ ("ip", 70) ∷ [])
answers-counted_example =
    answers-counted 2 60 0 (("ip", 5) ∷ ("other", 6) ∷ ("ip", 70) ∷ [])
      (omega arith, (omega arith, (omega arith, tt)))
