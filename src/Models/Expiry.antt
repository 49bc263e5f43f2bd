-- ===== src/Models/Expiry.antt =====
-- internal/models/expiry.go: when an expiry alert is due.
use upguardly_server.Base.{
  ◌≡◌, ◌↔◌, true, ◌&&◌, Option, none, some, ℤ, pos, ltz, lez, ◌≤ℤ◌, if◌then◌else◌, is_some, arith,
}

unfoldable pub expiry_alert_bucket : ℤ → ℤ → Option ℤ
expiry_alert_bucket days_left threshold =
    if ltz days_left (pos 0)
    then some (pos 0)
    else (if lez days_left (pos 1) && lez (pos 1) threshold
        then some (pos 1)
        else (if lez days_left (pos 3) && lez (pos 3) threshold
            then some (pos 3)
            else (if lez days_left threshold then some threshold else none)))

-- A bucket at most the other, where both exist.
abbrev pub NoLater : Option ℤ → Option ℤ → Type 0
NoLater none none = Unit
NoLater none (some b) = ⊥
NoLater (some a) none = Unit
NoLater (some a) (some b) = a ≤ℤ b

-- With a threshold of 1 day or more, an alert is due exactly within the threshold (or after the
-- expiry), and as the days run down the bucket only moves towards 0.
pub expiry_alert_bucket_lem :
    (threshold d e : ℤ)
    → pos 1 ≤ℤ threshold
    → d ≤ℤ e
    → ((is_some (expiry_alert_bucket d threshold) ≡ true) ↔ (d ≤ℤ threshold))
      × NoLater (expiry_alert_bucket d threshold) (expiry_alert_bucket e threshold)
unfolding expiry_alert_bucket
expiry_alert_bucket_lem threshold d e some_day order = (ground arith, ground arith)
