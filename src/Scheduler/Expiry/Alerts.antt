-- ===== src/Scheduler/Expiry/Alerts.antt =====
-- Checks of certificates and domains in sequence, and the alerts that they leave behind
-- (RecordExpiryCheck of internal/database/bun/store_scheduler.go).
use text.Mathlib.TextEquality.{eq_iff}
use mathlib.Core.Option
use upguardly_server.Base.{
  ℕ, ◌≡◌, refl, sym, ◌∙◌, Bool, true, false, ◌&&◌, List, [], ◌∷◌, ◌++◌, String, ℤ, ◌<ℤ◌,
  if◌then◌else◌, ◌=?◌, string_eq, All, arith,
}
use upguardly_server.Scheduler.Expiry.{
  ExpiryKind, cert, domain, same_kind, is_key, MonitorExpiryStatus, ExpiryCheckClaim, ExpiryAlert,
  ExpiryState, ExpiryOutcome, date, failed, record_expiry_check, update_status, find_status,
}

-- One check: what was claimed, what came back, when, and whether the monitor was in maintenance.
pub record Check : Type 0 where
  pub claim : ExpiryCheckClaim
  pub outcome : ExpiryOutcome
  pub now : ℕ
  pub in_maintenance : Bool

abbrev pub run_check : ExpiryState → Check → ExpiryState
run_check s c = record_expiry_check c.claim c.outcome c.now c.in_maintenance s

unfoldable pub run_checks : ExpiryState → List Check → ExpiryState
run_checks s [] = s
run_checks s (c ∷ cs) = run_checks (run_check s c) cs

abbrev pub Decreasing : List ℤ → Type 0
Decreasing [] = Unit
Decreasing (b ∷ bs) = All (λ later. later <ℤ b) bs × Decreasing bs

abbrev pub IsDate : ℕ → ExpiryOutcome → Type 0
IsDate expires_at (failed text) = Unit
IsDate expires_at (date d) = d ≡ expires_at

pub All-snoc : (P : ℤ → Type 0) (bs : List ℤ) (b : ℤ) → All P bs → P b → All P (bs ++ b ∷ [])
All-snoc P [] b h k = (k, tt)
All-snoc P (x ∷ bs) b h k = (h.0, All-snoc P bs b h.1 k)

pub Decreasing-snoc :
    (bs : List ℤ) (b : ℤ) → Decreasing bs → All (λ x. b <ℤ x) bs → Decreasing (bs ++ b ∷ [])
Decreasing-snoc [] b h k = (tt, tt)
Decreasing-snoc (x ∷ bs) b h k =
    (All-snoc (λ later. later <ℤ x) bs b h.0 k.0, Decreasing-snoc bs b h.1 k.1)

pub absurd_test : {b : Bool} {d e : ℕ} → b ≡ true → b ≡ false → d ≡ e
absurd_test t f = let clash : true ≡ false = sym t ∙ f in cc

pub same_kind-eq : (a b : ExpiryKind) → same_kind a b ≡ true → a ≡ b
same_kind-eq cert cert h = refl
same_kind-eq cert domain h = cc
same_kind-eq domain cert h = cc
same_kind-eq domain domain h = refl

pub same_kind_refl : (a : ExpiryKind) → same_kind a a ≡ true
same_kind_refl cert = refl
same_kind_refl domain = refl

module _ (monitor : String) (kind : ExpiryKind) where
  -- The buckets alerted for one certificate or domain, the oldest first.
  abbrev pub buckets : List ExpiryAlert → List ℤ
  buckets [] = []
  buckets (a ∷ alerts) =
      let rest = buckets alerts in
      if a.monitor_id =? monitor && same_kind a.kind kind then a.bucket ∷ rest else rest

  pub buckets-snoc :
      (alerts : List ExpiryAlert) (a : ExpiryAlert)
      → buckets (alerts ++ a ∷ []) ≡ (
          if a.monitor_id =? monitor && same_kind a.kind kind
          then buckets alerts ++ a.bucket ∷ []
          else buckets alerts)
  buckets-snoc [] a = refl
  buckets-snoc (x ∷ alerts) a = ground (arith, buckets-snoc alerts a)

  module _ (f : MonitorExpiryStatus → MonitorExpiryStatus) where
    -- The row of the key itself, under an update that keeps its key.
    pub find_status-update :
        ((r : MonitorExpiryStatus) → is_key monitor kind (f r) ≡ is_key monitor kind r)
        → (rows : List MonitorExpiryStatus)
        → find_status monitor kind (update_status monitor kind f rows)
          ≡ Option.map f (find_status monitor kind rows)
    unfolding find_status update_status
    find_status-update keeps [] = refl
    find_status-update keeps (r ∷ rows) = ground (arith, keeps r, find_status-update keeps rows)

    pub find_status-update_other :
        (m : String) (k : ExpiryKind)
        → (m =? monitor && same_kind k kind) ≡ false
        → ((r : MonitorExpiryStatus) → is_key monitor kind (f r) ≡ is_key monitor kind r)
        → (rows : List MonitorExpiryStatus)
        → find_status monitor kind (update_status m k f rows) ≡ find_status monitor kind rows
    unfolding find_status update_status
    find_status-update_other m k apart keeps [] = refl
    find_status-update_other m k apart keeps (r ∷ rows) = ground (
      arith,
      keeps r,
      find_status-update_other m k apart keeps rows,
      apart,
      eq_iff m monitor,
      eq_iff r.monitor_id m,
      eq_iff r.monitor_id monitor,
      same_kind-eq r.kind k,
      same_kind-eq k kind,
      same_kind_refl k,
    )

pub All-map : (P Q : ℤ → Type 0) (bs : List ℤ) → ((b : ℤ) → P b → Q b) → All P bs → All Q bs
All-map P Q [] f h = tt
All-map P Q (b ∷ bs) f h = (f b h.0, All-map P Q bs f h.1)
