-- ===== src/Scheduler/Dispatcher.antt =====
-- internal/scheduler/dispatcher.go and its statements in internal/database/bun/store_scheduler.go: the
-- outbox of alerts. Times are seconds; `sent` is whether the provider took the alert.
pub mod Fate
pub mod Delivered
pub mod Batches
use upguardly_server.Base.{
  ℕ, suc, ◌+◌, ◌*◌, ◌^◌, min, Bool, true, false, not, ◌||◌, List, [], ◌∷◌, ◌++◌, Option, none, some,
  String, if◌then◌else◌, leb, ◌=?◌, string_eq, contains, filter, map, take, length, is_some,
}

pub record AlertOutboxRow : Type 0 where
  pub id : String
  pub alert_id : Option String
  pub notification_channel_id : Option String
  pub message : String
  pub attempts : ℕ
  pub next_attempt_at : ℕ

pub record AlertHistory : Type 0 where
  pub alert_id : Option String
  pub notification_channel_id : Option String
  pub message : String

pub record Outbox : Type 0 where
  pub rows : List AlertOutboxRow
  pub history : List AlertHistory

abbrev pub dispatch_batch_size : ℕ
dispatch_batch_size = 50

abbrev pub dispatch_max_attempts : ℕ
dispatch_max_attempts = 8

-- `least(interval '30 seconds' * (2 ^ attempts), interval '30 minutes')`
abbrev pub backoff : ℕ → ℕ
backoff attempts = min (30 * 2 ^ attempts) 1800

-- The SET of the claim.
abbrev pub claimed : ℕ → AlertOutboxRow → AlertOutboxRow
claimed now r = record r { attempts = suc r.attempts; next_attempt_at = now + backoff r.attempts }

-- `ORDER BY next_attempt_at`
abbrev insert_due : AlertOutboxRow → List AlertOutboxRow → List AlertOutboxRow
insert_due r [] = r ∷ []
insert_due r (x ∷ xs) =
    if leb r.next_attempt_at x.next_attempt_at then r ∷ x ∷ xs else x ∷ insert_due r xs

abbrev pub order_by_due : List AlertOutboxRow → List AlertOutboxRow
order_by_due [] = []
order_by_due (x ∷ xs) = insert_due x (order_by_due xs)

abbrev pub due_ids : ℕ → ℕ → List AlertOutboxRow → List String
due_ids limit now rows =
    map (λ (r : AlertOutboxRow). r.id)
      (take limit (order_by_due (filter (λ r. leb r.next_attempt_at now) rows)))

-- `ClaimOutboxAlerts`: the outbox, and the claimed rows as they now are.
unfoldable pub claim_outbox_alerts : ℕ → ℕ → Outbox → Outbox × List AlertOutboxRow
claim_outbox_alerts limit now o =
    let ids = due_ids limit now o.rows in
    (
      record o { rows = map (λ r. if contains ids r.id then claimed now r else r) o.rows },
      map (claimed now) (filter (λ r. contains ids r.id) o.rows),
    )

-- `FinalizeOutboxAlert`: the history entry and the deletion, in one transaction.
unfoldable pub finalize_outbox_alert : AlertOutboxRow → String → Outbox → Outbox
finalize_outbox_alert r message o = record {
  rows = filter (λ x. not (x.id =? r.id)) o.rows;
  history =
      if is_some r.alert_id || is_some r.notification_channel_id
      then o.history
        ++ record {
          alert_id = r.alert_id;
          notification_channel_id = r.notification_channel_id;
          message = message;
        }
          ∷ []
      else o.history;
}

-- The switch of `deliver`: the message to finalize with, or none where the row is left to retry.
-- `gave_up` is the text that names the attempts and the error.
unfoldable pub outcome : Bool → String → AlertOutboxRow → Option String
outcome sent gave_up r =
    if sent
    then some r.message
    else (if leb dispatch_max_attempts r.attempts then some gave_up else none)

-- `finalize`: where the transaction fails the row stays, to be claimed and sent again.
unfoldable pub finalize : Bool → AlertOutboxRow → String → Outbox → Outbox
finalize stored r message o = if stored then finalize_outbox_alert r message o else o

abbrev pub settle : Bool → Option String → AlertOutboxRow → Outbox → Outbox
settle stored none r o = o
settle stored (some message) r o = finalize stored r message o

-- `deliver`; `stored` is whether the transaction of `FinalizeOutboxAlert` succeeds.
unfoldable pub deliver : Bool → Bool → String → AlertOutboxRow → Outbox → Outbox
unfolding outcome
deliver sent stored gave_up r o = settle stored (outcome sent gave_up r) r o

-- What a batch meets: the clock, whether the claim succeeds, and for each row id whether the
-- provider takes the alert and whether the row can be finalized.
pub record Answers : Type 0 where
  pub now : ℕ
  pub claims : Bool
  pub sent : String → Bool
  pub stored : String → Bool
  pub gave_up : String

-- The deliveries of different rows commute, so they stand in order.
abbrev pub deliver_all : Answers → List AlertOutboxRow → Outbox → Outbox
deliver_all a [] o = o
deliver_all a (r ∷ rs) o = deliver_all a rs (deliver (a.sent r.id) (a.stored r.id) a.gave_up r o)

-- `dispatchBatch`: the outbox, and the number of rows claimed.
unfoldable pub dispatch_batch : Answers → Outbox → Outbox × ℕ
unfolding claim_outbox_alerts
dispatch_batch a o =
    let (o', rows) = claim_outbox_alerts dispatch_batch_size a.now o in
    if a.claims then (deliver_all a rows o', length rows) else (o, 0)
