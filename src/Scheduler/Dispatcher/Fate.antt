-- ===== src/Scheduler/Dispatcher/Fate.antt =====
-- What becomes of an alert that is delivered (internal/scheduler/dispatcher.go).
use upguardly_server.Base.{
  suc, ◌≤◌, ◌≡◌, ◌⊎◌, refl, Bool, true, false, not, ◌||◌, List, [], ◌∷◌, ◌++◌, String, arith,
  if◌then◌else◌, leb, ◌=?◌, string_eq, filter, is_some, inl, inr, Bool-cases,
}
use upguardly_server.Scheduler.Dispatcher.{
  AlertOutboxRow, AlertHistory, Outbox, outcome, deliver, dispatch_max_attempts, finalize,
  finalize_outbox_alert,
}

-- The history entries of an alert that is done with: one if it names an alert or a channel, and none
-- otherwise.
abbrev pub entries : AlertOutboxRow → String → List AlertHistory
entries r message =
    if is_some r.alert_id || is_some r.notification_channel_id
    then record {
      alert_id = r.alert_id;
      notification_channel_id = r.notification_channel_id;
      message = message;
    }
      ∷ []
    else []

-- The row goes, and the history grows by its entries.
abbrev pub Settled : AlertOutboxRow → String → Outbox → Outbox → Type 0
Settled r message o out =
    (out.rows ≡ filter (λ x. not (x.id =? r.id)) o.rows)
    × (out.history ≡ o.history ++ entries r message)

append_nil : (hs : List AlertHistory) → hs ≡ hs ++ []
append_nil [] = refl
append_nil (h ∷ hs) = ground (arith, append_nil hs)

finalize_outbox_alert-Settled :
    (r : AlertOutboxRow) (message : String) (o : Outbox)
    → Settled r message o (finalize_outbox_alert r message o)
unfolding finalize_outbox_alert
finalize_outbox_alert-Settled r message o =
    elim (Bool-cases (is_some r.alert_id || is_some r.notification_channel_id)) [
      | inl named ↦ rw named (refl, refl)
      | inr unnamed ↦ rw unnamed (refl, append_nil o.history)
    ]

-- A delivery that was sent, or that failed for the eighth time or later, and that can be finalized
-- takes the row out of the outbox: the other rows stay, and the history so far stays and gets the
-- alert's final message if an alert or a channel is named, and nothing otherwise. Every other
-- delivery, also one that cannot be finalized, changes neither the outbox nor the history.
pub deliver-conserves :
    (sent stored : Bool) (gave_up : String) (r : AlertOutboxRow) (o : Outbox)
    → ((stored ≡ true)
        × ((sent ≡ true) ⊎ (8 ≤ r.attempts))
        × Settled r (if sent then r.message else gave_up) o (deliver sent stored gave_up r o))
      ⊎ (((stored ≡ false) ⊎ ((sent ≡ false) × (suc r.attempts ≤ 8)))
          × (deliver sent stored gave_up r o ≡ o))
unfolding deliver outcome finalize
deliver-conserves true true gave_up r o =
    inl (refl, inl refl, finalize_outbox_alert-Settled r r.message o)
deliver-conserves true false gave_up r o = inr (inl refl, refl)
deliver-conserves false stored gave_up r o =
    elim (Bool-cases (leb dispatch_max_attempts r.attempts)) [
      | inr more ↦ inr (inr (refl, ground arith), rw more refl)
      | inl last ↦ elim (Bool-cases stored) [
        | inl fine ↦
            inl (
              fine,
              inr (ground arith),
              rw (last, fine) (finalize_outbox_alert-Settled r gave_up o),
            )
        | inr broken ↦ inr (inl broken, rw (last, broken) refl)
      ]
    ]
