-- ===== src/Tests/Traffic.antt =====
-- A client at its request limit, and an alert that no provider takes at first.
use upguardly_server.Base.{
  ℕ, ◌≡◌, ◌≤◌, ◌-◌, ◌⊎◌, refl, Bool, true, false, List, [], ◌∷◌, none, some, String, string_eq,
}
use upguardly_server.Middleware.RateLimit.{RateLimiter}
use upguardly_server.Middleware.RateLimit.Window.{admitted, admitted-bounded}
use upguardly_server.Base.{pos}
use upguardly_server.Scheduler.Results.{PendingResult, ResultWriter, up, enqueue, receive, stop}
use upguardly_server.Scheduler.Results.Conserved.{
  WriterRun, empty, enqueue_next, receive_next, number_of_calls, stop-conserves,
}
use upguardly_server.Scheduler.Dispatcher.{AlertOutboxRow, Outbox, Answers, deliver}
use upguardly_server.Scheduler.Dispatcher.Fate.{Settled, deliver-conserves}

abbrev limiter : RateLimiter
limiter = record {
  limit = 3;
  window = 60;
  buckets = ("10.0.0.1", record { count = 2; window_start = 100 }) ∷ [];
  last_clean = 0;
}

abbrev traffic : List (String × ℕ)
traffic = ("10.0.0.1", 110) ∷ ("10.0.0.2", 120) ∷ ("10.0.0.1", 130) ∷ []

admitted-bounded_example : admitted limiter "10.0.0.1" traffic ≤ 3 - 2
admitted-bounded_example =
    admitted-bounded traffic limiter "10.0.0.1" (record { count = 2; window_start = 100 }) refl
      (refl, (refl, (refl, tt)))

abbrev alert : AlertOutboxRow
alert = record {
  id = "o1";
  alert_id = some "a1";
  notification_channel_id = none;
  message = "down";
  attempts = 0;
  next_attempt_at = 0;
}

abbrev outbox : Outbox
outbox = record { rows = alert ∷ []; history = [] }

abbrev answer : ℕ → Bool → Bool → Answers
answer now sent stored = record {
  now = now;
  claims = true;
  sent = λ id. sent;
  stored = λ id. stored;
  gave_up = "gave up";
}

-- The provider is down, then the row cannot be finalized, then all goes well.
abbrev answered : List Answers
answered = answer 0 false true ∷ answer 40 true false ∷ answer 110 true true ∷ []

deliver-conserves_example :
    ((true ≡ true)
      × ((true ≡ true) ⊎ (8 ≤ 0))
      × Settled alert "down" outbox (deliver true true "gave up" alert outbox))
    ⊎ (((true ≡ false) ⊎ ((true ≡ false) × (1 ≤ 8)))
        × (deliver true true "gave up" alert outbox ≡ outbox))
deliver-conserves_example = deliver-conserves true true "gave up" alert outbox

abbrev result : PendingResult
result = record {
  monitor_id = "m1";
  result = record { status = up; latency = pos 80; status_code = some (pos 200); message = "OK" };
}

abbrev writer : ResultWriter
writer = enqueue (receive (enqueue (record { ch = []; batch = []; persisted = [] }) result)) result

writer_run : WriterRun (result ∷ result ∷ []) writer
writer_run = enqueue_next result (receive_next (enqueue_next result empty))

stop-conserves_example : number_of_calls (λ p. true) (stop writer).persisted ≡ 2
stop-conserves_example = stop-conserves (λ p. true) writer_run
