-- ===== src/Scheduler/Results.antt =====
-- internal/scheduler/runner.go: the check's outcome, and the writer that batches the outcomes.
-- `persisted` lists the calls of PersistMonitorResults, each with its rows.
pub mod Conserved
use upguardly_server.Base.{
  ℕ, zero, suc, Bool, true, false, ◌&&◌, List, [], ◌∷◌, ◌++◌, Option, String, ℤ, ltz, if◌then◌else◌,
  ltb, leb, length,
}

-- `models.Status`
pub data Status : Type 0 where
  up degraded down : Status

pub record CheckResult : Type 0 where
  pub status : Status
  pub latency : ℤ
  pub status_code : Option ℤ
  pub message : String

pub record PendingResult : Type 0 where
  pub monitor_id : String
  pub result : CheckResult

abbrev is_up : Status → Bool
is_up up = true
is_up _ = false

-- `runCheck`: an UP check slower than the monitor's threshold counts as DEGRADED.
unfoldable pub classify : ℤ → CheckResult → CheckResult
classify threshold r =
    if is_up r.status && ltz threshold r.latency
    then record r { status = degraded; message = "High latency" }
    else r

abbrev pub result_batch_max : ℕ
result_batch_max = 200

abbrev pub result_buffer_size : ℕ
result_buffer_size = 4096

-- `ch` is the channel's buffer, and `batch` the flusher's slice.
pub record ResultWriter : Type 0 where
  pub ch : List PendingResult
  pub batch : List PendingResult
  pub persisted : List (List PendingResult)

-- `insertOne`
abbrev pub insert_one : ResultWriter → PendingResult → ResultWriter
insert_one w p = record w { persisted = (p ∷ []) ∷ w.persisted }

-- `enqueue`: with a full buffer the result is written at once.
unfoldable pub enqueue : ResultWriter → PendingResult → ResultWriter
enqueue w p =
    if ltb (length w.ch) result_buffer_size
    then record w { ch = w.ch ++ p ∷ [] }
    else insert_one w p

abbrev pub flush_calls : List PendingResult → List (List PendingResult) → List (List PendingResult)
flush_calls [] calls = calls
flush_calls (p ∷ ps) calls = (p ∷ ps) ∷ calls

-- `flush`, and the slice emptied after it.
unfoldable pub flush : ResultWriter → ResultWriter
flush w = record w { batch = []; persisted = flush_calls w.batch w.persisted }

-- The case of the loop that receives `p`, taken off the channel already.
unfoldable pub take_in : ResultWriter → PendingResult → ResultWriter
unfolding flush
take_in w p =
    let w' = record w { batch = w.batch ++ p ∷ [] } in
    if leb result_batch_max (length w'.batch) then flush w' else w'

abbrev pub receive_from : ResultWriter → List PendingResult → ResultWriter
receive_from w [] = w
receive_from w (p ∷ ps) = take_in (record w { ch = ps }) p

-- One turn of the loop on an open channel, and one on a tick.
unfoldable pub receive : ResultWriter → ResultWriter
unfolding take_in
receive w = receive_from w w.ch

unfoldable pub tick : ResultWriter → ResultWriter
unfolding flush
tick w = if ltb 0 (length w.batch) then flush w else w

-- The loop on a closed channel: it receives what is left, and then flushes.
abbrev pub drain : ResultWriter → List PendingResult → ResultWriter
drain w [] = record w { ch = [] }
drain w (p ∷ ps) = drain (take_in w p) ps

unfoldable pub stop : ResultWriter → ResultWriter
unfolding flush
stop w = flush (drain w w.ch)
