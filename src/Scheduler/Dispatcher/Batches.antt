-- ===== src/Scheduler/Dispatcher/Batches.antt =====
-- An alert over the batches of the dispatcher (internal/scheduler/dispatcher.go).

use upguardly_server.Base.{
  ℕ, suc, ◌≡◌, Bool, true, false, ◌||◌, List, [], ◌∷◌, String, string_eq, contains,
}
use upguardly_server.Scheduler.Dispatcher.{
  Outbox, Answers, due_ids, dispatch_batch_size, dispatch_batch,
}
use upguardly_server.Scheduler.Dispatcher.Delivered.{has_row, settles}

-- Batches one after the other.
unfoldable pub dispatch_batches : List Answers → Outbox → Outbox
dispatch_batches [] o = o
dispatch_batches (a ∷ later) o = dispatch_batches later (dispatch_batch a o).0

module _ (id : String) where
  -- Each batch claims the row while it is in the outbox: its time has come, and it is not behind a
  -- full batch of others.
  abbrev pub Served : List Answers → Outbox → Type 0
  Served [] o = Unit
  Served (a ∷ later) o =
      (has_row id o.rows ≡ true
        → (a.claims ≡ true) × (contains (due_ids dispatch_batch_size a.now o.rows) id ≡ true))
      × Served later (dispatch_batch a o).0

  -- One of the batches is done with a row that was claimed `k` times before them.
  abbrev pub settled_by : List Answers → ℕ → Bool
  settled_by [] k = false
  settled_by (a ∷ later) k = settles id a (suc k) || settled_by later (suc k)
