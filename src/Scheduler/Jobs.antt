-- ===== src/Scheduler/Jobs.antt =====
-- internal/scheduler/scheduler.go: the pool of running jobs. A job's `handle` names its goroutine and
-- its cancel function; `canceled` is the log of the handles that were canceled.
pub mod Sync
pub mod Leak
use upguardly_server.Base.{
  ℕ, suc, Bool, true, false, not, ◌&&◌, List, [], ◌∷◌, Option, none, some, String, ℤ, eqz,
  if◌then◌else◌, ◌==◌, ◌=?◌, string_eq, contains, lookup, insert, discard, map, ◌++◌,
}

-- `models.Monitor` as the scheduler reads it: the interval is the effective one.
pub record Monitor : Type 0 where
  pub id : String
  pub updated_at : ℕ
  pub interval : ℤ

pub record Job : Type 0 where
  pub handle : ℕ
  pub updated_at : ℕ
  pub interval : ℤ

pub record Pool : Type 0 where
  pub jobs : List (String × Job)
  pub next : ℕ
  pub canceled : List ℕ

-- `startMonitorJob`
unfoldable pub start_monitor_job : Pool → Monitor → Pool
start_monitor_job p m = record p {
  jobs =
      insert p.jobs m.id
        (record { handle = p.next; updated_at = m.updated_at; interval = m.interval });
  next = suc p.next;
}

abbrev pub cancel_job : Pool → Job → Pool
cancel_job p j = record p { canceled = j.handle ∷ p.canceled }

abbrev pub same_config : Job → Monitor → Bool
same_config j m = j.updated_at == m.updated_at && eqz j.interval m.interval

unfoldable pub reconcile_found : Pool → Monitor → Option Job → Pool
unfolding start_monitor_job
reconcile_found p m none = start_monitor_job p m
reconcile_found p m (some j) = if same_config j m then p else start_monitor_job (cancel_job p j) m

-- `reconcileJob`
unfoldable pub reconcile_job : Pool → Monitor → Pool
unfolding reconcile_found
reconcile_job p m = reconcile_found p m (lookup p.jobs m.id)

-- The loop over the fetched monitors.
unfoldable pub reconcile_jobs : List Monitor → Pool → Pool
unfolding reconcile_job
reconcile_jobs [] p = p
reconcile_jobs (m ∷ ms) p = reconcile_jobs ms (reconcile_job p m)

-- The handles of the jobs whose monitor is dropped.
abbrev pub dropped : (String → Bool) → List (String × Job) → List ℕ
dropped gone [] = []
dropped gone ((id, j) ∷ jobs) =
    let rest = dropped gone jobs in if gone id then j.handle ∷ rest else rest

-- Cancels and deletes the jobs whose monitor passes the test.
unfoldable pub stop_jobs : (String → Bool) → Pool → Pool
stop_jobs gone p = record p {
  jobs = discard gone p.jobs;
  canceled = dropped gone p.jobs ++ p.canceled;
}

abbrev pub ids : List Monitor → List String
ids ms = map (λ (m : Monitor). m.id) ms

-- `syncMonitors`: `none` is a failed fetch.
unfoldable pub sync_monitors : Option (List Monitor) → Pool → Pool
unfolding reconcile_jobs stop_jobs
sync_monitors none p = p
sync_monitors (some ms) p = stop_jobs (λ id. not (contains (ids ms) id)) (reconcile_jobs ms p)

-- `Stop`
unfoldable pub stop : Pool → Pool
unfolding stop_jobs
stop p = stop_jobs (λ id. true) p
