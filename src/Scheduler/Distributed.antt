-- ===== src/Scheduler/Distributed.antt =====
-- internal/scheduler/distributed.go: the scheduler of one instance of a fleet, which runs the jobs of
-- the partitions it owns. The two queries are parameters, `none` where they fail.
pub mod Owned
use upguardly_server.Base.{
  ℕ, Bool, true, false, not, ◌&&◌, List, [], ◌∷◌, Option, none, some, String, ℤ, pos, negsuc,
  if◌then◌else◌, ◌==◌, contains, string_eq, nat_eq, length,
}
use upguardly_server.Coordination.Partition.{
  PartitionManager, PartitionDelta, calculate_partition, recalculate_ownership, is_owned,
  get_owned_partitions,
}
use upguardly_server.Scheduler.Jobs.{Monitor, Pool, reconcile_job, stop_jobs}

pub record DistributedScheduler : Type 0 where
  pub partitions : PartitionManager
  pub pool : Pool

-- A Go map with int keys at a partition number.
abbrev pub in_set : List ℕ → ℤ → Bool
in_set set (pos p) = contains set p
in_set set (negsuc n) = false

abbrev pub is_empty {ℓ} : {A : Type ℓ} → List A → Bool
is_empty [] = true
is_empty (x ∷ xs) = false

module _ (hash : String → ℕ) where
  -- `IsMonitorOwned`
  abbrev pub is_monitor_owned : PartitionManager → String → Bool
  is_monitor_owned pm id =
      in_set pm.owned_partitions (calculate_partition hash pm.partition_count id)

  -- `stopJobsForPartitions`
  unfoldable pub stop_jobs_for_partitions : PartitionManager → List ℕ → Pool → Pool
  stop_jobs_for_partitions pm partitions p =
      stop_jobs (λ id. in_set partitions (calculate_partition hash pm.partition_count id)) p

  -- `applyOwnership`
  unfoldable pub apply_ownership : List String → DistributedScheduler → DistributedScheduler
  unfolding stop_jobs_for_partitions
  apply_ownership instances s =
      let (pm, delta) = recalculate_ownership s.partitions instances in
      record {
        partitions = pm;
        pool =
            if is_empty delta.lost then s.pool else stop_jobs_for_partitions pm delta.lost s.pool;
      }

  -- The loop over the fetched monitors, which passes over those that are not owned: the active ids,
  -- and the pool.
  unfoldable pub reconcile_owned : PartitionManager → List Monitor → Pool → List String × Pool
  reconcile_owned pm [] p = ([], p)
  reconcile_owned pm (m ∷ ms) p =
      let (active, p') = reconcile_owned pm ms (reconcile_job p m) in
      let skipped = reconcile_owned pm ms p in
      if is_monitor_owned pm m.id then (m.id ∷ active, p') else skipped

  -- `fetchOwnedMonitors`
  unfoldable pub fetch_owned_monitors :
      PartitionManager
      → Option (List Monitor)
      → (List ℕ → Option (List Monitor))
      → Option (List Monitor)
  fetch_owned_monitors pm active owned =
      let mine = get_owned_partitions pm in
      if is_empty mine
      then some []
      else (if length mine == pm.partition_count then active else owned mine)

  abbrev pub sync_fetched : PartitionManager → Option (List Monitor) → Pool → Pool
  sync_fetched pm none p = p
  sync_fetched pm (some ms) p =
      let (active, p') = reconcile_owned pm ms p in stop_jobs (λ id. not (contains active id)) p'

  -- `syncMonitors`
  unfoldable pub sync_monitors :
      Option (List Monitor)
      → (List ℕ → Option (List Monitor))
      → DistributedScheduler
      → DistributedScheduler
  unfolding fetch_owned_monitors
  sync_monitors active owned s = record s {
    pool = sync_fetched s.partitions (fetch_owned_monitors s.partitions active owned) s.pool;
  }

-- What the loop of `run` receives: an event of the membership, or the periodic backstop with the answer of
-- `Reconcile`; and what the two queries of the sync return after it.
pub data LoopEvent : Type 0 where
  membership : List String → Option (List Monitor) → (List ℕ → Option (List Monitor)) → LoopEvent
  backstop :
      Option (List String) → Option (List Monitor) → (List ℕ → Option (List Monitor)) → LoopEvent

-- One pass of the loop of `run`.
unfoldable pub handle_event : (String → ℕ) → DistributedScheduler → LoopEvent → DistributedScheduler
handle_event hash s (membership instances active owned) =
    sync_monitors hash active owned (apply_ownership hash instances s)
handle_event hash s (backstop (some instances) active owned) =
    sync_monitors hash active owned (apply_ownership hash instances s)
handle_event hash s (backstop none active owned) = sync_monitors hash active owned s

-- `run`
unfoldable pub run_loop :
    (String → ℕ) → DistributedScheduler → List LoopEvent → DistributedScheduler
run_loop hash s [] = s
run_loop hash s (e ∷ es) = run_loop hash (handle_event hash s e) es
