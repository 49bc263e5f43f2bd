-- ===== src/Tests/Fleet.antt =====
-- Two scheduler instances with four partitions, and their jobs.
use upguardly_server.Base.{
  ℕ, ◌≡◌, ◌↔◌, refl, true, not, ◌&&◌, List, [], ◌∷◌, none, some, String, pos, contains, string_eq,
  nat_eq, lookup, arith,
}
use upguardly_server.Coordination.Partition.{
  PartitionManager, recalculate_ownership, is_owned, calculate_partition,
}
use upguardly_server.Coordination.Partition.Ownership.{
  recalculate_ownership-exactly_one, recalculate_ownership-delta,
}
use upguardly_server.Coordination.Partition.Hash.{Residue, signed, calculate_partition-Residue}
use upguardly_server.Scheduler.Jobs.{Monitor, Job, Pool, sync_monitors}
use upguardly_server.Scheduler.Jobs.Sync.{find_monitor, Settled, sync_monitors-Settled}
use upguardly_server.Scheduler.Jobs.Leak.{Held, sync_monitors-Held}
use upguardly_server.Scheduler.Distributed.{
  DistributedScheduler, LoopEvent, membership, backstop, run_loop,
}
use upguardly_server.Scheduler.Distributed.Owned.{JobsOwned, run_loop-JobsOwned}

abbrev fleet : List String
fleet = "a" ∷ "b" ∷ []

abbrev manager : PartitionManager
manager = record {
  partition_count = 4;
  instance_id = "b";
  owned_partitions = 0 ∷ 1 ∷ 2 ∷ 3 ∷ [];
  instance_index = some 0;
  instance_count = 1;
}

-- A hash that is negative as an int32.
abbrev hash : String → ℕ
hash id = 4294967289

recalculate_ownership-exactly_one_example :
    (id : String) × (contains fleet id ≡ true)
    × ((pm : PartitionManager)
        → pm.partition_count ≡ 4
        → (is_owned (recalculate_ownership pm fleet).0 3 ≡ true) ↔ (pm.instance_id ≡ id))
recalculate_ownership-exactly_one_example =
    recalculate_ownership-exactly_one fleet (refl, (refl, tt)) 3 4 (λ h. cc) (omega arith)

recalculate_ownership-delta_example :
    (contains (recalculate_ownership manager fleet).1.gained 2
      ≡ (is_owned (recalculate_ownership manager fleet).0 2 && not (is_owned manager 2)))
    × (contains (recalculate_ownership manager fleet).1.lost 2
        ≡ (is_owned manager 2 && not (is_owned (recalculate_ownership manager fleet).0 2)))
recalculate_ownership-delta_example = recalculate_ownership-delta manager fleet 2

calculate_partition-Residue_example :
    Residue (signed 4294967289) 4 (calculate_partition hash 4 "m1")
calculate_partition-Residue_example =
    calculate_partition-Residue 4 (omega arith) (omega arith) hash "m1"

abbrev old_job : Job
old_job = record { handle = 0; updated_at = 5; interval = pos 60 }

abbrev pool : Pool
pool = record { jobs = ("m1", old_job) ∷ []; next = 1; canceled = [] }

abbrev fetched : List Monitor
fetched =
    record { id = "m1"; updated_at = 6; interval = pos 60 }
    ∷ record { id = "m2"; updated_at = 1; interval = pos 300 }
    ∷ []

sync_monitors-Settled_example :
    Settled
      (lookup pool.jobs "m1")
      (find_monitor "m1" fetched)
      (lookup (sync_monitors (some fetched) pool).jobs "m1")
sync_monitors-Settled_example = sync_monitors-Settled fetched pool "m1" (refl, (refl, tt))

sync_monitors-Held_example : Held "m1" old_job (sync_monitors (some fetched) pool)
sync_monitors-Held_example = sync_monitors-Held (some fetched) pool "m1" old_job refl

abbrev scheduler : DistributedScheduler
scheduler = record { partitions = manager; pool = pool }

-- The hash is -7, so the partition is 1.
owns_m1 : JobsOwned hash scheduler
unfolding calculate_partition
owns_m1 id j h = refl

abbrev loop_events : List LoopEvent
loop_events =
    backstop none (some fetched) (λ mine. some fetched)
    ∷ membership fleet (some fetched) (λ mine. some fetched)
    ∷ []

run_loop-JobsOwned_example : JobsOwned hash (run_loop hash scheduler loop_events)
run_loop-JobsOwned_example = run_loop-JobsOwned hash scheduler loop_events owns_m1
