-- ===== src/Scheduler/Distributed/Owned.antt =====
-- The running jobs against the owned partitions (internal/scheduler/distributed.go).
use text.Mathlib.TextEquality.{eq_iff}
use upguardly_server.Base.{
  ℕ, ◌≡◌, refl, sym, subst, ◌∙◌, Bool, true, false, not, List, [], ◌∷◌, Option, none, some, String,
  ℤ, pos, negsuc, arith, ◌=?◌, string_eq, nat_eq, contains, lookup, lookup-discard, inl, inr,
  Bool-cases, Option-cases,
}
use upguardly_server.Coordination.Partition.{
  PartitionManager, calculate_partition, recalculate_ownership, is_owned, index_of,
}
use upguardly_server.Coordination.Partition.Ownership.{recalculate_ownership-delta}
use upguardly_server.Scheduler.Jobs.{Monitor, Job, Pool, reconcile_job, stop_jobs}
use upguardly_server.Scheduler.Distributed.{
  DistributedScheduler, in_set, is_empty, is_monitor_owned, stop_jobs_for_partitions,
  apply_ownership, reconcile_owned, fetch_owned_monitors, sync_fetched, sync_monitors, LoopEvent,
  membership, backstop, handle_event, run_loop,
}

true_of_not : {b : Bool} → not b ≡ false → b ≡ true
true_of_not {b} h = ground arith

module _ (hash : String → ℕ) where
  -- Every job is for a monitor whose partition this instance owns.
  abbrev pub JobsOwned : DistributedScheduler → Type 0
  JobsOwned s =
      (id : String) (j : Job)
      → lookup s.pool.jobs id ≡ some j
      → is_monitor_owned hash s.partitions id ≡ true

  lookup-stop_jobs :
      (gone : String → Bool) (p : Pool) (id : String) (j : Job)
      → lookup (stop_jobs gone p).jobs id ≡ some j
      → (gone id ≡ false) × (lookup p.jobs id ≡ some j)
  unfolding stop_jobs
  lookup-stop_jobs gone p id j h = elim (Bool-cases (gone id)) [
    | inl g ↦ let clash : none ≡ some j = sym (lookup-discard gone p.jobs id ∙ rw g refl) ∙ h in cc
    | inr g ↦ (g, sym (lookup-discard gone p.jobs id ∙ rw g refl) ∙ h)
  ]

  -- What was owned and is not lost is still owned.
  still_owned :
      (pm : PartitionManager) (instances : List String) (z : ℤ)
      → in_set pm.owned_partitions z ≡ true
      → in_set (recalculate_ownership pm instances).1.lost z ≡ false
      → in_set (recalculate_ownership pm instances).0.owned_partitions z ≡ true
  unfolding is_owned
  still_owned pm instances (pos p) h gone =
      ground (arith, recalculate_ownership-delta pm instances p)
  still_owned pm instances (negsuc n) h gone = h

  count_kept :
      (pm : PartitionManager) (instances : List String)
      → (recalculate_ownership pm instances).0.partition_count ≡ pm.partition_count
  unfolding recalculate_ownership
  count_kept pm instances = elim (Option-cases (index_of pm.instance_id instances)) [
    | inl e ↦ rw e refl
    | inr (k, e) ↦ rw e refl
  ]

  empty_lost : (lost : List ℕ) (z : ℤ) → is_empty lost ≡ true → in_set lost z ≡ false
  empty_lost [] (pos p) h = refl
  empty_lost lost (negsuc n) h = refl
  empty_lost (x ∷ xs) (pos p) h = cc

  apply_ownership-JobsOwned :
      (instances : List String) (s : DistributedScheduler)
      → JobsOwned s
      → JobsOwned (apply_ownership hash instances s)
  unfolding apply_ownership stop_jobs_for_partitions
  apply_ownership-JobsOwned instances s owned id j h =
      let pm = s.partitions in
      let delta = (recalculate_ownership pm instances).1 in
      let count = count_kept pm instances in
      elim (Bool-cases (is_empty delta.lost)) [
        | inl e ↦
            let kept : lookup s.pool.jobs id ≡ some j = rw e at h in
            rw count (
              still_owned pm instances (calculate_partition hash pm.partition_count id)
                (owned id j kept) (empty_lost delta.lost _ e))
        | inr e ↦
            let (g, kept) =
              lookup-stop_jobs
                (λ i. in_set delta.lost (
                  calculate_partition hash (recalculate_ownership pm instances).0.partition_count
                    i))
                s.pool id j (rw e at h) in
            rw count (
              still_owned pm instances (calculate_partition hash pm.partition_count id)
                (owned id j kept) (rw count at g))
      ]

  -- The loop's active ids are owned.
  active_owned :
      (pm : PartitionManager) (ms : List Monitor) (p : Pool) (id : String)
      → contains (reconcile_owned hash pm ms p).0 id ≡ true
      → is_monitor_owned hash pm id ≡ true
  unfolding reconcile_owned
  active_owned pm [] p id h = cc
  active_owned pm (m ∷ ms) p id h = elim (Bool-cases (is_monitor_owned hash pm m.id)) [
    | inl mine ↦ elim (Bool-cases (m.id =? id)) [
      | inl e ↦ subst (λ i. is_monitor_owned hash pm i ≡ true) ((eq_iff m.id id).0 e) mine
      | inr e ↦ active_owned pm ms (reconcile_job p m) id (rw (mine, e) at h)
    ]
    | inr other ↦ active_owned pm ms p id (rw other at h)
  ]

  sync_fetched_owned :
      (s : DistributedScheduler) (fetched : Option (List Monitor))
      → JobsOwned s
      → JobsOwned (record s { pool = sync_fetched hash s.partitions fetched s.pool })
  sync_fetched_owned s none h id j l = h id j l
  sync_fetched_owned s (some ms) h id j l =
      let result = reconcile_owned hash s.partitions ms s.pool in
      let (g, _) = lookup-stop_jobs (λ i. not (contains result.0 i)) result.1 id j l in
      active_owned s.partitions ms s.pool id (true_of_not g)

  sync_monitors-JobsOwned :
      (active : Option (List Monitor)) (owned : List ℕ → Option (List Monitor))
      (s : DistributedScheduler)
      → JobsOwned s
      → JobsOwned (sync_monitors hash active owned s)
  unfolding sync_monitors
  sync_monitors-JobsOwned active owned s h =
      sync_fetched_owned s (fetch_owned_monitors hash s.partitions active owned) h

  handle_event-JobsOwned :
      (s : DistributedScheduler) (e : LoopEvent) → JobsOwned s → JobsOwned (handle_event hash s e)
  unfolding handle_event
  handle_event-JobsOwned s (membership instances active owned) h =
      sync_monitors-JobsOwned active owned (apply_ownership hash instances s)
        (apply_ownership-JobsOwned instances s h)
  handle_event-JobsOwned s (backstop (some instances) active owned) h =
      sync_monitors-JobsOwned active owned (apply_ownership hash instances s)
        (apply_ownership-JobsOwned instances s h)
  handle_event-JobsOwned s (backstop none active owned) h = sync_monitors-JobsOwned active owned s h

  -- Through every run of the loop, whatever the memberships are, whichever reconciliations and
  -- queries fail and whatever the queries return, an instance that begins with jobs only for
  -- monitors of its own partitions has jobs only for monitors of the partitions it then owns.
  pub run_loop-JobsOwned :
      (s : DistributedScheduler) (es : List LoopEvent)
      → JobsOwned s
      → JobsOwned (run_loop hash s es)
  unfolding run_loop
  run_loop-JobsOwned s [] h = h
  run_loop-JobsOwned s (e ∷ es) h =
      run_loop-JobsOwned (handle_event hash s e) es (handle_event-JobsOwned s e h)
