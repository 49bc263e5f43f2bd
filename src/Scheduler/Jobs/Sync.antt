-- ===== src/Scheduler/Jobs/Sync.antt =====
-- What a sync of the job pool achieves (internal/scheduler/scheduler.go).
use text.Mathlib.TextEquality.{eq_iff}
use upguardly_server.Base.{
  ◌≡◌, refl, sym, subst, ◌∙◌, true, false, not, List, [], ◌∷◌, Option, none, some, String, arith,
  if◌then◌else◌, ◌=?◌, =?_refl, string_eq, nat_eq, contains, Distinct, lookup, lookup-insert,
  lookup-discard, inl, inr, Bool-cases, Option-cases,
}
use upguardly_server.Scheduler.Jobs.{
  Monitor, Job, Pool, start_monitor_job, cancel_job, same_config, reconcile_found, reconcile_job,
  reconcile_jobs, stop_jobs, ids, sync_monitors,
}

abbrev pub find_monitor : String → List Monitor → Option Monitor
find_monitor id [] = none
find_monitor id (m ∷ ms) = if m.id =? id then some m else find_monitor id ms

-- The job of a fetched monitor has the monitor's configuration, and it is the job from before if
-- that one had it already.
pub record Runs (old : Option Job) (m : Monitor) (new : Option Job) : Type 0 where
  pub job : Job
  pub here : new ≡ some job
  pub config : same_config job m ≡ true
  pub kept : (j : Job) → old ≡ some j → same_config j m ≡ true → job ≡ j

some_injective : {a b : Job} → ◌≡◌ {A = Option Job} (some a) (some b) → a ≡ b
some_injective h = cc

some_monitor_injective : {a b : Monitor} → ◌≡◌ {A = Option Monitor} (some a) (some b) → a ≡ b
some_monitor_injective h = cc

abbrev fresh_job : Pool → Monitor → Job
fresh_job p m = record { handle = p.next; updated_at = m.updated_at; interval = m.interval }

pub lookup-start :
    (p : Pool) (m : Monitor) (id : String)
    → lookup (start_monitor_job p m).jobs id
      ≡ (if m.id =? id then some (fresh_job p m) else lookup p.jobs id)
unfolding start_monitor_job
lookup-start p m id = lookup-insert p.jobs m.id (fresh_job p m) id

start-Runs :
    (p : Pool) (m : Monitor) (o : Option Job)
    → ((j : Job) → o ≡ some j → same_config j m ≡ false)
    → Runs o m (lookup (start_monitor_job p m).jobs m.id)
start-Runs p m o stale = record {
  job = fresh_job p m;
  here = rw (lookup-start p m m.id, =?_refl m.id) refl;
  config = ground arith;
  kept = λ j e c. let clash : true ≡ false = sym c ∙ stale j e in cc;
}

reconcile_found-Runs :
    (p : Pool) (m : Monitor) (o : Option Job)
    → lookup p.jobs m.id ≡ o
    → Runs o m (lookup (reconcile_found p m o).jobs m.id)
unfolding reconcile_found start_monitor_job
reconcile_found-Runs p m none e = start-Runs p m none (λ j h. cc)
reconcile_found-Runs p m (some j) e = elim (Bool-cases (same_config j m)) [
  | inl same ↦
      rw same (record { job = j; here = e; config = same; kept = λ k h c. some_injective h })
  | inr moved ↦ rw moved (
      start-Runs (cancel_job p j) m (some j)
        (λ k h. subst (λ x. same_config x m ≡ false) (some_injective h) moved))
]

pub reconcile_found-other :
    (p : Pool) (m : Monitor) (o : Option Job) (id : String)
    → (m.id =? id) ≡ false
    → lookup (reconcile_found p m o).jobs id ≡ lookup p.jobs id
unfolding reconcile_found
reconcile_found-other p m none id h = rw (lookup-start p m id, h) refl
reconcile_found-other p m (some j) id h = elim (Bool-cases (same_config j m)) [
  | inl same ↦ rw same refl
  | inr moved ↦ rw (moved, lookup-start (cancel_job p j) m id, h) refl
]

-- Without the id in the list, the loop leaves its job alone.
reconcile_jobs-absent :
    (ms : List Monitor) (p : Pool) (id : String)
    → contains (ids ms) id ≡ false
    → lookup (reconcile_jobs ms p).jobs id ≡ lookup p.jobs id
unfolding reconcile_jobs reconcile_job
reconcile_jobs-absent [] p id h = refl
reconcile_jobs-absent (m ∷ ms) p id h =
    reconcile_jobs-absent ms (reconcile_job p m) id (ground arith)
    ∙ reconcile_found-other p m (lookup p.jobs m.id) id (ground arith)

reconcile_jobs-Runs :
    (ms : List Monitor) (p : Pool) (id : String) (m : Monitor)
    → Distinct (ids ms)
    → find_monitor id ms ≡ some m
    → Runs (lookup p.jobs id) m (lookup (reconcile_jobs ms p).jobs id)
unfolding reconcile_jobs reconcile_job
reconcile_jobs-Runs [] p id m d h = cc
reconcile_jobs-Runs (n ∷ ms) p id m (new, d) h = elim (Bool-cases (n.id =? id)) [
  | inl e ↦
      let same : n.id ≡ id = (eq_iff n.id id).0 e in
      let found : n ≡ m = some_monitor_injective (rw e at h) in
      subst (λ x. Runs (lookup p.jobs x) m (lookup (reconcile_jobs ms (reconcile_job p n)).jobs x))
        same
        (subst (λ o. Runs (lookup p.jobs n.id) m o)
          (sym (reconcile_jobs-absent ms (reconcile_job p n) n.id new))
          (subst (λ x. Runs (lookup p.jobs n.id) x (lookup (reconcile_job p n).jobs n.id)) found
            (reconcile_found-Runs p n (lookup p.jobs n.id) refl)))
  | inr e ↦
      subst (λ o. Runs o m (lookup (reconcile_jobs ms (reconcile_job p n)).jobs id))
        (reconcile_found-other p n (lookup p.jobs n.id) id e)
        (reconcile_jobs-Runs ms (reconcile_job p n) id m d (rw e at h))
]

find_monitor-contains :
    (ms : List Monitor) (id : String) (m : Monitor)
    → find_monitor id ms ≡ some m
    → contains (ids ms) id ≡ true
find_monitor-contains [] id m h = cc
find_monitor-contains (n ∷ ms) id m h = elim (Bool-cases (n.id =? id)) [
  | inl e ↦ rw e refl
  | inr e ↦ rw e (find_monitor-contains ms id m (rw e at h))
]

find_monitor-absent :
    (ms : List Monitor) (id : String) → find_monitor id ms ≡ none → contains (ids ms) id ≡ false
find_monitor-absent [] id h = refl
find_monitor-absent (n ∷ ms) id h = elim (Bool-cases (n.id =? id)) [
  | inl e ↦ let clash : some n ≡ none = rw e at h in cc
  | inr e ↦ rw e (find_monitor-absent ms id (rw e at h))
]

-- What a sync with a fetched list leaves in the pool for an id.
abbrev pub Settled : Option Job → Option Monitor → Option Job → Type 0
Settled old none new = new ≡ none
Settled old (some m) new = Runs old m new

-- After a sync with a fetched list of distinct monitors, each fetched monitor has a job with its
-- configuration, which is the old job if that had it, and no other id has a job.
pub sync_monitors-Settled :
    (ms : List Monitor) (p : Pool) (id : String)
    → Distinct (ids ms)
    → Settled (lookup p.jobs id) (find_monitor id ms) (lookup (sync_monitors (some ms) p).jobs id)
unfolding sync_monitors stop_jobs
sync_monitors-Settled ms p id d = elim (Option-cases (find_monitor id ms)) [
  | inl e ↦
      rw
        (
          e,
          lookup-discard (λ i. not (contains (ids ms) i)) (reconcile_jobs ms p).jobs id,
          find_monitor-absent ms id e,
        )
        refl
  | inr (m, e) ↦
      rw
        (
          e,
          lookup-discard (λ i. not (contains (ids ms) i)) (reconcile_jobs ms p).jobs id,
          find_monitor-contains ms id m e,
        )
        (reconcile_jobs-Runs ms p id m d e)
]
