-- ===== src/Scheduler/Jobs/Leak.antt =====
-- The goroutines of the job pool over its operations (internal/scheduler/scheduler.go).
use text.Mathlib.TextEquality.{eq_iff}
use upguardly_server.Base.{
  ◌≡◌, ◌⊎◌, refl, sym, ap, subst, ◌∙◌, Bool, true, not, ◌||◌, List, [], ◌∷◌, Option, none, some,
  String, arith, ◌=?◌, =?_refl, string_eq, nat_eq, contains, contains-append, lookup,
  lookup-discard, inl, inr, Bool-cases,
}
use upguardly_server.Scheduler.Jobs.{
  Monitor, Job, Pool, start_monitor_job, cancel_job, same_config, reconcile_found, reconcile_job,
  reconcile_jobs, dropped, stop_jobs, ids, sync_monitors, stop,
}
use upguardly_server.Scheduler.Jobs.Sync.{lookup-start}

-- The job is still the one in the pool for the id, or it has been canceled.
abbrev pub Held : String → Job → Pool → Type 0
Held id j p = (lookup p.jobs id ≡ some j) ⊎ (contains p.canceled j.handle ≡ true)

some_injective : {a b : Job} → ◌≡◌ {A = Option Job} (some a) (some b) → a ≡ b
some_injective h = cc

-- A job with another id stays where it is when one is started.
start-Held :
    (p : Pool) (m : Monitor) (id : String) (j : Job)
    → (lookup p.jobs m.id ≡ some j → contains p.canceled j.handle ≡ true)
    → Held id j p
    → Held id j (start_monitor_job p m)
unfolding start_monitor_job
start-Held p m id j free (inr h) = inr h
start-Held p m id j free (inl h) = elim (Bool-cases (m.id =? id)) [
  | inl e ↦ inr (free (subst (λ i. lookup p.jobs i ≡ some j) (sym ((eq_iff m.id id).0 e)) h))
  | inr e ↦ inl (lookup-start p m id ∙ rw e h)
]

cancel-Held :
    (p : Pool) (k : Job) (id : String) (j : Job) → Held id j p → Held id j (cancel_job p k)
cancel-Held p k id j (inl h) = inl h
cancel-Held p k id j (inr h) = inr (ground (arith, h))

reconcile_found-Held :
    (p : Pool) (m : Monitor) (o : Option Job) (id : String) (j : Job)
    → lookup p.jobs m.id ≡ o
    → Held id j p
    → Held id j (reconcile_found p m o)
unfolding reconcile_found
reconcile_found-Held p m none id j e h =
    start-Held p m id j (λ f. let clash : none ≡ some j = sym e ∙ f in cc) h
reconcile_found-Held p m (some k) id j e h = elim (Bool-cases (same_config k m)) [
  | inl same ↦ rw same h
  | inr moved ↦ rw moved (
      start-Held (cancel_job p k) m id j
        (λ f.
          let same : k ≡ j = some_injective (sym e ∙ f) in
          subst (λ x. contains (k.handle ∷ p.canceled) x.handle ≡ true) same
            (ap (λ b. b || contains p.canceled k.handle) (=?_refl k.handle)))
        (cancel-Held p k id j h))
]

reconcile_jobs-Held :
    (ms : List Monitor) (p : Pool) (id : String) (j : Job)
    → Held id j p
    → Held id j (reconcile_jobs ms p)
unfolding reconcile_jobs reconcile_job
reconcile_jobs-Held [] p id j h = h
reconcile_jobs-Held (m ∷ ms) p id j h =
    reconcile_jobs-Held ms (reconcile_job p m) id j
      (reconcile_found-Held p m (lookup p.jobs m.id) id j refl h)

dropped-handle :
    (gone : String → Bool) (jobs : List (String × Job)) (id : String) (j : Job)
    → gone id ≡ true
    → lookup jobs id ≡ some j
    → contains (dropped gone jobs) j.handle ≡ true
dropped-handle gone [] id j g h = cc
dropped-handle gone ((i, k) ∷ jobs) id j g h = elim (Bool-cases (i =? id)) [
  | inl e ↦
      let there : gone i ≡ true = subst (λ x. gone x ≡ true) (sym ((eq_iff i id).0 e)) g in
      let same : k ≡ j = some_injective (rw e at h) in
      rw (there, same) (ap (λ b. b || contains (dropped gone jobs) j.handle) (=?_refl j.handle))
  | inr e ↦ let rest = dropped-handle gone jobs id j g (rw e at h) in ground (arith, rest)
]

stop_jobs-Held :
    (gone : String → Bool) (p : Pool) (id : String) (j : Job)
    → Held id j p
    → Held id j (stop_jobs gone p)
unfolding stop_jobs
stop_jobs-Held gone p id j (inr h) =
    inr (contains-append (dropped gone p.jobs) p.canceled j.handle ∙ ground (arith, h))
stop_jobs-Held gone p id j (inl h) = elim (Bool-cases (gone id)) [
  | inl g ↦
      let there = dropped-handle gone p.jobs id j g h in
      inr (contains-append (dropped gone p.jobs) p.canceled j.handle ∙ rw there refl)
  | inr g ↦ inl (lookup-discard gone p.jobs id ∙ rw g h)
]

-- A job that a sync takes out of the pool, or replaces, has been canceled.
pub sync_monitors-Held :
    (fetched : Option (List Monitor)) (p : Pool) (id : String) (j : Job)
    → lookup p.jobs id ≡ some j
    → Held id j (sync_monitors fetched p)
unfolding sync_monitors
sync_monitors-Held none p id j h = inl h
sync_monitors-Held (some ms) p id j h =
    stop_jobs-Held (λ i. not (contains (ids ms) i)) (reconcile_jobs ms p) id j
      (reconcile_jobs-Held ms p id j (inl h))

-- After `Stop` every job of the pool has been canceled, and the pool is empty.
pub stop-canceled :
    (p : Pool) (id : String) (j : Job)
    → lookup p.jobs id ≡ some j
    → (contains (stop p).canceled j.handle ≡ true) × (lookup (stop p).jobs id ≡ none)
unfolding stop stop_jobs
stop-canceled p id j h =
    let there = dropped-handle (λ i. true) p.jobs id j refl h in
    (
      contains-append (dropped (λ i. true) p.jobs) p.canceled j.handle ∙ rw there refl,
      lookup-discard (λ i. true) p.jobs id,
    )
