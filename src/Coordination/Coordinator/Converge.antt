-- ===== src/Coordination/Coordinator/Converge.antt =====
-- What an instance learns of the membership (internal/coordination/coordinator.go, and the loop of
-- internal/scheduler/distributed.go that receives the events).
use upguardly_server.Base.{
  ℕ, zero, suc, ◌≤◌, ◌<◌, ◌≡◌, ◌≢◌, ◌↔◌, refl, ap, true, List, [], ◌∷◌, ◌++◌, Option, none, some,
  String, ltb, length, contains, Distinct, string_eq, arith, inl, inr, Bool-cases,
}
use upguardly_server.Coordination.Partition.{PartitionManager, recalculate_ownership, is_owned}
use upguardly_server.Coordination.Partition.Ownership.{recalculate_ownership-exactly_one}
use upguardly_server.Coordination.Coordinator.{
  Coordinator, Events, drop_oldest, notify_loop, event_buffer, watch_event, refresh_instances,
  reconcile, sort_texts, parsed,
}

-- An instance: its coordinator, the events that wait, and the membership that it last applied.
pub record Member : Type 0 where
  pub coordinator : Coordinator
  pub queue : Events
  pub view : List String

-- What the watch and the scheduler's loop do, in any order.
pub data Turn : Type 0 where
  watch : Option (List (Option String)) → Turn
  receive : Turn
  timer : Option (List (Option String)) → Turn

abbrev watched : Member → Option (Coordinator × Events) → Member
watched m none = m
watched m (some (c, queue)) = record m { coordinator = c; queue = queue }

abbrev received : Member → Events → Member
received m [] = m
received m (ev ∷ evs) = record m { queue = evs; view = ev }

abbrev applied : Member → Option (List String) → Member
applied m none = m
applied m (some instances) = record m { view = instances }

unfoldable pub turn : Member → Turn → Member
turn m (watch answer) = watched m (watch_event (suc (length m.queue)) m.coordinator m.queue answer)
turn m receive = received m m.queue
turn m (timer answer) =
    let (c, fresh) = reconcile m.coordinator answer in applied (record m { coordinator = c }) fresh

unfoldable pub turns : Member → List Turn → Member
turns m [] = m
turns m (t ∷ ts) = turns (turn m t) ts

unfoldable pub receives : ℕ → Member → Member
receives zero m = m
receives (suc n) m = receives n (turn m receive)

length-snoc : (q : Events) (ev : List String) → length (q ++ ev ∷ []) ≡ suc (length q)
length-snoc [] ev = refl
length-snoc (x ∷ q) ev = ap suc (length-snoc q ev)

length-drop_oldest : (q : Events) → 0 < length q → suc (length (drop_oldest q)) ≡ length q
length-drop_oldest [] h = elim h [ ]
length-drop_oldest (ev ∷ q) h = refl

-- The loop of `notify` ends, with the new event last and no more than the capacity waiting.
pub notify_loop_total :
    (fuel cap : ℕ) (ev : List String) (queue : Events)
    → length queue < fuel
    → 0 < cap
    → (rest : Events) × (notify_loop fuel cap ev queue ≡ some (rest ++ ev ∷ []))
      × (length rest < cap)
unfolding notify_loop
notify_loop_total zero cap ev queue h room = elim h [ ]
notify_loop_total (suc fuel) cap ev queue h room = elim (Bool-cases (ltb (length queue) cap)) [
  | inl fits ↦ (queue, rw fits, ground (arith, fits))
  | inr full ↦ rw full (
      notify_loop_total fuel cap ev (drop_oldest queue)
        (omega (arith, length-drop_oldest queue (ground (arith, full)))) room)
]

abbrev listing : List (Option String) → List String
listing kvs = sort_texts (parsed kvs)

-- A watch event whose listing succeeds.
watch_lem :
    (m : Member) (kvs : List (Option String))
    → (rest : Events) × (turn m (watch (some kvs)) ≡ record {
      coordinator = record m.coordinator { instances = listing kvs };
      queue = rest ++ listing kvs ∷ [];
      view = m.view;
    })
      × (length rest < event_buffer)
unfolding turn watch_event refresh_instances
watch_lem m kvs =
    let (rest, e, few) =
      notify_loop_total (suc (length m.queue)) event_buffer (listing kvs) m.queue (omega arith)
        (omega arith) in
    (rest, rw e, few)

receives_idle :
    (n : ℕ) (c : Coordinator) (v : List String)
    → (receives n (record { coordinator = c; queue = []; view = v })).view ≡ v
unfolding receives turn
receives_idle zero c v = refl
receives_idle (suc n) c v = receives_idle n c v

receives_last :
    (n : ℕ) (c : Coordinator) (v ev : List String) (rest : Events)
    → suc (length rest) ≤ n
    → (receives n (record { coordinator = c; queue = rest ++ ev ∷ []; view = v })).view ≡ ev
unfolding receives turn
receives_last zero c v ev rest h = elim h [ ]
receives_last (suc n) c v ev [] h = receives_idle n c ev
receives_last (suc n) c v ev (x ∷ rest) h = receives_last n c x ev rest (omega arith)

-- Whatever an instance has seen and has waiting, ten receives after a watch event whose listing
-- succeeded it has applied the membership of that listing.
converge :
    (m : Member) (kvs : List (Option String)) (n : ℕ)
    → event_buffer ≤ n
    → (receives n (turn m (watch (some kvs)))).view ≡ listing kvs
converge m kvs n h =
    let (rest, e, few) = watch_lem m kvs in
    rw e (
      receives_last n (record m.coordinator { instances = listing kvs }) m.view (listing kvs) rest
        (omega (arith, few, h)))

-- Once a listing of etcd has reached the instances, whatever they had seen before and had waiting,
-- each partition has exactly one owner: for every non-empty listing without repetitions there is one
-- listed id such that an instance that handles a watch event with the listing and then receives ten
-- times or more owns the partition exactly when it has that id.
pub converge-exactly_one :
    (kvs : List (Option String)) (count p : ℕ)
    → Distinct (sort_texts (parsed kvs))
    → sort_texts (parsed kvs) ≢ []
    → p < count
    → (id : String) × (contains (sort_texts (parsed kvs)) id ≡ true)
      × ((before : Member) (history : List Turn) (n : ℕ) (pm : PartitionManager)
          → event_buffer ≤ n
          → pm.partition_count ≡ count
          → (is_owned
                (recalculate_ownership pm
                  (receives n (turn (turns before history) (watch (some kvs)))).view).0
                p
              ≡ true)
            ↔ (pm.instance_id ≡ id))
converge-exactly_one kvs count p distinct some_one h =
    let (id, there, owns) =
      recalculate_ownership-exactly_one (listing kvs) distinct p count some_one h in
    (
      id,
      there,
      λ before history n pm enough same.
          rw (converge (turns before history) kvs n enough) (owns pm same),
    )
