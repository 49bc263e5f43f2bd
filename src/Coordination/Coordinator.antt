-- ===== src/Coordination/Coordinator.antt =====
-- internal/coordination/coordinator.go: the membership that an instance sees. etcd's answers are
-- parameters: `none` is a call that fails, and a value of `none` is one that json.Unmarshal refuses.
pub mod Converge
use Prim.Native.Nat.{Ordering}
use Prim.Native.String.{compare}
use upguardly_server.Base.{
  ℕ, zero, suc, ◌*◌, Bool, true, false, List, [], ◌∷◌, ◌++◌, Option, none, some, String,
  if◌then◌else◌, ltb, length,
}

-- `lease_id` of `none` is 0.
pub record Coordinator : Type 0 where
  pub instance_id : String
  pub lease_id : Option ℕ
  pub instances : List String

-- `sort.Strings`
abbrev text_le : String → String → Bool
text_le s t = elim (compare s t) [ Ordering.gt ↦ false | _ ↦ true ]

abbrev pub insert_text : String → List String → List String
insert_text s [] = s ∷ []
insert_text s (t ∷ ts) = if text_le s t then s ∷ t ∷ ts else t ∷ insert_text s ts

abbrev pub sort_texts : List String → List String
sort_texts [] = []
sort_texts (s ∷ ss) = insert_text s (sort_texts ss)

-- The loop over the keys: what does not parse is skipped.
abbrev pub parsed : List (Option String) → List String
parsed [] = []
parsed (none ∷ kvs) = parsed kvs
parsed (some id ∷ kvs) = id ∷ parsed kvs

-- `refreshInstances`: the coordinator, and whether the listing succeeded.
unfoldable pub refresh_instances : Coordinator → Option (List (Option String)) → Coordinator × Bool
refresh_instances c none = (c, false)
refresh_instances c (some kvs) = (record c { instances = sort_texts (parsed kvs) }, true)

-- `chan MembershipEvent`, the oldest event first.
abbrev pub Events : Type 0
Events = List (List String)

-- `<-eventCh` that does not wait.
abbrev pub drop_oldest : Events → Events
drop_oldest [] = []
drop_oldest (ev ∷ evs) = evs

-- The loop of `notify`, for a channel of capacity `cap` and with fuel; `none` means that the fuel ran
-- out. A receive between two of its turns only makes room.
unfoldable pub notify_loop : ℕ → ℕ → List String → Events → Option Events
notify_loop zero cap ev queue = none
notify_loop (suc fuel) cap ev queue =
    let again = notify_loop fuel cap ev (drop_oldest queue) in
    if ltb (length queue) cap then some (queue ++ ev ∷ []) else again

-- `make(chan coordination.MembershipEvent, 10)`
abbrev pub event_buffer : ℕ
event_buffer = 10

-- One response of the watch: etcd is listed again, and the membership is notified if that succeeds.
-- A watch that is restarted does the same.
unfoldable pub watch_event :
    ℕ → Coordinator → Events → Option (List (Option String)) → Option (Coordinator × Events)
watch_event fuel c queue answer =
    let (c', fresh) = refresh_instances c answer in
    if fresh
    then elim (notify_loop fuel event_buffer c'.instances queue) [
      | none ↦ none
      | some queue' ↦ some (c', queue')
    ]
    else some (c, queue)

-- `Reconcile`
unfoldable pub reconcile :
    Coordinator → Option (List (Option String)) → Coordinator × Option (List String)
reconcile c answer =
    let (c', fresh) = refresh_instances c answer in (c', if fresh then some c'.instances else none)

-- `registerLease`: the seconds of the lease, and the id that etcd granted.
abbrev pub lease_seconds : ℕ → ℕ
lease_seconds ttl = if ltb ttl 5 then 5 else ttl

unfoldable pub register_lease : Coordinator → Option ℕ → Bool → Coordinator × Bool
register_lease c none put = (c, false)
register_lease c (some lease) false = (c, false)
register_lease c (some lease) true = (record c { lease_id = some lease }, true)

abbrev pub next_backoff : ℕ → ℕ
next_backoff seconds = if ltb seconds 30 then seconds * 2 else seconds

-- `reregisterWithBackoff` over the outcomes of its attempts: the seconds it waited before each
-- further attempt, and whether it registered. When the outcomes end the coordinator was stopped.
unfoldable pub reregister : ℕ → List Bool → List ℕ × Bool
reregister seconds [] = ([], false)
reregister seconds (true ∷ outcomes) = ([], true)
reregister seconds (false ∷ outcomes) =
    let (waits, done) = reregister (next_backoff seconds) outcomes in (seconds ∷ waits, done)
