-- ===== src/Database/Monitors/Access.antt =====
-- Reads after writes on the monitors table (internal/database/bun/store.go).
use text.Mathlib.TextEquality.{eq_iff}
use upguardly_server.Base.{
  ℕ, ◌≡◌, refl, sym, ap, subst, ◌∙◌, true, false, not, ◌&&◌, List, [], ◌∷◌, Option, none, some,
  String, ok, err, arith, ◌=?◌, string_eq, >>=-eq-ok, ok-injective, if◌then◌else◌, filter, inl, inr,
  Bool-cases,
}
use upguardly_server.Models.Monitor.{UpdateMonitorRequest}
use upguardly_server.Database.{Db, MonitorRow, MonitorChannelSetting, not_found, update_where}
use upguardly_server.Database.Channels.{list_monitor_channel_settings}
use upguardly_server.Database.Monitors.{
  find_accessible, may_access, get_monitor, or_not_found, delete_monitor, update_monitor,
  updated_row, has_updates,
}

some_injective : {a b : MonitorRow} → ◌≡◌ {A = Option MonitorRow} (some a) (some b) → a ≡ b
some_injective h = cc

found : {o : Option MonitorRow} {m : MonitorRow} → or_not_found o ≡ ok m → o ≡ some m
found {o = none} h = cc
found {o = some x} h = cc

-- The row that `UpdateMonitor` writes.
abbrev written : UpdateMonitorRequest → MonitorRow → ℕ → MonitorRow
written r m now = if has_updates r then record (updated_row r m) { updated_at = now } else m

written_frame :
    (db : Db) (user : String) (r : UpdateMonitorRequest) (m : MonitorRow) (now : ℕ)
    → ((written r m now).id ≡ m.id) × (may_access db user (written r m now) ≡ may_access db user m)
unfolding updated_row may_access
written_frame db user r m now = elim (Bool-cases (has_updates r)) [
  | inl e ↦ rw e (refl, refl)
  | inr e ↦ rw e (refl, refl)
]

module _ (db : Db) (id : String) where
  find_accessible-other :
      (v other : String) (ms : List MonitorRow)
      → (id =? other) ≡ false
      → find_accessible db other v (filter (λ m. not (m.id =? id)) ms)
        ≡ find_accessible db other v ms
  unfolding find_accessible
  find_accessible-other v other [] h = refl
  find_accessible-other v other (m ∷ ms) h = ground (
    arith,
    find_accessible-other v other ms h,
    eq_iff m.id id,
    eq_iff m.id other,
    eq_iff id other,
    h,
  )

  find_accessible-gone :
      (v : String) (ms : List MonitorRow)
      → find_accessible db id v (filter (λ m. not (m.id =? id)) ms) ≡ none
  unfolding find_accessible
  find_accessible-gone v [] = refl
  find_accessible-gone v (m ∷ ms) = ground (arith, find_accessible-gone v ms)

  settings_gone :
      (ss : List MonitorChannelSetting)
      → filter (λ s. s.monitor_id =? id) (filter (λ s. not (s.monitor_id =? id)) ss) ≡ []
  settings_gone [] = refl
  settings_gone (s ∷ ss) = ground (arith, settings_gone ss)

  settings_stay :
      (other : String) (ss : List MonitorChannelSetting)
      → (id =? other) ≡ false
      → filter (λ s. s.monitor_id =? other) (filter (λ s. not (s.monitor_id =? id)) ss)
        ≡ filter (λ s. s.monitor_id =? other) ss
  settings_stay other [] h = refl
  settings_stay other (s ∷ ss) h = ground (
    arith,
    settings_stay other ss h,
    eq_iff s.monitor_id id,
    eq_iff s.monitor_id other,
    eq_iff id other,
    h,
  )

  -- The region statuses of a monitor.
  abbrev pub statuses_of : String → List (String × String) → List (String × String)
  statuses_of monitor ss = filter (λ s. s.0 =? monitor) ss

  statuses_gone :
      (ss : List (String × String)) → statuses_of id (filter (λ s. not (s.0 =? id)) ss) ≡ []
  statuses_gone [] = refl
  statuses_gone (s ∷ ss) = ground (arith, statuses_gone ss)

  statuses_stay :
      (other : String) (ss : List (String × String))
      → (id =? other) ≡ false
      → statuses_of other (filter (λ s. not (s.0 =? id)) ss) ≡ statuses_of other ss
  statuses_stay other [] h = refl
  statuses_stay other (s ∷ ss) h =
      ground (arith, statuses_stay other ss h, eq_iff s.0 id, eq_iff s.0 other, eq_iff id other, h)

  -- What everyone sees of a deleted monitor and of another one.
  pub record Deleted (v other : String) (out : Db) : Type 0 where
    pub gone : get_monitor out id v ≡ err not_found
    pub no_settings : list_monitor_channel_settings out id ≡ []
    pub no_statuses : statuses_of id out.region_status ≡ []
    pub stays : get_monitor out other v ≡ get_monitor db other v
    pub settings_kept :
        list_monitor_channel_settings out other ≡ list_monitor_channel_settings db other
    pub statuses_kept : statuses_of other out.region_status ≡ statuses_of other db.region_status

  -- After a deletion nobody finds the monitor, and it has no channel settings and no region statuses
  -- left; every other monitor is found as before, with its settings and statuses.
  pub delete_monitor-get :
      (user v other : String) {out : Db}
      → delete_monitor db id user ≡ ok out
      → (id =? other) ≡ false
      → Deleted v other out
  unfolding delete_monitor get_monitor may_access list_monitor_channel_settings
  delete_monitor-get user v other {out} h apart =
      let (m, there, h1) = >>=-eq-ok (get_monitor db id user) _ h in
      subst (Deleted v other) (ok-injective h1) (record {
        gone = ap or_not_found (find_accessible-gone v db.monitors);
        no_settings = settings_gone db.channel_settings;
        no_statuses = statuses_gone db.region_status;
        stays = ap or_not_found (find_accessible-other v other db.monitors apart);
        settings_kept = settings_stay other db.channel_settings apart;
        statuses_kept = statuses_stay other db.region_status apart;
      })

  find_accessible-found :
      (user : String) (ms : List MonitorRow) (m : MonitorRow)
      → find_accessible db id user ms ≡ some m
      → (m.id ≡ id) × (may_access db user m ≡ true)
  unfolding find_accessible
  find_accessible-found user [] m h = cc
  find_accessible-found user (n ∷ ms) m h =
      elim (Bool-cases ((n.id =? id) && may_access db user n)) [
        | inl e ↦
            let same : some n ≡ some m = rw e at h in
            let own : (n.id =? id) ≡ true = ground (arith, e) in
            let may : may_access db user n ≡ true = ground (arith, e) in
            subst (λ (x : MonitorRow). (x.id ≡ id) × (may_access db user x ≡ true))
              (some_injective same) ((eq_iff n.id id).0 own, may)
        | inr e ↦ find_accessible-found user ms m (rw e at h)
      ]

  find_accessible-update :
      (user : String) (row m : MonitorRow) (ms : List MonitorRow)
      → (row.id =? id) ≡ true
      → may_access db user row ≡ true
      → find_accessible db id user ms ≡ some m
      → find_accessible db id user (update_where (λ old. old.id =? id) (λ old. row) ms) ≡ some row
  unfolding find_accessible update_where
  find_accessible-update user row m [] own may h = cc
  find_accessible-update user row m (n ∷ ms) own may h = elim (Bool-cases (n.id =? id)) [
    | inl e ↦ rw (e, own, may) refl
    | inr e ↦ rw (e, e) (find_accessible-update user row m ms own may (rw e at h))
  ]

  find_accessible-untouched :
      (v other : String) (row : MonitorRow) (ms : List MonitorRow)
      → (row.id =? other) ≡ false
      → (id =? other) ≡ false
      → find_accessible db other v (update_where (λ old. old.id =? id) (λ old. row) ms)
        ≡ find_accessible db other v ms
  unfolding find_accessible update_where
  find_accessible-untouched v other row [] own h = refl
  find_accessible-untouched v other row (m ∷ ms) own h = ground (
    arith,
    find_accessible-untouched v other row ms own h,
    eq_iff m.id id,
    eq_iff m.id other,
    eq_iff id other,
    h,
    own,
  )

  -- After an update its author finds the row that the update returned, and everyone finds every
  -- other monitor as before.
  pub update_monitor-get :
      (user v other : String) (r : UpdateMonitorRequest) (now : ℕ) {out : Db × MonitorRow}
      → update_monitor db id user r now ≡ ok out
      → (id =? other) ≡ false
      → (get_monitor out.0 id user ≡ ok out.1)
        × (get_monitor out.0 other v ≡ get_monitor db other v)
  unfolding update_monitor get_monitor may_access
  update_monitor-get user v other r now {out} h apart =
      let (m, there, h1) = >>=-eq-ok (get_monitor db id user) _ h in
      let (own, may) = find_accessible-found user db.monitors m (found there) in
      let (same_id, same_access) = written_frame db user r m now in
      let row_id : (written r m now).id ≡ id = same_id ∙ own in
      subst
        (λ (o : Db × MonitorRow).
          (get_monitor o.0 id user ≡ ok o.1) × (get_monitor o.0 other v ≡ get_monitor db other v))
        (ok-injective h1)
        (
          ap or_not_found (
              find_accessible-update user (written r m now) m db.monitors
                ((eq_iff (written r m now).id id).1 row_id) (same_access ∙ may) (found there)),
          ap or_not_found (
              find_accessible-untouched v other (written r m now) db.monitors
                (subst (λ i. (i =? other) ≡ false) (sym row_id) apart) apart),
        )
