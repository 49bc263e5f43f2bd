-- ===== src/Handlers/Channels/Room.antt =====
-- The plan's caps on a user's alert channels (internal/api/handlers/notification_channels.go).
use text.Mathlib.TextEquality.{eq_iff}
use upguardly_server.Base.{
  ℕ, ◌+◌, ◌≤◌, ◌≡◌, refl, Bool, false, ◌&&◌, List, [], ◌∷◌, ◌++◌, some, String, if◌then◌else◌, ◌=?◌,
  string_eq, length, filter, contains, Distinct, arith, inl, inr, Bool-cases,
}
use upguardly_server.Models.Plan.{AlertChannel, same_channel}
use upguardly_server.Database.{NotificationChannelRow}
use upguardly_server.Database.Channels.{find_channel, replace_channel}
use upguardly_server.Handlers.Channels.{rivals}

-- The channels of one type that a user has.
abbrev pub tally : String → AlertChannel → List NotificationChannelRow → ℕ
tally user ch rows =
    length (filter (λ c. same_channel c.channel ch) (filter (λ c. c.user_id =? user) rows))

abbrev pub ids : List NotificationChannelRow → List String
ids [] = []
ids (c ∷ cs) = c.id ∷ ids cs

abbrev weight : Bool → ℕ
weight b = if b then 1 else 0

module _ (user : String) (ch : AlertChannel) where
  pub tally-snoc :
      (rows : List NotificationChannelRow) (c : NotificationChannelRow)
      → tally user ch (rows ++ c ∷ [])
        ≡ tally user ch rows + weight (c.user_id =? user && same_channel c.channel ch)
  tally-snoc [] c = ground arith
  tally-snoc (d ∷ rows) c = ground (arith, tally-snoc rows c)

  abbrev pub rivals_of : String → List NotificationChannelRow → ℕ
  rivals_of skip rows = length (rivals (filter (λ c. c.user_id =? user) rows) ch skip)

  pub rivals_absent :
      (skip : String) (rows : List NotificationChannelRow)
      → contains (ids rows) skip ≡ false
      → rivals_of skip rows ≡ tally user ch rows
  rivals_absent skip [] h = refl
  rivals_absent skip (c ∷ rows) h = ground (arith, rivals_absent skip rows)

  pub rivals-le-tally :
      (skip : String) (rows : List NotificationChannelRow)
      → rivals_of skip rows ≤ tally user ch rows
  rivals-le-tally skip [] = omega arith
  rivals-le-tally skip (c ∷ rows) = ground (arith, rivals-le-tally skip rows)

  module _ (id : String) (row : NotificationChannelRow) where
    tally-replace_absent :
        (rows : List NotificationChannelRow)
        → contains (ids rows) id ≡ false
        → tally user ch (replace_channel id row rows) ≡ rivals_of id rows
    tally-replace_absent [] h = refl
    tally-replace_absent (c ∷ rows) h = ground (arith, tally-replace_absent rows)

    pub tally-replace :
        (rows : List NotificationChannelRow)
        → Distinct (ids rows)
        → tally user ch (replace_channel id row rows)
          ≤ rivals_of id rows + weight (row.user_id =? user && same_channel row.channel ch)
    tally-replace [] h = omega arith
    tally-replace (c ∷ rows) (fresh, h) = elim (Bool-cases (c.id =? id)) [
      | inl e ↦
          let same : c.id ≡ id = (eq_iff c.id id).0 e in
          ground (arith, tally-replace_absent rows, same, e, fresh)
      | inr e ↦ ground (arith, tally-replace rows h, e)
    ]

  pub found-tally :
      (id : String) (rows : List NotificationChannelRow) {c : NotificationChannelRow}
      → find_channel id user rows ≡ some c
      → rivals_of id rows + weight (same_channel c.channel ch) ≤ tally user ch rows
  unfolding find_channel
  found-tally id [] h = cc
  found-tally id (d ∷ rows) {c = c} h =
      ground (arith, found-tally id rows {c = c}, rivals-le-tally id rows)
