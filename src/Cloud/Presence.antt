-- ===== src/Cloud/Presence.antt =====
-- The presence of a device, by cloud-infra/internal/presence/presence.go.
use soul_room_edge_platform.Base.{
  ℕ, ◌+◌, ◌≤◌, String, ◌≡◌, Bool, false, ◌==◌, if◌then◌else◌, leb, arith, refl, string_dec,
}
use soul_room_edge_platform.Cloud.Model.{Time}
use soul_room_edge_platform.Cloud.Store.{is_zero}

-- `now.Sub(lastSeen) <= d`
abbrev pub is_within : Time → Time → ℕ → Bool
is_within now last_seen d = leb now (last_seen + d)

-- two minutes, fifteen minutes and a day, in nanoseconds
unfoldable pub state : Time → Bool → Bool → Time → String
state last_seen disabled decommissioned now =
    if decommissioned
    then "decommissioned"
    else if disabled
    then "disabled"
    else if is_zero last_seen
    then "offline"
    else if is_within now last_seen 120000000000
    then "connected"
    else if is_within now last_seen 900000000000
    then "recently_seen"
    else if is_within now last_seen 86400000000000
    then "offline"
    else "stale"

-- How far a state is from the connection.
unfoldable pub rank : String → ℕ
rank s =
    if s == "connected"
    then 0
    else if s == "recently_seen"
    then 1
    else if s == "offline"
    then 2
    else if s == "stale"
    then 3
    else 4

ranks :
    (rank "connected" ≡ 0) × (rank "recently_seen" ≡ 1) × (rank "offline" ≡ 2) × (rank "stale" ≡ 3)
unfolding rank string_dec
ranks = (refl, refl, refl, refl)

-- While a device that has been seen stays silent, and is neither disabled nor decommissioned, its
-- state only moves away from the connection: connected, recently seen, offline, stale.
rank-state :
    (last_seen now later : Time)
    → is_zero last_seen ≡ false
    → now ≤ later
    → rank (state last_seen false false now) ≤ rank (state last_seen false false later)
unfolding state
rank-state last_seen now later seen h = ground (arith, ranks)
