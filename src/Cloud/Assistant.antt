-- ===== src/Cloud/Assistant.antt =====
-- cloud-infra/internal/assistant/assistant.go: the limit of the requests to a provider, the check
-- of its configuration, and what is kept of its answer. The requests themselves and the cipher are
-- parameters where they are used.
pub mod Limit
use soul_room_edge_platform.Base.{
  ℕ, ◌+◌, ◌-◌, String, ◌<>◌, Bool, true, false, ◌&&◌, ◌||◌, not, Option, none, some, List, [], ◌∷◌,
  ◌++◌, ◌==◌, ◌!=◌, if◌then◌else◌, ltb, leb,
}
use soul_room_edge_platform.Base.Lists.{length, filter}
use soul_room_edge_platform.Base.Dict.{Dict, lookup, insert}
use soul_room_edge_platform.Base.Patterns.{byte_length}
use soul_room_edge_platform.Cloud.Model.{Time}
use soul_room_edge_platform.Cloud.Store.{is_after}

-- `s.requestTimes[key]`, which is empty for a missing key
unfoldable pub stamps : String → Dict (List Time) → List Time
stamps key times = elim (lookup key times) [ none ↦ [] | some ts ↦ ts ]

-- a minute in nanoseconds before `now`
unfoldable pub cutoff : Time → Time
cutoff now = now - 60000000000

-- the loop of `Allow`
abbrev pub recent_stamps : Time → List Time → List Time
recent_stamps now ts = filter (λ stamp. is_after stamp (cutoff now)) ts

-- `Allow` at the time `now`, with the map of the times of the requests that were let through
unfoldable pub allow : ℕ → Time → String → Dict (List Time) → Bool × Dict (List Time)
allow limit now key times =
    let recent = recent_stamps now (stamps key times) in
    if leb limit (length recent)
    then (false, insert key recent times)
    else (true, insert key (recent ++ (now ∷ [])) times)
