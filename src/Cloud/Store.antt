-- ===== src/Cloud/Store.antt =====
-- The state of cloud-infra/internal/storage/store.go, and how an operation saves it.
-- An operation takes what its calls to the clock, the random generator and the disk return
-- (`Env`), and the store; it returns its results and the new store. The mutex makes each
-- operation one step.
pub mod Jobs
pub mod Invariant
pub mod Steps
pub mod Untouched
pub mod Unadded
pub mod Isolation
pub mod Visibility
pub mod Devices
pub mod Organizations
pub mod Accounts
pub mod Tokens
pub mod Campaigns
use Prim.Native.Nat.{Ordering}
use Prim.Native.String
use soul_room_edge_platform.Base.{
  ℕ, String, ◌<>◌, ◌≡◌, Bool, true, false, Option, none, some, List, ◌==◌, ◌+◌, ◌%◌, ◌^◌,
  if◌then◌else◌, ltb, eqb, arith,
}
use soul_room_edge_platform.Base.Dict.{Dict}
use soul_room_edge_platform.Cloud.Model.{
  Time, Json, Organization, User, Membership, Session, EnrollmentToken, Device, DownstreamDevice,
  Metric, Job, Artifact, Campaign, PlatformSettings, AiConfiguration, AuditEvent,
}

-- `not_terminal` is the error of `DeleteJob`; `io` is one of the operating system.
pub data StoreError : Type 0 where
  not_found tenant_mismatch duplicate quota_exceeded not_terminal : StoreError
  io : String → StoreError

-- the struct `data`
pub record StoreData : Type 0 where
  pub organizations : Dict Organization
  pub users : Dict User
  pub memberships : List Membership
  pub sessions : Dict Session
  pub enrollment_tokens : Dict EnrollmentToken
  pub devices : Dict Device
  pub downstream : Dict DownstreamDevice
  pub telemetry : List Metric
  pub inventory : Dict Json
  pub jobs : Dict Job
  pub artifacts : Dict Artifact
  pub ota_campaigns : Dict Campaign
  pub platform_settings : Dict PlatformSettings
  pub ai_configurations : Dict AiConfiguration
  pub audit : List AuditEvent

-- `saved` is the state that the file at `path` encodes, if there is such a file.
pub record Store : Type 0 where
  pub path : String
  pub contents : StoreData
  pub saved : Option StoreData

-- The errors, if any, of the four steps of `saveLocked`.
pub record Disk : Type 0 where
  pub mkdir_all : Option String
  pub marshal : Option String
  pub write_file : Option String
  pub rename : Option String

-- The successive readings of the clock, the successive random texts, the disk, and the keys of
-- the map that the call ranges over, in the order in which `range` visits them.
pub record Env : Type 0 where
  pub now : ℕ → Time
  pub random : ℕ → String
  pub disk : Disk
  pub order : List String

-- The results of an operation that returns a value and an error, and the new store. The zero
-- value that stands beside most errors is `none`.
pub record Reply (A : Type 0) : Type 0 where
  pub value : Option A
  pub error : Option StoreError
  pub store : Store

abbrev pub first_error : Option String → Option StoreError → Option StoreError
first_error (some e) later = some (io e)
first_error none later = later

disk_error : Disk → Option StoreError
disk_error d =
    first_error d.mkdir_all
      (first_error d.marshal (first_error d.write_file (first_error d.rename none)))

unfoldable pub save_locked : Disk → Store → Option StoreError × Store
unfolding disk_error
save_locked d s = if s.path == "" then (none, s) else elim (disk_error d) [
  | some e ↦ (some e, s)
  | none ↦ (none, record s { saved = some s.contents })
]

-- `NewID`: the prefix and the random text in hexadecimal.
unfoldable pub new_id : String → String → String
new_id prefix random = prefix <> "_" <> random

-- `now.After(t)`
abbrev pub is_after : Time → Time → Bool
is_after now t = ltb t now

-- `t.IsZero()`
abbrev pub is_zero : Time → Bool
is_zero t = eqb t 0

-- `x++` on an `int` that is kept as its 64-bit pattern
abbrev pub increment : ℕ → ℕ
increment n = (n + 1) % 2 ^ 64

-- `a < b` on texts: the order of their bytes
unfoldable pub string_less : String → String → Bool
string_less a b = elim (String.compare a b) [ Ordering.lt ↦ true | _ ↦ false ]

-- `if x == "" { x = value }`
abbrev pub or_default : String → String → String
or_default x value = if x == "" then value else x

-- The ends of an operation: with nothing changed, or by `saveLocked`.
module _ {A : Type 0} where
  abbrev pub refuse : StoreError → Store → Reply A
  refuse e s = record { value = none; error = some e; store = s }

  abbrev pub answer : A → Store → Reply A
  answer a s = record { value = some a; error = none; store = s }

  abbrev pub answer_saved : Disk → A → Store → Reply A
  answer_saved d a s =
      let (e, s') = save_locked d s in record { value = some a; error = e; store = s' }

-- A save changes nothing in memory.
pub save_locked-contents : (d : Disk) (s : Store) → (save_locked d s).1.contents ≡ s.contents
unfolding save_locked
save_locked-contents d s = ground arith
