-- ===== src/Agent/Engine.antt =====
-- The OTA engine of agent/internal/ota/engine.go. What lies outside it is asked through `Ports`:
-- each answer may depend on all the calls before it, so a port stands for any environment. The
-- state keeps the calls with their outcomes, the newest first, and the transaction file of the
-- update. An `error` is its text.
pub mod Run
pub mod Execute
pub mod Earned
pub mod Order
pub mod Phases
pub mod Stages
pub mod Outcome
use soul_room_edge_platform.Base.{
  ℕ, suc, ◌+◌, ◌-◌, ◌≡◌, String, ◌<>◌, Bool, true, false, not, ◌&&◌, ◌||◌, Option, none, some, List,
  [], ◌∷◌, ◌==◌, ◌!=◌, if◌then◌else◌, leb,
}
use mathlib.Core.Logic.{ite}
use soul_room_edge_platform.Base.Lists.{any}
use soul_room_edge_platform.Agent.Ota.{
  Request, Request-discrete, Status, Config, TextLibrary, validate_request, uses_ostree_repository,
}

pub data Answer (A : Type 0) : Type 0 where
  ok : A → Answer A
  err : String → Answer A

-- The calls that the engine makes to the adapter, the downloader, the verifier, the health
-- command and the system.
pub data Call : Type 0 where
  current_version fetch verify check install activate commit rollback health reboot : Call

-- A call and whether it succeeded.
pub record Entry : Type 0 where
  pub call : Call
  pub succeeded : Bool

abbrev pub Calls : Type 0
Calls = List Entry

-- `tx.UpdatedAt` of a loaded transaction is the time of the save.
pub record Transaction : Type 0 where
  pub request : Request
  pub phase : String
  pub artifact_path : String
  pub previous_version : String
  pub boot_id : String
  pub failure : String
  pub reboot_attempts : ℕ
  pub updated_at : ℕ

-- What answers the engine. `unavailable` is the error of `NewAdapter`; `load` that of reading or
-- decoding the transaction file, `save_error` that of writing it in a phase: no run writes the file
-- twice in one phase between two calls. `statfs` gives the free blocks and
-- their size. `health_outcomes` are the runs of the health command, five seconds apart, that fit
-- in the time limit: the first one and the others.
pub record Ports : Type 0 where
  pub unavailable : Option String
  pub available : Bool
  pub artifact_required : Bool
  pub requires_reboot : Bool
  pub current_version_of : Calls → Answer String
  pub statfs : Calls → Answer (ℕ × ℕ)
  pub fetched : Calls → Answer String
  pub verify_artifact_error : Calls → Option String
  pub verify_release_error : Calls → Option String
  pub check_error : Calls → Option String
  pub install_error : Calls → Option String
  pub activate_error : Calls → Option String
  pub commit_error : Calls → Option String
  pub rollback_error : Calls → Option String
  pub health_outcomes : Calls → Option String × List (Option String)
  pub reboot_error : Calls → Option String
  pub boot_id : Calls → String
  pub now : Calls → ℕ
  pub load_error : Option String
  pub save_error : String → Calls → Option String

-- The file of the update, as `json.Unmarshal` gives it back, and the calls made so far.
pub record System : Type 0 where
  pub file : Option Transaction
  pub calls : Calls

pub data EngineError : Type 0 where
  plain : String → EngineError
  reboot_pending : EngineError

abbrev pub Result : Type 0
Result = Status × Option EngineError

-- A part of `Execute` returns from it, or goes on with the transaction.
pub data Flow : Type 0 where
  return : Result → Flow
  continue : Transaction → Flow

abbrev pub status : Request → String → String → Status
status r state message = record {
  update_id = r.update_id;
  adapter = r.adapter;
  state = state;
  version = r.version;
  error = message;
}

abbrev pub failed : Request → String → String → Result
failed r class message = (status r "failed" (class <> ": " <> message), some (plain message))

-- `omitempty` drops an empty list, so that it is read back as nil.
abbrev pub reloaded : Request → Request
reloaded r = record r {
  compatible_from = elim r.compatible_from [
    | none ↦ none
    | some versions ↦ elim versions [ [] ↦ none | v ∷ vs ↦ some (v ∷ vs) ]
  ];
}

unfoldable pub valid_phase : String → Bool
valid_phase phase =
    phase == "created"
    || phase == "prepared"
    || phase == "downloaded"
    || phase == "verified"
    || phase == "installed"
    || phase == "activated"
    || phase == "reboot_requested"
    || phase == "rollback_reboot_requested"
    || phase == "completed"
    || phase == "rolled_back"
    || phase == "rollback_failed"

unfoldable pub compatible_from_error : Option (List String) → String → Option String
compatible_from_error none current = none
compatible_from_error (some []) current = none
compatible_from_error (some (v ∷ vs)) current =
    if any (λ version. version == current) (v ∷ vs)
    then none
    else some "current version is not in the release compatibility list"

-- A call is noted with its outcome.
abbrev pub noted : Call → Bool → System → System
noted call outcome s = record s { calls = record { call = call; succeeded = outcome } ∷ s.calls }

abbrev pub is_none {ℓ} : {A : Type ℓ} → Option A → Bool
is_none none = true
is_none (some _) = false

abbrev pub is_ok : {A : Type 0} → Answer A → Bool
is_ok (ok _) = true
is_ok (err _) = false
