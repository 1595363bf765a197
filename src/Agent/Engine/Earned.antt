-- ===== src/Agent/Engine/Earned.antt =====
-- What the calls before a call, and before a phase, must have been.
use soul_room_edge_platform.Base.{
  String, ◌≡◌, refl, Bool, true, false, not, ◌&&◌, ◌||◌, Option, none, some, List, [], ◌∷◌,
  string_dec, ◌==◌, ◌!=◌, if◌then◌else◌, arith,
}
use soul_room_edge_platform.Base.Lists.{any}
use soul_room_edge_platform.Agent.Ota.{Config, TextLibrary}
use soul_room_edge_platform.Agent.Engine.{
  Call, check, install, activate, commit, rollback, health, reboot, Entry, Calls, Transaction,
  System, noted,
}
use soul_room_edge_platform.Agent.Engine.Run.{is_pre_install}

-- Whether an entry is a success of a given call.
abbrev pub is_check : Entry → Bool
is_check e = elim e.call [ check ↦ e.succeeded | _ ↦ false ]

abbrev pub is_install : Entry → Bool
is_install e = elim e.call [ install ↦ e.succeeded | _ ↦ false ]

abbrev pub is_activate : Entry → Bool
is_activate e = elim e.call [ activate ↦ e.succeeded | _ ↦ false ]

abbrev pub is_health : Entry → Bool
is_health e = elim e.call [ health ↦ e.succeeded | _ ↦ false ]

-- What the calls before a call must have been: an installation follows a successful check of the
-- artifact, an activation, a rollback and a reboot follow a successful installation, a health
-- check follows a successful activation, and a commit follows a successful activation and, if the
-- agent has a command for it, a successful health check.
abbrev pub is_grounded : Bool → Call → Calls → Bool
is_grounded checked install older = any is_check older
is_grounded checked activate older = any is_install older
is_grounded checked rollback older = any is_install older
is_grounded checked reboot older = any is_install older
is_grounded checked health older = any is_activate older
is_grounded checked commit older = any is_activate older && (not checked || any is_health older)
is_grounded checked _ older = true

abbrev pub is_ordered : Bool → Calls → Bool
is_ordered checked [] = true
is_ordered checked (e ∷ older) = is_grounded checked e.call older && is_ordered checked older

-- Whether there is a command for the health check.
abbrev pub has_health_check : TextLibrary → Config → Bool
has_health_check lib cfg =
    lib.trim_space cfg.health_check_command != ""
    && not (is_nil (lib.fields cfg.health_check_command))
  where
    is_nil : List String → Bool
    is_nil [] = true
    is_nil (_ ∷ _) = false

-- What the calls must have been for a transaction to be in a phase.
unfoldable pub is_earned : String → Calls → Bool
is_earned phase calls =
    if is_pre_install phase
    then (phase != "verified" || any is_check calls)
    else any is_install calls
      && (not (phase == "activated" || phase == "reboot_requested") || any is_activate calls)

unfoldable pub is_finished : String → Bool
is_finished phase = phase == "completed" || phase == "rolled_back" || phase == "rollback_failed"

abbrev pub is_file_earned : Option Transaction → Calls → Bool
is_file_earned none calls = true
is_file_earned (some tx) calls = is_finished tx.phase || is_earned tx.phase calls

unfoldable pub is_sound : Bool → System → Bool
is_sound checked s = is_ordered checked s.calls && is_file_earned s.file s.calls

-- What the phases that the engine writes are earned by.
module _ (calls : Calls) where
  pub earned-rollback_reboot_requested :
      any is_install calls ≡ true → is_earned "rollback_reboot_requested" calls ≡ true
  unfolding string_dec is_earned is_pre_install
  earned-rollback_reboot_requested h = ground arith

  pub earned-prepared : is_earned "prepared" calls ≡ true
  unfolding string_dec is_earned is_pre_install
  earned-prepared = refl

  pub earned-downloaded : is_earned "downloaded" calls ≡ true
  unfolding string_dec is_earned is_pre_install
  earned-downloaded = refl

  pub earned-verified : any is_check calls ≡ true → is_earned "verified" calls ≡ true
  unfolding string_dec is_earned is_pre_install
  earned-verified h = ground arith

  pub earned-installed : any is_install calls ≡ true → is_earned "installed" calls ≡ true
  unfolding string_dec is_earned is_pre_install
  earned-installed h = ground arith

  pub earned-activated :
      any is_install calls ≡ true
      → any is_activate calls ≡ true
      → is_earned "activated" calls ≡ true
  unfolding string_dec is_earned is_pre_install
  earned-activated h h' = ground arith

  pub earned-reboot_requested :
      any is_install calls ≡ true
      → any is_activate calls ≡ true
      → is_earned "reboot_requested" calls ≡ true
  unfolding string_dec is_earned is_pre_install
  earned-reboot_requested h h' = ground arith

-- What the phases show of the calls before.
module _ (calls : Calls) where
  pub check-verified : is_earned "verified" calls ≡ true → any is_check calls ≡ true
  unfolding string_dec is_earned is_pre_install
  check-verified h = ground arith

  pub install-installed : is_earned "installed" calls ≡ true → any is_install calls ≡ true
  unfolding string_dec is_earned is_pre_install
  install-installed h = ground arith

  pub install-activated : is_earned "activated" calls ≡ true → any is_install calls ≡ true
  unfolding string_dec is_earned is_pre_install
  install-activated h = ground arith

  pub activate-activated : is_earned "activated" calls ≡ true → any is_activate calls ≡ true
  unfolding string_dec is_earned is_pre_install
  activate-activated h = ground arith

  pub install-reboot_requested :
      is_earned "reboot_requested" calls ≡ true → any is_install calls ≡ true
  unfolding string_dec is_earned is_pre_install
  install-reboot_requested h = ground arith

  pub activate-reboot_requested :
      is_earned "reboot_requested" calls ≡ true → any is_activate calls ≡ true
  unfolding string_dec is_earned is_pre_install
  activate-reboot_requested h = ground arith

  pub install-rollback_reboot_requested :
      is_earned "rollback_reboot_requested" calls ≡ true → any is_install calls ≡ true
  unfolding string_dec is_earned is_pre_install
  install-rollback_reboot_requested h = ground arith

pub finished-rollback_failed : is_finished "rollback_failed" ≡ true
unfolding string_dec is_finished
finished-rollback_failed = refl

pub finished-completed : is_finished "completed" ≡ true
unfolding string_dec is_finished
finished-completed = refl

pub finished-rolled_back : is_finished "rolled_back" ≡ true
unfolding string_dec is_finished
finished-rolled_back = refl

pub noted_sound :
    (checked : Bool) (c : Call) (outcome : Bool) (s : System)
    → is_sound checked s ≡ true
    → is_grounded checked c s.calls ≡ true
    → is_sound checked (noted c outcome s) ≡ true
unfolding is_sound is_earned is_pre_install is_finished
noted_sound checked c outcome s h g = ground arith

pub earned-noted :
    (phase : String) (c : Call) (outcome : Bool) (s : System)
    → is_earned phase s.calls ≡ true
    → is_earned phase (noted c outcome s).calls ≡ true
unfolding is_earned is_pre_install
earned-noted phase c outcome s h = ground arith
