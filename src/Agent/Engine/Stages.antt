-- ===== src/Agent/Engine/Stages.antt =====
-- The order of the calls through the stages of `Execute`.
use soul_room_edge_platform.Base.{String, ◌≡◌, Bool, true, not, ◌&&◌, ◌||◌, some, ◌==◌, arith}
use soul_room_edge_platform.Base.Lists.{any}
use soul_room_edge_platform.Agent.Ota.{Request, Config, TextLibrary}
use soul_room_edge_platform.Agent.Engine.{
  Transaction, Ports, System, Flow, return, continue, valid_phase,
}
use soul_room_edge_platform.Agent.Engine.Run.{save_or_fail, is_pre_install}
use soul_room_edge_platform.Agent.Engine.Execute.{
  give_up, prepare, download, verify_signature, verify_update, install_update, activate_update,
  reboot_update, and_then, stages, finish, still_waiting, resume_after_reboot, load_or_create,
  resume, execute_loaded, execute,
}
use soul_room_edge_platform.Agent.Engine.Earned.{
  check-verified, install-installed, install-activated, activate-activated,
  install-reboot_requested, activate-reboot_requested, noted_sound, earned-noted, is_install,
  has_health_check, is_earned, is_finished, is_sound, earned-prepared, earned-downloaded,
  earned-verified, earned-installed, earned-activated, earned-reboot_requested,
  finished-rollback_failed, finished-rolled_back,
}
use soul_room_edge_platform.Agent.Engine.Order.{
  request_reboot-install, save_sound, save-finished, save-calls, request_reboot_sound,
  fail_and_rollback_sound, confirm_and_commit_sound,
}
use soul_room_edge_platform.Agent.Engine.Phases.{
  from_activated, from_installed, from_verified, from_downloaded, from_prepared, from_created,
  from-prepared, from-downloaded, from-verified, from-installed, from-activated, created-later,
  prepared-later, downloaded-later, verified-later, installed-later, pre-created, pre-prepared,
  pre-downloaded, pre-verified, waiting_phases, staged, earned-created,
}

-- A state in which the engine goes on from a phase of a class.
abbrev is_sound_flow : Bool → (String → Bool) → Flow × System → Bool
is_sound_flow checked class (return r, s) = is_sound checked s
is_sound_flow checked class (continue tx, s) =
    is_sound checked s && is_earned tx.phase s.calls && class tx.phase

module _ (lib : TextLibrary) (cfg : Config) (p : Ports) (checked : Bool)
    (agreed : (not checked || has_health_check lib cfg) ≡ true) where
  save_or_fail_sound :
      (class : String → Bool) (tx : Transaction) (s : System)
      → is_sound checked s ≡ true
      → is_earned tx.phase s.calls ≡ true
      → class tx.phase ≡ true
      → is_sound_flow checked class (save_or_fail lib cfg p tx s) ≡ true
  unfolding save_or_fail
  save_or_fail_sound class tx s h e c = grind (arith, save_sound, save-calls)

  give_up_sound :
      (class : String → Bool) (tx : Transaction) (name cause : String) (s : System)
      → is_sound checked s ≡ true
      → (is_pre_install tx.phase || any is_install s.calls) ≡ true
      → is_sound_flow checked class (give_up lib cfg p tx name cause s) ≡ true
  give_up_sound class tx name cause s h e =
      fail_and_rollback_sound lib cfg p checked agreed tx name cause s h e

  prepare_sound :
      (tx : Transaction) (s : System)
      → is_sound_flow checked from_created (continue tx, s) ≡ true
      → is_sound_flow checked from_prepared (prepare lib cfg p tx s) ≡ true
  unfolding prepare
  prepare_sound tx s h = grind (
    arith,
    pre-created,
    created-later,
    noted_sound,
    from-prepared,
    earned-prepared,
    save_or_fail_sound from_prepared,
    give_up_sound from_prepared,
  )

  download_sound :
      (tx : Transaction) (s : System)
      → is_sound_flow checked from_prepared (continue tx, s) ≡ true
      → is_sound_flow checked from_downloaded (download lib cfg p tx s) ≡ true
  unfolding download
  download_sound tx s h = grind (
    arith,
    pre-prepared,
    prepared-later,
    noted_sound,
    from-downloaded,
    earned-downloaded,
    save_or_fail_sound from_downloaded,
    give_up_sound from_downloaded,
  )

  verify_signature_sound :
      (r : Request) (s : System)
      → is_sound checked s ≡ true
      → is_sound checked (verify_signature lib cfg p r s).1 ≡ true
  unfolding verify_signature
  verify_signature_sound r s h = grind (arith, noted_sound)

  verify_update_sound :
      (tx : Transaction) (s : System)
      → is_sound_flow checked from_downloaded (continue tx, s) ≡ true
      → is_sound_flow checked from_verified (verify_update lib cfg p tx s) ≡ true
  unfolding verify_update
  verify_update_sound tx s h = grind (
    arith,
    pre-downloaded,
    downloaded-later,
    noted_sound,
    from-verified,
    earned-verified,
    verify_signature_sound,
    earned-noted,
    save_or_fail_sound from_verified,
    give_up_sound from_verified,
  )

  install_update_sound :
      (tx : Transaction) (s : System)
      → is_sound_flow checked from_verified (continue tx, s) ≡ true
      → is_sound_flow checked from_installed (install_update lib cfg p tx s) ≡ true
  unfolding install_update
  install_update_sound tx s h = grind (
    arith,
    pre-verified,
    verified-later,
    noted_sound,
    from-installed,
    earned-installed,
    check-verified,
    save_or_fail_sound from_installed,
    give_up_sound from_installed,
  )

  activate_update_sound :
      (tx : Transaction) (s : System)
      → is_sound_flow checked from_installed (continue tx, s) ≡ true
      → is_sound_flow checked from_activated (activate_update lib cfg p tx s) ≡ true
  unfolding activate_update
  activate_update_sound tx s h = grind (
    arith,
    installed-later,
    noted_sound,
    from-activated,
    earned-activated,
    install-installed,
    save_or_fail_sound from_activated,
    give_up_sound from_activated,
  )

  reboot_update_sound :
      (tx : Transaction) (s : System)
      → is_sound_flow checked from_activated (continue tx, s) ≡ true
      → is_sound_flow checked from_activated (reboot_update lib cfg p tx s) ≡ true
  unfolding reboot_update
  reboot_update_sound tx s h = grind (
    arith,
    noted_sound,
    earned-reboot_requested,
    install-activated,
    activate-activated,
    save_sound,
    save-calls,
    request_reboot_sound,
    request_reboot-install,
    give_up_sound from_activated,
  )

  and_then_sound :
      (class class' : String → Bool) (f : Flow × System)
      (next : Transaction → System → Flow × System)
      → is_sound_flow checked class f ≡ true
      → ((tx : Transaction) (s : System)
          → is_sound_flow checked class (continue tx, s) ≡ true
          → is_sound_flow checked class' (next tx s) ≡ true)
      → is_sound_flow checked class' (and_then lib cfg p f next) ≡ true
  unfolding and_then
  and_then_sound class class' (return r, s) next h k = h
  and_then_sound class class' (continue tx, s) next h k = k tx s h

  stages_sound :
      (tx : Transaction) (s : System)
      → is_sound_flow checked from_created (continue tx, s) ≡ true
      → is_sound_flow checked from_activated (stages lib cfg p tx s) ≡ true
  unfolding stages
  stages_sound tx s h =
      and_then_sound from_activated from_activated _ _
        (and_then_sound from_installed from_activated _ _
          (and_then_sound from_verified from_installed _ _
            (and_then_sound from_downloaded from_verified _ _
              (and_then_sound from_prepared from_downloaded _ _ (prepare_sound tx s h)
                download_sound)
              verify_update_sound)
            install_update_sound)
          activate_update_sound)
        reboot_update_sound

  finish_sound :
      (f : Flow × System)
      → is_sound_flow checked from_activated f ≡ true
      → is_sound checked (finish lib cfg p f).1 ≡ true
  unfolding finish from_activated
  finish_sound (return r, s) h = h
  finish_sound (continue tx, s) h =
      grind (arith, install-activated, activate-activated, confirm_and_commit_sound)

  still_waiting_sound :
      (tx : Transaction) (s : System)
      → is_sound checked s ≡ true
      → is_earned tx.phase s.calls ≡ true
      → (tx.phase == "reboot_requested" || tx.phase == "rollback_reboot_requested") ≡ true
      → is_sound checked (still_waiting lib cfg p tx s).1 ≡ true
  unfolding still_waiting
  still_waiting_sound tx s h e w = grind (
    arith,
    waiting_phases tx.phase s.calls w e,
    save-finished,
    finished-rollback_failed,
    save_sound,
    save-calls,
    request_reboot_sound,
    fail_and_rollback_sound,
  )

  resume_after_reboot_sound :
      (tx : Transaction) (s : System)
      → is_sound checked s ≡ true
      → is_earned tx.phase s.calls ≡ true
      → (tx.phase == "reboot_requested" || tx.phase == "rollback_reboot_requested") ≡ true
      → is_sound checked (resume_after_reboot lib cfg p tx s).1 ≡ true
  unfolding resume_after_reboot
  resume_after_reboot_sound tx s h e w = grind (
    arith, still_waiting_sound, finished-rolled_back, save-finished, install-reboot_requested,
    activate-reboot_requested, confirm_and_commit_sound,
  )

  resume_sound :
      (tx : Transaction) (s : System)
      → is_sound checked s ≡ true
      → (is_finished tx.phase || is_earned tx.phase s.calls) ≡ true
      → valid_phase tx.phase ≡ true
      → is_sound checked (resume lib cfg p tx s).1 ≡ true
  unfolding resume is_finished
  resume_sound tx s h e v = grind (
    arith,
    staged tx.phase v,
    stages_sound tx s,
    finish_sound (stages lib cfg p tx s),
    resume_after_reboot_sound tx s,
  )

  execute_loaded_sound :
      (r : Request) (tx : Transaction) (s : System)
      → is_sound checked s ≡ true
      → (is_finished tx.phase || is_earned tx.phase s.calls) ≡ true
      → is_sound checked (execute_loaded lib cfg p r tx s).1 ≡ true
  unfolding execute_loaded
  execute_loaded_sound r tx s h e = grind (arith, resume_sound tx s h e)

  file-earned :
      (tx : Transaction) (s : System)
      → is_sound checked s ≡ true
      → s.file ≡ some tx
      → (is_finished tx.phase || is_earned tx.phase s.calls) ≡ true
  unfolding is_sound
  file-earned tx s h e = grind arith

  -- One run of the engine, whatever answers it, keeps the calls in their order and the phase of
  -- the file earned by them.
  pub execute_sound :
      (r : Request) (s : System)
      → is_sound checked s ≡ true
      → is_sound checked (execute lib cfg p r s).1 ≡ true
  unfolding execute load_or_create
  execute_sound r s h =
      grind (arith, file-earned, execute_loaded_sound, save_sound, save-calls, earned-created)
