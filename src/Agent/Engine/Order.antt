-- ===== src/Agent/Engine/Order.antt =====
-- The order of the calls: what the engine calls, and on the ground of which earlier calls, across
-- any number of runs.
use soul_room_edge_platform.Base.{
  String, ◌<>◌, ◌≡◌, refl, Bool, true, false, not, ◌||◌, Option, none, some, List, [], ◌∷◌, arith,
}
use soul_room_edge_platform.Base.Lists.{any}
use soul_room_edge_platform.Agent.Ota.{Config, TextLibrary}
use soul_room_edge_platform.Agent.Engine.{
  current_version, commit, rollback, health, Transaction, Ports, System, Result, noted,
}
use soul_room_edge_platform.Agent.Engine.Run.{
  save, try_save, request_reboot, reboot_for_rollback, roll_back, fail_and_rollback, is_pre_install,
  commit_update, confirm_version, confirm_and_commit, health_check, health_loop,
}
use soul_room_edge_platform.Agent.Engine.Earned.{
  is_install, is_activate, is_health, has_health_check, is_earned, is_finished, is_sound,
  earned-rollback_reboot_requested, finished-rollback_failed, finished-completed,
}

module _ (lib : TextLibrary) (cfg : Config) (p : Ports) (checked : Bool)
    (agreed : (not checked || has_health_check lib cfg) ≡ true) where
  pub save_sound :
      (tx : Transaction) (s : System)
      → is_sound checked s ≡ true
      → is_earned tx.phase s.calls ≡ true
      → is_sound checked (save lib cfg p tx s).1 ≡ true
  unfolding save is_sound is_earned is_pre_install is_finished
  save_sound tx s h e = ground arith

  pub save-finished :
      (tx : Transaction) (s : System)
      → is_sound checked s ≡ true
      → is_finished tx.phase ≡ true
      → is_sound checked (save lib cfg p tx s).1 ≡ true
  unfolding save is_sound is_earned is_pre_install is_finished
  save-finished tx s h e = ground arith

  pub save-calls : (tx : Transaction) (s : System) → (save lib cfg p tx s).1.calls ≡ s.calls
  unfolding save
  save-calls tx s = ground arith

  pub request_reboot_sound :
      (s : System)
      → is_sound checked s ≡ true
      → any is_install s.calls ≡ true
      → is_sound checked (request_reboot lib cfg p s).1 ≡ true
  unfolding request_reboot is_sound is_earned is_pre_install is_finished
  request_reboot_sound s h e = ground arith

  pub request_reboot-install :
      (s : System)
      → any is_install s.calls ≡ true
      → any is_install (request_reboot lib cfg p s).1.calls ≡ true
  unfolding request_reboot
  request_reboot-install s e = ground arith

  -- A last write of the file, after an error, of a transaction in a finished phase.
  abbrev concluded :
      Option String → Result → (String → Result) → (String → Transaction) → System → Result × System
  concluded e r r' tx s = elim e [ none ↦ (r, s) | some m ↦ (r' m, try_save lib cfg p (tx m) s) ]

  pub finished_sound :
      (e : Option String) (r : Result) (r' : String → Result) (tx : String → Transaction)
      (s : System)
      → is_sound checked s ≡ true
      → ((m : String) → is_finished (tx m).phase ≡ true)
      → is_sound checked (concluded e r r' tx s).1 ≡ true
  finished_sound none r r' tx s h finished = h
  finished_sound (some m) r r' tx s h finished = save-finished (tx m) s h (finished m)

  pub reboot_for_rollback_sound :
      (tx : Transaction) (s : System)
      → is_sound checked s ≡ true
      → any is_install s.calls ≡ true
      → is_sound checked (reboot_for_rollback lib cfg p tx s).1 ≡ true
  unfolding reboot_for_rollback is_sound is_earned is_pre_install is_finished
  reboot_for_rollback_sound tx s h e =
      let waiting = record tx {
        phase = "rollback_reboot_requested";
        boot_id = p.boot_id s.calls;
      } in
      let s' = try_save lib cfg p waiting s in
      let given_up : String → Transaction = λ m. record waiting {
        phase = "rollback_failed";
        failure = tx.failure <> "; rollback reboot: " <> m;
      } in
      finished_sound (request_reboot lib cfg p s').0 _ _ given_up (request_reboot lib cfg p s').1
        (request_reboot_sound s'
          (save_sound waiting s h (earned-rollback_reboot_requested s.calls e))
          (ground (arith, save-calls waiting s)))
        (λ m. finished-rollback_failed)

  roll_back_sound :
      (tx : Transaction) (class cause : String) (s : System)
      → is_sound checked s ≡ true
      → any is_install s.calls ≡ true
      → is_sound checked (roll_back lib cfg p tx class cause s).1 ≡ true
  unfolding roll_back save is_sound is_earned is_pre_install is_finished
  roll_back_sound tx class cause s h e =
      ground (arith, reboot_for_rollback_sound tx (noted rollback true s))

  pub fail_and_rollback_sound :
      (tx : Transaction) (class cause : String) (s : System)
      → is_sound checked s ≡ true
      → (is_pre_install tx.phase || any is_install s.calls) ≡ true
      → is_sound checked (fail_and_rollback lib cfg p tx class cause s).1 ≡ true
  unfolding fail_and_rollback save is_sound is_earned is_pre_install is_finished
  fail_and_rollback_sound tx class cause s h e =
      ground
        (arith, roll_back_sound (record tx { failure = class <> ": " <> cause }) class cause s h)

  -- What holds after the health check, if it held before.
  abbrev IsKept : Option String × System → Type 0
  IsKept r =
      (is_sound checked r.1 ≡ true)
      × (any is_install r.1.calls ≡ true)
      × (any is_activate r.1.calls ≡ true)

  health_loop-IsKept :
      (first : Option String) (later : List (Option String)) (s : System)
      → is_sound checked s ≡ true
      → any is_install s.calls ≡ true
      → any is_activate s.calls ≡ true
      → IsKept (health_loop lib cfg p first later s)
  unfolding health_loop is_sound is_earned is_pre_install is_finished
  health_loop-IsKept none later s h i a = (ground arith, ground arith, ground arith)
  health_loop-IsKept (some e) [] s h i a = (ground arith, ground arith, ground arith)
  health_loop-IsKept (some e) (next ∷ later) s h i a =
      health_loop-IsKept next later (noted health false s) (ground arith) (ground arith)
        (ground arith)

  health_check-IsKept :
      (s : System)
      → is_sound checked s ≡ true
      → any is_install s.calls ≡ true
      → any is_activate s.calls ≡ true
      → IsKept (health_check lib cfg p s)
  unfolding health_check
  health_check-IsKept s h i a = ground (
    arith,
    health_loop-IsKept (p.health_outcomes s.calls).0 (p.health_outcomes s.calls).1 s h i a,
  )

  health_loop-any :
      (first : Option String) (later : List (Option String)) (s : System)
      → (health_loop lib cfg p first later s).0 ≡ none
      → any is_health (health_loop lib cfg p first later s).1.calls ≡ true
  unfolding health_loop
  health_loop-any none later s h = refl
  health_loop-any (some e) [] s h = absurd (ground arith)
  health_loop-any (some e) (next ∷ later) s h = health_loop-any next later (noted health false s) h

  health_check-any :
      (s : System)
      → (health_check lib cfg p s).0 ≡ none
      → (not checked || any is_health (health_check lib cfg p s).1.calls) ≡ true
  unfolding health_check
  health_check-any s h =
      ground (arith, health_loop-any (p.health_outcomes s.calls).0 (p.health_outcomes s.calls).1 s)

  commit_update_sound :
      (tx : Transaction) (s : System)
      → is_sound checked s ≡ true
      → any is_install s.calls ≡ true
      → any is_activate s.calls ≡ true
      → (not checked || any is_health s.calls) ≡ true
      → is_sound checked (commit_update lib cfg p tx s).1 ≡ true
  unfolding commit_update is_sound is_earned is_pre_install is_finished
  commit_update_sound tx s h i a o = grind (
    arith,
    finished-completed,
    save-finished (record tx { phase = "completed" }) (noted commit true s),
    fail_and_rollback_sound,
  )

  confirm_version_sound :
      (tx : Transaction) (s : System)
      → is_sound checked s ≡ true
      → any is_install s.calls ≡ true
      → any is_activate s.calls ≡ true
      → (not checked || any is_health s.calls) ≡ true
      → is_sound checked (confirm_version lib cfg p tx s).1 ≡ true
  unfolding confirm_version is_sound is_earned is_pre_install is_finished
  confirm_version_sound tx s h i a o = grind (
    arith,
    commit_update_sound tx (noted current_version true s),
    fail_and_rollback_sound,
    fail_and_rollback_sound,
  )

  pub confirm_and_commit_sound :
      (tx : Transaction) (s : System)
      → is_sound checked s ≡ true
      → any is_install s.calls ≡ true
      → any is_activate s.calls ≡ true
      → is_sound checked (confirm_and_commit lib cfg p tx s).1 ≡ true
  unfolding confirm_and_commit is_sound is_earned is_pre_install is_finished
  confirm_and_commit_sound tx s h i a = grind (
    arith,
    confirm_version_sound tx (health_check lib cfg p s).1,
    fail_and_rollback_sound,
    health_check-IsKept s h i a,
    health_check-any s,
  )
