-- ===== src/Agent/Engine/Outcome.antt =====
-- What a run of the engine ends with, and sequences of runs.
use soul_room_edge_platform.Base.{
  String, ◌≡◌, refl, sym, ap, ◌∙◌, Bool, true, false, not, Option, none, some, List, [], ◌∷◌, arith,
  ◌⊎◌, inl, inr, ◌||◌, if◌then◌else◌, Option-cases,
}
use soul_room_edge_platform.Base.Lists.{drop, All}
use soul_room_edge_platform.Agent.Ota.{Request, Config, TextLibrary}
use soul_room_edge_platform.Agent.Engine.{
  current_version, commit, health, Calls, Transaction, Ports, System, Result, Flow, return,
  continue, noted, is_none,
}
use soul_room_edge_platform.Agent.Engine.Run.{
  save, save_or_fail, reboot_for_rollback, roll_back, fail_and_rollback, confirm_and_commit,
  confirm_version, commit_update, health_check, health_loop,
}
use soul_room_edge_platform.Agent.Engine.Execute.{
  prepare, download, verify_update, install_update, activate_update, reboot_update, and_then,
  stages, finish, still_waiting, resume_after_reboot, load_or_create, resume, execute_loaded,
  execute,
}
use soul_room_edge_platform.Agent.Engine.Earned.{
  is_ordered, is_sound, is_finished, has_health_check,
}
use soul_room_edge_platform.Agent.Engine.Stages.{execute_sound}

-- A run of `Execute`: its configuration, its environment and the request delivered to it.
pub record Run : Type 0 where
  pub config : Config
  pub ports : Ports
  pub request : Request

abbrev pub executions : TextLibrary → List Run → System → System
executions lib [] s = s
executions lib (run ∷ runs) s =
    executions lib runs (execute lib run.config run.ports run.request s).1

-- A device that has not seen the update.
abbrev pub untouched : System
untouched = record { file = none; calls = [] }

-- Every run has a command for the health check, if it is asked for.
abbrev pub AreChecked : TextLibrary → Bool → List Run → Type 0
AreChecked lib checked runs =
    All (λ run. (not checked || has_health_check lib run.config) ≡ true) runs

executions_sound :
    (lib : TextLibrary) (checked : Bool) (runs : List Run) (s : System)
    → AreChecked lib checked runs
    → is_sound checked s ≡ true
    → is_sound checked (executions lib runs s) ≡ true
executions_sound lib checked [] s agreed h = h
executions_sound lib checked (run ∷ runs) s agreed h =
    executions_sound lib checked runs _ agreed.1
      (execute_sound lib run.config run.ports checked agreed.0 run.request s h)

sound-ordered :
    (checked : Bool) (s : System) → is_sound checked s ≡ true → is_ordered checked s.calls ≡ true
unfolding is_sound
sound-ordered checked s h = ground arith

untouched_sound : (checked : Bool) → is_sound checked untouched ≡ true
unfolding is_sound
untouched_sound checked = refl

-- Over any sequence of runs for one update, from a device that has not seen it, with any answers
-- of the environment, failing writes of the file among them: an installation is called only after
-- a successful check of the artifact, an activation, a rollback and a reboot only after a
-- successful installation, a health check only after a successful activation, and a commit only
-- after a successful activation; and where every run has a command for the health check, a commit
-- is called only after this command has succeeded.
pub executions-is_ordered :
    (lib : TextLibrary) (checked : Bool) (runs : List Run)
    → AreChecked lib checked runs
    → is_ordered checked (executions lib runs untouched).calls ≡ true
executions-is_ordered lib checked runs agreed =
    sound-ordered checked _
      (executions_sound lib checked runs untouched agreed (untouched_sound checked))

-- The calls of a successful confirmation, the newest first; a health check is one of them if there
-- is a command for it.
abbrev pub checked_health : Bool → Calls → Calls
checked_health true older = record { call = health; succeeded = true } ∷ older
checked_health false older = older

abbrev pub confirmed : Bool → Calls → Calls
confirmed checked older =
    record { call = commit; succeeded = true }
    ∷ record { call = current_version; succeeded = true }
    ∷ checked_health checked older

abbrev pub phase_of : Option Transaction → String
phase_of none = ""
phase_of (some tx) = tx.phase

-- A success leaves the file completed; it made no calls, or its last ones are a confirmation.
abbrev pub IsConfirmed : Bool → System → System → Type 0
IsConfirmed checked before after =
    (phase_of after.file ≡ "completed")
    × ((after.calls ≡ before.calls)
        ⊎ (after.calls ≡ confirmed checked (drop (if checked then 3 else 2) after.calls)))

module _ (lib : TextLibrary) (cfg : Config) (p : Ports) where
  -- A confirmation has been the end.
  abbrev Finished : System → Type 0
  Finished s =
      (phase_of s.file ≡ "completed")
      × (s.calls
          ≡ confirmed (has_health_check lib cfg)
              (drop (if has_health_check lib cfg then 3 else 2) s.calls))

  fail_and_rollback-error :
      (tx : Transaction) (class cause : String) (s : System)
      → is_none (fail_and_rollback lib cfg p tx class cause s).0.1 ≡ false
  unfolding fail_and_rollback roll_back reboot_for_rollback
  fail_and_rollback-error tx class cause s = ground arith

  save-completed :
      (tx : Transaction) (s : System)
      → (save lib cfg p (record tx { phase = "completed" }) s).0 ≡ none
      → phase_of (save lib cfg p (record tx { phase = "completed" }) s).1.file ≡ "completed"
  unfolding save
  save-completed tx s h = ground arith

  save-keeps : (tx : Transaction) (s : System) → (save lib cfg p tx s).1.calls ≡ s.calls
  unfolding save
  save-keeps tx s = ground arith

  commit_update-good :
      (tx : Transaction) (s : System) (older : Calls)
      → (noted commit true s).calls ≡ confirmed (has_health_check lib cfg) older
      → (commit_update lib cfg p tx s).0.1 ≡ none
      → (phase_of (commit_update lib cfg p tx s).1.file ≡ "completed")
        × ((commit_update lib cfg p tx s).1.calls ≡ confirmed (has_health_check lib cfg) older)
  unfolding commit_update
  commit_update-good tx s older e h =
      grind (arith, save-completed tx (noted commit true s), save-keeps, fail_and_rollback-error)

  health_loop-last :
      (first : Option String) (later : List (Option String)) (s : System)
      → (health_loop lib cfg p first later s).0 ≡ none
      → (older : Calls) × ((health_loop lib cfg p first later s).1.calls
          ≡ checked_health true older)
  unfolding health_loop
  health_loop-last none later s h = (s.calls, refl)
  health_loop-last (some e) [] s h = absurd (ground arith)
  health_loop-last (some e) (next ∷ later) s h =
      health_loop-last next later (noted health false s) h

  health_check-cases :
      (s : System)
      → ((has_health_check lib cfg ≡ false) × (health_check lib cfg p s ≡ (none, s)))
        ⊎ ((has_health_check lib cfg ≡ true)
            × (health_check lib cfg p s
                ≡ health_loop lib cfg p
                    (p.health_outcomes s.calls).0
                    (p.health_outcomes s.calls).1
                    s))
  unfolding health_check
  health_check-cases s = ground arith

  health_check-last :
      (s : System)
      → (health_check lib cfg p s).0 ≡ none
      → (older : Calls) × ((health_check lib cfg p s).1.calls
          ≡ checked_health (has_health_check lib cfg) older)
  health_check-last s h = elim (health_check-cases s) [
    | inl (bare, same) ↦ (s.calls, rw (same, bare) refl)
    | inr (full, same) ↦
        let (older, e) =
          health_loop-last (p.health_outcomes s.calls).0 (p.health_outcomes s.calls).1 s
            (ap (λ (r : Option String × System). r.0) (sym same) ∙ h) in
        (older, rw (same, full) e)
  ]

  drop-confirmed :
      (checked : Bool) (older : Calls)
      → drop (if checked then 3 else 2) (confirmed checked older) ≡ older
  drop-confirmed true older = refl
  drop-confirmed false older = refl

  Finished-intro :
      (older : Calls) (s : System)
      → phase_of s.file ≡ "completed"
      → s.calls ≡ confirmed (has_health_check lib cfg) older
      → Finished s
  Finished-intro older s done e =
      (done, rw (e, drop-confirmed (has_health_check lib cfg) older) refl)

  confirm_version-good :
      (tx : Transaction) (s : System) (older : Calls)
      → s.calls ≡ checked_health (has_health_check lib cfg) older
      → (confirm_version lib cfg p tx s).0.1 ≡ none
      → (phase_of (confirm_version lib cfg p tx s).1.file ≡ "completed")
        × ((confirm_version lib cfg p tx s).1.calls ≡ confirmed (has_health_check lib cfg) older)
  unfolding confirm_version
  confirm_version-good tx s older e h = grind (
    arith,
    commit_update-good tx (noted current_version true s) older (rw e refl),
    fail_and_rollback-error,
  )

  confirm_and_commit_bad :
      (tx : Transaction) (s : System) (x : String)
      → (health_check lib cfg p s).0 ≡ some x
      → ¬ ((confirm_and_commit lib cfg p tx s).0.1 ≡ none)
  unfolding confirm_and_commit
  confirm_and_commit_bad tx s x e h = grind (arith, fail_and_rollback-error)

  confirm_and_commit_fine :
      (tx : Transaction) (s : System)
      → (health_check lib cfg p s).0 ≡ none
      → confirm_and_commit lib cfg p tx s
        ≡ confirm_version lib cfg p tx (health_check lib cfg p s).1
  unfolding confirm_and_commit
  confirm_and_commit_fine tx s fine = rw (confirm_and_commit, fine) refl

  confirm_and_commit-good :
      (tx : Transaction) (s : System)
      → (confirm_and_commit lib cfg p tx s).0.1 ≡ none
      → Finished (confirm_and_commit lib cfg p tx s).1
  confirm_and_commit-good tx s h = elim (Option-cases (health_check lib cfg p s).0) [
    | inr (x, bad) ↦ absurd (confirm_and_commit_bad tx s x bad h)
    | inl fine ↦
        let s' = (health_check lib cfg p s).1 in
        let same = confirm_and_commit_fine tx s fine in
        let (older, e) = health_check-last s fine in
        let (done, calls) =
          confirm_version-good tx s' older e (ap (λ (r : Result × System). r.0.1) (sym same) ∙ h) in
        rw same (Finished-intro older (confirm_version lib cfg p tx s').1 done calls)
  ]

  -- A stage that returns has an error.
  abbrev is_error_flow : Flow × System → Bool
  is_error_flow (return r, s) = not (is_none r.1)
  is_error_flow (continue tx, s) = true

  prepare-error : (tx : Transaction) (s : System) → is_error_flow (prepare lib cfg p tx s) ≡ true
  unfolding prepare save_or_fail
  prepare-error tx s = grind (arith, fail_and_rollback-error)

  download-error : (tx : Transaction) (s : System) → is_error_flow (download lib cfg p tx s) ≡ true
  unfolding download save_or_fail
  download-error tx s = grind (arith, fail_and_rollback-error)

  verify_update-error :
      (tx : Transaction) (s : System) → is_error_flow (verify_update lib cfg p tx s) ≡ true
  unfolding verify_update save_or_fail
  verify_update-error tx s = grind (arith, fail_and_rollback-error)

  install_update-error :
      (tx : Transaction) (s : System) → is_error_flow (install_update lib cfg p tx s) ≡ true
  unfolding install_update save_or_fail
  install_update-error tx s = grind (arith, fail_and_rollback-error)

  activate_update-error :
      (tx : Transaction) (s : System) → is_error_flow (activate_update lib cfg p tx s) ≡ true
  unfolding activate_update save_or_fail
  activate_update-error tx s = grind (arith, fail_and_rollback-error)

  reboot_update-error :
      (tx : Transaction) (s : System) → is_error_flow (reboot_update lib cfg p tx s) ≡ true
  unfolding reboot_update
  reboot_update-error tx s = grind (arith, fail_and_rollback-error)

  and_then-error :
      (f : Flow × System) (next : Transaction → System → Flow × System)
      → is_error_flow f ≡ true
      → ((tx : Transaction) (s : System) → is_error_flow (next tx s) ≡ true)
      → is_error_flow (and_then lib cfg p f next) ≡ true
  unfolding and_then
  and_then-error (return r, s) next h k = h
  and_then-error (continue tx, s) next h k = k tx s

  stages-error : (tx : Transaction) (s : System) → is_error_flow (stages lib cfg p tx s) ≡ true
  unfolding stages
  stages-error tx s =
      and_then-error _ _
        (and_then-error _ _
          (and_then-error _ _
            (and_then-error _ _ (and_then-error _ _ (prepare-error tx s) download-error)
              verify_update-error)
            install_update-error)
          activate_update-error)
        reboot_update-error

  finish-good :
      (f : Flow × System)
      → is_error_flow f ≡ true
      → (finish lib cfg p f).0.1 ≡ none
      → Finished (finish lib cfg p f).1
  unfolding finish
  finish-good (return r, s) e h = ground arith
  finish-good (continue tx, s) e h = ground (arith, confirm_and_commit-good tx s h)

  resume_after_reboot-good :
      (tx : Transaction) (s : System)
      → (resume_after_reboot lib cfg p tx s).0.1 ≡ none
      → Finished (resume_after_reboot lib cfg p tx s).1
  unfolding resume_after_reboot still_waiting
  resume_after_reboot-good tx s h =
      grind (arith, fail_and_rollback-error, confirm_and_commit-good tx s)

  execute_loaded-good :
      (r : Request) (tx : Transaction) (s : System)
      → (phase_of s.file ≡ tx.phase)
      → (execute_loaded lib cfg p r tx s).0.1 ≡ none
      → IsConfirmed (has_health_check lib cfg) s (execute_loaded lib cfg p r tx s).1
  unfolding execute_loaded resume
  execute_loaded-good r tx s e h = grind (
    arith,
    resume_after_reboot-good tx s,
    finish-good (stages lib cfg p tx s) (stages-error tx s),
  )

  -- A run that returns no error leaves the file of the update in the phase `completed`; it either
  -- made no call, or its last two calls are a successful reading of the version and a successful
  -- commit, in this order, directly behind a successful run of the health command, if the agent has
  -- one.
  pub execute-IsConfirmed :
      (r : Request) (s : System)
      → (execute lib cfg p r s).0.1 ≡ none
      → IsConfirmed (has_health_check lib cfg) s (execute lib cfg p r s).1
  unfolding execute load_or_create save
  execute-IsConfirmed r s h = grind (arith, execute_loaded-good)

  -- When the file of the update is in a finished phase (completed, rolled back or failed to roll
  -- back), a run makes no call and leaves the file as it is, whatever is requested.
  pub execute-is_finished :
      (r : Request) (tx : Transaction) (s : System)
      → s.file ≡ some tx
      → is_finished tx.phase ≡ true
      → (execute lib cfg p r s).1 ≡ s
  unfolding execute load_or_create execute_loaded resume is_finished
  execute-is_finished r tx s e h = grind arith

  -- When the file holds the transaction of another request, a run fails, makes no call and leaves
  -- the file as it is.
  pub execute-refused :
      (r : Request) (tx : Transaction) (s : System)
      → s.file ≡ some tx
      → ¬ (tx.request ≡ r)
      → ((execute lib cfg p r s).1 ≡ s) × ((execute lib cfg p r s).0.0.state ≡ "failed")
  unfolding execute load_or_create execute_loaded
  execute-refused r tx s e n = grind arith
