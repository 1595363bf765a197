-- ===== src/Agent/Engine/Run.antt =====
-- `Execute` and its parts, stage by stage.
use soul_room_edge_platform.Base.{
  ℕ, String, ◌<>◌, Bool, true, false, not, ◌&&◌, ◌||◌, Option, none, some, List, [], ◌∷◌, ◌==◌,
  ◌!=◌, if◌then◌else◌,
}
use soul_room_edge_platform.Agent.Ota.{Request, Config, TextLibrary}
use soul_room_edge_platform.Agent.Engine.{
  ok, err, current_version, commit, rollback, health, reboot, Transaction, Ports, System,
  reboot_pending, Result, Flow, return, continue, status, failed, reloaded, noted, is_none, is_ok,
}

-- two minutes, in nanoseconds
abbrev pub two_minutes : ℕ
two_minutes = 120000000000

unfoldable pub is_pre_install : String → Bool
is_pre_install phase =
    phase == "created" || phase == "prepared" || phase == "downloaded" || phase == "verified"

-- the two tests on the reported version, with their messages
abbrev pub is_pinned : Request → Bool
is_pinned r = r.adapter == "ostree" || r.adapter == "flatpak"

abbrev pub expected_version : Request → String
expected_version r =
    if r.adapter == "ostree"
    then r.ostree_commit
    else if r.adapter == "flatpak"
    then r.flatpak_commit
    else r.version

module _ (lib : TextLibrary) (cfg : Config) (p : Ports) where
  -- `save`: the file has the time of the save, the transaction at hand keeps its own.
  unfoldable pub save : Transaction → System → Option String × System
  save tx s = elim (p.save_error tx.phase s.calls) [
    | some e ↦ (some e, s)
    | none ↦ (
      none,
      record s {
        file = some (record tx { request = reloaded tx.request; updated_at = p.now s.calls });
      },
    )
  ]

  -- `_ = e.save(tx)`
  abbrev pub try_save : Transaction → System → System
  try_save tx s = (save tx s).1

  -- `if err := e.save(tx); err != nil { return e.failed(request, "state", err) }`
  unfoldable pub save_or_fail : Transaction → System → Flow × System
  save_or_fail tx s = elim (save tx s).0 [
    | some e ↦ (return (failed tx.request "state" e), s)
    | none ↦ (continue tx, (save tx s).1)
  ]

  unfoldable pub request_reboot : System → Option String × System
  request_reboot s =
      if not cfg.auto_reboot
      then (some "automatic reboot is disabled in the local agent configuration", s)
      else (let e = p.reboot_error s.calls in (e, noted reboot (is_none e) s))

  -- The end of a rollback that needs a reboot.
  unfoldable pub reboot_for_rollback : Transaction → System → Result × System
  reboot_for_rollback tx s =
      let waiting = record tx {
        phase = "rollback_reboot_requested";
        boot_id = p.boot_id s.calls;
      } in
      let (e, s') = request_reboot (try_save waiting s) in
      elim e [
        | none ↦ ((status tx.request "rebooting" tx.failure, some reboot_pending), s')
        | some message ↦
            let tx' = record waiting {
              phase = "rollback_failed";
              failure = tx.failure <> "; rollback reboot: " <> message;
            } in
            (failed tx.request "rollback_failed" tx'.failure, try_save tx' s')
      ]

  unfoldable pub roll_back : Transaction → String → String → System → Result × System
  roll_back tx class cause s =
      let e = p.rollback_error s.calls in
      let s' = noted rollback (is_none e) s in
      elim e [
        | some message ↦
            let tx' = record tx {
              phase = "rollback_failed";
              failure = tx.failure <> "; rollback: " <> message;
            } in
            (failed tx.request "rollback_failed" tx'.failure, try_save tx' s')
        | none ↦
            if p.requires_reboot
            then reboot_for_rollback tx s'
            else (failed tx.request class cause, try_save (record tx { phase = "rolled_back" }) s')
      ]

  unfoldable pub fail_and_rollback : Transaction → String → String → System → Result × System
  fail_and_rollback tx class cause s =
      let tx' = record tx { failure = class <> ": " <> cause } in
      if is_pre_install tx.phase
      then (failed tx.request class cause, try_save (record tx' { phase = "rolled_back" }) s)
      else roll_back tx' class cause s

  abbrev pub stop : Result × System → Flow × System
  stop (r, s) = (return r, s)

  -- the version tests of `confirmAndCommit`
  unfoldable pub version_error : Request → String → Option String
  version_error r current =
      let expected = expected_version r in
      if is_pinned r && expected != "" && not (lib.equal_fold current expected)
      then some (
          "reported immutable revision "
          <> lib.quote current
          <> " does not equal expected revision "
          <> lib.quote expected)
      else if not (is_pinned r)
          && expected != ""
          && current != ""
          && not (lib.contains current expected)
      then some ("reported version does not contain expected release " <> lib.quote expected)
      else none

  -- The loop of `healthCheck`: it ends with the first run that succeeds, or with the last one that
  -- the time limit leaves. Every run of the command is noted.
  unfoldable pub health_loop :
      Option String → List (Option String) → System → Option String × System
  health_loop none later s = (none, noted health true s)
  health_loop (some e) [] s = (some ("health check did not pass: " <> e), noted health false s)
  health_loop (some e) (next ∷ later) s = health_loop next later (noted health false s)

  -- Without a command nothing is run.
  unfoldable pub health_check : System → Option String × System
  health_check s =
      if lib.trim_space cfg.health_check_command == ""
      then (none, s)
      else elim (lib.fields cfg.health_check_command) [
        | [] ↦ (none, s)
        | part ∷ parts ↦ health_loop (p.health_outcomes s.calls).0 (p.health_outcomes s.calls).1 s
      ]

  -- The end of `confirmAndCommit`, from the call of `Commit`.
  unfoldable pub commit_update : Transaction → System → Result × System
  commit_update tx s =
      let e = p.commit_error s.calls in
      let s' = noted commit (is_none e) s in
      elim e [
        | some message ↦ fail_and_rollback tx "commit" message s'
        | none ↦ elim (save (record tx { phase = "completed" }) s').0 [
          | some message ↦ (failed tx.request "state" message, s')
          | none ↦ (
            (status tx.request "succeeded" "", none),
            try_save (record tx { phase = "completed" }) s',
          )
        ]
      ]

  unfoldable pub confirm_version : Transaction → System → Result × System
  confirm_version tx s =
      let current = p.current_version_of s.calls in
      let s' = noted current_version (is_ok current) s in
      elim current [
        | err message ↦ fail_and_rollback tx "version_confirmation" message s'
        | ok text ↦ elim (version_error tx.request (lib.trim_space text)) [
          | some message ↦ fail_and_rollback tx "version_confirmation" message s'
          | none ↦ commit_update tx s'
        ]
      ]

  unfoldable pub confirm_and_commit : Transaction → System → Result × System
  confirm_and_commit tx s =
      let (e, s') = health_check s in
      elim e [
        | some message ↦ fail_and_rollback tx "health" message s'
        | none ↦ confirm_version tx s'
      ]
