-- ===== src/Agent/Engine/Execute.antt =====
-- `Execute`, stage by stage, and the resumption after a reboot.
use soul_room_edge_platform.Base.{
  ℕ, suc, ◌+◌, ◌-◌, ◌*◌, ◌%◌, ◌^◌, String, ◌<>◌, Bool, not, ◌&&◌, ◌||◌, Option, none, some, ◌==◌,
  ◌!=◌, if◌then◌else◌, leb, ltb,
}
use soul_room_edge_platform.Base.Int.{ℤ, pos, negsuc}
use soul_room_edge_platform.Agent.Ota.{
  Request, Request-discrete, Config, TextLibrary, validate_request, uses_ostree_repository,
}
use soul_room_edge_platform.Agent.Engine.{
  Answer, ok, err, current_version, fetch, verify, check, install, activate, Transaction, Ports,
  System, reboot_pending, Result, Flow, return, continue, status, failed, valid_phase,
  compatible_from_error, noted, is_none, is_ok,
}
use soul_room_edge_platform.Agent.Engine.Run.{
  two_minutes, save, save_or_fail, try_save, request_reboot, fail_and_rollback, stop,
  confirm_and_commit,
}

-- `uint64` of a 64-bit integer
abbrev pub to_uint64 : ℤ → ℕ
to_uint64 (pos n) = n
to_uint64 (negsuc n) = 2 ^ 64 - suc n

module _ (lib : TextLibrary) (cfg : Config) (p : Ports) where
  unfoldable pub ensure_free_space : Request → System → Option String
  ensure_free_space r s = elim (p.statfs s.calls) [
    | err e ↦ some e
    | ok (blocks, size) ↦
        let available = (blocks * size) % 2 ^ 64 in
        let required = (cfg.min_free_bytes + to_uint64 r.artifact_size) % 2 ^ 64 in
        if ltb available required
        then some (
            "insufficient staging space: need "
            <> lib.decimal required
            <> " bytes, have "
            <> lib.decimal available)
        else none
  ]

  abbrev pub needs_artifact : Request → Bool
  needs_artifact r = p.artifact_required && not (uses_ostree_repository r)

  abbrev pub give_up : Transaction → String → String → System → Flow × System
  give_up tx class cause s = stop lib cfg p (fail_and_rollback lib cfg p tx class cause s)

  -- A stage that does not apply passes the transaction on.
  unfoldable pub prepare : Transaction → System → Flow × System
  prepare tx s =
      if tx.phase != "created"
      then (continue tx, s)
      else let previous = p.current_version_of s.calls in
        let s' = noted current_version (is_ok previous) s in
        elim previous [
          | err e ↦ give_up tx "current_version" e s'
          | ok text ↦
              let tx' = record tx { previous_version = lib.trim_space text } in
              elim (compatible_from_error tx.request.compatible_from tx'.previous_version) [
                | some e ↦ give_up tx' "compatibility" e s'
                | none ↦
                    elim (if needs_artifact tx.request
                      then ensure_free_space tx.request s'
                      else none) [
                        | some e ↦ give_up tx' "preflight" e s'
                        | none ↦ save_or_fail lib cfg p (record tx' { phase = "prepared" }) s'
                      ]
              ]
        ]

  unfoldable pub download : Transaction → System → Flow × System
  download tx s =
      if tx.phase != "prepared"
      then (continue tx, s)
      else if not (needs_artifact tx.request)
      then save_or_fail lib cfg p (record tx { phase = "downloaded" }) s
      else let artifact = p.fetched s.calls in
        let s' = noted fetch (is_ok artifact) s in
        elim artifact [
          | err e ↦ give_up tx "download" e s'
          | ok path ↦
              save_or_fail lib cfg p (record tx { artifact_path = path; phase = "downloaded" }) s'
        ]

  -- The two signature checks of the stage "downloaded"; other updates have none.
  unfoldable pub verify_signature : Request → System → Option String × System
  verify_signature r s =
      if needs_artifact r
      then (let e = p.verify_artifact_error s.calls in (e, noted verify (is_none e) s))
      else if uses_ostree_repository r
      then (let e = p.verify_release_error s.calls in (e, noted verify (is_none e) s))
      else (none, s)

  unfoldable pub verify_update : Transaction → System → Flow × System
  verify_update tx s =
      if tx.phase != "downloaded"
      then (continue tx, s)
      else let (e, s') = verify_signature tx.request s in
        elim e [
          | some message ↦ give_up tx "verification" message s'
          | none ↦
              let e' = p.check_error s'.calls in
              let s'' = noted check (is_none e') s' in
              elim e' [
                | some message ↦ give_up tx "native_verification" message s''
                | none ↦ save_or_fail lib cfg p (record tx { phase = "verified" }) s''
              ]
        ]

  unfoldable pub install_update : Transaction → System → Flow × System
  install_update tx s =
      if tx.phase != "verified"
      then (continue tx, s)
      else let e = p.install_error s.calls in
        let s' = noted install (is_none e) s in
        elim e [
          | some message ↦ give_up tx "install" message s'
          | none ↦ save_or_fail lib cfg p (record tx { phase = "installed" }) s'
        ]

  unfoldable pub activate_update : Transaction → System → Flow × System
  activate_update tx s =
      if tx.phase != "installed"
      then (continue tx, s)
      else let e = p.activate_error s.calls in
        let s' = noted activate (is_none e) s in
        elim e [
          | some message ↦ give_up tx "activate" message s'
          | none ↦ save_or_fail lib cfg p (record tx { phase = "activated" }) s'
        ]

  unfoldable pub reboot_update : Transaction → System → Flow × System
  reboot_update tx s =
      if not (tx.phase == "activated" && p.requires_reboot)
      then (continue tx, s)
      else let tx' = record tx { phase = "reboot_requested"; boot_id = p.boot_id s.calls } in
        elim (save lib cfg p tx' s).0 [
          | some e ↦ (return (failed tx.request "state" e), s)
          | none ↦
              let (e, s') = request_reboot lib cfg p (save lib cfg p tx' s).1 in
              elim e [
                | some message ↦ give_up tx' "reboot" message s'
                | none ↦ (return (status tx.request "rebooting" "", some reboot_pending), s')
              ]
        ]

  -- The stages in their order, each run on what the one before it leaves.
  unfoldable pub and_then : Flow × System → (Transaction → System → Flow × System) → Flow × System
  and_then (return r, s) next = (return r, s)
  and_then (continue tx, s) next = next tx s

  unfoldable pub stages : Transaction → System → Flow × System
  stages tx s =
      and_then
        (and_then
          (and_then (and_then (and_then (prepare tx s) download) verify_update) install_update)
          activate_update)
        reboot_update

  unfoldable pub finish : Flow × System → Result × System
  finish (return r, s) = (r, s)
  finish (continue tx, s) = confirm_and_commit lib cfg p tx s

  abbrev pub run_stages : Transaction → System → Result × System
  run_stages tx s = finish (stages tx s)

  -- The device has not rebooted since the request.
  unfoldable pub still_waiting : Transaction → System → Result × System
  still_waiting tx s =
      let waiting : Result = (status tx.request "rebooting" "", some reboot_pending) in
      if not (leb (tx.updated_at + two_minutes) (p.now s.calls))
      then (waiting, s)
      else if leb 3 tx.reboot_attempts
      then (if tx.phase == "rollback_reboot_requested"
          then (let tx' = record tx {
            phase = "rollback_failed";
            failure = tx.failure <> "; device did not reboot after three requests";
          } in
              (failed tx.request "rollback_failed" tx'.failure, try_save lib cfg p tx' s))
          else fail_and_rollback lib cfg p tx "reboot" "device did not reboot after three requests"
              s)
      else let tx' = record tx { reboot_attempts = suc tx.reboot_attempts } in
        elim (save lib cfg p tx' s).0 [
          | some e ↦ (failed tx.request "state" e, s)
          | none ↦
              let (e, s') = request_reboot lib cfg p (save lib cfg p tx' s).1 in
              elim e [
                | some message ↦ (failed tx.request "reboot" message, s')
                | none ↦ (waiting, s')
              ]
        ]

  unfoldable pub resume_after_reboot : Transaction → System → Result × System
  resume_after_reboot tx s =
      if tx.boot_id != "" && tx.boot_id == p.boot_id s.calls
      then still_waiting tx s
      else if tx.phase == "rollback_reboot_requested"
      then (let tx' = record tx { phase = "rolled_back" } in
          elim (save lib cfg p tx' s).0 [
            | some e ↦ (failed tx.request "state" e, s)
            | none ↦ (failed tx.request "rolled_back" tx.failure, try_save lib cfg p tx' s)
          ])
      else confirm_and_commit lib cfg p tx s

  abbrev pub fresh : Request → Transaction
  fresh r = record {
    request = r;
    phase = "created";
    artifact_path = "";
    previous_version = "";
    boot_id = "";
    failure = "";
    reboot_attempts = 0;
    updated_at = 0;
  }

  unfoldable pub load_or_create : Request → System → Answer Transaction × System
  load_or_create r s = elim p.load_error [
    | some e ↦ (err e, s)
    | none ↦ elim s.file [
      | some tx ↦ (ok tx, s)
      | none ↦ elim (save lib cfg p (fresh r) s).0 [
        | some e ↦ (err e, s)
        | none ↦ (ok (fresh r), try_save lib cfg p (fresh r) s)
      ]
    ]
  ]

  -- the phases, from the test of the terminal ones on
  unfoldable pub resume : Transaction → System → Result × System
  resume tx s =
      if tx.phase == "completed"
      then ((status tx.request "succeeded" "", none), s)
      else if tx.phase == "rolled_back"
      then (failed tx.request "rolled_back" tx.failure, s)
      else if tx.phase == "rollback_failed"
      then (failed tx.request "rollback_failed" tx.failure, s)
      else if tx.phase == "reboot_requested" || tx.phase == "rollback_reboot_requested"
      then resume_after_reboot tx s
      else run_stages tx s

  unfoldable pub execute_loaded : Request → Transaction → System → Result × System
  execute_loaded r tx s = elim (Request-discrete tx.request r) [
    | no _ ↦ (failed r "state" "persisted OTA transaction does not match the delivered request", s)
    | yes _ ↦
        if not (valid_phase tx.phase)
        then (
          failed r "state" ("persisted OTA transaction has unknown phase " <> lib.quote tx.phase),
          s,
        )
        else resume tx s
  ]

  unfoldable pub execute : Request → System → Result × System
  execute r s = elim (validate_request lib cfg r) [
    | some e ↦ (failed r "validation" e, s)
    | none ↦ elim p.unavailable [
      | some e ↦ (failed r "adapter" e, s)
      | none ↦
          if not p.available
          then (failed r "adapter" ("adapter " <> r.adapter <> " is unavailable"), s)
          else (let (loaded, s') = load_or_create r s in
              elim loaded [ err e ↦ (failed r "state" e, s') | ok tx ↦ execute_loaded r tx s' ])
    ]
  ]
