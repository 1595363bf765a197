-- ===== src/Agent/Tests.antt =====
-- Runs of the theorems of the engine on a Flatpak update that succeeds at once.
use soul_room_edge_platform.Base.{
  String, ◌≡◌, refl, true, false, none, some, List, [], ◌∷◌, string_dec, arith, ◌==◌,
}
use native.Mathlib.Decide.{ℕ_discrete}
use soul_room_edge_platform.Base.Int.{pos, ℤ-discrete}
use soul_room_edge_platform.Base.Patterns.{matches}
use soul_room_edge_platform.Agent.Ota.{
  Request, Request-discrete, Config, TextLibrary, validate_request, is_adapter_name,
}
use soul_room_edge_platform.Agent.Engine.{
  ok, Ports, Transaction, System, valid_phase, compatible_from_error,
}
use soul_room_edge_platform.Agent.Engine.Run.{
  fail_and_rollback, save, save_or_fail, confirm_and_commit, confirm_version, commit_update,
  version_error, health_check, health_loop,
}
use soul_room_edge_platform.Agent.Engine.Execute.{
  ensure_free_space, prepare, download, verify_signature, verify_update, install_update,
  activate_update, reboot_update, and_then, stages, finish, execute, fresh, load_or_create, resume,
  execute_loaded,
}
use soul_room_edge_platform.Agent.Engine.Earned.{is_ordered, is_finished}
use soul_room_edge_platform.Agent.Engine.Outcome.{
  Run, executions, untouched, AreChecked, executions-is_ordered, IsConfirmed, execute-IsConfirmed,
  execute-is_finished, execute-refused,
}

abbrev lib : TextLibrary
lib = record {
  to_lower = λ s. s;
  trim_space = λ s. s;
  equal_fold = λ s t. s == t;
  contains = λ s t. s == t;
  hex_decode = λ s. none;
  quote = λ s. s;
  fields = λ s. s ∷ [];
  decimal = λ n. "";
  goarch = "arm64";
}

abbrev cfg : Config
cfg = record {
  product = "";
  max_artifact_bytes = pos 0;
  auto_reboot = true;
  health_check_command = "check";
  min_free_bytes = 0;
}

abbrev ports : Ports
ports = record {
  unavailable = none;
  available = true;
  artifact_required = false;
  requires_reboot = false;
  current_version_of = λ calls. ok "2.0";
  statfs = λ calls. ok (1, 1);
  fetched = λ calls. ok "/tmp/artifact";
  verify_artifact_error = λ calls. none;
  verify_release_error = λ calls. none;
  check_error = λ calls. none;
  install_error = λ calls. none;
  activate_error = λ calls. none;
  commit_error = λ calls. none;
  rollback_error = λ calls. none;
  health_outcomes = λ calls. (some "not yet", none ∷ []);
  reboot_error = λ calls. none;
  boot_id = λ calls. "boot";
  now = λ calls. 0;
  load_error = none;
  save_error = λ phase calls. none;
}

abbrev request : String → Request
request version = record {
  update_id = "u1";
  adapter = "flatpak";
  version = version;
  product = "";
  architecture = "";
  artifact_url = "";
  artifact_size = pos 0;
  digest = "";
  signature = "";
  signing_key_id = "";
  compatible_from = none;
  flatpak_ref = "";
  flatpak_remote = "";
  flatpak_commit = "";
  repository_url = "";
  ostree_remote = "";
  ostree_ref = "";
  ostree_commit = "";
  ostree_os = "";
}

abbrev runs : List Run
runs =
    record { config = cfg; ports = ports; request = request "2.0" }
    ∷ record { config = cfg; ports = ports; request = request "2.0" }
    ∷ []

runs_checked : AreChecked lib true runs
unfolding string_dec
runs_checked = (refl, (refl, tt))

executions-is_ordered_example : is_ordered true (executions lib runs untouched).calls ≡ true
executions-is_ordered_example = executions-is_ordered lib true runs runs_checked

-- The update, once completed.
abbrev done : Transaction
done = record (fresh lib cfg ports (request "2.0")) { phase = "completed" }

abbrev settled : System
settled = record { file = some done; calls = [] }

finished-done : is_finished done.phase ≡ true
unfolding is_finished string_dec
finished-done = refl

execute-is_finished_example : (execute lib cfg ports (request "2.0") settled).1 ≡ settled
execute-is_finished_example =
    execute-is_finished lib cfg ports (request "2.0") done settled refl finished-done

versions_differ : ("2.0" == "3.0") ≡ false
unfolding string_dec
versions_differ = refl

other_release : ¬ (done.request ≡ request "3.0")
other_release e = ground (arith, versions_differ)

execute-refused_example :
    ((execute lib cfg ports (request "3.0") settled).1 ≡ settled)
    × ((execute lib cfg ports (request "3.0") settled).0.0.state ≡ "failed")
execute-refused_example =
    execute-refused lib cfg ports (request "3.0") done settled refl other_release

valid_request : validate_request lib cfg (request "2.0") ≡ none
unfolding validate_request is_adapter_name matches string_dec
valid_request = refl

completes : (execute lib cfg ports (request "2.0") untouched).0.1 ≡ none
unfolding execute validate_request is_adapter_name matches string_dec load_or_create save
    execute_loaded Request-discrete ℤ-discrete ℕ_discrete valid_phase resume stages and_then finish
    prepare download verify_signature verify_update install_update activate_update reboot_update
    save_or_fail confirm_and_commit confirm_version commit_update version_error health_check
    health_loop compatible_from_error ensure_free_space fail_and_rollback
completes = refl

execute-IsConfirmed_example :
    IsConfirmed true untouched (execute lib cfg ports (request "2.0") untouched).1
unfolding string_dec
execute-IsConfirmed_example = execute-IsConfirmed lib cfg ports (request "2.0") untouched completes
