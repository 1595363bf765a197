-- ===== src/Agent/JobTests.antt =====
-- Runs of the theorems of the job registry.
use soul_room_edge_platform.Base.{◌≡◌, refl, sym, false, none, [], ◌∷◌, string_dec}
use soul_room_edge_platform.Base.Int.{pos}
use soul_room_edge_platform.Base.Dict.{lookup}
use soul_room_edge_platform.Agent.Jobs.{
  Job, Result, Library, Handler, missing, Registry, Env, load_job_state, validate_job, execute_new,
  run_handler, execute,
}
use soul_room_edge_platform.Agent.Jobs.Once.{execute-execute}

abbrev result : Result
result = record {
  job_id = "j1";
  state = "succeeded";
  exit_code = pos 0;
  stdout = 1 ∷ [];
  stderr = [];
  error_class = "";
  started_at = 1;
  finished_at = 2;
  retryable = false;
}

abbrev lib : Library
lib = record {
  digest = λ bytes. "d";
  to_lower = λ text. text;
  encode = λ r. [];
  decode = λ bytes. result;
  utf8 = λ text. [];
}

abbrev handler : Handler
handler = record { validate = λ job. none; prepare = λ job. none; execute = λ job. result }

abbrev job : Job
job = record {
  id = "j1";
  tenant_id = "t1";
  device_id = "dev_1";
  job_type = "shell";
  created_at = 1;
  expires_at = 1000;
  attempt = pos 1;
  timeout_seconds = pos 60;
  payload_digest = "d";
  scopes = [];
  payload = [];
}

abbrev registry : Registry
registry = record { handlers = ("shell", handler) ∷ []; file = missing; runs = [] }

abbrev env : Env
env = record { now = λ i. 10; write_running = none; write_result = none }

job_result : (execute lib env job registry).0 ≡ result
unfolding execute execute_new run_handler validate_job load_job_state lookup string_dec
job_result = refl

job_succeeds : (execute lib env job registry).0.state ≡ "succeeded"
unfolding execute execute_new run_handler validate_job load_job_state lookup string_dec
job_succeeds = refl

job_valid : validate_job lib 10 job ≡ none
unfolding validate_job string_dec
job_valid = refl

execute-execute_example :
    execute lib env job (execute lib env job registry).1 ≡ execute lib env job registry
execute-execute_example =
    execute-execute lib env env job registry refl (sym job_result) job_succeeds job_valid
