-- ===== src/Agent/Jobs.antt =====
-- The registry of agent/internal/jobs/jobs.go, which runs the jobs that the control plane sends,
-- with the states of jobs that agent/internal/storage/store.go keeps in the file `jobs.json`.
pub mod Once
use soul_room_edge_platform.Base.{
  ℕ, suc, String, ◌<>◌, Bool, true, false, not, ◌&&◌, ◌||◌, Option, none, some, List, [], ◌∷◌, ◌==◌,
  ◌!=◌, if◌then◌else◌, ltb, eqb,
}
use soul_room_edge_platform.Base.Int.{ℤ, pos, ltb_ℤ}
use soul_room_edge_platform.Base.Lists.{length, take}
use soul_room_edge_platform.Base.Dict.{Dict, lookup, insert}

-- Texts that the code cuts at a byte, and raw JSON, are their bytes.
abbrev pub Bytes : Type 0
Bytes = List ℕ

pub record Job : Type 0 where
  pub id : String
  pub tenant_id : String
  pub device_id : String
  pub job_type : String
  pub created_at : ℕ
  pub expires_at : ℕ
  pub attempt : ℤ
  pub timeout_seconds : ℤ
  pub payload_digest : String
  pub scopes : List String
  pub payload : Bytes

pub record Result : Type 0 where
  pub job_id : String
  pub state : String
  pub exit_code : ℤ
  pub stdout : Bytes
  pub stderr : Bytes
  pub error_class : String
  pub started_at : ℕ
  pub finished_at : ℕ
  pub retryable : Bool

pub record JobState : Type 0 where
  pub job_id : String
  pub state : String
  pub result_json : Bytes
  pub updated_at : ℕ

-- What the registry calls: `digest` is the lower-case hexadecimal SHA-256 of some bytes and
-- `to_lower` that of `strings`; `encode` and `decode` are `json.Marshal` and `json.Unmarshal` of
-- a result, where `decode` gives what an error leaves; `utf8` is the bytes of a text.
pub record Library : Type 0 where
  pub digest : Bytes → String
  pub to_lower : String → String
  pub encode : Result → Bytes
  pub decode : Bytes → Result
  pub utf8 : String → Bytes

pub record Handler : Type 0 where
  pub validate : Job → Option String
  pub prepare : Job → Option String
  pub execute : Job → Result

-- What the file `jobs.json` holds. Of a file that cannot be read, or is no map of states, there is
-- the error and what `json.Unmarshal` has put in the map before it.
pub data StateFile : Type 0 where
  missing : StateFile
  unreadable : String → Dict JobState → StateFile
  states : Dict JobState → StateFile

-- `runs` are the ids of the jobs that a handler was asked to execute, the newest first.
pub record Registry : Type 0 where
  pub handlers : Dict Handler
  pub file : StateFile
  pub runs : List String

-- The successive readings of the clock, and for each of the two writes of the file what a failure
-- leaves there, if it fails.
pub record Env : Type 0 where
  pub now : ℕ → ℕ
  pub write_running : Option StateFile
  pub write_result : Option StateFile

-- `LoadJobState`: its error, or the state, if there is one.
unfoldable pub load_job_state : String → StateFile → Option String × Option JobState
load_job_state id missing = (none, none)
load_job_state id (unreadable e m) = (some e, none)
load_job_state id (states m) = (none, lookup id m)

-- The map that `SaveJobState` starts from, where it ignores the errors.
abbrev pub known_states : StateFile → Dict JobState
known_states missing = []
known_states (unreadable e m) = m
known_states (states m) = m

unfoldable pub save_job_state : Option StateFile → ℕ → JobState → StateFile → StateFile
save_job_state failure now st file = elim failure [
  | some left ↦ left
  | none ↦ states (insert st.job_id (record st { updated_at = now }) (known_states file))
]

unfoldable pub validate_job : Library → ℕ → Job → Option String
validate_job lib now job =
    if job.id == "" || job.tenant_id == "" || job.device_id == "" || job.job_type == ""
    then some "job missing required identity fields"
    else if not (eqb job.expires_at 0) && ltb job.expires_at now
    then some "job expired"
    else if ltb_ℤ job.attempt (pos 0)
    then some "invalid attempt"
    else if job.payload_digest != "" && lib.digest job.payload != lib.to_lower job.payload_digest
    then some "payload digest mismatch"
    else none

abbrev pub fail : Library → String → ℕ → ℕ → String → String → Result
fail lib job_id started finished class message = record {
  job_id = job_id;
  state = "failed";
  exit_code = pos 1;
  stdout = [];
  stderr = lib.utf8 message;
  error_class = class;
  started_at = started;
  finished_at = finished;
  retryable = false;
}

-- 64 KiB
abbrev pub limit : ℕ
limit = 65536

abbrev pub truncated : Bytes → Bytes
truncated bytes = if ltb limit (length bytes) then take limit bytes else bytes

-- The result of a handler, with what it left out filled in and the output cut.
abbrev pub completed : Env → Job → Result → Result
completed env job r = record r {
  job_id = if r.job_id == "" then job.id else r.job_id;
  started_at = if eqb r.started_at 0 then env.now 0 else r.started_at;
  finished_at = if eqb r.finished_at 0 then env.now 2 else r.finished_at;
  stdout = truncated r.stdout;
  stderr = truncated r.stderr;
}

module _ (lib : Library) where
  -- From the call of the handler's `Execute`, the state "running" being saved before it.
  unfoldable pub run_handler : Env → Handler → Job → Registry → Result × Registry
  run_handler env h job r =
      let running : JobState = record {
        job_id = job.id;
        state = "running";
        result_json = [];
        updated_at = 0;
      } in
      let file = save_job_state env.write_running (env.now 2) running r.file in
      let result = completed env job (h.execute job) in
      let done : JobState = record {
        job_id = job.id;
        state = result.state;
        result_json = lib.encode result;
        updated_at = 0;
      } in
      (
        result,
        record r {
          file = save_job_state env.write_result (env.now 3) done file;
          runs = job.id ∷ r.runs;
        },
      )

  -- A job without a recorded success.
  unfoldable pub execute_new : Env → Job → Registry → Result × Registry
  execute_new env job r =
      let failed : String → String → Result =
        λ class message. fail lib job.id (env.now 0) (env.now 2) class message in
      elim (lookup job.job_type r.handlers) [
        | none ↦ (failed "unsupported_type" ("unsupported job type " <> job.job_type), r)
        | some h ↦ elim (h.validate job) [
          | some e ↦ (failed "validation" e, r)
          | none ↦ elim (h.prepare job) [
            | some e ↦ (failed "prepare" e, r)
            | none ↦ run_handler env h job r
          ]
        ]
      ]

  -- The result of a recorded success.
  abbrev pub recorded : Option String × Option JobState → Option Result
  recorded (some e, st) = none
  recorded (none, none) = none
  recorded (none, some st) =
      if st.state == "succeeded" then some (lib.decode st.result_json) else none

  unfoldable pub execute : Env → Job → Registry → Result × Registry
  execute env job r = elim (validate_job lib (env.now 1) job) [
    | some e ↦ (fail lib job.id (env.now 0) (env.now 2) "validation" e, r)
    | none ↦ elim (recorded (load_job_state job.id r.file)) [
      | some previous ↦ (previous, r)
      | none ↦ execute_new env job r
    ]
  ]
