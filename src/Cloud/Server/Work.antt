-- ===== src/Cloud/Server/Work.antt =====
-- cloud-infra/internal/jobs/jobs.go and the job handler of cloud-infra/internal/server/server.go.
use soul_room_edge_platform.Base.{
  String, Bool, not, none, some, List, [], ◌∷◌, ◌==◌, ◌!=◌, if◌then◌else◌,
}
use soul_room_edge_platform.Base.Int.{ℤ, pos, scale, move, leb_ℤ}
use soul_room_edge_platform.Base.Lists.{any}
use soul_room_edge_platform.Cloud.Model.{TenantContext, Time, Json, Job}
use soul_room_edge_platform.Cloud.Rbac.{device_command, job_delete}
use soul_room_edge_platform.Cloud.Store.{Store, Env, Reply}
use soul_room_edge_platform.Cloud.Store.Jobs.{create_job, list_jobs, delete_job}
use soul_room_edge_platform.Cloud.Server.{
  Outcome, failure, success, Library, Request, fields, jobs_body, job_body, Handled, Calls,
  write_json, error_json, method_not_allowed, bad_request, error_text, guarded, with_body,
  record_event,
}
use soul_room_edge_platform.Cloud.Server.Settings.{Config, effective_platform_settings}
use soul_room_edge_platform.Cloud.Server.Accounts.{minute, requested_ttl}

unfoldable pub allowed_types : List String
allowed_types =
    "reboot" ∷ "restart_service" ∷ "collect_diagnostics" ∷ "collect_logs" ∷ "collect_inventory"
    ∷ "scan_vulnerabilities" ∷ "deploy_file" ∷ "apply_configuration" ∷ "container_action"
    ∷ "compose_application_deployment" ∷ "ota_stage" ∷ "ota_activate" ∷ "flatpak_update"
    ∷ "ota_update" ∷ "downstream_connector_command" ∷ []

pub record JobRequest : Type 0 where
  pub device_id : String
  pub job_type : String
  pub payload : Json
  pub ttl : String

module _ (lib : Library) where
  -- `jobs.New`; `now` is its reading of the clock.
  unfoldable pub new_job : Time → String → String → Json → String → ℤ → Outcome Job
  new_job now device_id job_type payload created_by ttl =
      if not (any (λ allowed. allowed == job_type) allowed_types)
      then failure "unsupported job type"
      else if leb_ℤ ttl (pos 0)
      then failure "job ttl must be positive"
      else success (record {
        id = "";
        tenant_id = "";
        device_id = device_id;
        deployment_id = "";
        job_type = job_type;
        payload = payload;
        payload_digest = lib.sha256_hex payload;
        created_by = created_by;
        created_at = 0;
        expires_at = move now ttl;
        timeout_seconds = pos 600;
        approval_status = "approved";
        attempt = 0;
        state = "queued";
        result = "";
        idempotency_key = "";
      })

  unfoldable pub remove_job : Calls → Request → TenantContext → Store → Handled
  remove_job calls req tc s =
      let job_id = lib.trim_space (req.query "job_id") in
      if job_id == ""
      then bad_request "job_id is required" s
      else (let (failed, removed) = delete_job (calls 0) tc job_id s in
          elim failed [
            | some e ↦ error_json 409 "job_delete_failed" (error_text e) removed
            | none ↦
                write_json 200 (fields (("status", "removed") ∷ ("job_id", job_id) ∷ []))
                  (record_event lib (calls 1) tc "job.history_removed" "job" job_id none removed)
          ])

  -- An operation without an error has a value.
  abbrev pub finish_job : Env → TenantContext → Reply Job → Handled
  finish_job env tc reply = elim reply.error [
    | some e ↦ error_json 400 "job_error" (error_text e) reply.store
    | none ↦ elim reply.value [
      | none ↦ error_json 400 "job_error" "" reply.store
      | some job ↦ write_json 201 (job_body job) (
          record_event lib env tc "device_job.queued" "job" job.id
            (some (("device_id", job.device_id) ∷ ("type", job.job_type) ∷ [])) reply.store)
    ]
  ]

  unfoldable pub queue_job : Config → Calls → Request → JobRequest → TenantContext → Store → Handled
  queue_job cfg calls req request tc s =
      let minutes = (effective_platform_settings cfg tc s).0.default_job_ttl_minutes in
      let ttl = requested_ttl lib (scale minutes minute) request.ttl in
      elim (new_job ((calls 0).now 0) request.device_id request.job_type request.payload tc.actor_id
        ttl) [
          | failure message ↦ error_json 400 "bad_job" message s
          | success job ↦
              finish_job (calls 2) tc
                (create_job (calls 1) tc (record job { idempotency_key = req.idempotency_key }) s)
        ]

  unfoldable pub jobs :
      Config
      → ((Job → Job → Bool) → List Job → List Job)
      → Calls
      → Request
      → Outcome JobRequest
      → TenantContext
      → Store
      → Handled
  jobs cfg sort calls req body tc s =
      if req.method == "GET"
      then write_json 200 (jobs_body (list_jobs sort tc s)) s
      else if req.method == "DELETE"
      then guarded tc job_delete s (remove_job calls req tc s)
      else if req.method != "POST"
      then method_not_allowed s
      else guarded tc device_command s
          (with_body body s (λ request. queue_job cfg calls req request tc s))
