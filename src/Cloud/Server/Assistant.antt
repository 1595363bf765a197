-- ===== src/Cloud/Server/Assistant.antt =====
-- The actions that the assistant proposes and an operator approves, in
-- cloud-infra/internal/server/assistant.go, with `SealJSON` and `OpenJSON` of
-- cloud-infra/internal/assistant/assistant.go. The cipher is a parameter.
pub mod Approved
use soul_room_edge_platform.Base.{
  ℕ, suc, ◌+◌, ◌*◌, String, ◌<>◌, Bool, true, false, ◌&&◌, ◌||◌, not, Option, none, some, List, [],
  ◌∷◌, ◌++◌, ◌==◌, ◌!=◌, if◌then◌else◌, ltb, leb,
}
use soul_room_edge_platform.Base.Int.{scale}
use soul_room_edge_platform.Base.Dict.{Dict, lookup}
use soul_room_edge_platform.Base.Lists.{any, filter}
use soul_room_edge_platform.Base.Patterns.{byte_length}
use soul_room_edge_platform.Cloud.Model.{TenantContext, Time, Json, Device, Job}
use soul_room_edge_platform.Cloud.Rbac.{
  Permission, device_command, device_reboot, device_enroll, deployment_create, profile_manage,
  user_manage, audit_read, remote_create, tenant_settings, ai_use, authorize,
}
use soul_room_edge_platform.Cloud.Store.{StoreError, Store, Env, Reply, new_id, is_after}
use soul_room_edge_platform.Cloud.Store.Devices.{get_device}
use soul_room_edge_platform.Cloud.Store.Jobs.{create_job}
use soul_room_edge_platform.Cloud.Server.{
  Outcome, failure, success, Library, Request, Body, queued_body, Response, Handled, Calls,
  write_json, error_json, method_not_allowed, error_text, guarded, with_body, record_event,
}
use soul_room_edge_platform.Cloud.Server.Settings.{Config, effective_platform_settings}
use soul_room_edge_platform.Cloud.Server.Accounts.{minute}
use soul_room_edge_platform.Cloud.Server.Work.{new_job}
use soul_room_edge_platform.Cloud.Server.Rollout.{contains_string}

-- `aiActionApproval`
pub record Approval : Type 0 where
  pub tenant_id : String
  pub actor_id : String
  pub device_id : String
  pub job_type : String
  pub nonce : String
  pub expires_at : Time

pub record ProposedAction : Type 0 where
  pub kind : String
  pub title : String
  pub rationale : String
  pub risk : String
  pub device_id : String
  pub job_type : String
  pub page : String

-- `aiActionView`
pub record ActionView : Type 0 where
  pub id : String
  pub kind : String
  pub title : String
  pub rationale : String
  pub risk : String
  pub device_id : String
  pub device_name : String
  pub job_type : String
  pub page : String
  pub approval_token : String

-- The `secretBox` of the service, if it could be loaded, else the error; `seal` takes the random
-- nonce, the text and its purpose. The JSON of an approval is a parameter with them.
pub record Cipher : Type 0 where
  pub init_error : Option String
  pub seal_text : String → String → String → Outcome String
  pub open_text : String → String → Outcome String
  pub marshal_approval : Approval → Outcome String
  pub unmarshal_approval : String → Outcome Approval

module _ (box : Cipher) where
  unfoldable pub seal : String → String → String → Outcome String
  seal random plain_text purpose = elim box.init_error [
    | some e ↦ failure e
    | none ↦ box.seal_text random plain_text purpose
  ]

  unfoldable pub open_sealed : String → String → Outcome String
  open_sealed cipher_text purpose = elim box.init_error [
    | some e ↦ failure e
    | none ↦ box.open_text cipher_text purpose
  ]

  unfoldable pub seal_json : String → Approval → String → Outcome String
  seal_json random approval purpose = elim (box.marshal_approval approval) [
    | failure e ↦ failure e
    | success payload ↦ seal random payload purpose
  ]

  unfoldable pub open_json : String → String → Outcome Approval
  open_json cipher_text purpose = elim (open_sealed cipher_text purpose) [
    | failure e ↦ failure e
    | success payload ↦ box.unmarshal_approval payload
  ]

unfoldable pub ai_job_permission : String → Option Permission
ai_job_permission job_type =
    if job_type == "collect_diagnostics"
      || job_type == "collect_logs"
      || job_type == "collect_inventory"
      || job_type == "scan_vulnerabilities"
    then some device_command
    else if job_type == "reboot"
    then some device_reboot
    else none

abbrev pub has_device_capability : Device → String → Bool
has_device_capability d expected = contains_string d.capabilities expected

unfoldable pub device_supports_ai_job : Device → String → Bool
device_supports_ai_job d job_type =
    if has_device_capability d ("job:" <> job_type)
    then true
    else if job_type == "scan_vulnerabilities"
    then has_device_capability d "security:trivy"
    else if job_type == "reboot"
    then false
    else has_device_capability d "jobs"

unfoldable pub ai_device_actions : Device → List String
ai_device_actions d = filter (device_supports_ai_job d) (
    "collect_diagnostics" ∷ "collect_logs" ∷ "collect_inventory" ∷ "scan_vulnerabilities" ∷ "reboot"
    ∷ [])

-- The permission that a page asks for, in the map `permissions`.
unfoldable pub page_permissions : Dict Permission
page_permissions =
    ("remote", remote_create)
    ∷ ("ota", deployment_create)
    ∷ ("profiles", profile_manage)
    ∷ ("enrollment", device_enroll)
    ∷ ("audit", audit_read)
    ∷ ("users", user_manage)
    ∷ ("onprem", tenant_settings)
    ∷ []

unfoldable pub allowed_pages : List String
allowed_pages =
    "overview" ∷ "devices" ∷ "gateways" ∷ "telemetry" ∷ "inventory" ∷ "map" ∷ "jobs" ∷ "remote"
    ∷ "deployments" ∷ "ota" ∷ "alerts" ∷ "profiles" ∷ "applications" ∷ "artifacts" ∷ "enrollment"
    ∷ "audit" ∷ "users" ∷ "health" ∷ "onprem" ∷ []

abbrev pub may : TenantContext → Permission → Bool
may tc p = elim (authorize (some tc) p) [ none ↦ true | some _ ↦ false ]

unfoldable pub ai_page_allowed : TenantContext → String → Bool
ai_page_allowed tc page =
    if not (contains_string allowed_pages page)
    then false
    else elim (lookup page page_permissions) [ none ↦ true | some p ↦ may tc p ]

-- `!allowed || Authorize(…) != nil`, turned round
abbrev pub may_run : TenantContext → String → Bool
may_run tc job_type = elim (ai_job_permission job_type) [ none ↦ false | some p ↦ may tc p ]

-- the device of an action, if the tenant has it and it supports the job
abbrev pub target_device : TenantContext → String → String → Store → Option Device
target_device tc device_id job_type s = elim (get_device tc device_id s).0 [
  | none ↦ none
  | some d ↦ if device_supports_ai_job d job_type then some d else none
]

module _ (lib : Library) where
  unfoldable pub bounded_server_text : String → ℕ → String
  bounded_server_text value limit =
      let v = lib.trim_space (lib.to_valid_utf8 value) in
      if leb (byte_length v) limit then v else lib.byte_prefix limit v

  unfoldable pub action_title : String → String → String
  action_title value fallback =
      let v = bounded_server_text value 120 in if v == "" then fallback else v

  abbrev pub approval_for : Env → TenantContext → Device → String → Approval
  approval_for env tc d job_type = record {
    tenant_id = tc.tenant_id;
    actor_id = tc.actor_id;
    device_id = d.id;
    job_type = job_type;
    nonce = new_id "nonce" (env.random 0);
    expires_at = env.now 0 + 10 * minute;
  }

  module _ (box : Cipher) (tc : TenantContext) where
    -- `replaced` is what `strings.ReplaceAll` makes of the underscores of the type.
    abbrev pub job_view : (String → String) → Env → ProposedAction → Device → String → ActionView
    job_view replaced env proposal d token = record {
      id = new_id "aia" (env.random 2);
      kind = "device_job";
      title = action_title proposal.title (replaced proposal.job_type);
      rationale = bounded_server_text proposal.rationale 320;
      risk = if proposal.job_type == "reboot" then "high" else "low";
      device_id = d.id;
      device_name = d.display_name;
      job_type = proposal.job_type;
      page = "";
      approval_token = token;
    }

    -- the case `device_job` of the loop
    unfoldable pub prepare_job :
        (String → String) → Env → ProposedAction → Store → Option ActionView
    prepare_job replaced env proposal s =
        if not (may_run tc proposal.job_type)
        then none
        else elim (target_device tc proposal.device_id proposal.job_type s) [
          | none ↦ none
          | some d ↦
              elim (seal_json box (env.random 1) (approval_for env tc d proposal.job_type)
                "ai-action") [
                  | failure message ↦ none
                  | success token ↦ some (job_view replaced env proposal d token)
                ]
        ]

    -- one turn of the loop
    unfoldable pub prepare_action :
        (String → String) → Env → ProposedAction → Store → Option ActionView
    prepare_action replaced env proposal s =
        if proposal.kind == "navigate"
        then (if ai_page_allowed tc proposal.page
            then some (record {
              id = new_id "aia" (env.random 2);
              kind = "navigate";
              title = action_title proposal.title ("Open " <> proposal.page);
              rationale = bounded_server_text proposal.rationale 320;
              risk = "informational";
              device_id = "";
              device_name = "";
              job_type = "";
              page = proposal.page;
              approval_token = "";
            })
            else none)
        else if proposal.kind == "device_job"
        then prepare_job replaced env proposal s
        else none

    -- The turn `i` makes the call `i`.
    unfoldable pub prepare_ai_actions :
        (String → String) → Calls → ℕ → List ProposedAction → Store → List ActionView
    prepare_ai_actions replaced calls i [] s = []
    prepare_ai_actions replaced calls i (proposal ∷ rest) s =
        let views = prepare_ai_actions replaced calls (suc i) rest s in
        elim (prepare_action replaced (calls i) proposal s) [
          | none ↦ views
          | some view ↦ view ∷ views
        ]

    -- `finish`: the job of an approved action is stored
    unfoldable pub finish_action : Env → Reply Job → Handled
    finish_action env reply = elim reply.error [
      | some e ↦ error_json 400 "job_error" (error_text e) reply.store
      | none ↦ elim reply.value [
        | none ↦ error_json 400 "job_error" "" reply.store
        | some job ↦ write_json 201 (queued_body job) (
            record_event lib env tc "ai.action.approved" "job" job.id
              (some (("device_id", job.device_id) ∷ ("type", job.job_type) ∷ [])) reply.store)
      ]
    ]

    -- the key that makes an approval count once
    abbrev pub approval_key : String → String
    approval_key token = "ai:" <> lib.sha256_hex token

    unfoldable pub run_approved : Config → Calls → String → Approval → Store → Handled
    run_approved cfg calls token approval s =
        let minutes = (effective_platform_settings cfg tc s).0.default_job_ttl_minutes in
        let payload =
          lib.marshal_texts
            (some (("requested_from", "ai_assistant") ∷ ("approved_by", tc.actor_id) ∷ [])) in
        elim (new_job lib ((calls 0).now 1) approval.device_id approval.job_type payload tc.actor_id
          (scale minutes minute)) [
            | failure message ↦ error_json 400 "bad_job" message s
            | success job ↦
                finish_action (calls 2)
                  (create_job (calls 1) tc (record job { idempotency_key = approval_key token }) s)
          ]

    -- the checks of an approval, with the answer to the first that fails
    unfoldable pub refuse_approval : Time → Approval → Store → Option (ℕ × String × String)
    refuse_approval now approval s =
        if approval.tenant_id != tc.tenant_id
          || approval.actor_id != tc.actor_id
          || is_after now approval.expires_at
        then some (
          403, "invalid_ai_action", "the action approval is expired or belongs to another session",
        )
        else if not (may_run tc approval.job_type)
        then some (403, "forbidden", "this account cannot run the proposed action")
        else elim (get_device tc approval.device_id s).0 [
          | none ↦ some (404, "device_not_found", "the target device is no longer available")
          | some d ↦
              if not (device_supports_ai_job d approval.job_type)
              then some (
                409, "device_action_unavailable",
                "the device does not report support for this action",
              )
              else none
        ]

    unfoldable pub approve : Config → Calls → String → Store → Handled
    approve cfg calls token s = elim (open_json box token "ai-action") [
      | failure message ↦
          error_json 400 "invalid_ai_action" "the action approval is invalid or has been changed" s
      | success approval ↦ elim (refuse_approval ((calls 0).now 0) approval s) [
        | some (status, code, message) ↦ error_json status code message s
        | none ↦ run_approved cfg calls token approval s
      ]
    ]

    -- The body is the field `approval_token`.
    unfoldable pub ai_action : Config → Calls → Request → Outcome String → Store → Handled
    ai_action cfg calls req body s =
        if req.method != "POST"
        then method_not_allowed s
        else guarded tc ai_use s (with_body body s (λ token. approve cfg calls token s))
