-- ===== src/Cloud/Server.antt =====
-- The requests and answers of cloud-infra/internal/server/server.go, its authentication, and what
-- its handlers share. A handler takes the request, its decoded body, what its calls of the store
-- read of the clock, the random generator and the disk (`Calls`: the `i`th call reads `calls i`),
-- and the store; it returns the answer and the new store. The headers that are the same for every
-- answer are left out.
pub mod Settings
pub mod Accounts
pub mod Fleet
pub mod Work
pub mod Metadata
pub mod Rollout
pub mod Protocol
pub mod Enrollment
pub mod Devices
pub mod Access
pub mod Control
pub mod Policy
pub mod Pilot
pub mod Gateway
pub mod Assistant
use soul_room_edge_platform.Base.{
  ℕ, String, ◌<>◌, Bool, true, false, ◌||◌, Option, none, some, List, [], ◌∷◌, ◌==◌, ◌!=◌,
  if◌then◌else◌,
}
use soul_room_edge_platform.Base.Int.{ℤ}
use soul_room_edge_platform.Base.Dict.{Dict}
use soul_room_edge_platform.Base.Patterns.{strip_prefix}
use soul_room_edge_platform.Cloud.Model.{
  TenantContext, Time, Json, AiConfiguration, Organization, PlatformSettings, User, Membership,
  EnrollmentToken, Device, DownstreamDevice, Metric, Job, Artifact, AuditEvent, Campaign, Session,
}
use soul_room_edge_platform.Cloud.Rbac.{Permission, authorize}
use soul_room_edge_platform.Cloud.Store.{
  StoreError, not_found, tenant_mismatch, duplicate, quota_exceeded, not_terminal, io, Store, Env,
  or_default,
}
use soul_room_edge_platform.Cloud.Store.Accounts.{session_by_token, memberships_of}
use soul_room_edge_platform.Cloud.Store.Campaigns.{record_audit}

-- What a function returns that returns a value or an error, with the text of the error.
pub data Outcome {ℓ} (A : Type ℓ) : Type ℓ where
  failure : String → Outcome A
  success : A → Outcome A

-- What the code reads of a `url.URL`.
pub record Url : Type 0 where
  pub scheme : String
  pub host : String
  pub hostname : String
  pub path : String
  pub has_user : Bool
  pub raw_query : String
  pub fragment : String

-- A value of the map that `queueOTAJobs` marshals.
pub data PayloadValue : Type 0 where
  text : String → PayloadValue
  number : ℤ → PayloadValue
  texts : List String → PayloadValue

-- The functions of Go's library that the code calls. `none` is an error; `parse_address` is the
-- field `Address` of the result of `mail.ParseAddress`; `sha256_hex` the digest in hexadecimal;
-- `byte_prefix n s` is `s[:n]`, `byte_suffix n s` is `s[len(s)-n:]`; `is_prohibited_ip` tells whether
-- a host is the text of an address that `blockedIP` names; `hash_password` and `verify_password` the interface `PasswordHasher`.
pub record Library : Type 0 where
  pub to_lower : String → String
  pub trim_space : String → String
  pub trim_right_slash : String → String
  pub to_valid_utf8 : String → String
  pub byte_prefix : ℕ → String → String
  pub byte_suffix : ℕ → String → String
  pub is_prohibited_ip : String → Bool
  pub has_suffix : String → String → Bool
  pub equal_fold : String → String → Bool
  pub parse_duration : String → Option ℤ
  pub parse_url : String → Option Url
  pub parse_address : String → Option String
  pub hex_decode : String → Option (List ℕ)
  pub base64_std : String → Option (List ℕ)
  pub base64_raw : String → Option (List ℕ)
  pub sha256_hex : String → String
  pub itoa : ℤ → String
  pub marshal_texts : Option (Dict String) → Json
  pub marshal_payload : Dict PayloadValue → Outcome Json
  pub hash_password : String → Outcome String
  pub verify_password : String → String → Bool

-- What the handlers read of an `http.Request`; a missing header or parameter is "".
pub record Request : Type 0 where
  pub method : String
  pub host : String
  pub authorization : String
  pub session_cookie : Option String
  pub tenant_header : String
  pub device_header : String
  pub idempotency_key : String
  pub query : String → String

-- The payload of an answer; a `map[string]string` is `fields`.
pub data Body : Type 0 where
  rejected : String → String → Body
  fields : Dict String → Body
  session_body : Membership → Body
  signed_in : Time → List Membership → Body
  platform_body : Dict String → Bool → Bool → ℤ → Body
  settings_body : PlatformSettings → String → Bool → Body
  organizations_body : List Organization → Body
  tokens_body : List EnrollmentToken → Body
  token_body : EnrollmentToken → Body
  downstream_body : List DownstreamDevice → Body
  inventory_body : Dict Json → Body
  devices_body : List Device → Body
  device_body : Device → Body
  campaigns_body : List Campaign → Body
  campaign_body : Campaign → Body
  metrics_body : List Metric → Body
  jobs_body : List Job → Body
  job_body queued_body : Job → Body
  next_job_body : Option Job → Body
  users_body : List User → Body
  user_body : User → Body
  artifacts_body : List Artifact → Body
  audit_body : List AuditEvent → Body
  accepted_body : ℕ → String → Body
  pem_body : String → Body
  ai_body : AiConfiguration → Bool → Bool → Body

-- `set_cookie` is the value of the session cookie that the answer sets, if it does.
pub record Response : Type 0 where
  pub status : ℕ
  pub body : Body
  pub set_cookie : Option String

abbrev pub Handled : Type 0
Handled = Response × Store

abbrev pub Calls : Type 0
Calls = ℕ → Env

-- `writeJSON` and `errorJSON`, at the end of a handler
abbrev pub write_json : ℕ → Body → Store → Handled
write_json status body s = (record { status = status; body = body; set_cookie = none }, s)

abbrev pub error_json : ℕ → String → String → Store → Handled
error_json status code message s = write_json status (rejected code message) s

abbrev pub method_not_allowed : Store → Handled
method_not_allowed s = error_json 405 "method_not_allowed" "method not allowed" s

abbrev pub bad_request : String → Store → Handled
bad_request message s = error_json 400 "bad_request" message s

-- `err.Error()` for an error of the store
abbrev pub error_text : StoreError → String
error_text not_found = "not found"
error_text tenant_mismatch = "tenant mismatch"
error_text duplicate = "duplicate"
error_text quota_exceeded = "quota exceeded"
error_text not_terminal = "only terminal jobs can be removed from history"
error_text (io message) = message

abbrev pub bool_string : Bool → String
bool_string true = "true"
bool_string false = "false"

-- `rbac.Authorize(r.Context(), p)` behind `withAuth`, with the answer that every handler gives
abbrev pub guarded : TenantContext → Permission → Store → Handled → Handled
guarded tc p s allowed = elim (authorize (some tc) p) [
  | some _ ↦ error_json 403 "forbidden" "permission denied" s
  | none ↦ allowed
]

-- `decode(…)`, with the answer that most handlers give to an error
abbrev pub with_body {ℓ} : {A : Type ℓ} → Outcome A → Store → (A → Handled) → Handled
with_body (failure message) s next = bad_request message s
with_body (success value) s next = next value

unfoldable pub bearer : String → String
bearer header = elim (strip_prefix "Bearer " header) [ some token ↦ token | none ↦ "" ]

-- the token of a request: the one of its header, or else the one of its cookie
abbrev pub request_token : Request → String
request_token req =
    if bearer req.authorization == ""
    then elim req.session_cookie [ some value ↦ value | none ↦ "" ]
    else bearer req.authorization

-- the loop of `withAuth`: the tenant, and the roles in it
unfoldable pub select_roles : String → List Membership → String × List String
select_roles tenant [] = (tenant, [])
select_roles tenant (m ∷ ms) =
    let chosen = or_default tenant m.tenant_id in
    let (final, roles) = select_roles chosen ms in
    (final, if m.tenant_id == chosen then m.role ∷ roles else roles)

-- `tenantID == "" || len(roles) == 0`, or the context of the request
abbrev pub member_context : String → String × List String → Option TenantContext
member_context actor (tenant, []) = none
member_context actor (tenant, role ∷ roles) =
    if tenant == ""
    then none
    else some (record { tenant_id = tenant; actor_id = actor; roles = role ∷ roles; scopes = [] })

module _ (lib : Library) where
  unfoldable pub with_auth : Time → Request → Store → (TenantContext → Store → Handled) → Handled
  with_auth now req s next = elim (session_by_token lib.sha256_hex now (request_token req) s).0 [
    | none ↦ error_json 401 "unauthorized" "authentication required" s
    | some session ↦
        elim (member_context session.user_id
          (select_roles req.tenant_header (memberships_of session.user_id s))) [
            | none ↦ error_json 403 "forbidden" "tenant membership required" s
            | some tc ↦ next tc s
          ]
  ]

  -- `audit.Record`, which drops the error of `Audit`
  unfoldable pub record_event :
      Env → TenantContext → String → String → String → Option (Dict String) → Store → Store
  record_event env tc action resource_type resource_id summary s =
      (record_audit env
        (record {
          id = "";
          tenant_id = tc.tenant_id;
          actor_id = tc.actor_id;
          action = action;
          resource_type = resource_type;
          resource_id = resource_id;
          result = "success";
          source_ip = "";
          user_agent = "";
          correlation_id = "";
          summary = lib.marshal_texts summary;
          created_at = 0;
        })
        s).1
