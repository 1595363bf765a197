-- ===== src/Cloud/Model.antt =====
-- cloud-infra/internal/model/model.go, cloud-infra/internal/tenancy/tenancy.go,
-- cloud-infra/internal/auth/session.go and the campaign record of
-- cloud-infra/internal/ota/ota.go.
-- A `time.Time` is the number of nanoseconds since Go's zero time, so that 0 is the zero time and
-- no time before it is represented. Raw JSON is its text. A `float64` is its bit pattern: these
-- values are stored and never computed with. An `int` or `int64` that the code compares with a
-- bound is a ℤ; one that only counts up is a 64-bit pattern.
use soul_room_edge_platform.Base.{ℕ, String, Bool, Option, List}
use soul_room_edge_platform.Base.Dict.{Dict}
use soul_room_edge_platform.Base.Int.{ℤ}

abbrev pub Time : Type 0
Time = ℕ

abbrev pub Json : Type 0
Json = String

abbrev pub Float64 : Type 0
Float64 = ℕ

-- `tenancy.Context`
pub record TenantContext : Type 0 where
  pub tenant_id : String
  pub actor_id : String
  pub roles : List String
  pub scopes : List String

pub record Organization : Type 0 where
  pub id : String
  pub name : String
  pub slug : String
  pub created_at : Time

pub record PlatformSettings : Type 0 where
  pub organization_name : String
  pub company_domain : String
  pub shell_hub_url : String
  pub shell_hub_ssh_port : ℤ
  pub device_offline_minutes : ℤ
  pub default_telemetry_window : String
  pub default_ota_pilot_percent : ℤ
  pub default_enrollment_ttl_hours : ℤ
  pub default_job_ttl_minutes : ℤ
  pub updated_by : String
  pub updated_at : Time

pub record AiConfiguration : Type 0 where
  pub provider : String
  pub base_url : String
  pub model : String
  pub api_key_ciphertext : String
  pub key_hint : String
  pub enabled : Bool
  pub updated_by : String
  pub updated_at : Time

pub record User : Type 0 where
  pub id : String
  pub email : String
  pub role : String
  pub password_hash : String
  pub activated_at : Time
  pub mfa_enabled : Bool
  pub locked_until : Time
  pub failed_login_count : ℕ
  pub created_at : Time

pub record Membership : Type 0 where
  pub tenant_id : String
  pub user_id : String
  pub role : String

-- `auth.Session`
pub record Session : Type 0 where
  pub id : String
  pub user_id : String
  pub token_hash : String
  pub expires_at : Time
  pub revoked_at : Time
  pub created_at : Time

pub record EnrollmentToken : Type 0 where
  pub id : String
  pub tenant_id : String
  pub profile_id : String
  pub token_hash : String
  pub plain_token : String
  pub expected_serial : String
  pub expected_product : String
  pub max_devices : ℤ
  pub used_count : ℕ
  pub expires_at : Time
  pub revoked_at : Time
  pub created_by : String
  pub created_at : Time

pub record DeviceLocation : Type 0 where
  pub latitude : Float64
  pub longitude : Float64
  pub accuracy_m : Float64
  pub source : String
  pub label : String
  pub updated_at : Time

pub record Device : Type 0 where
  pub id : String
  pub tenant_id : String
  pub profile_id : String
  pub parent_gateway_id : String
  pub display_name : String
  pub enrollment_status : String
  pub certificate_subject : String
  pub certificate_serial : String
  pub certificate_expires_at : Time
  pub last_seen_at : Time
  pub presence : String
  pub agent_version : String
  pub architecture : String
  pub os : String
  pub kernel : String
  pub hardware_model : String
  pub serial : String
  pub capabilities : List String
  pub tags : List String
  pub location : Option DeviceLocation
  pub remote_access_id : String
  pub software_state : Json
  pub update_state : String
  pub health_state : String
  pub created_at : Time

pub record DownstreamDevice : Type 0 where
  pub id : String
  pub tenant_id : String
  pub parent_gateway_id : String
  pub connector_type : String
  pub protocol_address : String
  pub model : String
  pub serial : String
  pub firmware_version : String
  pub last_seen_at : Time
  pub health : String
  pub capabilities : List String
  pub approved_commands : List String

pub record Metric : Type 0 where
  pub device_id : String
  pub name : String
  pub value : Float64
  pub unit : String
  pub labels : Dict String
  pub device_time : Time
  pub received_at : Time
  pub message_id : String

pub record Job : Type 0 where
  pub id : String
  pub tenant_id : String
  pub device_id : String
  pub deployment_id : String
  pub job_type : String
  pub payload : Json
  pub payload_digest : String
  pub created_by : String
  pub created_at : Time
  pub expires_at : Time
  pub timeout_seconds : ℤ
  pub approval_status : String
  pub attempt : ℕ
  pub state : String
  pub result : Json
  pub idempotency_key : String

pub record Artifact : Type 0 where
  pub id : String
  pub tenant_id : String
  pub name : String
  pub version : String
  pub object_key : String
  pub digest : String
  pub signature : String
  pub content_type : String
  pub size_bytes : ℤ
  pub created_at : Time

pub record AuditEvent : Type 0 where
  pub id : String
  pub tenant_id : String
  pub actor_id : String
  pub action : String
  pub resource_type : String
  pub resource_id : String
  pub result : String
  pub source_ip : String
  pub user_agent : String
  pub correlation_id : String
  pub summary : Json
  pub created_at : Time

-- `ota.Campaign`
pub record Campaign : Type 0 where
  pub id : String
  pub tenant_id : String
  pub name : String
  pub artifact_id : String
  pub artifact_url : String
  pub version : String
  pub product : String
  pub architecture : String
  pub digest : String
  pub signature : String
  pub signing_key_id : String
  pub artifact_size : ℤ
  pub compatible_from : List String
  pub adapter : String
  pub flatpak_ref : String
  pub flatpak_remote : String
  pub flatpak_commit : String
  pub flatpak_repository_url : String
  pub ostree_remote : String
  pub ostree_ref : String
  pub ostree_commit : String
  pub ostree_os : String
  pub target_ids : List String
  pub canary_percent : ℤ
  pub created_by : String
  pub state : String
  pub created_at : Time
