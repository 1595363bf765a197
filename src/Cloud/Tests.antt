-- ===== src/Cloud/Tests.antt =====
-- A store of two tenants with one device each, on which the theorems of the store are run.
mod StoreRuns
mod Servers
mod ServerRuns
mod SettingRuns
mod GatewayRuns
mod AssistantRuns
use soul_room_edge_platform.Base.{
  ℕ, String, ◌≡◌, refl, Bool, true, false, Option, none, some, List, [], ◌∷◌,
}
use soul_room_edge_platform.Base.Int.{pos}
use soul_room_edge_platform.Base.Dict.{Dict}
use soul_room_edge_platform.Cloud.Model.{
  TenantContext, Device, Metric, Job, Campaign, EnrollmentToken, Time,
}
use soul_room_edge_platform.Cloud.Store.{StoreData, Store, Disk, Env}

abbrev pub tenant_context : String → TenantContext
tenant_context id = record { tenant_id = id; actor_id = "actor"; roles = []; scopes = [] }

abbrev pub device : String → String → Device
device id tenant = record {
  id = id;
  tenant_id = tenant;
  profile_id = "";
  parent_gateway_id = "";
  display_name = id;
  enrollment_status = "enrolled";
  certificate_subject = "";
  certificate_serial = "";
  certificate_expires_at = 0;
  last_seen_at = 0;
  presence = "online";
  agent_version = "";
  architecture = "arm64";
  os = "linux";
  kernel = "";
  hardware_model = "";
  serial = "";
  capabilities = [];
  tags = [];
  location = none;
  remote_access_id = "";
  software_state = "";
  update_state = "";
  health_state = "";
  created_at = 0;
}

abbrev pub job : String → String → String → String → Job
job id tenant device_id state = record {
  id = id;
  tenant_id = tenant;
  device_id = device_id;
  deployment_id = "ota_1";
  job_type = "ota.install";
  payload = "";
  payload_digest = "";
  created_by = "actor";
  created_at = 0;
  expires_at = 1000;
  timeout_seconds = pos 60;
  approval_status = "approved";
  attempt = 0;
  state = state;
  result = "";
  idempotency_key = "key";
}

abbrev pub campaign : Campaign
campaign = record {
  id = "ota_1";
  tenant_id = "t1";
  name = "";
  artifact_id = "";
  artifact_url = "";
  version = "2.0";
  product = "";
  architecture = "";
  digest = "";
  signature = "";
  signing_key_id = "";
  artifact_size = pos 0;
  compatible_from = [];
  adapter = "ostree";
  flatpak_ref = "";
  flatpak_remote = "";
  flatpak_commit = "";
  flatpak_repository_url = "";
  ostree_remote = "";
  ostree_ref = "";
  ostree_commit = "";
  ostree_os = "";
  target_ids = "dev_1" ∷ [];
  canary_percent = pos 100;
  created_by = "actor";
  state = "running";
  created_at = 0;
}

abbrev pub token : EnrollmentToken
token = record {
  id = "enr_1";
  tenant_id = "t1";
  profile_id = "";
  token_hash = "hash";
  plain_token = "";
  expected_serial = "";
  expected_product = "";
  max_devices = pos 2;
  used_count = 0;
  expires_at = 1000;
  revoked_at = 0;
  created_by = "actor";
  created_at = 0;
}

abbrev pub metric : String → Metric
metric device_id = record {
  device_id = device_id;
  name = "cpu";
  value = 0;
  unit = "";
  labels = [];
  device_time = 0;
  received_at = 0;
  message_id = "";
}

abbrev pub contents : StoreData
contents = record {
  organizations = [];
  users = [];
  memberships = [];
  sessions = [];
  enrollment_tokens = ("enr_1", token) ∷ [];
  devices = ("dev_1", device "dev_1" "t1") ∷ ("dev_2", device "dev_2" "t2") ∷ [];
  downstream = [];
  telemetry = metric "dev_1" ∷ [];
  inventory = ("dev_2", "{}") ∷ [];
  jobs =
      ("job_1", job "job_1" "t1" "dev_1" "queued")
      ∷ ("job_2", job "job_2" "t2" "dev_2" "failed")
      ∷ [];
  artifacts = [];
  ota_campaigns = ("ota_1", campaign) ∷ [];
  platform_settings = [];
  ai_configurations = [];
  audit = [];
}

abbrev pub store : Store
store = record { path = "store.json"; contents = contents; saved = none }

abbrev pub disk : Disk
disk = record { mkdir_all = none; marshal = none; write_file = none; rename = some "no space" }

-- An environment whose map iteration visits these keys.
abbrev pub env : List String → Env
env order = record { now = λ i. 100; random = λ i. "00"; disk = disk; order = order }
