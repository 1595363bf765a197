-- ===== src/Cloud/Tests/Servers.antt =====
-- A small server, on which the theorems of the HTTP API are run: a library of simple functions, and
-- a store of one tenant with an owner, a device, a campaign and an enrollment token.
use soul_room_edge_platform.Base.{
  ℕ, zero, suc, String, ◌<>◌, true, false, none, some, [], ◌∷◌, ◌==◌,
}
use soul_room_edge_platform.Base.Int.{pos}
use soul_room_edge_platform.Cloud.Model.{User, Membership, Session, Campaign}
use soul_room_edge_platform.Cloud.Store.{Store, Disk}
use soul_room_edge_platform.Cloud.Server.{success, Library, Request, Calls}
use soul_room_edge_platform.Cloud.Server.Settings.{Config}
use soul_room_edge_platform.Cloud.Server.Assistant.{Approval, Cipher}
use soul_room_edge_platform.Cloud.Server.Control.{Server, Reads}
use soul_room_edge_platform.Cloud.Server.Protocol.{Envelope, Sample, EnrollmentRequest}
use soul_room_edge_platform.Cloud.Server.Enrollment.{Authority}
use soul_room_edge_platform.Cloud.Tests.{contents, device, campaign}

abbrev pub library : Library
library = record {
  to_lower = λ s. s;
  trim_space = λ s. s;
  trim_right_slash = λ s. s;
  to_valid_utf8 = λ s. s;
  byte_prefix = λ n s. s;
  byte_suffix = λ n s. s;
  is_prohibited_ip = λ s. false;
  has_suffix = λ s t. true;
  equal_fold = λ s t. s == t;
  parse_duration = λ s. none;
  parse_url = λ s. none;
  parse_address = λ s. some s;
  hex_decode = λ s. none;
  base64_std = λ s. none;
  base64_raw = λ s. none;
  sha256_hex = λ s. s;
  itoa = λ n. "22";
  marshal_texts = λ m. "{}";
  marshal_payload = λ m. success "{}";
  hash_password = λ s. success s;
  verify_password = λ password hash. password == hash;
}

abbrev pub config : Config
config = record {
  http_addr = "127.0.0.1:8080";
  device_addr = "127.0.0.1:8443";
  store_path = "control-plane.json";
  dev_ca_dir = "ca";
  organization_slug = "local";
  admin_email = "a@b";
  admin_password = "secret";
  signup_enabled = false;
  max_payload_bytes = pos 1024;
  ai_secret_key_path = "key";
  ai_request_timeout = pos 100;
  ai_requests_per_minute = pos 30;
  device_public_host = "localhost";
  organization_name = "Soul Room";
  company_domain = "";
  device_offline_minutes = pos 5;
  default_telemetry_window = "1h";
  default_ota_pilot_percent = pos 10;
  default_enrollment_ttl_hours = pos 24;
  default_job_ttl_minutes = pos 60;
  shell_hub_url = "";
  shell_hub_managed = false;
  shell_hub_ssh_port = pos 22;
  session_ttl = pos 500;
  certificate_ttl = pos 1000;
}

abbrev pub owner : User
owner = record {
  id = "u1";
  email = "a@b";
  role = "";
  password_hash = "secret";
  activated_at = 0;
  mfa_enabled = false;
  locked_until = 0;
  failed_login_count = 0;
  created_at = 0;
}

abbrev pub session : Session
session = record {
  id = "sess_1";
  user_id = "u1";
  token_hash = "tok";
  expires_at = 1000;
  revoked_at = 0;
  created_at = 0;
}

abbrev pub member : Membership
member = record { tenant_id = "t1"; user_id = "u1"; role = "organization_owner" }

-- A campaign for a Flatpak, whose pilot group is complete.
abbrev pub flatpak : Campaign
flatpak = record campaign {
  name = "update";
  adapter = "flatpak";
  flatpak_ref = "org.demo.App";
  flatpak_remote = "flathub";
  canary_percent = pos 50;
  state = "canary_complete";
}

abbrev pub store : Store
store = record {
  path = "";
  contents = record contents {
    users = ("u1", owner) ∷ [];
    memberships = member ∷ [];
    sessions = ("tok", session) ∷ [];
    devices = ("dev_1", device "dev_1" "t1") ∷ [];
    jobs = [];
    ota_campaigns = ("ota_1", flatpak) ∷ [];
  };
  saved = none;
}

abbrev pub disk : Disk
disk = record { mkdir_all = none; marshal = none; write_file = none; rename = none }

-- Texts of different lengths.
abbrev pub marks : ℕ → String
marks zero = String.[]
marks (suc n) = "x" <> marks n

abbrev pub calls : Calls
calls i = record { now = λ j. 100; random = λ j. marks i; disk = disk; order = "u1" ∷ "enr_1" ∷ [] }

abbrev pub request : Request
request = record {
  method = "DELETE";
  host = "localhost";
  authorization = "";
  session_cookie = some "tok";
  tenant_header = "";
  device_header = "dev_1";
  idempotency_key = "";
  query = λ name. "dev_1";
}

abbrev pub approval : Approval
approval = record {
  tenant_id = "t1";
  actor_id = "u1";
  device_id = "dev_1";
  job_type = "collect_logs";
  nonce = "n";
  expires_at = 500;
}

-- Every text opens as the approval.
abbrev pub box : Cipher
box = record {
  init_error = none;
  seal_text = λ random text purpose. success text;
  open_text = λ text purpose. success text;
  marshal_approval = λ a. success "sealed";
  unmarshal_approval = λ text. success approval;
}

abbrev pub server : Server
server = record {
  lib = library;
  config = config;
  cipher = box;
  certificate = none;
  sort = λ A less xs. xs;
}

abbrev pub reads : Reads
reads = record { now = 100; queueing = calls; calls = calls }

abbrev pub envelope : Envelope
envelope = record {
  protocol_version = "fleet.v1";
  message_id = "m1";
  correlation_id = "";
  tenant_id = "t1";
  device_id = "dev_1";
  gateway_id = "";
  sequence = 0;
  timestamp_unix_nano = pos 5;
  legacy_created_unix_nano = pos 0;
  payload_schema_version = "";
  payload_digest = "{}";
  payload = "{}";
}

-- The same calls at the time of the envelope.
abbrev pub later_calls : Calls
later_calls i = record (calls i) { now = λ j. 62135596800000000005 }

abbrev pub sample : Sample
sample = record { name = "cpu"; value = 0; unit = ""; labels = []; time_unix_nano = pos 0 }

abbrev pub authority : Authority
authority = record {
  cert_pem = "ca";
  issue_device_certificate =
      λ key id ttl. success (record { pem = "pem"; serial = "01"; expires_at = 1000 });
}

abbrev pub enrollment : EnrollmentRequest
enrollment = record {
  token = "hash";
  enrollment_token = "";
  public_key_pem = "key";
  requested_name = "gate";
  fingerprint = record {
    hostname = "host";
    machine_id_hash = "";
    serial = "7";
    product = "box";
    architecture = "arm64";
    os = "linux";
    kernel = "6";
  };
  inventory = "";
}
