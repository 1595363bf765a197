-- ===== src/Cloud/Server/Protocol.antt =====
-- The messages of devices: cloud-infra/internal/protocol/envelope.go, and `Normalize` of
-- cloud-infra/internal/telemetry/telemetry.go.
use soul_room_edge_platform.Base.{
  ℕ, ◌+◌, ◌-◌, String, Bool, ◌&&◌, ◌||◌, not, Option, none, some, List, [], ◌∷◌, ◌==◌, ◌!=◌,
  if◌then◌else◌, ltb,
}
use soul_room_edge_platform.Base.Int.{ℤ, pos, eqb_ℤ, move}
use soul_room_edge_platform.Base.Dict.{Dict}
use soul_room_edge_platform.Base.Lists.{length}
use soul_room_edge_platform.Cloud.Model.{Time, Json, Float64, Metric}
use soul_room_edge_platform.Cloud.Server.{Outcome, failure, success, Library}

pub record Envelope : Type 0 where
  pub protocol_version : String
  pub message_id : String
  pub correlation_id : String
  pub tenant_id : String
  pub device_id : String
  pub gateway_id : String
  pub sequence : ℕ
  pub timestamp_unix_nano : ℤ
  pub legacy_created_unix_nano : ℤ
  pub payload_schema_version : String
  pub payload_digest : String
  pub payload : Json

pub record DeviceFingerprint : Type 0 where
  pub hostname : String
  pub machine_id_hash : String
  pub serial : String
  pub product : String
  pub architecture : String
  pub os : String
  pub kernel : String

pub record EnrollmentRequest : Type 0 where
  pub token : String
  pub enrollment_token : String
  pub public_key_pem : String
  pub requested_name : String
  pub fingerprint : DeviceFingerprint
  pub inventory : Json

pub record EnrollmentResponse : Type 0 where
  pub tenant_id : String
  pub device_id : String
  pub client_certificate_pem : String
  pub ca_certificate_pem : String
  pub server_endpoint : String

pub record Location : Type 0 where
  pub latitude : Float64
  pub longitude : Float64
  pub accuracy_m : Float64
  pub source : String
  pub label : String

pub record Heartbeat : Type 0 where
  pub agent_version : String
  pub health : String
  pub os_uptime_seconds : ℤ
  pub agent_uptime_seconds : ℤ
  pub uptime_seconds : ℤ
  pub location : Option Location

-- `protocol.Metric`
pub record Sample : Type 0 where
  pub name : String
  pub value : Float64
  pub unit : String
  pub labels : Dict String
  pub time_unix_nano : ℤ

-- `time.Unix(0, n)`: the epoch is 62135596800 seconds after Go's zero time.
unfoldable pub unix_time : ℤ → Time
unix_time n = move 62135596800000000000 n

-- The time that an envelope carries.
abbrev pub stamp : Envelope → Time
stamp e = unix_time (
    if eqb_ℤ e.timestamp_unix_nano (pos 0)
    then e.legacy_created_unix_nano
    else e.timestamp_unix_nano)

-- The text of the error of `Validate`, if there is one. Only a positive skew is ever passed.
unfoldable pub validate_envelope : Library → Time → ℕ → Envelope → Option String
validate_envelope lib now skew e =
    if e.protocol_version != "fleet.v1" && e.protocol_version != "edge.v1"
    then some "unsupported protocol version"
    else if e.message_id == ""
    then some "missing message_id"
    else if ltb (now + skew) (stamp e) || ltb (stamp e) (now - skew)
    then some "timestamp outside allowed skew"
    else if e.payload_digest != "" && lib.sha256_hex e.payload != e.payload_digest
    then some "payload digest mismatch"
    else none

-- `Wrap`, from the marshalled payload, the message id and the clock
unfoldable pub wrap : Library → String → ℤ → String → String → String → ℕ → Json → Envelope
wrap lib message_id created tenant_id device_id schema sequence raw = record {
  protocol_version = "fleet.v1";
  message_id = message_id;
  correlation_id = "";
  tenant_id = tenant_id;
  device_id = device_id;
  gateway_id = "";
  sequence = sequence;
  timestamp_unix_nano = created;
  legacy_created_unix_nano = pos 0;
  payload_schema_version = schema;
  payload_digest = lib.sha256_hex raw;
  payload = raw;
}

abbrev pub is_valid_sample : Sample → Bool
is_valid_sample m = m.name != "" && not (ltb 12 (length m.labels))

-- the metric of a sample; `device_now` and `received` are the two readings of the clock
abbrev pub normalized : String → String → Time → Time → Sample → Metric
normalized device_id message_id device_now received m = record {
  device_id = device_id;
  name = m.name;
  value = m.value;
  unit = m.unit;
  labels = m.labels;
  device_time = if eqb_ℤ m.time_unix_nano (pos 0) then device_now else unix_time m.time_unix_nano;
  received_at = received;
  message_id = message_id;
}

-- the loop of `Normalize`; each turn reads the clock twice
unfoldable pub normalize_samples :
    (ℕ → Time) → ℕ → String → String → List Sample → Option (List Metric)
normalize_samples now i device_id message_id [] = some []
normalize_samples now i device_id message_id (m ∷ ms) =
    let rest = normalize_samples now (i + 2) device_id message_id ms in
    if is_valid_sample m
    then elim rest [
      | none ↦ none
      | some metrics ↦ some (normalized device_id message_id (now i) (now (i + 1)) m ∷ metrics)
    ]
    else none

unfoldable pub normalize : (ℕ → Time) → String → String → List Sample → Outcome (List Metric)
normalize now device_id message_id samples =
    if ltb 5000 (length samples)
    then failure "telemetry batch too large"
    else elim (normalize_samples now 0 device_id message_id samples) [
      | none ↦ failure "invalid metric"
      | some metrics ↦ success metrics
    ]
