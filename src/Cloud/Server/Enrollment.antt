-- ===== src/Cloud/Server/Enrollment.antt =====
-- `Service.Enroll` of cloud-infra/internal/enrollment/enrollment.go and the handler `deviceEnroll`.
-- The certificate authority is a parameter: it returns the certificate, its serial number and its
-- expiry, or an error.
pub mod Admission
use soul_room_edge_platform.Base.{String, ◌<>◌, none, some, [], ◌∷◌, ◌==◌, ◌!=◌, if◌then◌else◌}
use soul_room_edge_platform.Base.Int.{ℤ}
use soul_room_edge_platform.Cloud.Model.{TenantContext, Time, Device, EnrollmentToken}
use soul_room_edge_platform.Cloud.Store.{Store, or_default}
use soul_room_edge_platform.Cloud.Store.Tokens.{consume_enrollment_token}
use soul_room_edge_platform.Cloud.Store.Devices.{create_device, update_device, save_inventory}
use soul_room_edge_platform.Cloud.Server.{
  Outcome, failure, success, Library, Request, Body, fields, Handled, Calls, write_json, error_json,
  method_not_allowed, error_text, with_body, record_event,
}
use soul_room_edge_platform.Cloud.Server.Settings.{Config}
use soul_room_edge_platform.Cloud.Server.Protocol.{EnrollmentRequest, EnrollmentResponse}

pub record Certificate : Type 0 where
  pub pem : String
  pub serial : String
  pub expires_at : Time

-- `certificates.Authority`
pub record Authority : Type 0 where
  pub cert_pem : String
  pub issue_device_certificate : String → String → ℤ → Outcome Certificate

abbrev pub first : String → String → String → String
first a b c = or_default a (or_default b c)

abbrev pub context_of : String → TenantContext
context_of tenant = record { tenant_id = tenant; actor_id = ""; roles = []; scopes = [] }

-- the device of a request, for the tenant of its token
unfoldable pub enrolled_device : Time → EnrollmentToken → EnrollmentRequest → Device
enrolled_device now token req = record {
  id = "";
  tenant_id = token.tenant_id;
  profile_id = token.profile_id;
  parent_gateway_id = "";
  display_name = first req.requested_name req.fingerprint.hostname "edge-device";
  enrollment_status = "enrolled";
  certificate_subject = "";
  certificate_serial = "";
  certificate_expires_at = 0;
  last_seen_at = now;
  presence = "recently_seen";
  agent_version = "";
  architecture = req.fingerprint.architecture;
  os = req.fingerprint.os;
  kernel = req.fingerprint.kernel;
  hardware_model = req.fingerprint.product;
  serial = req.fingerprint.serial;
  capabilities = "telemetry" ∷ "inventory" ∷ "jobs" ∷ [];
  tags = [];
  location = none;
  remote_access_id = "";
  software_state = "";
  update_state = "idle";
  health_state = "unknown";
  created_at = 0;
}

-- What `Enroll` returns: the response or the text of the error, and the store.
abbrev pub Enrolled : Type 0
Enrolled = Outcome EnrollmentResponse × Store

module _ (lib : Library) (ca : Authority) (certificate_ttl : ℤ) (server_endpoint : String)
    (calls : Calls) where
  -- the last steps, for a device of the tenant with its certificate
  unfoldable pub certify : EnrollmentRequest → String → Device → Certificate → Store → Enrolled
  certify req tenant device certificate s =
      let certified = record device {
        certificate_serial = certificate.serial;
        certificate_subject = device.id;
        certificate_expires_at = certificate.expires_at;
      } in
      let (failed, updated) = update_device (calls 2) certified s in
      elim failed [
        | some e ↦ (failure (error_text e), updated)
        | none ↦ (
          success (record {
            tenant_id = tenant;
            device_id = device.id;
            client_certificate_pem = certificate.pem;
            ca_certificate_pem = ca.cert_pem;
            server_endpoint = server_endpoint;
          }),
          if req.inventory == ""
              then updated
              else (save_inventory (calls 3) (context_of tenant) device.id req.inventory updated).1,
        )
      ]

  -- the steps behind the use of the token
  unfoldable pub admit : EnrollmentRequest → EnrollmentToken → Store → Enrolled
  admit req token s =
      let reply = create_device (calls 1) (enrolled_device ((calls 0).now 1) token req) s in
      elim reply.error [
        | some e ↦ (failure (error_text e), reply.store)
        | none ↦ elim reply.value [
          | none ↦ (failure "", reply.store)
          | some device ↦
              elim (ca.issue_device_certificate req.public_key_pem device.id certificate_ttl) [
                | failure message ↦ (failure message, reply.store)
                | success certificate ↦ certify req token.tenant_id device certificate reply.store
              ]
        ]
      ]

  unfoldable pub enroll : EnrollmentRequest → Store → Enrolled
  enroll req s =
      let token = or_default req.token req.enrollment_token in
      if token == ""
      then (failure "enrollment token is required", s)
      else (let reply =
            consume_enrollment_token (calls 0) (lib.sha256_hex token) req.fingerprint.serial
              req.fingerprint.product s in
          elim reply.error [
            | some e ↦ (failure (error_text e), reply.store)
            | none ↦ elim reply.value [
              | none ↦ (failure "", reply.store)
              | some enr ↦ admit req enr reply.store
            ]
          ])

module _ (lib : Library) (ca : Authority) (cfg : Config) (calls : Calls) where
  abbrev pub enrollment_body : EnrollmentResponse → Body
  enrollment_body res = fields (
      ("tenant_id", res.tenant_id)
      ∷ ("device_id", res.device_id)
      ∷ ("client_certificate_pem", res.client_certificate_pem)
      ∷ ("ca_certificate_pem", res.ca_certificate_pem)
      ∷ ("server_endpoint", res.server_endpoint)
      ∷ [])

  unfoldable pub finish_enrollment : EnrollmentRequest → Enrolled → Handled
  finish_enrollment request (failure message, s) = error_json 403 "enrollment_rejected" message s
  finish_enrollment request (success res, s) = write_json 200 (enrollment_body res) (
      record_event lib (calls 4) (context_of res.tenant_id) "device.enrolled" "device" res.device_id
        (some (("name", request.requested_name) ∷ [])) s)

  unfoldable pub device_enroll : Request → Outcome EnrollmentRequest → Store → Handled
  device_enroll req body s =
      if req.method != "POST"
      then method_not_allowed s
      else with_body body s (λ request.
        finish_enrollment request
          (enroll lib ca cfg.certificate_ttl ("https://" <> req.host) calls request s))
