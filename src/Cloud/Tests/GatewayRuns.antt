-- ===== src/Cloud/Tests/GatewayRuns.antt =====
-- Runs of the theorems of the device gateway, of enrollment and of login.
use soul_room_edge_platform.Base.{
  ◌+◌, ◌≤◌, String, ◌≡◌, ◌⊎◌, refl, false, none, some, List, [], ◌∷◌, arith, differ, string_dec,
}
use soul_room_edge_platform.Base.Int.{pos, eqb_ℤ, move}
use soul_room_edge_platform.Base.Dict.{lookup, insert}
use soul_room_edge_platform.Base.Patterns.{strip_prefix}
use soul_room_edge_platform.Cloud.Model.{
  TenantContext, User, Session, Device, EnrollmentToken, Json,
}
use soul_room_edge_platform.Cloud.Store.{save_locked, new_id}
use soul_room_edge_platform.Cloud.Store.Accounts.{
  find_by_email, find_user_by_email, save_session, session_by_token,
}
use soul_room_edge_platform.Cloud.Store.Tokens.{find_token, consume_enrollment_token}
use soul_room_edge_platform.Cloud.Store.Devices.{create_device, update_device}
use soul_room_edge_platform.Cloud.Server.{Outcome, success, Handled, Request, bearer, request_token}
use soul_room_edge_platform.Cloud.Server.Accounts.{LoginRequest, verified_user, login, sign_in}
use soul_room_edge_platform.Cloud.Server.Accounts.Login.{login-session_by_token}
use soul_room_edge_platform.Cloud.Server.Protocol.{
  Envelope, Sample, EnrollmentResponse, unix_time, validate_envelope, wrap,
}
use soul_room_edge_platform.Cloud.Server.Enrollment.{
  Certificate, context_of, enroll, admit, certify, enrolled_device,
}
use soul_room_edge_platform.Cloud.Server.Enrollment.Admission.{IsConsumed, IsAdmitted, enroll_lem}
use soul_room_edge_platform.Cloud.Server.Devices.{with_envelope, accepted, device_telemetry}
use soul_room_edge_platform.Cloud.Server.Gateway.{
  IsTrusted, with_envelope_lem, validate_envelope-wrap,
}
use soul_room_edge_platform.Cloud.Server.Gateway.Batches.{IsWhole, device_telemetry-IsWhole}
use soul_room_edge_platform.Cloud.Tests.Servers.{
  library, config, store, calls, later_calls, request, envelope, sample, authority, enrollment,
}

-- A handler behind the check of the envelope: it accepts.
abbrev accepting : Envelope → TenantContext → Handled
accepting e tc = accepted e store

with_envelope_example :
    ((with_envelope library later_calls (success envelope) store accepting).1 ≡ store)
      × (((with_envelope library later_calls (success envelope) store accepting).0.status ≡ 400)
          ⊎ ((with_envelope library later_calls (success envelope) store accepting).0.status ≡ 401))
    ⊎ ((e : Envelope) × (d : Device) × (success envelope ≡ success e)
        × IsTrusted library 62135596800000000005 store e d
        × (with_envelope library later_calls (success envelope) store accepting
            ≡ accepting e (context_of e.tenant_id)))
with_envelope_example = with_envelope_lem library later_calls (success envelope) store accepting

message_named : ¬ Path String "m1" ""
unfolding string_dec
message_named = differ _ _ refl

wrapped_at : (eqb_ℤ (pos 5) (pos 0) ≡ false) × (unix_time (pos 5) ≡ 62135596800000000005)
unfolding eqb_ℤ unix_time move
wrapped_at = (refl, refl)

in_time :
    (unix_time (pos 5) ≤ 62135596800000000005 + 10)
    × (62135596800000000005 ≤ unix_time (pos 5) + 10)
in_time = rw wrapped_at.1 (omega arith, omega arith)

validate_envelope-wrap_example :
    validate_envelope library 62135596800000000005 10
      (wrap library "m1" (pos 5) "t1" "dev_1" "" 0 "{}")
    ≡ none
validate_envelope-wrap_example =
    validate_envelope-wrap library "m1" "t1" "dev_1" "" (pos 5) 0 "{}" 62135596800000000005 10
      message_named wrapped_at.0 in_time.0 in_time.1

abbrev samples_of : Json → Outcome (List Sample)
samples_of payload = success (sample ∷ [])

abbrev batch_answer : Handled
batch_answer = device_telemetry library later_calls samples_of (success envelope) store

device_telemetry-IsWhole_example :
    ((batch_answer.1 ≡ store) × ((batch_answer.0.status ≡ 400) ⊎ (batch_answer.0.status ≡ 401)))
    ⊎ ((e : Envelope) × (d : Device) × (samples : List Sample) × (success envelope ≡ success e)
        × IsTrusted library 62135596800000000005 store e d
        × (samples_of e.payload ≡ success samples)
        × IsWhole e.device_id e.message_id samples store.contents.telemetry
            batch_answer.1.contents.telemetry)
device_telemetry-IsWhole_example =
    device_telemetry-IsWhole library later_calls samples_of (success envelope) store

abbrev post : Request
post = record request { method = "POST"; session_cookie = some "new" }

abbrev credentials : LoginRequest
credentials = record { email = "a@b"; password = "secret" }

abbrev login_answer : Handled
login_answer = login library config calls post (success credentials) (success "new") store

logged_in :
    (login_answer.0.status ≡ 200)
    × (bearer post.authorization ≡ "")
    × (post.session_cookie ≡ login_answer.0.set_cookie)
unfolding login sign_in find_user_by_email find_by_email lookup save_session save_locked bearer
    strip_prefix string_dec
logged_in = (refl, refl, refl)

still_valid : 500 ≤ move 100 (pos 500)
unfolding move
still_valid = omega arith

login-session_by_token_example :
    (credentials' : LoginRequest) × (user : User) × (session : Session) × (success credentials
      ≡ success credentials')
    × (verified_user library (calls 0) credentials' store ≡ some user)
    × (session.user_id ≡ user.id)
    × ((session_by_token library.sha256_hex 500 (request_token post) login_answer.1).0
        ≡ some session)
login-session_by_token_example =
    login-session_by_token library config calls post (success credentials) (success "new") store 500
      post logged_in.0 logged_in.1 logged_in.2 still_valid

abbrev response : EnrollmentResponse
response = record {
  tenant_id = "t1";
  device_id = "dev_x";
  client_certificate_pem = "pem";
  ca_certificate_pem = "ca";
  server_endpoint = "https://edge";
}

enrolled :
    (enroll library authority (pos 1000) "https://edge" calls enrollment store).0 ≡ success response
unfolding enroll consume_enrollment_token find_token lookup insert save_locked admit enrolled_device
    create_device new_id certify update_device string_dec
enrolled = refl

enroll_example :
    let s' = (enroll library authority (pos 1000) "https://edge" calls enrollment store).1 in
    (id : String) × (t : EnrollmentToken) × (d : Device) × (certificate : Certificate) × IsConsumed
      100 "hash" "7" "box" store s' id t
    × IsAdmitted library authority
        (pos 1000)
        "https://edge"
        calls
        enrollment
        t.tenant_id
        response
        s'.contents.devices
        d
        certificate
unfolding string_dec
enroll_example =
    enroll_lem library authority (pos 1000) "https://edge" calls enrollment store response enrolled
