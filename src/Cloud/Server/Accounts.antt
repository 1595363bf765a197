-- ===== src/Cloud/Server/Accounts.antt =====
-- The handlers of sessions, users, organizations and enrollment tokens in
-- cloud-infra/internal/server/server.go, with `NewSession` of cloud-infra/internal/auth/session.go
-- and `NewToken` of cloud-infra/internal/enrollment/enrollment.go.
pub mod Login
use soul_room_edge_platform.Base.{
  ℕ, String, Bool, false, ◌&&◌, ◌||◌, not, Option, none, some, List, [], ◌∷◌, ◌==◌, ◌!=◌,
  if◌then◌else◌, ltb, eqb,
}
use soul_room_edge_platform.Base.Int.{ℤ, pos, scale, move}
use soul_room_edge_platform.Base.Lists.{length, any}
use soul_room_edge_platform.Base.Patterns.{byte_length}
use soul_room_edge_platform.Cloud.Model.{
  TenantContext, Organization, User, Session, EnrollmentToken,
}
use soul_room_edge_platform.Cloud.Rbac.{device_enroll, user_manage, role_permissions}
use soul_room_edge_platform.Cloud.Store.{duplicate, Store, Env, Reply, new_id}
use soul_room_edge_platform.Cloud.Store.Accounts.{
  find_user_by_email, save_session, memberships_of, create_tenant_user, list_users,
}
use soul_room_edge_platform.Cloud.Store.Organizations.{list_organizations}
use soul_room_edge_platform.Cloud.Store.Tokens.{create_enrollment_token, list_enrollment_tokens}
use soul_room_edge_platform.Cloud.Server.{
  Outcome, failure, success, Library, Request, fields, session_body, signed_in, organizations_body,
  tokens_body, token_body, users_body, user_body, Handled, Calls, write_json, error_json,
  method_not_allowed, error_text, guarded, with_body, record_event,
}
use soul_room_edge_platform.Cloud.Server.Settings.{Config, effective_platform_settings}

unfoldable pub logout : Request → Store → Handled
logout req s = if req.method != "POST" then method_not_allowed s else (
  record { status = 200; body = fields (("status", "signed_out") ∷ []); set_cookie = some "" },
  s,
)

-- `tc.Roles[0]`; behind `withAuth` there is a first role.
abbrev pub first_role : List String → String
first_role [] = ""
first_role (role ∷ roles) = role

unfoldable pub current_session : Request → TenantContext → Store → Handled
current_session req tc s =
    if req.method != "GET"
    then method_not_allowed s
    else write_json 200
        (session_body
          (record { tenant_id = tc.tenant_id; user_id = tc.actor_id; role = first_role tc.roles }))
        s

unfoldable pub organizations :
    ((Organization → Organization → Bool) → List Organization → List Organization)
    → Request
    → Store
    → Handled
organizations sort req s =
    if req.method != "GET"
    then method_not_allowed s
    else write_json 200 (organizations_body (list_organizations sort s)) s

pub record LoginRequest : Type 0 where
  pub email : String
  pub password : String

pub record UserRequest : Type 0 where
  pub email : String
  pub password : String
  pub role : String

pub record TokenRequest : Type 0 where
  pub profile_id : String
  pub ttl : String

-- A role that `RolePermissions` has.
abbrev pub is_role : String → Bool
is_role role = not (eqb (length (role_permissions role)) 0)

-- the test of the loop in `canAssignRole`
abbrev pub outranks : String → String → Bool
outranks role actor_role =
    actor_role == "platform_administrator"
    || actor_role == "organization_owner" && role != "platform_administrator"
    || actor_role == "organization_administrator"
      && role != "platform_administrator"
      && role != "organization_owner"

unfoldable pub can_assign_role : List String → String → Bool
can_assign_role actor_roles role = is_role role && any (outranks role) actor_roles

-- An hour and a minute in nanoseconds.
abbrev pub hour : ℕ
hour = 3600000000000

abbrev pub minute : ℕ
minute = 60000000000

module _ (lib : Library) where
  -- `auth.NewSession`, from what `randomToken` returns
  abbrev pub new_session : Env → String → ℤ → String → Session
  new_session env user_id ttl token = record {
    id = new_id "sess" (env.random 0);
    user_id = user_id;
    token_hash = lib.sha256_hex token;
    expires_at = move (env.now 1) ttl;
    revoked_at = 0;
    created_at = env.now 1;
  }

  -- the user with the password, if the account is not locked
  abbrev pub verified_user : Env → LoginRequest → Store → Option User
  verified_user env login s = elim (find_user_by_email env.order (lib.to_lower login.email) s).0 [
    | none ↦ none
    | some user ↦
        if not (lib.verify_password login.password user.password_hash)
          || ltb (env.now 0) user.locked_until
        then none
        else some user
  ]

  unfoldable pub sign_in : Config → Calls → Outcome String → User → Store → Handled
  sign_in cfg calls (failure message) user s =
      error_json 500 "session_error" "could not create session" s
  sign_in cfg calls (success token) user s =
      let session = new_session (calls 0) user.id cfg.session_ttl token in
      let (failed, saved) = save_session (calls 1) session s in
      elim failed [
        | some _ ↦ error_json 500 "session_error" "could not save session" saved
        | none ↦ (
          record {
            status = 200;
            body = signed_in session.expires_at (memberships_of user.id saved);
            set_cookie = some token;
          },
          saved,
        )
      ]

  -- `drawn` is what `randomToken(32)` returns.
  unfoldable pub login :
      Config → Calls → Request → Outcome LoginRequest → Outcome String → Store → Handled
  login cfg calls req body drawn s =
      if req.method != "POST"
      then method_not_allowed s
      else with_body body s (λ request. elim (verified_user (calls 0) request s) [
        | none ↦ error_json 401 "invalid_credentials" "invalid credentials" s
        | some user ↦ sign_in cfg calls drawn user s
      ])

  -- `enrollment.NewToken`, from what `randomToken` returns
  abbrev pub new_token : Env → String → ℤ → String → EnrollmentToken
  new_token env profile_id ttl plain = record {
    id = "";
    tenant_id = "";
    profile_id = profile_id;
    token_hash = lib.sha256_hex plain;
    plain_token = plain;
    expected_serial = "";
    expected_product = "";
    max_devices = pos 1;
    used_count = 0;
    expires_at = move (env.now 0) ttl;
    revoked_at = 0;
    created_by = "";
    created_at = 0;
  }

  -- the duration of a request, or the one of the settings
  abbrev pub requested_ttl : ℤ → String → ℤ
  requested_ttl by_default text =
      if text != ""
      then elim (lib.parse_duration text) [ some d ↦ d | none ↦ by_default ]
      else by_default

  unfoldable pub issue_token :
      Calls → TenantContext → TokenRequest → ℤ → Outcome String → Store → Handled
  issue_token calls tc request ttl (failure message) s = error_json 500 "token_error" message s
  issue_token calls tc request ttl (success plain) s =
      let reply =
        create_enrollment_token (calls 1) tc (new_token (calls 0) request.profile_id ttl plain) s in
      elim reply.error [
        | some e ↦ error_json 500 "token_error" (error_text e) reply.store
        | none ↦ elim reply.value [
          | none ↦ error_json 500 "token_error" "" reply.store
          | some token ↦ write_json 201 (token_body (record token { token_hash = "" })) (
              record_event lib (calls 2) tc "enrollment_token.created" "enrollment_token" token.id
                (some (("profile_id", request.profile_id) ∷ [])) reply.store)
        ]
      ]

  -- The error of `decode` is dropped: `request` is what it leaves.
  unfoldable pub enrollment_tokens :
      Config
      → ((EnrollmentToken → EnrollmentToken → Bool) → List EnrollmentToken → List EnrollmentToken)
      → Calls
      → Request
      → TokenRequest
      → Outcome String
      → TenantContext
      → Store
      → Handled
  enrollment_tokens cfg sort calls req request drawn tc s =
      if req.method == "GET"
      then write_json 200 (tokens_body (list_enrollment_tokens sort tc s)) s
      else if req.method != "POST"
      then method_not_allowed s
      else guarded tc device_enroll s (
          let settings = (effective_platform_settings cfg tc s).0 in
          let ttl = requested_ttl (scale settings.default_enrollment_ttl_hours hour) request.ttl in
          issue_token calls tc request ttl drawn s)

  -- the checks of a new user, with the answer to the first that fails
  unfoldable pub refuse_user : TenantContext → UserRequest → String → Option (ℕ × String × String)
  refuse_user tc request email =
      if not (elim (lib.parse_address email) [ none ↦ false | some address ↦ address == email ])
      then some (400, "invalid_email", "enter a valid email address")
      else if ltb (byte_length request.password) 12 || ltb 256 (byte_length request.password)
      then some (400, "invalid_password", "temporary password must contain 12 to 256 characters")
      else if not (can_assign_role tc.roles request.role)
      then some (403, "invalid_role", "you cannot assign this role")
      else none

  unfoldable pub finish_user : Env → TenantContext → UserRequest → Reply User → Handled
  finish_user env tc request reply = elim reply.error [
    | some duplicate ↦
        error_json 409 "user_exists" "a user with this email already exists" reply.store
    | some e ↦ error_json 500 "user_create_failed" (error_text e) reply.store
    | none ↦ elim reply.value [
      | none ↦ error_json 500 "user_create_failed" "" reply.store
      | some user ↦ write_json 201 (user_body user) (
          record_event lib env tc "user.created" "user" user.id (some (("role", request.role) ∷ []))
            reply.store)
    ]
  ]

  unfoldable pub add_user : Calls → TenantContext → UserRequest → Store → Handled
  add_user calls tc request s =
      let email = lib.to_lower (lib.trim_space request.email) in
      elim (refuse_user tc request email) [
        | some (status, code, message) ↦ error_json status code message s
        | none ↦ elim (lib.hash_password request.password) [
          | failure message ↦
              error_json 500 "password_hash_failed" "could not secure the temporary password" s
          | success hash ↦
              finish_user (calls 1) tc request
                (create_tenant_user (calls 0) tc email hash request.role s)
        ]
      ]

  unfoldable pub users :
      ((User → User → Bool) → List User → List User)
      → Calls
      → Request
      → Outcome UserRequest
      → TenantContext
      → Store
      → Handled
  users sort calls req body tc s =
      if req.method == "GET"
      then write_json 200 (users_body (list_users sort tc s)) s
      else if req.method != "POST"
      then method_not_allowed s
      else guarded tc user_manage s (with_body body s (λ request. add_user calls tc request s))
