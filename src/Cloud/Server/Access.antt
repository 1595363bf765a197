-- ===== src/Cloud/Server/Access.antt =====
-- Who gets past `withAuth` of cloud-infra/internal/server/server.go, and which roles a user may
-- give to another.
use soul_room_edge_platform.Base.{
  String, ◌≡◌, ◌≢◌, ◌⊎◌, inl, inr, refl, sym, ap, subst, Bool, true, false, not, ◌||◌, none, some,
  List, [], ◌∷◌, ◌==◌, map, arith, Bool-cases, Option-cases, string_dec,
}
use soul_room_edge_platform.Base.Lists.{filter, any, All, All-filter}
use soul_room_edge_platform.Base.Dict.{lookup}
use soul_room_edge_platform.Cloud.Model.{TenantContext, Time, Membership, Session}
use soul_room_edge_platform.Cloud.Rbac.{
  Permission, device_read, device_enroll, device_update, device_delete, device_command, job_delete,
  device_reboot, telemetry_read, deployment_create, deployment_approve, deployment_cancel,
  artifact_upload, profile_manage, user_manage, audit_read, remote_create, tenant_settings, ai_use,
  role_permissions, role_grants, permission_text,
}
use soul_room_edge_platform.Cloud.Rbac.Roles.{is_operational, role_operational}
use soul_room_edge_platform.Cloud.Store.{Store, is_after, is_zero}
use soul_room_edge_platform.Cloud.Store.Accounts.{session_by_token, memberships_of}
use soul_room_edge_platform.Cloud.Server.{
  Library, Request, Handled, error_json, request_token, select_roles, member_context, with_auth,
}
use soul_room_edge_platform.Cloud.Server.Accounts.{is_role, outranks, can_assign_role}

-- A membership that names its tenant.
abbrev pub NamesTenant : Membership → Type 0
NamesTenant m = m.tenant_id ≢ ""

abbrev pub roles_within : String → List Membership → List String
roles_within tenant ms = map (λ m. m.role) (filter (λ m. m.tenant_id == tenant) ms)

select_roles_named :
    (tenant : String) (ms : List Membership)
    → tenant ≢ ""
    → select_roles tenant ms ≡ (tenant, roles_within tenant ms)
unfolding select_roles
select_roles_named tenant [] ne = refl
select_roles_named tenant (m ∷ ms) ne = ground (arith, select_roles_named tenant ms ne)

-- The session of the request is stored, not revoked, and has not expired.
pub record IsSignedIn (lib : Library) (now : Time) (req : Request) (s : Store) (session : Session)
    : Type 0 where
  pub found : lookup (lib.sha256_hex (request_token req)) s.contents.sessions ≡ some session
  pub current : session.revoked_at ≡ 0
  pub unexpired : is_after now session.expires_at ≡ false

-- The context names the user and a tenant, the one of the request if it has one, and holds all
-- roles of the user in that tenant, at least one.
pub record IsContext (req : Request) (s : Store) (user : String) (tc : TenantContext) : Type 0 where
  pub actor : tc.actor_id ≡ user
  pub named : tc.tenant_id ≢ ""
  pub asked : (req.tenant_header ≡ "") ⊎ (tc.tenant_id ≡ req.tenant_header)
  pub roles : tc.roles ≡ roles_within tc.tenant_id (memberships_of user s)
  pub some_role : tc.roles ≢ []
  pub no_scope : tc.scopes ≡ []

-- The context that a choice of the tenant gives, where the choice is right.
member_context_of :
    (req : Request) (s : Store) (user tenant : String)
    → tenant ≢ ""
    → (req.tenant_header ≡ "") ⊎ (tenant ≡ req.tenant_header)
    → (roles : List String) → roles ≡ roles_within tenant (memberships_of user s)
    → (member_context user (tenant, roles) ≡ none)
      ⊎ ((tc : TenantContext) × (member_context user (tenant, roles) ≡ some tc)
          × IsContext req s user tc)
member_context_of req s user tenant ne asked [] e = inl refl
member_context_of req s user tenant ne asked (role ∷ roles) e =
    let tc : TenantContext = record {
      tenant_id = tenant;
      actor_id = user;
      roles = role ∷ roles;
      scopes = [];
    } in
    inr (
      tc,
      ground arith,
      record {
        actor = refl;
        named = ne;
        asked = asked;
        roles = e;
        some_role = λ p. ground arith;
        no_scope = refl;
      },
    )

select_roles_first :
    (m : Membership) (ms : List Membership)
    → m.tenant_id ≢ ""
    → select_roles "" (m ∷ ms) ≡ (m.tenant_id, roles_within m.tenant_id (m ∷ ms))
unfolding select_roles
select_roles_first m ms ne = ground (arith, select_roles_named m.tenant_id ms ne)

-- The outcomes of the choice that starts with a tenant, of which "" is none.
abbrev ContextCases : Request → Store → String → List Membership → String → Type 0
ContextCases req s user ms tenant =
    (member_context user (select_roles tenant ms) ≡ none)
    ⊎ ((tc : TenantContext) × (member_context user (select_roles tenant ms) ≡ some tc)
        × IsContext req s user tc)

context_unasked :
    (req : Request) (s : Store) (user : String) (ms : List Membership)
    → req.tenant_header ≡ ""
    → ms ≡ memberships_of user s
    → All NamesTenant ms
    → ContextCases req s user ms ""
unfolding select_roles
context_unasked req s user [] empty e named = inl refl
context_unasked req s user (m ∷ ms) empty e named = rw (select_roles_first m ms named.0) (
    member_context_of req s user m.tenant_id named.0 (inl empty) (roles_within m.tenant_id (m ∷ ms))
      (ap (roles_within m.tenant_id) e))

context_cases :
    (req : Request) (s : Store) (user : String) (ms : List Membership)
    → ms ≡ memberships_of user s
    → All NamesTenant ms
    → ContextCases req s user ms req.tenant_header
context_cases req s user ms e named = elim (string_dec req.tenant_header "") [
  | no ne ↦ rw (select_roles_named req.tenant_header ms ne) (
      member_context_of req s user req.tenant_header ne (inr refl)
        (roles_within req.tenant_header ms) (ap (roles_within req.tenant_header) e))
  | yes empty ↦
      subst (ContextCases req s user ms) (sym empty) (context_unasked req s user ms empty e named)
]

found_cases :
    (lib : Library) (now : Time) (req : Request) (s : Store) (session : Session)
    → lookup (lib.sha256_hex (request_token req)) s.contents.sessions ≡ some session
    → ((session_by_token lib.sha256_hex now (request_token req) s).0 ≡ none)
      ⊎ ((session : Session) × ((session_by_token lib.sha256_hex now (request_token req) s).0
            ≡ some session)
          × IsSignedIn lib now req s session)
unfolding session_by_token
found_cases lib now req s session e =
    elim (Bool-cases (not (is_zero session.revoked_at) || is_after now session.expires_at)) [
      | inl spent ↦ inl (rw (session_by_token, e, spent) refl)
      | inr live ↦ inr (
        session,
        rw (session_by_token, e, live) refl,
        record { found = e; current = ground arith; unexpired = ground arith },
      )
    ]

session_cases :
    (lib : Library) (now : Time) (req : Request) (s : Store)
    → ((session_by_token lib.sha256_hex now (request_token req) s).0 ≡ none)
      ⊎ ((session : Session) × ((session_by_token lib.sha256_hex now (request_token req) s).0
            ≡ some session)
          × IsSignedIn lib now req s session)
unfolding session_by_token
session_cases lib now req s =
    elim (Option-cases (lookup (lib.sha256_hex (request_token req)) s.contents.sessions)) [
      | inl e ↦ inl (rw (session_by_token, e) refl)
      | inr (session, e) ↦ found_cases lib now req s session e
    ]

-- Where every membership names its tenant, `withAuth` answers 401 or 403 and leaves the store as
-- it is, or a session with the token of the request is stored, neither revoked nor expired, and
-- the handler runs with a context that names its user, the tenant that the request asks for, if it
-- does, and all roles that the user has in that tenant, at least one, and no scope.
pub with_auth_lem :
    (lib : Library) (now : Time) (req : Request) (s : Store)
    (next : TenantContext → Store → Handled)
    → All NamesTenant s.contents.memberships
    → (with_auth lib now req s next ≡ error_json 401 "unauthorized" "authentication required" s)
      ⊎ (with_auth lib now req s next ≡ error_json 403 "forbidden" "tenant membership required" s)
      ⊎ ((session : Session) × (tc : TenantContext) × IsSignedIn lib now req s session
          × IsContext req s session.user_id tc
          × (with_auth lib now req s next ≡ next tc s))
unfolding with_auth memberships_of
with_auth_lem lib now req s next named = elim (session_cases lib now req s) [
  | inl e ↦ inl (rw (with_auth, e) refl)
  | inr (session, e, signed) ↦
      elim (context_cases req s session.user_id (memberships_of session.user_id s) refl
        (All-filter NamesTenant (λ m. m.user_id == session.user_id) s.contents.memberships named)) [
          | inl none_e ↦ inr (inl (rw (with_auth, e, none_e) refl))
          | inr (tc, some_e, ctx) ↦
              inr (inr (session, tc, signed, ctx, rw (with_auth, e, some_e) refl))
        ]
]

-- The two highest roles have every permission, and the third all but one.
administrators_all :
    (p : Permission)
    → (role_grants p "platform_administrator" ≡ true)
      × (role_grants p "organization_owner" ≡ true)
      × ((role_grants p "organization_administrator" ≡ true) ⊎ (p ≡ tenant_settings))
unfolding role_permissions permission_text string_dec
administrators_all device_read = (refl, refl, inl refl)
administrators_all device_enroll = (refl, refl, inl refl)
administrators_all device_update = (refl, refl, inl refl)
administrators_all device_delete = (refl, refl, inl refl)
administrators_all device_command = (refl, refl, inl refl)
administrators_all job_delete = (refl, refl, inl refl)
administrators_all device_reboot = (refl, refl, inl refl)
administrators_all telemetry_read = (refl, refl, inl refl)
administrators_all deployment_create = (refl, refl, inl refl)
administrators_all deployment_approve = (refl, refl, inl refl)
administrators_all deployment_cancel = (refl, refl, inl refl)
administrators_all artifact_upload = (refl, refl, inl refl)
administrators_all profile_manage = (refl, refl, inl refl)
administrators_all user_manage = (refl, refl, inl refl)
administrators_all audit_read = (refl, refl, inl refl)
administrators_all remote_create = (refl, refl, inl refl)
administrators_all tenant_settings = (refl, refl, inr refl)
administrators_all ai_use = (refl, refl, inl refl)

settings_reserved :
    (is_operational tenant_settings ≡ false)
    × (role_grants tenant_settings "organization_administrator" ≡ false)
unfolding role_permissions permission_text string_dec
settings_reserved = (refl, refl)

settings_owners :
    (role : String)
    → role ≢ "platform_administrator"
    → role ≢ "organization_owner"
    → role_grants tenant_settings role ≡ false
settings_owners role n m = elim (Bool-cases (role_grants tenant_settings role)) [
  | inr e ↦ e
  | inl grants ↦ elim (string_dec role "organization_administrator") [
    | yes e ↦ rw e settings_reserved.1
    | no k ↦ absurd (
        ground
          (arith, role_operational tenant_settings role grants (ground arith), settings_reserved))
  ]
]

organization_administrator_most :
    (p : Permission) (role : String)
    → role ≢ "platform_administrator"
    → role ≢ "organization_owner"
    → role_grants p role ≡ true
    → role_grants p "organization_administrator" ≡ true
organization_administrator_most p role n m grants = elim (administrators_all p).2 [
  | inl e ↦ e
  | inr e ↦ absurd (ground (arith, settings_owners role n m, e, grants))
]

administrator_outranks :
    (role actor_role : String)
    → outranks role actor_role ≡ true
    → actor_role ≢ "platform_administrator"
    → actor_role ≢ "organization_owner"
    → (actor_role ≡ "organization_administrator")
      × (role ≢ "platform_administrator")
      × (role ≢ "organization_owner")
administrator_outranks role actor_role ranks n m =
    (ground arith, λ e. ground arith, λ e. ground arith)

assigned_within :
    (p : Permission) (role actor_role : String)
    → outranks role actor_role ≡ true
    → role_grants p role ≡ true
    → role_grants p actor_role ≡ true
assigned_within p role actor_role ranks grants =
    let (highest, owner, most) = administrators_all p in
    elim (string_dec actor_role "platform_administrator") [
      | yes e ↦ rw e highest
      | no n ↦ elim (string_dec actor_role "organization_owner") [
        | yes e ↦ rw e owner
        | no m ↦
            let (e, n', m') = administrator_outranks role actor_role ranks n m in
            rw e (organization_administrator_most p role n' m' grants)
      ]
    ]

any_tail : (b : Bool) {c : Bool} → c ≡ true → (b || c) ≡ true
any_tail true e = refl
any_tail false e = e

assigned_any :
    (actor_roles : List String) (role : String) (p : Permission)
    → any (outranks role) actor_roles ≡ true
    → role_grants p role ≡ true
    → any (role_grants p) actor_roles ≡ true
assigned_any [] role p allowed grants = allowed
assigned_any (a ∷ rest) role p allowed grants = elim (Bool-cases (outranks role a)) [
  | inl ranks ↦ rw (assigned_within p role a ranks grants) refl
  | inr other ↦ any_tail _ (assigned_any rest role p (rw other at allowed) grants)
]

-- The roles that exist.
abbrev pub role_names : List String
role_names =
    "platform_administrator" ∷ "organization_owner" ∷ "organization_administrator"
    ∷ "fleet_operator" ∷ "deployment_manager" ∷ "support_engineer" ∷ "security_auditor"
    ∷ "read_only_viewer" ∷ []

is_role-any : (role : String) → is_role role ≡ true → any (λ name. role == name) role_names ≡ true
unfolding role_permissions
is_role-any role h = ground arith

-- Whoever may give a role to a user has, by the roles of their own, every permission that the role
-- grants; and the role is one of the eight that exist.
pub can_assign_role-role_grants :
    (actor_roles : List String) (role : String) (p : Permission)
    → can_assign_role actor_roles role ≡ true
    → (any (λ name. role == name) role_names ≡ true)
      × ((role_grants p role ≡ false) ⊎ (any (role_grants p) actor_roles ≡ true))
unfolding can_assign_role
can_assign_role-role_grants actor_roles role p allowed = (
  is_role-any role (ground arith),
  elim (Bool-cases (role_grants p role)) [
    | inl grants ↦ inr (assigned_any actor_roles role p (ground arith) grants)
    | inr e ↦ inl e
  ],
)
