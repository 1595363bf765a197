-- ===== src/Cloud/Rbac/Roles.antt =====
-- What the roles allow.
use soul_room_edge_platform.Base.{
  String, ◌≡◌, ◌≢◌, Bool, true, false, ◌||◌, none, some, List, [], ◌∷◌, ◌==◌, arith, Bool-cases,
  inl, inr,
}
use soul_room_edge_platform.Base.Lists.{any}
use soul_room_edge_platform.Cloud.Model.{TenantContext}
use soul_room_edge_platform.Cloud.Rbac.{
  Permission, device_read, device_command, telemetry_read, deployment_create, deployment_cancel,
  artifact_upload, audit_read, remote_create, ai_use, role_permissions, require, role_grants,
  same_permission, authorize,
}

-- The roles that may manage a tenant.
abbrev pub is_administrative : String → Bool
is_administrative role =
    role == "platform_administrator"
    || role == "organization_owner"
    || role == "organization_administrator"

-- What the other roles may do, taken together: not to enroll, change, reboot or delete a device,
-- to delete a job, to approve a deployment, to manage profiles, users or settings.
abbrev pub operational : List Permission
operational =
    device_read ∷ device_command ∷ telemetry_read ∷ deployment_create ∷ deployment_cancel
    ∷ artifact_upload ∷ audit_read ∷ remote_create ∷ ai_use ∷ []

abbrev pub is_operational : Permission → Bool
is_operational p = any (λ q. same_permission q p) operational

pub role_operational :
    (p : Permission) (role : String)
    → role_grants p role ≡ true
    → is_administrative role ≡ false
    → is_operational p ≡ true
unfolding role_permissions
role_operational p role h n = ground arith

administrative_head :
    (role : String) (rest : Bool)
    → (is_administrative role || rest) ≡ false
    → is_administrative role ≡ false
administrative_head role rest h = ground arith

administrative_tail :
    (role : String) (rest : Bool) → (is_administrative role || rest) ≡ false → rest ≡ false
administrative_tail role rest h = ground arith

roles_operational :
    (p : Permission) (roles : List String)
    → any (role_grants p) roles ≡ true
    → any is_administrative roles ≡ false
    → is_operational p ≡ true
roles_operational p [] h n = ground arith
roles_operational p (role ∷ roles) h n = elim (Bool-cases (role_grants p role)) [
  | inl e ↦ role_operational p role e (administrative_head role (any is_administrative roles) n)
  | inr e ↦
      roles_operational p roles (rw e at h)
        (administrative_tail role (any is_administrative roles) n)
]

pub roles_allow :
    (tc : TenantContext) (p : Permission)
    → authorize (some tc) p ≡ none
    → tc.scopes ≡ []
    → any (role_grants p) tc.roles ≡ true
unfolding authorize require
roles_allow tc p allowed bare = ground arith

-- A request without scopes and without one of the three administrative roles is authorized for
-- operational permissions alone.
authorize-is_operational :
    (tc : TenantContext) (p : Permission)
    → authorize (some tc) p ≡ none
    → tc.scopes ≡ []
    → any is_administrative tc.roles ≡ false
    → is_operational p ≡ true
unfolding authorize require
authorize-is_operational tc p allowed bare modest =
    roles_operational p tc.roles (roles_allow tc p allowed bare) modest

-- A request that is authorized has a tenant, and is authorized with one more role too.
authorize_more :
    (tc : TenantContext) (p : Permission) (role : String)
    → authorize (some tc) p ≡ none
    → (tc.tenant_id ≢ "") × (authorize (some (record tc { roles = role ∷ tc.roles })) p ≡ none)
unfolding authorize require
authorize_more tc p role allowed = (λ e. ground arith, ground arith)
