-- ===== src/Cloud/Rbac.antt =====
-- The authorization of cloud-infra/internal/rbac/rbac.go, with `Require` of
-- cloud-infra/internal/tenancy/tenancy.go.
pub mod Roles
use soul_room_edge_platform.Base.{
  String, Bool, true, false, ◌&&◌, ◌||◌, Option, none, some, List, [], ◌∷◌, ◌++◌, ◌==◌,
  if◌then◌else◌,
}
use soul_room_edge_platform.Base.Lists.{any}
use soul_room_edge_platform.Cloud.Model.{TenantContext}

pub data Permission : Type 0 where
  device_read device_enroll device_update device_delete device_command job_delete device_reboot :
      Permission
  telemetry_read deployment_create deployment_approve deployment_cancel artifact_upload : Permission
  profile_manage user_manage audit_read remote_create tenant_settings ai_use : Permission

-- The text of a permission, which a scope may name.
unfoldable pub permission_text : Permission → String
permission_text device_read = "device.read"
permission_text device_enroll = "device.enroll"
permission_text device_update = "device.update"
permission_text device_delete = "device.delete"
permission_text device_command = "device.command"
permission_text job_delete = "job.delete"
permission_text device_reboot = "device.reboot"
permission_text telemetry_read = "telemetry.read"
permission_text deployment_create = "deployment.create"
permission_text deployment_approve = "deployment.approve"
permission_text deployment_cancel = "deployment.cancel"
permission_text artifact_upload = "artifact.upload"
permission_text profile_manage = "profile.manage"
permission_text user_manage = "user.manage"
permission_text audit_read = "audit.read"
permission_text remote_create = "remote_access.create"
permission_text tenant_settings = "tenant.settings.manage"
permission_text ai_use = "ai.use"

-- `RolePermissions`; a role that is not in the map has none.
unfoldable pub role_permissions : String → List Permission
role_permissions role =
    if role == "platform_administrator"
    then owner
    else if role == "organization_owner"
    then owner
    else if role == "organization_administrator"
    then administrator
    else if role == "fleet_operator"
    then device_read ∷ device_command ∷ telemetry_read ∷ ai_use ∷ []
    else if role == "deployment_manager"
    then device_read ∷ telemetry_read ∷ deployment_create ∷ deployment_cancel ∷ artifact_upload
      ∷ ai_use ∷ []
    else if role == "support_engineer"
    then device_read ∷ telemetry_read ∷ device_command ∷ remote_create ∷ ai_use ∷ []
    else if role == "security_auditor"
    then device_read ∷ telemetry_read ∷ audit_read ∷ ai_use ∷ []
    else if role == "read_only_viewer"
    then device_read ∷ telemetry_read ∷ ai_use ∷ []
    else []
  where
    owner : List Permission
    owner =
        device_read ∷ device_enroll ∷ device_update ∷ device_delete ∷ device_command ∷ job_delete
        ∷ device_reboot ∷ telemetry_read ∷ deployment_create ∷ deployment_approve
        ∷ deployment_cancel ∷ artifact_upload ∷ profile_manage ∷ user_manage ∷ audit_read
        ∷ remote_create ∷ tenant_settings ∷ ai_use ∷ []

    administrator : List Permission
    administrator =
        device_read ∷ device_enroll ∷ device_update ∷ device_delete ∷ device_command ∷ job_delete
        ∷ device_reboot ∷ telemetry_read ∷ deployment_create ∷ deployment_approve
        ∷ deployment_cancel ∷ artifact_upload ∷ profile_manage ∷ user_manage ∷ audit_read
        ∷ remote_create ∷ ai_use ∷ []

pub data AuthError : Type 0 where
  missing_tenant forbidden : AuthError

-- The context of the request carries a tenant context or none.
unfoldable pub require : Option TenantContext → Option TenantContext
require none = none
require (some tc) = if tc.tenant_id == "" then none else some tc

abbrev pub same_permission : Permission → Permission → Bool
same_permission p q = permission_text p == permission_text q

abbrev pub role_grants : Permission → String → Bool
role_grants p role = any (λ q. same_permission q p) (role_permissions role)

-- The error of `Authorize`, if there is one.
unfoldable pub authorize : Option TenantContext → Permission → Option AuthError
authorize ctx p = elim (require ctx) [
  | none ↦ some missing_tenant
  | some tc ↦
      if any (λ scope. scope == permission_text p) tc.scopes
      then none
      else if any (role_grants p) tc.roles
      then none
      else some forbidden
]
