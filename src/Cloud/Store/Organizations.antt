-- ===== src/Cloud/Store/Organizations.antt =====
-- The organization and settings operations of cloud-infra/internal/storage/store.go, and the
-- bootstrap of its first owner.
use soul_room_edge_platform.Base.{
  String, Bool, true, false, ◌&&◌, not, Option, none, some, List, [], ◌∷◌, ◌++◌, ◌==◌,
  if◌then◌else◌, eqb,
}
use soul_room_edge_platform.Base.Lists.{length, any}
use soul_room_edge_platform.Base.Dict.{Dict, lookup, insert, erase, values}
use soul_room_edge_platform.Cloud.Model.{
  TenantContext, Time, Organization, User, Membership, PlatformSettings, AiConfiguration,
}
use soul_room_edge_platform.Cloud.Store.{
  StoreError, not_found, duplicate, Store, Env, Reply, refuse, answer, answer_saved, save_locked,
  new_id, string_less,
}

abbrev pub with_organizations : Store → Dict Organization → Store
with_organizations s os = record s { contents = record s.contents { organizations = os } }

abbrev pub with_users : Store → Dict User → Store
with_users s us = record s { contents = record s.contents { users = us } }

abbrev pub with_members : Store → Dict User → List Membership → Store
with_members s us ms = record s { contents = record s.contents { users = us; memberships = ms } }

abbrev pub with_settings : Store → Dict PlatformSettings → Store
with_settings s ps = record s { contents = record s.contents { platform_settings = ps } }

abbrev pub with_ai : Store → Dict AiConfiguration → Store
with_ai s cs = record s { contents = record s.contents { ai_configurations = cs } }

abbrev pub new_organization : String → String → String → Time → Organization
new_organization id name slug created = record {
  id = id;
  name = name;
  slug = slug;
  created_at = created;
}

unfoldable pub create_organization : Env → String → String → Store → Reply Organization
create_organization env name slug s =
    if any (λ org. org.slug == slug) (values s.contents.organizations)
    then refuse duplicate s
    else (let org = new_organization (new_id "org" (env.random 0)) name slug (env.now 0) in
        answer_saved env.disk org
          (with_organizations s (insert org.id org s.contents.organizations)))

abbrev pub is_fresh_store : Store → Bool
is_fresh_store s =
    eqb (length s.contents.organizations) 0
    && eqb (length s.contents.users) 0
    && eqb (length s.contents.memberships) 0

-- `&model.User{…}` with the zero values written out
abbrev pub new_user : String → String → String → String → Time → Time → User
new_user id email password_hash role activated created = record {
  id = id;
  email = email;
  role = role;
  password_hash = password_hash;
  activated_at = activated;
  mfa_enabled = false;
  locked_until = 0;
  failed_login_count = 0;
  created_at = created;
}

-- Where the save fails, `delete` and the cut of the memberships undo the three writes.
unfoldable pub bootstrap_organization_owner :
    Env → String → String → String → String → Store → Reply Bool
bootstrap_organization_owner env name slug email password_hash s =
    if not (is_fresh_store s)
    then answer false s
    else (let org = new_organization (new_id "org" (env.random 0)) name slug (env.now 0) in
        let user =
          new_user (new_id "usr" (env.random 1)) email password_hash "" (env.now 0) (env.now 0) in
        let member : Membership = record {
          tenant_id = org.id;
          user_id = user.id;
          role = "organization_owner";
        } in
        let written =
          with_members (with_organizations s (insert org.id org s.contents.organizations))
            (insert user.id user s.contents.users) (s.contents.memberships ++ (member ∷ [])) in
        let (failed, saved) = save_locked env.disk written in
        elim failed [
          | none ↦ answer true saved
          | some e ↦ record {
            value = some false;
            error = some e;
            store =
                with_members (with_organizations saved (erase org.id saved.contents.organizations))
                  (erase user.id saved.contents.users) [];
          }
        ])

unfoldable pub list_organizations :
    ((Organization → Organization → Bool) → List Organization → List Organization)
    → Store
    → List Organization
list_organizations sort s =
    sort (λ a b. string_less a.name b.name) (values s.contents.organizations)

-- `Organization(tc)`
unfoldable pub organization : TenantContext → Store → Option Organization × Option StoreError
organization tc s = elim (lookup tc.tenant_id s.contents.organizations) [
  | none ↦ (none, some not_found)
  | some org ↦ (some org, none)
]

-- `PlatformSettings(tc)` and `AIConfiguration(tc)`
unfoldable pub platform_settings_of : TenantContext → Store → Option PlatformSettings
platform_settings_of tc s = lookup tc.tenant_id s.contents.platform_settings

unfoldable pub ai_configuration_of : TenantContext → Store → Option AiConfiguration
ai_configuration_of tc s = lookup tc.tenant_id s.contents.ai_configurations

unfoldable pub save_platform_settings :
    Env → TenantContext → PlatformSettings → Store → Option StoreError × Store
save_platform_settings env tc value s = elim (lookup tc.tenant_id s.contents.organizations) [
  | none ↦ (some not_found, s)
  | some org ↦
      let org' = record org { name = value.organization_name } in
      let value' = record value { updated_by = tc.actor_id; updated_at = env.now 0 } in
      save_locked env.disk (
        with_settings (with_organizations s (insert tc.tenant_id org' s.contents.organizations))
          (insert tc.tenant_id value' s.contents.platform_settings))
]

unfoldable pub reset_platform_settings : Env → TenantContext → Store → Option StoreError × Store
reset_platform_settings env tc s = elim (lookup tc.tenant_id s.contents.organizations) [
  | none ↦ (some not_found, s)
  | some _ ↦
      save_locked env.disk (with_settings s (erase tc.tenant_id s.contents.platform_settings))
]

unfoldable pub save_ai_configuration :
    Env → TenantContext → AiConfiguration → Store → Option StoreError × Store
save_ai_configuration env tc value s = elim (lookup tc.tenant_id s.contents.organizations) [
  | none ↦ (some not_found, s)
  | some _ ↦
      let value' = record value { updated_by = tc.actor_id; updated_at = env.now 0 } in
      save_locked env.disk (with_ai s (insert tc.tenant_id value' s.contents.ai_configurations))
]

unfoldable pub delete_ai_configuration : Env → TenantContext → Store → Option StoreError × Store
delete_ai_configuration env tc s = elim (lookup tc.tenant_id s.contents.organizations) [
  | none ↦ (some not_found, s)
  | some _ ↦ save_locked env.disk (with_ai s (erase tc.tenant_id s.contents.ai_configurations))
]
