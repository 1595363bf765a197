-- ===== src/Cloud/Store/Campaigns.antt =====
-- The campaign, artifact and audit operations of cloud-infra/internal/storage/store.go.
use soul_room_edge_platform.Base.{
  String, Bool, ◌&&◌, ◌||◌, Option, none, some, List, [], ◌∷◌, ◌++◌, ◌==◌, ◌!=◌, if◌then◌else◌,
}
use soul_room_edge_platform.Base.Lists.{filter}
use soul_room_edge_platform.Base.Dict.{Dict, lookup, insert, values}
use soul_room_edge_platform.Cloud.Model.{TenantContext, Campaign, Artifact, AuditEvent}
use soul_room_edge_platform.Cloud.Store.{
  StoreError, not_found, tenant_mismatch, Store, Env, Reply, refuse, answer_saved, save_locked,
  new_id, is_after, is_zero, or_default,
}

abbrev pub with_campaigns : Store → Dict Campaign → Store
with_campaigns s cs = record s { contents = record s.contents { ota_campaigns = cs } }

unfoldable pub create_ota_campaign : Env → TenantContext → Campaign → Store → Reply Campaign
create_ota_campaign env tc campaign s =
    if campaign.tenant_id != "" && campaign.tenant_id != tc.tenant_id
    then refuse tenant_mismatch s
    else (let c = record campaign {
      id = new_id "ota" (env.random 0);
      tenant_id = tc.tenant_id;
      created_at = env.now 0;
      state = or_default campaign.state "ready";
    } in
        answer_saved env.disk c (with_campaigns s (insert c.id c s.contents.ota_campaigns)))

unfoldable pub list_ota_campaigns :
    ((Campaign → Campaign → Bool) → List Campaign → List Campaign)
    → TenantContext
    → Store
    → List Campaign
list_ota_campaigns sort tc s =
    sort (λ a b. is_after a.created_at b.created_at)
      (filter (λ c. c.tenant_id == tc.tenant_id) (values s.contents.ota_campaigns))

unfoldable pub get_ota_campaign :
    TenantContext → String → Store → Option Campaign × Option StoreError
get_ota_campaign tc campaign_id s = elim (lookup campaign_id s.contents.ota_campaigns) [
  | none ↦ (none, some not_found)
  | some c ↦ if c.tenant_id != tc.tenant_id then (none, some tenant_mismatch) else (some c, none)
]

unfoldable pub update_ota_campaign :
    Env → TenantContext → Campaign → Store → Option StoreError × Store
update_ota_campaign env tc campaign s = elim (lookup campaign.id s.contents.ota_campaigns) [
  | none ↦ (some not_found, s)
  | some existing ↦
      if existing.tenant_id != tc.tenant_id || campaign.tenant_id != tc.tenant_id
      then (some tenant_mismatch, s)
      else save_locked env.disk
          (with_campaigns s (insert campaign.id campaign s.contents.ota_campaigns))
]

unfoldable pub upsert_artifact : Env → Artifact → Store → Option StoreError × Store
upsert_artifact env artifact s =
    let a = record artifact {
      id = or_default artifact.id (new_id "art" (env.random 0));
      created_at = if is_zero artifact.created_at then env.now 0 else artifact.created_at;
    } in
    save_locked env.disk
      (record s { contents = record s.contents { artifacts = insert a.id a s.contents.artifacts } })

unfoldable pub list_artifacts :
    ((Artifact → Artifact → Bool) → List Artifact → List Artifact)
    → TenantContext
    → Store
    → List Artifact
list_artifacts sort tc s =
    sort (λ a b. is_after a.created_at b.created_at)
      (filter (λ a. a.tenant_id == tc.tenant_id) (values s.contents.artifacts))

-- `Audit(event)`
unfoldable pub record_audit : Env → AuditEvent → Store → Option StoreError × Store
record_audit env event s =
    let e = record event { id = new_id "aud" (env.random 0); created_at = env.now 0 } in
    save_locked env.disk
      (record s { contents = record s.contents { audit = s.contents.audit ++ (e ∷ []) } })

unfoldable pub list_audit : TenantContext → Store → List AuditEvent
list_audit tc s = filter (λ e. e.tenant_id == tc.tenant_id) s.contents.audit
