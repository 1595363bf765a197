-- ===== src/Cloud/Store/Steps.antt =====
-- Histories of the store: the operations that change devices and what belongs to them, each on
-- behalf of one tenant, in any order.
use soul_room_edge_platform.Base.{String, ◌≡◌, none, List}
use soul_room_edge_platform.Base.Dict.{lookup}
use soul_room_edge_platform.Cloud.Model.{TenantContext, Json, Device, Metric, Job, Campaign}
use soul_room_edge_platform.Cloud.Store.{Store, Env, new_id}
use soul_room_edge_platform.Cloud.Store.Jobs.{
  create_job, delete_job, next_job_for_device, complete_job,
}
use soul_room_edge_platform.Cloud.Store.Devices.{
  create_device, update_device, delete_device, add_telemetry, save_inventory,
}
use soul_room_edge_platform.Cloud.Store.Campaigns.{create_ota_campaign, update_ota_campaign}
use soul_room_edge_platform.Cloud.Store.Invariant.{IsValid}
use soul_room_edge_platform.Cloud.Store.Invariant.Devices.{
  IsFreshDevice, create_device-IsValid, update_device-IsValid, delete_device-IsValid,
  add_telemetry-IsValid, save_inventory-IsValid,
}
use soul_room_edge_platform.Cloud.Store.Invariant.Jobs.{
  create_job-IsValid, delete_job-IsValid, next_job_for_device-IsValid, complete_job-IsValid,
  create_ota_campaign-IsValid, update_ota_campaign-IsValid,
}

-- An id that no job, or no campaign, has.
abbrev pub IsFreshJob : Env → Store → Type 0
IsFreshJob env s = lookup (new_id "job" (env.random 0)) s.contents.jobs ≡ none

abbrev pub IsFreshCampaign : Env → Store → Type 0
IsFreshCampaign env s = lookup (new_id "ota" (env.random 0)) s.contents.ota_campaigns ≡ none

module _ (reported : Json → String) where
  -- One operation for the tenant of `tc`. The random ids are fresh; a device that is created or
  -- updated is the tenant's.
  pub data Step (tc : TenantContext) : Store → Store → Type 0 where
    device_created :
        (env : Env) (d : Device) (s : Store)
        → IsFreshDevice env s
        → d.tenant_id ≡ tc.tenant_id
        → Step tc s (create_device env d s).store
    device_updated :
        (env : Env) (d : Device) (s : Store)
        → d.tenant_id ≡ tc.tenant_id
        → Step tc s (update_device env d s).1
    device_deleted : (env : Env) (id : String) (s : Store) → Step tc s (delete_device env tc id s).1
    telemetry_added :
        (env : Env) (ms : List Metric) (s : Store) → Step tc s (add_telemetry env tc ms s).1
    inventory_saved :
        (env : Env) (id : String) (payload : Json) (s : Store)
        → Step tc s (save_inventory env tc id payload s).1
    job_created :
        (env : Env) (job : Job) (s : Store)
        → IsFreshJob env s
        → Step tc s (create_job env tc job s).store
    job_deleted : (env : Env) (id : String) (s : Store) → Step tc s (delete_job env tc id s).1
    job_polled :
        (env : Env) (device_id : String) (s : Store)
        → Step tc s (next_job_for_device env tc device_id s).store
    job_completed :
        (env : Env) (id : String) (result : Json) (s : Store)
        → Step tc s (complete_job reported env tc id result s).1
    campaign_created :
        (env : Env) (c : Campaign) (s : Store)
        → IsFreshCampaign env s
        → Step tc s (create_ota_campaign env tc c s).store
    campaign_updated :
        (env : Env) (c : Campaign) (s : Store) → Step tc s (update_ota_campaign env tc c s).1

  pub Step-IsValid :
      (tc : TenantContext) {s s' : Store} → Step tc s s' → IsValid s.contents → IsValid s'.contents
  Step-IsValid tc (device_created env d s fresh own) v = create_device-IsValid env d s fresh v
  Step-IsValid tc (device_updated env d s own) v = update_device-IsValid env d s v
  Step-IsValid tc (device_deleted env id s) v = delete_device-IsValid env tc id s v
  Step-IsValid tc (telemetry_added env ms s) v = add_telemetry-IsValid env tc ms s v
  Step-IsValid tc (inventory_saved env id payload s) v =
      save_inventory-IsValid env tc id payload s v
  Step-IsValid tc (job_created env job s fresh) v = create_job-IsValid env tc job s v
  Step-IsValid tc (job_deleted env id s) v = delete_job-IsValid env tc id s v
  Step-IsValid tc (job_polled env device_id s) v = next_job_for_device-IsValid env tc device_id s v
  Step-IsValid tc (job_completed env id result s) v =
      complete_job-IsValid reported env tc id result s v
  Step-IsValid tc (campaign_created env c s fresh) v = create_ota_campaign-IsValid env tc c s v
  Step-IsValid tc (campaign_updated env c s) v = update_ota_campaign-IsValid env tc c s v

  -- A history from one store to another; `P` holds of the tenant of each step.
  pub data History (P : TenantContext → Type 0) (s : Store) : Store → Type 0 where
    here : History P s s
    next : {t u : Store} (tc : TenantContext) → History P s t → P tc → Step tc t u → History P s u

  -- Every store that operations of any tenants lead to from a valid one is valid.
  pub History-IsValid :
      (P : TenantContext → Type 0) {s s' : Store}
      → History P s s'
      → IsValid s.contents
      → IsValid s'.contents
  History-IsValid P here v = v
  History-IsValid P (next tc h p st) v = Step-IsValid tc st (History-IsValid P h v)
