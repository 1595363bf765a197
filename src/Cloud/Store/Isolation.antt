-- ===== src/Cloud/Store/Isolation.antt =====
-- What the operations of one tenant leave to another.
use soul_room_edge_platform.Base.{String, ◌≢◌}
use soul_room_edge_platform.Cloud.Model.{TenantContext, Json}
use soul_room_edge_platform.Cloud.Store.{StoreData, Store}
use soul_room_edge_platform.Cloud.Store.Invariant.{IsValid}
use soul_room_edge_platform.Cloud.Store.Steps.{
  Step, device_created, device_updated, device_deleted, telemetry_added, inventory_saved,
  job_created, job_deleted, job_polled, job_completed, campaign_created, campaign_updated, History,
  here, next, History-IsValid,
}
use soul_room_edge_platform.Cloud.Store.Untouched.{
  Untouched, create_job-Untouched, delete_job-Untouched, create_device-Untouched,
  update_device-Untouched, add_telemetry-Untouched, save_inventory-Untouched,
  create_ota_campaign-Untouched, update_ota_campaign-Untouched, next_job_for_device-Untouched,
  complete_job-Untouched, delete_device-Untouched,
}
use soul_room_edge_platform.Cloud.Store.Unadded.{
  create_device-Unadded, update_device-Unadded, delete_device-Unadded, add_telemetry-Unadded,
  save_inventory-Unadded, create_job-Unadded, delete_job-Unadded, create_ota_campaign-Unadded,
  update_ota_campaign-Unadded, next_job_for_device-Unadded, complete_job-Unadded,
}

-- The jobs, devices and campaigns of a tenant are the same before and after.
abbrev pub Same : String → StoreData → StoreData → Type 0
Same tenant c c' = Untouched tenant c c' × Untouched tenant c' c

-- A step for one tenant leaves the jobs, the devices and the campaigns of every other as they are.
pub Step-Untouched :
    (reported : Json → String) (other : String) (tc : TenantContext) {s s' : Store}
    → Step reported tc s s'
    → other ≢ tc.tenant_id
    → IsValid s.contents
    → Same other s.contents s'.contents
Step-Untouched reported other tc (device_created env d s fresh own) ne v =
    (create_device-Untouched other env tc s d fresh, create_device-Unadded other env tc s d own ne)
Step-Untouched reported other tc (device_updated env d s own) ne v =
    (update_device-Untouched other env tc s d own ne, update_device-Unadded other env tc s d own ne)
Step-Untouched reported other tc (device_deleted env id s) ne v =
    (delete_device-Untouched other env tc s id ne v, delete_device-Unadded other env tc s id ne)
Step-Untouched reported other tc (telemetry_added env ms s) ne v =
    (add_telemetry-Untouched other env tc s ms, add_telemetry-Unadded other env tc s ms)
Step-Untouched reported other tc (inventory_saved env id payload s) ne v = (
  save_inventory-Untouched other env tc s id payload,
  save_inventory-Unadded other env tc s id payload,
)
Step-Untouched reported other tc (job_created env job s fresh) ne v =
    (create_job-Untouched other env tc s job fresh, create_job-Unadded other env tc s job ne)
Step-Untouched reported other tc (job_deleted env id s) ne v =
    (delete_job-Untouched other env tc s id ne, delete_job-Unadded other env tc s id ne)
Step-Untouched reported other tc (job_polled env device_id s) ne v = (
  next_job_for_device-Untouched other env tc s device_id ne,
  next_job_for_device-Unadded other env tc s device_id ne,
)
Step-Untouched reported other tc (job_completed env id result s) ne v = (
  complete_job-Untouched other env tc s reported id result ne v,
  complete_job-Unadded other env tc s reported id result ne,
)
Step-Untouched reported other tc (campaign_created env c s fresh) ne v = (
  create_ota_campaign-Untouched other env tc s c fresh,
  create_ota_campaign-Unadded other env tc s c ne,
)
Step-Untouched reported other tc (campaign_updated env c s) ne v = (
  update_ota_campaign-Untouched other env tc s c ne,
  update_ota_campaign-Unadded other env tc s c ne,
)

Untouched-refl : (tenant : String) (c : StoreData) → Untouched tenant c c
Untouched-refl tenant c = record {
  jobs = λ k x found own. found;
  devices = λ k x found own. found;
  campaigns = λ k x found own. found;
}

Untouched-trans :
    (tenant : String) (a b c : StoreData)
    → Untouched tenant a b
    → Untouched tenant b c
    → Untouched tenant a c
Untouched-trans tenant a b c p q = record {
  jobs = λ k x found own. q.jobs k x (p.jobs k x found own) own;
  devices = λ k x found own. q.devices k x (p.devices k x found own) own;
  campaigns = λ k x found own. q.campaigns k x (p.campaigns k x found own) own;
}

-- Through every history in which a tenant takes no part, from a valid store, its jobs, devices
-- and campaigns stay as they are, and none is added: an entry under a key is one of the tenant
-- afterwards if and only if it was there before.
pub History-Untouched :
    (reported : Json → String) (tenant : String) {s s' : Store}
    → History reported (λ tc. tenant ≢ tc.tenant_id) s s'
    → IsValid s.contents
    → Untouched tenant s.contents s'.contents × Untouched tenant s'.contents s.contents
History-Untouched reported tenant here v = (Untouched-refl tenant _, Untouched-refl tenant _)
History-Untouched reported tenant (next tc h ne st) v =
    let (kept, native) = History-Untouched reported tenant h v in
    let (kept', native') =
      Step-Untouched reported tenant tc st ne (History-IsValid reported _ h v) in
    (Untouched-trans tenant _ _ _ kept kept', Untouched-trans tenant _ _ _ native' native)
