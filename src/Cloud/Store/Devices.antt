-- ===== src/Cloud/Store/Devices.antt =====
-- The device, inventory and telemetry operations of cloud-infra/internal/storage/store.go.
-- `sort` stands for `sort.Slice`, which takes the order in which to sort.
pub mod Telemetry
pub mod Registry
use soul_room_edge_platform.Base.{
  ℕ, ◌+◌, String, Bool, true, false, ◌&&◌, not, Option, none, some, List, [], ◌∷◌, ◌++◌, ◌==◌, ◌!=◌,
  if◌then◌else◌, ltb,
}
use soul_room_edge_platform.Base.Lists.{length, filter}
use soul_room_edge_platform.Base.Dict.{Dict, lookup, insert, erase, retain, rewrite, values}
use soul_room_edge_platform.Cloud.Model.{
  TenantContext, Time, Json, Device, DownstreamDevice, Metric, Job, Campaign,
}
use soul_room_edge_platform.Cloud.Store.{
  StoreError, not_found, tenant_mismatch, quota_exceeded, StoreData, Store, Env, Reply, refuse,
  answer, answer_saved, save_locked, new_id, or_default, string_less,
}
use soul_room_edge_platform.Cloud.Store.Jobs.{owns_device}

abbrev pub with_devices : Store → Dict Device → Store
with_devices s ds = record s { contents = record s.contents { devices = ds } }

unfoldable pub create_device : Env → Device → Store → Reply Device
create_device env device s =
    let d = record device {
      id = new_id "dev" (env.random 0);
      created_at = env.now 0;
      presence = or_default device.presence "offline";
      enrollment_status = or_default device.enrollment_status "enrolled";
    } in
    answer_saved env.disk d (with_devices s (insert d.id d s.contents.devices))

unfoldable pub list_devices :
    ((Device → Device → Bool) → List Device → List Device) → TenantContext → Store → List Device
list_devices sort tc s =
    sort (λ a b. string_less a.display_name b.display_name)
      (filter (λ d. d.tenant_id == tc.tenant_id) (values s.contents.devices))

unfoldable pub list_downstream :
    ((DownstreamDevice → DownstreamDevice → Bool) → List DownstreamDevice → List DownstreamDevice)
    → TenantContext
    → Store
    → List DownstreamDevice
list_downstream sort tc s =
    sort (λ a b. string_less a.protocol_address b.protocol_address)
      (filter (λ d. d.tenant_id == tc.tenant_id) (values s.contents.downstream))

unfoldable pub upsert_downstream : Env → DownstreamDevice → Store → Option StoreError × Store
upsert_downstream env device s =
    let d = record device { id = or_default device.id (new_id "child" (env.random 0)) } in
    save_locked env.disk (record s {
      contents = record s.contents { downstream = insert d.id d s.contents.downstream };
    })

-- `GetDevice` changes nothing: the device, or the error.
unfoldable pub get_device : TenantContext → String → Store → Option Device × Option StoreError
get_device tc id s = elim (lookup id s.contents.devices) [
  | none ↦ (none, some not_found)
  | some d ↦ if d.tenant_id != tc.tenant_id then (none, some tenant_mismatch) else (some d, none)
]

unfoldable pub update_device : Env → Device → Store → Option StoreError × Store
update_device env device s = elim (lookup device.id s.contents.devices) [
  | none ↦ (some not_found, s)
  | some existing ↦
      if existing.tenant_id != device.tenant_id
      then (some tenant_mismatch, s)
      else save_locked env.disk (with_devices s (insert device.id device s.contents.devices))
]

-- the loop over the campaigns in `DeleteDevice`: `none` deletes the campaign
abbrev pub drop_target : TenantContext → String → Campaign → Option Campaign
drop_target tc device_id c =
    if c.tenant_id != tc.tenant_id
    then some c
    else elim (filter (λ target. target != device_id) c.target_ids) [
      | [] ↦ none
      | t ∷ ts ↦ some (record c { target_ids = t ∷ ts })
    ]

-- all that `DeleteDevice` takes out of the contents
unfoldable pub purge_device : TenantContext → String → StoreData → StoreData
purge_device tc device_id c = record c {
  devices = erase device_id c.devices;
  downstream = retain (λ _ d. d.parent_gateway_id != device_id) c.downstream;
  telemetry = filter (λ m. m.device_id != device_id) c.telemetry;
  inventory = erase device_id c.inventory;
  jobs = retain (λ _ job. job.device_id != device_id) c.jobs;
  ota_campaigns = rewrite (λ _ campaign. drop_target tc device_id campaign) c.ota_campaigns;
}

unfoldable pub delete_device : Env → TenantContext → String → Store → Option StoreError × Store
delete_device env tc device_id s = elim (lookup device_id s.contents.devices) [
  | none ↦ (some not_found, s)
  | some d ↦
      if d.tenant_id != tc.tenant_id
      then (some tenant_mismatch, s)
      else save_locked env.disk (record s { contents = purge_device tc device_id s.contents })
]

-- the loop of `AddTelemetry`, with the metrics that are stored when it ends; its turn `i` reads
-- the clock for the `i`th time
unfoldable pub add_metrics :
    TenantContext
    → (ℕ → Time)
    → ℕ
    → Dict Device
    → List Metric
    → List Metric
    → Option StoreError × List Metric
add_metrics tc now i ds [] stored = (none, stored)
add_metrics tc now i ds (m ∷ ms) stored =
    let rest =
      add_metrics tc now (i + 1) ds ms (stored ++ (record m { received_at = now i } ∷ [])) in
    if not (owns_device tc (lookup m.device_id ds))
    then (some tenant_mismatch, stored)
    else if ltb 12 (length m.labels)
    then (some quota_exceeded, stored)
    else rest

abbrev pub with_telemetry : Store → List Metric → Store
with_telemetry s ms = record s { contents = record s.contents { telemetry = ms } }

abbrev pub finish_telemetry :
    Env → Store → Option StoreError × List Metric → Option StoreError × Store
finish_telemetry env s (some e, ms) = (some e, with_telemetry s ms)
finish_telemetry env s (none, ms) = save_locked env.disk (with_telemetry s ms)

unfoldable pub add_telemetry : Env → TenantContext → List Metric → Store → Option StoreError × Store
add_telemetry env tc metrics s =
    if ltb 5000 (length metrics)
    then (some quota_exceeded, s)
    else finish_telemetry env s
        (add_metrics tc env.now 0 s.contents.devices metrics s.contents.telemetry)

unfoldable pub list_telemetry : TenantContext → String → Store → List Metric
list_telemetry tc device_id s =
    filter (λ m. m.device_id == device_id && owns_device tc (lookup m.device_id s.contents.devices))
      s.contents.telemetry

-- `GetDevice` locks and unlocks first; no other operation is taken to come between.
unfoldable pub save_inventory :
    Env → TenantContext → String → Json → Store → Option StoreError × Store
save_inventory env tc device_id payload s = elim (get_device tc device_id s).1 [
  | some e ↦ (some e, s)
  | none ↦ save_locked env.disk (record s {
    contents = record s.contents { inventory = insert device_id payload s.contents.inventory };
  })
]

unfoldable pub list_inventory : TenantContext → Store → Dict Json
list_inventory tc s =
    retain (λ device_id _. owns_device tc (lookup device_id s.contents.devices))
      s.contents.inventory
