-- ===== src/Cloud/Store/Invariant.antt =====
-- What holds of the contents between two operations: the maps are keyed by the ids of their
-- values, and what is stored of a device is stored only while the device is, by its own tenant.
pub mod Devices
pub mod Jobs
use soul_room_edge_platform.Base.{
  String, ◌≡◌, refl, ◌≢◌, Bool, true, false, Option, none, some, List, [], ◌∷◌, ◌++◌, ◌==◌, ◌!=◌,
  if◌then◌else◌, arith, string_dec,
}
use soul_room_edge_platform.Base.Lists.{All, filter}
use soul_room_edge_platform.Base.Dict.{
  Dict, lookup, insert, erase, retain, Entries, Entries-insert, Entries-erase, Entries-retain,
  Entries-rewrite, Entries-map, Entries-lookup, lookup-insert, lookup-erase,
}
use soul_room_edge_platform.Cloud.Model.{TenantContext, Json, Device, Metric, Job, Campaign}
use soul_room_edge_platform.Cloud.Store.{StoreData}

-- Whether a device is stored, for the tenant.
abbrev pub belongs : String → Option Device → Bool
belongs tenant none = false
belongs tenant (some d) = d.tenant_id == tenant

abbrev pub IsStored : Option Device → Type 0
IsStored o = o ≢ none

abbrev pub DeviceKeys : Dict Device → Type 0
DeviceKeys = Entries (λ k d. d.id ≡ k)

abbrev pub CampaignKeys : Dict Campaign → Type 0
CampaignKeys = Entries (λ k c. c.id ≡ k)

abbrev pub JobOwners : Dict Device → Dict Job → Type 0
JobOwners ds =
    Entries (λ k job. (job.id ≡ k) × (belongs job.tenant_id (lookup job.device_id ds) ≡ true))

abbrev pub MetricOwners : Dict Device → List Metric → Type 0
MetricOwners ds = All (λ m. IsStored (lookup m.device_id ds))

abbrev pub InventoryOwners : Dict Device → Dict Json → Type 0
InventoryOwners ds = Entries (λ k _. IsStored (lookup k ds))

pub record IsValid (c : StoreData) : Type 0 where
  pub device_keys : DeviceKeys c.devices
  pub campaign_keys : CampaignKeys c.ota_campaigns
  pub job_owners : JobOwners c.devices c.jobs
  pub metric_owners : MetricOwners c.devices c.telemetry
  pub inventory_owners : InventoryOwners c.devices c.inventory

-- A map of devices that keeps every stored device, under its tenant.
abbrev pub Extends : Dict Device → Dict Device → Type 0
Extends ds ds' =
    (k tenant : String) → belongs tenant (lookup k ds) ≡ true → belongs tenant (lookup k ds') ≡ true

IsStored-belongs : (o : Option Device) → IsStored o → (d : Device) × (belongs d.tenant_id o ≡ true)
IsStored-belongs none h = absurd (h refl)
IsStored-belongs (some d) h = (d, ground arith)

belongs-IsStored : (tenant : String) (o : Option Device) → belongs tenant o ≡ true → IsStored o
belongs-IsStored tenant none h = cc
belongs-IsStored tenant (some d) h = λ e. cc

IsStored-extend :
    (ds ds' : Dict Device) (k : String)
    → Extends ds ds'
    → IsStored (lookup k ds)
    → IsStored (lookup k ds')
IsStored-extend ds ds' k ext h =
    let (d, b) = IsStored-belongs (lookup k ds) h in
    belongs-IsStored d.tenant_id (lookup k ds') (ext k d.tenant_id b)

MetricOwners-extend :
    (ds ds' : Dict Device) (ms : List Metric)
    → Extends ds ds'
    → MetricOwners ds ms
    → MetricOwners ds' ms
MetricOwners-extend ds ds' [] ext h = tt
MetricOwners-extend ds ds' (m ∷ ms) ext h =
    (IsStored-extend ds ds' m.device_id ext h.0, MetricOwners-extend ds ds' ms ext h.1)

-- The invariant is kept where devices are added or changed within their tenants.
pub IsValid-extend :
    (c : StoreData) (ds : Dict Device)
    → Extends c.devices ds
    → DeviceKeys ds
    → IsValid c
    → IsValid (record c { devices = ds })
IsValid-extend c ds ext keyed v = record {
  device_keys = keyed;
  campaign_keys = v.campaign_keys;
  job_owners =
      Entries-map _ _ c.jobs (λ k job h. (h.0, ext job.device_id job.tenant_id h.1)) v.job_owners;
  metric_owners = MetricOwners-extend c.devices ds c.telemetry ext v.metric_owners;
  inventory_owners =
      Entries-map _ _ c.inventory (λ k _ h. IsStored-extend c.devices ds k ext h)
        v.inventory_owners;
}

-- A device with a fresh id.
pub Extends-fresh :
    (ds : Dict Device) (d : Device) → lookup d.id ds ≡ none → Extends ds (insert d.id d ds)
Extends-fresh ds d new k tenant h = ground (arith, lookup-insert d.id k d ds)

-- A stored device that stays with its tenant.
pub Extends-update :
    (ds : Dict Device) (d old : Device)
    → lookup d.id ds ≡ some old
    → old.tenant_id ≡ d.tenant_id
    → Extends ds (insert d.id d ds)
Extends-update ds d old found same k tenant h = ground (arith, lookup-insert d.id k d ds)
