-- ===== src/Cloud/Store/Invariant/Devices.antt =====
-- The device, inventory and telemetry operations keep the invariant.
use soul_room_edge_platform.Base.{
  ℕ, ◌+◌, String, ◌≡◌, refl, inl, inr, true, Option, none, some, List, [], ◌∷◌, ◌++◌, ◌!=◌, arith,
  string_dec, Option-cases, Bool-cases,
}
use soul_room_edge_platform.Base.Lists.{filter, All-append}
use soul_room_edge_platform.Base.Dict.{
  Dict, lookup, insert, erase, retain, Entries-insert, Entries-erase, Entries-erase_ne,
  Entries-retain, Entries-rewrite, lookup-erase,
}
use soul_room_edge_platform.Cloud.Model.{TenantContext, Time, Json, Device, Metric, Job, Campaign}
use soul_room_edge_platform.Cloud.Store.{
  StoreData, Store, Env, new_id, or_default, save_locked-contents,
}
use soul_room_edge_platform.Cloud.Store.Jobs.{owns_device}
use soul_room_edge_platform.Cloud.Store.Devices.{
  with_devices, create_device, update_device, drop_target, purge_device, delete_device, add_metrics,
  with_telemetry, add_telemetry, get_device, save_inventory,
}
use soul_room_edge_platform.Cloud.Store.Invariant.{
  IsValid, IsStored, JobOwners, MetricOwners, IsValid-extend, Extends-fresh, Extends-update,
}

-- An id that no device has.
abbrev pub IsFreshDevice : Env → Store → Type 0
IsFreshDevice env s = lookup (new_id "dev" (env.random 0)) s.contents.devices ≡ none

pub create_device-IsValid :
    (env : Env) (device : Device) (s : Store)
    → IsFreshDevice env s
    → IsValid s.contents
    → IsValid (create_device env device s).store.contents
unfolding create_device
create_device-IsValid env device s fresh v =
    let d = record device {
      id = new_id "dev" (env.random 0);
      created_at = env.now 0;
      presence = or_default device.presence "offline";
      enrollment_status = or_default device.enrollment_status "enrolled";
    } in
    let ds = insert d.id d s.contents.devices in
    rw (save_locked-contents env.disk (with_devices s ds)) (
      IsValid-extend s.contents ds (Extends-fresh s.contents.devices d fresh)
        (Entries-insert _ d.id d s.contents.devices v.device_keys refl) v)

pub update_device-IsValid :
    (env : Env) (device : Device) (s : Store)
    → IsValid s.contents
    → IsValid (update_device env device s).1.contents
unfolding update_device
update_device-IsValid env device s v = elim (Option-cases (lookup device.id s.contents.devices)) [
  | inl e ↦ rw (e, update_device) v
  | inr (old, e) ↦ elim (string_dec old.tenant_id device.tenant_id) [
    | yes same ↦
        let ds = insert device.id device s.contents.devices in
        let w : IsValid (record s.contents { devices = ds }) =
          IsValid-extend s.contents ds (Extends-update s.contents.devices device old e same)
            (Entries-insert _ device.id device s.contents.devices v.device_keys refl) v in
        ground (arith, w, save_locked-contents env.disk (with_devices s ds))
    | no other ↦ ground (arith, v)
  ]
]

-- What is left after a deletion belongs to the devices that are left.
JobOwners-erase :
    (id : String) (ds : Dict Device) (js : Dict Job)
    → JobOwners ds js
    → JobOwners (erase id ds) (retain (λ _ job. job.device_id != id) js)
JobOwners-erase id ds js =
    Entries-retain _ _ _ js λ k job h keep. ground (arith, lookup-erase id job.device_id ds)

MetricOwners-erase :
    (id : String) (ds : Dict Device) (ms : List Metric)
    → MetricOwners ds ms
    → MetricOwners (erase id ds) (filter (λ m. m.device_id != id) ms)
MetricOwners-erase id ds [] h = tt
MetricOwners-erase id ds (m ∷ ms) h =
    ground (arith, lookup-erase id m.device_id ds, MetricOwners-erase id ds ms h.1)

drop_target-id :
    (tc : TenantContext) (id k : String) (c c' : Campaign)
    → c.id ≡ k
    → drop_target tc id c ≡ some c'
    → c'.id ≡ k
drop_target-id tc id k c c' keyed e = ground arith

purge_device-IsValid :
    (tc : TenantContext) (id : String) (c : StoreData) → IsValid c → IsValid (purge_device tc id c)
unfolding purge_device
purge_device-IsValid tc id c v = record {
  device_keys = Entries-erase _ id c.devices v.device_keys;
  campaign_keys = Entries-rewrite _ _ _ c.ota_campaigns (drop_target-id tc id) v.campaign_keys;
  job_owners = JobOwners-erase id c.devices c.jobs v.job_owners;
  metric_owners = MetricOwners-erase id c.devices c.telemetry v.metric_owners;
  inventory_owners =
      Entries-erase_ne _ _ id c.inventory (λ j _ h ne. ground (arith, lookup-erase id j c.devices))
        v.inventory_owners;
}

pub delete_device-IsValid :
    (env : Env) (tc : TenantContext) (id : String) (s : Store)
    → IsValid s.contents
    → IsValid (delete_device env tc id s).1.contents
unfolding delete_device
delete_device-IsValid env tc id s v =
    let w = purge_device-IsValid tc id s.contents v in
    ground (
      arith,
      v,
      w,
      save_locked-contents env.disk (record s { contents = purge_device tc id s.contents }),
    )

owns_device-IsStored :
    (tc : TenantContext) (o : Option Device) → owns_device tc o ≡ true → IsStored o
owns_device-IsStored tc none h = cc
owns_device-IsStored tc (some d) h = λ e. cc

add_metrics-MetricOwners :
    (tc : TenantContext) (now : ℕ → Time) (i : ℕ) (ds : Dict Device) (ms stored : List Metric)
    → MetricOwners ds stored
    → MetricOwners ds (add_metrics tc now i ds ms stored).1
unfolding add_metrics
add_metrics-MetricOwners tc now i ds [] stored h = h
add_metrics-MetricOwners tc now i ds (m ∷ ms) stored h =
    let m' = record m { received_at = now i } in
    elim (Bool-cases (owns_device tc (lookup m.device_id ds))) [
      | inl own ↦ ground (
        arith,
        h,
        add_metrics-MetricOwners tc now (i + 1) ds ms (stored ++ (m' ∷ []))
            (All-append _ stored (m' ∷ []) h (owns_device-IsStored tc _ own, tt)),
      )
      | inr foreign ↦ ground (arith, h)
    ]

pub add_telemetry-IsValid :
    (env : Env) (tc : TenantContext) (ms : List Metric) (s : Store)
    → IsValid s.contents
    → IsValid (add_telemetry env tc ms s).1.contents
unfolding add_telemetry
add_telemetry-IsValid env tc ms s v =
    let r = add_metrics tc env.now 0 s.contents.devices ms s.contents.telemetry in
    ground (
      arith,
      v,
      add_metrics-MetricOwners tc env.now 0 s.contents.devices ms s.contents.telemetry
          v.metric_owners,
      save_locked-contents env.disk (with_telemetry s r.1),
    )

pub save_inventory-IsValid :
    (env : Env) (tc : TenantContext) (id : String) (payload : Json) (s : Store)
    → IsValid s.contents
    → IsValid (save_inventory env tc id payload s).1.contents
unfolding save_inventory get_device
save_inventory-IsValid env tc id payload s v =
    let js = insert id payload s.contents.inventory in
    elim (Option-cases (lookup id s.contents.devices)) [
      | inl e ↦ ground (arith, v)
      | inr (d, e) ↦
          let stored : IsStored (lookup id s.contents.devices) = λ n. cc in
          let w : IsValid (record s.contents { inventory = js }) = record {
            device_keys = v.device_keys;
            campaign_keys = v.campaign_keys;
            job_owners = v.job_owners;
            metric_owners = v.metric_owners;
            inventory_owners =
                Entries-insert _ id payload s.contents.inventory v.inventory_owners stored;
          } in
          ground (
            arith,
            v,
            w,
            save_locked-contents env.disk
                (record s { contents = record s.contents { inventory = js } }),
          )
    ]
