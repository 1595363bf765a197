-- ===== src/Cloud/Store/Devices/Registry.antt =====
-- What one tenant sees of the devices of cloud-infra/internal/storage/store.go while all tenants
-- work on the same store: a registry of its own, apart from how the devices are stored.
use soul_room_edge_platform.Base.{
  String, ◌≡◌, ◌≢◌, refl, sym, ap, ◌∙◌, true, false, Option, none, some, List, [], ◌∷◌, ◌==◌,
  if◌then◌else◌, arith, string_dec,
}
use soul_room_edge_platform.Base.Dict.{lookup, insert, lookup-insert, lookup-erase}
use soul_room_edge_platform.Cloud.Model.{TenantContext, Device}
use soul_room_edge_platform.Cloud.Store.{Store, Env, new_id, or_default, save_locked}
use soul_room_edge_platform.Cloud.Store.Devices.{
  get_device, create_device, update_device, delete_device, purge_device,
}

-- The abstract registry, and its three operations.
abbrev pub Registry : Type 0
Registry = String → Option Device

pub data RegistryCall : Type 0 where
  enrolls changes : Device → RegistryCall
  removes : String → RegistryCall

-- a device as `CreateDevice` completes it
abbrev pub completed : Env → Device → Device
completed env d = record d {
  id = new_id "dev" (env.random 0);
  created_at = env.now 0;
  presence = or_default d.presence "offline";
  enrollment_status = or_default d.enrollment_status "enrolled";
}

-- Only a device that is there is changed.
abbrev pub replaced : Device → Option Device → Option Device
replaced d none = none
replaced d (some _) = some d

abbrev pub perform_abstract : Env → RegistryCall → Registry → Registry
perform_abstract env (enrolls d) m k =
    if new_id "dev" (env.random 0) == k then some (completed env d) else m k
perform_abstract env (changes d) m k = if d.id == k then replaced d (m k) else m k
perform_abstract env (removes id) m k = if id == k then none else m k

-- The same operations on the store, for the tenant of `tc`.
unfoldable pub perform : Env → TenantContext → RegistryCall → Store → Store
perform env tc (enrolls d) s = (create_device env d s).store
perform env tc (changes d) s = (update_device env d s).1
perform env tc (removes id) s = (delete_device env tc id s).1

-- What the tenant sees.
unfoldable pub registry : TenantContext → Store → Registry
registry tc s k = (get_device tc k s).0

-- A device that is enrolled or changed is the tenant's.
abbrev pub IsOwn : TenantContext → RegistryCall → Type 0
IsOwn tc (enrolls d) = d.tenant_id ≡ tc.tenant_id
IsOwn tc (changes d) = d.tenant_id ≡ tc.tenant_id
IsOwn tc (removes id) = Unit

-- The id of a new device is not in use.
abbrev pub IsNew : Env → RegistryCall → Store → Type 0
IsNew env (enrolls d) s = lookup (new_id "dev" (env.random 0)) s.contents.devices ≡ none
IsNew env (changes d) s = Unit
IsNew env (removes id) s = Unit

-- The map of devices after each operation, whatever the disk does.
created_devices :
    (env : Env) (d : Device) (s : Store)
    → (create_device env d s).store.contents.devices
      ≡ insert (new_id "dev" (env.random 0)) (completed env d) s.contents.devices
unfolding create_device save_locked
created_devices env d s = ground arith

own_registry :
    (env : Env) (tc : TenantContext) (call : RegistryCall) (s : Store) (k : String)
    → IsOwn tc call
    → registry tc (perform env tc call s) k ≡ perform_abstract env call (registry tc s) k
unfolding registry perform get_device update_device delete_device purge_device save_locked
own_registry env tc (enrolls d) s k own = ground (
  arith,
  created_devices env d s,
  lookup-insert (new_id "dev" (env.random 0)) k (completed env d) s.contents.devices,
)
own_registry env tc (changes d) s k own = ground (arith, lookup-insert d.id k d s.contents.devices)
own_registry env tc (removes id) s k own = ground (arith, lookup-erase id k s.contents.devices)

other_registry :
    (env : Env) (tc tc' : TenantContext) (call : RegistryCall) (s : Store) (k : String)
    → tc.tenant_id ≢ tc'.tenant_id
    → IsOwn tc call
    → IsNew env call s
    → registry tc' (perform env tc call s) k ≡ registry tc' s k
unfolding registry perform get_device update_device delete_device purge_device save_locked
other_registry env tc tc' (enrolls d) s k ne own new = ground (
  arith,
  created_devices env d s,
  lookup-insert (new_id "dev" (env.random 0)) k (completed env d) s.contents.devices,
)
other_registry env tc tc' (changes d) s k ne own new =
    ground (arith, lookup-insert d.id k d s.contents.devices)
other_registry env tc tc' (removes id) s k ne own new =
    ground (arith, lookup-erase id k s.contents.devices)

-- An operation of some tenant.
pub record Deed : Type 0 where
  pub env : Env
  pub context : TenantContext
  pub call : RegistryCall

abbrev pub perform_all : List Deed → Store → Store
perform_all [] s = s
perform_all (a ∷ rest) s = perform_all rest (perform a.env a.context a.call s)

-- The same operations on the registry of one tenant, which those of the others pass by.
abbrev pub perform_all_abstract : TenantContext → List Deed → Registry → Registry
perform_all_abstract tc [] m = m
perform_all_abstract tc (a ∷ rest) m =
    perform_all_abstract tc rest
      (if a.context.tenant_id == tc.tenant_id then perform_abstract a.env a.call m else m)

abbrev pub AreProper : List Deed → Store → Type 0
AreProper [] s = Unit
AreProper (a ∷ rest) s =
    IsOwn a.context a.call
    × IsNew a.env a.call s
    × AreProper rest (perform a.env a.context a.call s)

registry_tenant :
    (tc tc' : TenantContext) (s : Store) (k : String)
    → tc.tenant_id ≡ tc'.tenant_id
    → registry tc s k ≡ registry tc' s k
unfolding registry get_device
registry_tenant tc tc' s k e = ground arith

deed_registry :
    (tc : TenantContext) (a : Deed) (s : Store)
    → IsOwn a.context a.call
    → IsNew a.env a.call s
    → registry tc (perform a.env a.context a.call s) ≡ (
        if a.context.tenant_id == tc.tenant_id
        then perform_abstract a.env a.call (registry tc s)
        else registry tc s)
deed_registry tc a s own new = elim (string_dec a.context.tenant_id tc.tenant_id) [
  | yes e ↦
      let mine : (a.context.tenant_id == tc.tenant_id) ≡ true = ground arith in
      let after = perform a.env a.context a.call s in
      let view : registry a.context s ≡ registry tc s =
        λ i k. registry_tenant a.context tc s k e i in
      let step : registry a.context after ≡ perform_abstract a.env a.call (registry a.context s) =
        λ i k. own_registry a.env a.context a.call s k own i in
      let view' : registry a.context after ≡ registry tc after =
        λ i k. registry_tenant a.context tc after k e i in
      rw mine (sym view' ∙ step ∙ ap (perform_abstract a.env a.call) view)
  | no ne ↦
      let theirs : (a.context.tenant_id == tc.tenant_id) ≡ false = ground arith in
      rw theirs (λ i k. other_registry a.env a.context tc a.call s k ne own new i)
]

-- However the tenants enroll, change and remove devices on the shared store, each with devices of
-- its own and new ids that are not in use, every tenant sees what its own operations alone make of
-- its registry: an enrolled device is added, a device that is there is replaced, a removed one is
-- gone, and no operation of another tenant shows.
pub registry-perform_all :
    (tc : TenantContext) (deeds : List Deed) (s : Store)
    → AreProper deeds s
    → registry tc (perform_all deeds s) ≡ perform_all_abstract tc deeds (registry tc s)
registry-perform_all tc [] s proper = refl
registry-perform_all tc (a ∷ rest) s proper =
    registry-perform_all tc rest (perform a.env a.context a.call s) proper.2
    ∙ ap (perform_all_abstract tc rest) (deed_registry tc a s proper.0 proper.1)
