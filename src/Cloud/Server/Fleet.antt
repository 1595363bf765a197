-- ===== src/Cloud/Server/Fleet.antt =====
-- The handlers of devices, telemetry, artifacts, audit events and remote access in
-- cloud-infra/internal/server/server.go.
use soul_room_edge_platform.Base.{
  ℕ, ◌+◌, ◌^◌, String, ◌<>◌, Bool, true, false, ◌&&◌, ◌||◌, not, Option, none, some, List, [], ◌∷◌,
  ◌==◌, ◌!=◌, if◌then◌else◌, ltb, eqb,
}
use soul_room_edge_platform.Base.Int.{ℤ, pos, scale, move, eqb_ℤ}
use soul_room_edge_platform.Base.Floats.{float_leb}
use soul_room_edge_platform.Base.Patterns.{codes, all_codes, is_alphanumeric}
use soul_room_edge_platform.Cloud.Model.{
  TenantContext, Time, Float64, Device, DeviceLocation, DownstreamDevice, Artifact,
}
use soul_room_edge_platform.Cloud.Rbac.{
  device_read, device_update, device_delete, telemetry_read, audit_read, remote_create,
}
use soul_room_edge_platform.Cloud.Store.{Store, Env, is_zero}
use soul_room_edge_platform.Cloud.Store.Devices.{
  get_device, update_device, delete_device, list_devices, list_downstream, list_inventory,
  list_telemetry,
}
use soul_room_edge_platform.Cloud.Store.Campaigns.{list_artifacts, list_audit}
use soul_room_edge_platform.Cloud.Server.{
  Outcome, Library, Request, fields, downstream_body, inventory_body, devices_body, device_body,
  metrics_body, artifacts_body, audit_body, pem_body, Handled, Calls, write_json, error_json,
  method_not_allowed, bad_request, bool_string, error_text, guarded, with_body, record_event,
}
use soul_room_edge_platform.Cloud.Server.Settings.{Config, effective_platform_settings}
use soul_room_edge_platform.Cloud.Server.Accounts.{minute}

-- The bit patterns of 90 and 180; the sign bit negates them.
unfoldable pub valid_coordinates : Float64 → Float64 → Bool
valid_coordinates latitude longitude =
    float_leb (ninety + 2 ^ 63) latitude
    && float_leb latitude ninety
    && float_leb (one_hundred_eighty + 2 ^ 63) longitude
    && float_leb longitude one_hundred_eighty
  where
    ninety : Float64
    ninety = 4636033603912859648

    one_hundred_eighty : Float64
    one_hundred_eighty = 4640537203540230144

-- the loop of `devices` over the listed devices; its turn `i` reads the clock for the `i`th time
unfoldable pub mark_offline : (ℕ → Time) → ℤ → ℕ → List Device → List Device
mark_offline now offline_after i [] = []
mark_offline now offline_after i (d ∷ ds) =
    (if not (is_zero d.last_seen_at) && ltb (move d.last_seen_at offline_after) (now i)
      then record d { presence = "offline" }
      else d)
    ∷ mark_offline now offline_after (i + 1) ds

pub record DeviceRequest : Type 0 where
  pub device_id : String
  pub location : Option DeviceLocation
  pub remote_access_id : Option String

-- `device.Location = req.Location`, with the source and the time, where the request has one
abbrev pub relocate : Time → Option DeviceLocation → Device → Device
relocate now none d = d
relocate now (some l) d = record d {
  location = some (record l { source = "manual"; updated_at = now });
}

abbrev pub is_bad_location : Option DeviceLocation → Bool
is_bad_location none = false
is_bad_location (some l) = not (valid_coordinates l.latitude l.longitude)

abbrev pub is_some {ℓ} : {A : Type ℓ} → Option A → Bool
is_some none = false
is_some (some _) = true

pub record AccessRequest : Type 0 where
  pub device_id : String
  pub user : String

abbrev pub is_ssh_code : ℕ → Bool
is_ssh_code c = is_alphanumeric c || eqb c b'.' || eqb c b'_' || eqb c b'-' || eqb c b'@'

unfoldable pub safe_ssh_part : String → Bool
safe_ssh_part value = value != "" && all_codes is_ssh_code (codes value)

unfoldable pub downstream :
    ((DownstreamDevice → DownstreamDevice → Bool) → List DownstreamDevice → List DownstreamDevice)
    → TenantContext
    → Store
    → Handled
downstream sort tc s =
    guarded tc device_read s (write_json 200 (downstream_body (list_downstream sort tc s)) s)

unfoldable pub inventory : TenantContext → Store → Handled
inventory tc s = guarded tc device_read s (write_json 200 (inventory_body (list_inventory tc s)) s)

unfoldable pub telemetry_query : Request → TenantContext → Store → Handled
telemetry_query req tc s =
    guarded tc telemetry_read s
      (write_json 200 (metrics_body (list_telemetry tc (req.query "device_id") s)) s)

unfoldable pub artifacts :
    ((Artifact → Artifact → Bool) → List Artifact → List Artifact) → TenantContext → Store → Handled
artifacts sort tc s = write_json 200 (artifacts_body (list_artifacts sort tc s)) s

unfoldable pub audit : TenantContext → Store → Handled
audit tc s = guarded tc audit_read s (write_json 200 (audit_body (list_audit tc s)) s)

-- `certificate` is the field `CertPEM` of the authority, if there is one.
unfoldable pub dev_ca : Option String → Request → Store → Handled
dev_ca certificate req s = elim certificate [
  | none ↦ error_json 404 "not_found" "development CA is unavailable" s
  | some pem ↦
      if req.method != "GET"
      then error_json 404 "not_found" "development CA is unavailable" s
      else write_json 200 (pem_body pem) s
]

module _ (lib : Library) where
  unfoldable pub remove_device : Calls → Request → TenantContext → Store → Handled
  remove_device calls req tc s =
      let device_id = lib.trim_space (req.query "device_id") in
      if device_id == ""
      then bad_request "device_id is required" s
      else (let (failed, removed) = delete_device (calls 0) tc device_id s in
          elim failed [
            | some e ↦ error_json 400 "device_delete_failed" (error_text e) removed
            | none ↦
                write_json 200 (fields (("status", "removed") ∷ ("device_id", device_id) ∷ []))
                  (record_event lib (calls 1) tc "device.removed" "device" device_id none removed)
          ])

  -- the device once the request is applied
  abbrev pub edited_device : Time → DeviceRequest → Device → Device
  edited_device now request d =
      let moved = relocate now request.location d in
      elim request.remote_access_id [
        | none ↦ moved
        | some id ↦ record moved { remote_access_id = lib.trim_space id }
      ]

  unfoldable pub edit_device : Calls → DeviceRequest → TenantContext → Store → Handled
  edit_device calls request tc s = elim (get_device tc request.device_id s).0 [
    | none ↦ error_json 404 "not_found" "device not found" s
    | some d ↦
        if is_bad_location request.location
        then error_json 400 "invalid_location" "latitude or longitude is invalid" s
        else (let edited = edited_device ((calls 0).now 0) request d in
            let (failed, updated) = update_device (calls 1) edited s in
            elim failed [
              | some e ↦ error_json 500 "device_update_failed" (error_text e) updated
              | none ↦ write_json 200 (device_body edited) (
                  record_event lib (calls 2) tc "device.settings_updated" "device" edited.id
                    (some (
                      ("location", bool_string (is_some request.location))
                      ∷ ("remote_access", bool_string (is_some request.remote_access_id))
                      ∷ []))
                    updated)
            ])
  ]

  module _ (cfg : Config) where
    unfoldable pub devices :
        ((Device → Device → Bool) → List Device → List Device)
        → Calls
        → Request
        → Outcome DeviceRequest
        → TenantContext
        → Store
        → Handled
    devices sort calls req body tc s = guarded tc device_read s (
        if req.method == "GET"
        then (let minutes = (effective_platform_settings cfg tc s).0.device_offline_minutes in
            write_json 200
              (devices_body
                (mark_offline (calls 0).now (scale minutes minute) 0 (list_devices sort tc s)))
              s)
        else if req.method == "DELETE"
        then guarded tc device_delete s (remove_device calls req tc s)
        else if req.method != "PATCH"
        then method_not_allowed s
        else guarded tc device_update s
            (with_body body s (λ request. edit_device calls request tc s)))

    abbrev pub ssh_command : ℤ → String → Device → String
    ssh_command port user d =
        "ssh "
        <> (if eqb_ℤ port (pos 22) then "" else "-p " <> lib.itoa port <> " ")
        <> user
        <> "@"
        <> d.remote_access_id

    unfoldable pub open_access : Env → AccessRequest → TenantContext → Store → Handled
    open_access env request tc s = elim (get_device tc request.device_id s).0 [
      | none ↦ error_json 400 "remote_access_unmapped" "device does not have a ShellHub SSHID" s
      | some d ↦
          if d.remote_access_id == ""
          then error_json 400 "remote_access_unmapped" "device does not have a ShellHub SSHID" s
          else if not (safe_ssh_part request.user) || not (safe_ssh_part d.remote_access_id)
          then error_json 400 "invalid_ssh_identity" "SSH user or ShellHub SSHID is invalid" s
          else (let settings = (effective_platform_settings cfg tc s).0 in
              write_json 201
                (fields (
                  ("provider", "shellhub")
                  ∷ ("launch_url", settings.shell_hub_url)
                  ∷ ("ssh_command", ssh_command settings.shell_hub_ssh_port request.user d)
                  ∷ []))
                (record_event lib env tc "remote_access.requested" "device" d.id
                  (some (("provider", "shellhub") ∷ ("user", request.user) ∷ [])) s))
    ]

    unfoldable pub remote_access :
        Env → Request → Outcome AccessRequest → TenantContext → Store → Handled
    remote_access env req body tc s =
        if req.method != "POST"
        then method_not_allowed s
        else guarded tc remote_create s (
            if (effective_platform_settings cfg tc s).0.shell_hub_url == ""
            then error_json 503 "remote_access_unconfigured" "ShellHub URL is not configured" s
            else with_body body s (λ request. open_access env request tc s))
