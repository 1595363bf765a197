-- ===== src/Cloud/Server/Devices.antt =====
-- The handlers of the device gateway in cloud-infra/internal/server/server.go.
use soul_room_edge_platform.Base.{
  ◌*◌, String, ◌&&◌, ◌||◌, Option, none, some, List, [], ◌∷◌, ◌==◌, ◌!=◌, if◌then◌else◌, ltb,
}
use soul_room_edge_platform.Base.Lists.{length}
use soul_room_edge_platform.Cloud.Model.{TenantContext, Time, Json, Device}
use soul_room_edge_platform.Cloud.Store.{not_found, Store, Env, or_default}
use soul_room_edge_platform.Cloud.Store.Devices.{
  get_device, update_device, add_telemetry, save_inventory,
}
use soul_room_edge_platform.Cloud.Store.Jobs.{next_job_for_device, complete_job}
use soul_room_edge_platform.Cloud.Server.{
  Outcome, failure, success, Library, Request, fields, next_job_body, accepted_body, Handled, Calls,
  write_json, error_json, method_not_allowed, error_text, with_body, record_event,
}
use soul_room_edge_platform.Cloud.Server.Accounts.{minute}
use soul_room_edge_platform.Cloud.Server.Fleet.{valid_coordinates}
use soul_room_edge_platform.Cloud.Server.Enrollment.{context_of}
use soul_room_edge_platform.Cloud.Server.Protocol.{
  Envelope, Heartbeat, Location, Sample, validate_envelope, normalize,
}

-- `deviceContextFromHeaders`: the tenant and the device of the headers, if the tenant has it
unfoldable pub device_context : Request → Store → Option TenantContext
device_context req s =
    if req.tenant_header == "" || req.device_header == ""
    then none
    else elim (get_device (context_of req.tenant_header) req.device_header s).0 [
      | none ↦ none
      | some d ↦ some (context_of req.tenant_header)
    ]

unfoldable pub device_status : Request → Store → Handled
device_status req s =
    if req.method != "GET" then method_not_allowed s else elim (device_context req s) [
      | none ↦
          error_json 401 "unknown_device"
            "device identity rejected; enroll this device again if platform data was reset" s
      | some tc ↦ write_json 200 (fields (("status", "accepted") ∷ [])) s
    ]

unfoldable pub device_next_job : Env → Request → Store → Handled
device_next_job env req s = elim (device_context req s) [
  | none ↦ error_json 401 "unauthorized" "device identity required" s
  | some tc ↦
      let reply = next_job_for_device env tc req.device_header s in
      elim reply.error [
        | some not_found ↦ write_json 200 (next_job_body none) reply.store
        | some e ↦ error_json 400 "job_error" (error_text e) reply.store
        | none ↦ write_json 200 (next_job_body reply.value) reply.store
      ]
]

pub record ResultRequest : Type 0 where
  pub job_id : String
  pub result : Json

-- What `json.Unmarshal` reads in an inventory; a nil list is empty.
pub record InventoryPayload : Type 0 where
  pub hostname : String
  pub architecture : String
  pub os : String
  pub kernel : String
  pub hardware_model : String
  pub serial : String
  pub agent_version : String
  pub capabilities : List String

abbrev pub first_useful : String → String → String
first_useful a b =
    if a != "" && a != "unknown" then a else if b != "" && b != "unknown" then b else "unknown"

-- the device with what its inventory says; `firstNonEmpty` is `or_default`
unfoldable pub apply_inventory : InventoryPayload → Device → Device
apply_inventory i d = record d {
  architecture = or_default i.architecture d.architecture;
  os = or_default i.os d.os;
  kernel = or_default i.kernel d.kernel;
  hardware_model = first_useful i.hardware_model d.hardware_model;
  serial = first_useful i.serial d.serial;
  agent_version = or_default i.agent_version d.agent_version;
  capabilities = if ltb 0 (length i.capabilities) then i.capabilities else d.capabilities;
  display_name =
      if d.display_name == "edge-device" && i.hostname != "" then i.hostname else d.display_name;
}

abbrev pub reported_location : Time → Option Location → Device → Device
reported_location now none d = d
reported_location now (some l) d =
    if valid_coordinates l.latitude l.longitude
    then record d {
      location = some (record {
        latitude = l.latitude;
        longitude = l.longitude;
        accuracy_m = l.accuracy_m;
        source = l.source;
        label = l.label;
        updated_at = now;
      });
    }
    else d

-- the device after a heartbeat; the clock is read for the contact and for the location
unfoldable pub apply_heartbeat : Env → Heartbeat → Device → Device
apply_heartbeat env hb d = reported_location (env.now 1) hb.location (record d {
  last_seen_at = env.now 0;
  presence = "connected";
  agent_version = hb.agent_version;
  health_state = hb.health;
})

abbrev pub accepted : Envelope → Store → Handled
accepted e s =
    write_json 200 (fields (("status", "accepted") ∷ ("message_id", e.message_id) ∷ [])) s

module _ (lib : Library) (calls : Calls) where
  unfoldable pub device_job_result :
      (Json → String) → Request → Outcome ResultRequest → Store → Handled
  device_job_result reported req body s = elim (device_context req s) [
    | none ↦ error_json 401 "unauthorized" "device identity required" s
    | some tc ↦ with_body body s (λ request.
        let (failed, completed) =
          complete_job reported (calls 0) tc request.job_id request.result s in
        elim failed [
          | some e ↦ error_json 400 "job_result_rejected" (error_text e) completed
          | none ↦ write_json 200 (fields (("status", "accepted") ∷ [])) (
              record_event lib (calls 1) tc "device_job.completed" "job" request.job_id none
                completed)
        ])
  ]

  -- `deviceEnvelope`: it answers itself, or passes the envelope on with the context of its tenant.
  -- The first call reads the clock.
  unfoldable pub with_envelope :
      Outcome Envelope → Store → (Envelope → TenantContext → Handled) → Handled
  with_envelope (failure message) s next = error_json 400 "bad_envelope" message s
  with_envelope (success e) s next =
      elim (validate_envelope lib ((calls 0).now 0) (10 * minute) e) [
        | some message ↦ error_json 400 "bad_envelope" message s
        | none ↦ elim (get_device (context_of e.tenant_id) e.device_id s).0 [
          | none ↦ error_json 401 "unknown_device" "device identity rejected" s
          | some d ↦ next e (context_of e.tenant_id)
        ]
      ]

  -- `unmarshal` is what `json.Unmarshal` leaves, whose error is dropped here.
  unfoldable pub device_heartbeat : (Json → Heartbeat) → Outcome Envelope → Store → Handled
  device_heartbeat unmarshal body s = with_envelope body s (λ e tc.
      elim (get_device tc e.device_id s).0 [
        | none ↦ error_json 403 "unknown_device" "device not registered" s
        | some d ↦
            accepted e
              (update_device (calls 2) (apply_heartbeat (calls 1) (unmarshal e.payload) d) s).1
      ])

  -- the steps of `deviceTelemetry` behind `deviceEnvelope`
  unfoldable pub store_batch :
      (Json → Outcome (List Sample)) → Envelope → TenantContext → Store → Handled
  store_batch unmarshal e tc s = elim (unmarshal e.payload) [
    | failure message ↦ error_json 400 "bad_telemetry" "invalid telemetry payload" s
    | success samples ↦ elim (normalize (calls 1).now e.device_id e.message_id samples) [
      | failure message ↦ error_json 400 "bad_telemetry" message s
      | success metrics ↦
          let (failed, added) = add_telemetry (calls 2) tc metrics s in
          elim failed [
            | some e' ↦ error_json 400 "telemetry_rejected" (error_text e') added
            | none ↦ write_json 200 (accepted_body (length metrics) e.message_id) added
          ]
    ]
  ]

  unfoldable pub device_telemetry :
      (Json → Outcome (List Sample)) → Outcome Envelope → Store → Handled
  device_telemetry unmarshal body s = with_envelope body s (λ e tc. store_batch unmarshal e tc s)

  -- the update of the device from an inventory that could be read
  unfoldable pub refresh_device : Outcome InventoryPayload → TenantContext → String → Store → Store
  refresh_device (failure message) tc device_id s = s
  refresh_device (success i) tc device_id s = elim (get_device tc device_id s).0 [
    | none ↦ s
    | some d ↦ (update_device (calls 2) (apply_inventory i d) s).1
  ]

  unfoldable pub device_inventory :
      (Json → Outcome InventoryPayload) → Outcome Envelope → Store → Handled
  device_inventory unmarshal body s = with_envelope body s (λ e tc.
      let (failed, saved) = save_inventory (calls 1) tc e.device_id e.payload s in
      elim failed [
        | some e' ↦ error_json 400 "inventory_rejected" (error_text e') saved
        | none ↦ accepted e (refresh_device (unmarshal e.payload) tc e.device_id saved)
      ])

  unfoldable pub device_offline : Outcome Envelope → Store → Handled
  device_offline body s = with_envelope body s (λ e tc. accepted e s)
