-- ===== src/Cloud/Tests/AssistantRuns.antt =====
-- Runs of the theorems of the assistant, and of the registry of devices.
use soul_room_edge_platform.Base.{◌≤◌, String, ◌≡◌, refl, List, [], ◌∷◌, arith, string_dec}
use soul_room_edge_platform.Base.Int.{scale, signed}
use soul_room_edge_platform.Base.Dict.{Dict, lookup, insert}
use soul_room_edge_platform.Base.Lists.{length}
use soul_room_edge_platform.Cloud.Model.{TenantContext, Device, Time}
use soul_room_edge_platform.Cloud.Rbac.{
  Permission, authorize, require, role_permissions, permission_text,
}
use soul_room_edge_platform.Cloud.Store.{Store, new_id, save_locked}
use soul_room_edge_platform.Cloud.Store.Organizations.{platform_settings_of}
use soul_room_edge_platform.Cloud.Store.Jobs.{create_job, find_replay}
use soul_room_edge_platform.Cloud.Store.Devices.{get_device}
use soul_room_edge_platform.Cloud.Store.Devices.Registry.{
  Deed, enrolls, removes, registry, perform_all, perform_all_abstract, AreProper,
  registry-perform_all,
}
use soul_room_edge_platform.Cloud.Assistant.{stamps, cutoff, allow}
use soul_room_edge_platform.Cloud.Assistant.Limit.{Run, start, call, since, allow-le-limit}
use soul_room_edge_platform.Cloud.Server.{success, Request, Handled}
use soul_room_edge_platform.Cloud.Server.Settings.{effective_platform_settings}
use soul_room_edge_platform.Cloud.Server.Work.{new_job, allowed_types}
use soul_room_edge_platform.Cloud.Server.Pilot.{HasKey}
use soul_room_edge_platform.Cloud.Server.Assistant.{
  Approval, open_json, open_sealed, ai_job_permission, device_supports_ai_job, approval_key,
  finish_action, run_approved, refuse_approval, approve, ai_action,
}
use soul_room_edge_platform.Cloud.Server.Assistant.Approved.{IsApproved, ai_action-IsApproved}
use soul_room_edge_platform.Cloud.Tests.{tenant_context, device}
use soul_room_edge_platform.Cloud.Tests.Servers.{box, library, config, store, calls, request}

abbrev operator : TenantContext
operator = record { tenant_id = "t1"; actor_id = "u1"; roles = "fleet_operator" ∷ []; scopes = [] }

-- The store with a device that collects logs.
abbrev equipped : Store
equipped = record store {
  contents = record store.contents {
    devices =
        ("dev_1", record (device "dev_1" "t1") { capabilities = "job:collect_logs" ∷ [] }) ∷ [];
  };
}

abbrev post : Request
post = record request { method = "POST" }

abbrev answered : Handled
answered = ai_action library box operator config calls post (success "sealed") equipped

answered_created : answered.0.status ≡ 201
unfolding ai_action approve open_json open_sealed refuse_approval ai_job_permission
    device_supports_ai_job get_device lookup authorize require role_permissions permission_text
    run_approved new_job allowed_types create_job find_replay new_id save_locked insert
    finish_action string_dec scale signed effective_platform_settings platform_settings_of
answered_created = refl

ai_action-IsApproved_example :
    (token : String) × (a : Approval) × (d : Device) × (p : Permission) × (success "sealed"
      ≡ success token)
    × (open_json box token "ai-action" ≡ success a)
    × IsApproved operator 100 equipped a d p
    × HasKey operator (approval_key library box operator token) answered.1.contents.jobs
ai_action-IsApproved_example =
    ai_action-IsApproved library box operator config calls post (success "sealed") equipped
      answered_created

-- Two requests at once, with a limit of one: the second is refused.
abbrev first_times : Dict (List Time)
first_times = (allow 1 70000000000 "t1:u1" []).1

two_requests :
    Run 1 "t1:u1" 70000000000 (70000000000 ∷ []) (allow 1 70000000000 "t1:u1" first_times).1
unfolding allow stamps lookup insert cutoff string_dec
two_requests =
    call 70000000000 70000000000 "t1:u1" (70000000000 ∷ []) first_times
      (call 70000000000 0 "t1:u1" [] [] start (omega arith)) (omega arith)

allow-le-limit_example : length (since (cutoff 70000000000) (70000000000 ∷ [])) ≤ 1
allow-le-limit_example =
    allow-le-limit 1 "t1:u1" 70000000000 (70000000000 ∷ [])
      (allow 1 70000000000 "t1:u1" first_times).1 two_requests

-- One tenant enrolls a device, another removes one that is not its own.
abbrev deeds : List Deed
deeds =
    record { env = calls 0; context = tenant_context "t1"; call = enrolls (device "" "t1") }
    ∷ record { env = calls 1; context = tenant_context "t2"; call = removes "dev_1" }
    ∷ []

deeds_proper : AreProper deeds store
unfolding lookup new_id string_dec
deeds_proper = (refl, refl, (tt, tt, tt))

registry-perform_all_example :
    registry (tenant_context "t1") (perform_all deeds store)
    ≡ perform_all_abstract (tenant_context "t1") deeds (registry (tenant_context "t1") store)
registry-perform_all_example = registry-perform_all (tenant_context "t1") deeds store deeds_proper
