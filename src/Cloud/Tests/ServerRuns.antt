-- ===== src/Cloud/Tests/ServerRuns.antt =====
-- Runs of the theorems of the HTTP API.
use Prim.Native.String.{count}
use text.Mathlib.TextLemmas.{length-append}
use soul_room_edge_platform.Base.{
  ℕ, zero, suc, ◌+◌, ◌<◌, ◌≤◌, ◌<>◌, ◌≡◌, ◌≢◌, ◌⊎◌, refl, ap, true, none, some, [], ◌∷◌, ◌==◌,
  arith, differ, string_dec, ◌*◌, false,
}
use soul_room_edge_platform.Base.Dict.{lookup}
use soul_room_edge_platform.Base.Int.{pos}
use soul_room_edge_platform.Base.Lists.{any, All}
use soul_room_edge_platform.Base.Dict.{insert, values}
use soul_room_edge_platform.Base.Patterns.{matches}
use soul_room_edge_platform.Cloud.Model.{TenantContext, Session, Campaign}
use soul_room_edge_platform.Cloud.Rbac.{Permission, device_read, role_permissions, role_grants}
use soul_room_edge_platform.Cloud.Store.{new_id, save_locked}
use soul_room_edge_platform.Cloud.Store.Jobs.{create_job, find_replay, jobs_for_deployment}
use soul_room_edge_platform.Cloud.Store.Campaigns.{get_ota_campaign, update_ota_campaign}
use soul_room_edge_platform.Cloud.Server.{failure, error_json, with_auth}
use soul_room_edge_platform.Cloud.Server.Accounts.{can_assign_role}
use soul_room_edge_platform.Cloud.Server.Fleet.{audit}
use soul_room_edge_platform.Cloud.Server.Work.{new_job, allowed_types}
use soul_room_edge_platform.Cloud.Server.Metadata.{
  validate_metadata, validate_flatpak, validate_rollout, flatpak_ref_pattern, name_pattern,
}
use soul_room_edge_platform.Cloud.Server.Rollout.{
  canary_count, has_job, remaining_targets, PromoteRequest, queue_jobs, queue_ota_jobs,
  finish_rollout, promote_rest, promote,
}
use soul_room_edge_platform.Cloud.Server.Access.{
  NamesTenant, IsSignedIn, IsContext, with_auth_lem, can_assign_role-role_grants, role_names,
}
use soul_room_edge_platform.Cloud.Server.Control.{at_devices, control_handler}
use soul_room_edge_platform.Cloud.Server.Policy.{needed, control_handler-needed}
use soul_room_edge_platform.Cloud.Server.Pilot.{AreFresh, drawn_id, canary_count_lem}
use soul_room_edge_platform.Cloud.Server.Pilot.Promotion.{HasJob, promote-HasKey}
use soul_room_edge_platform.Cloud.Tests.{tenant_context}
use soul_room_edge_platform.Cloud.Tests.Servers.{
  library, store, calls, marks, request, server, reads, flatpak,
}

count-marks : (n : ℕ) → count (marks n) ≡ n
count-marks zero = refl
count-marks (suc n) = omega (arith, length-append "x" (marks n), count-marks n)

count-drawn_id : (i : ℕ) → count (drawn_id calls i) ≡ 4 + i
unfolding new_id
count-drawn_id i =
    omega (arith, length-append "job" ("_" <> marks i), length-append "_" (marks i), count-marks i)

calls-AreFresh : AreFresh calls store.contents.jobs 0
unfolding lookup
calls-AreFresh = record {
  absent = λ i h. refl;
  distinct = λ i j less same. ground (arith, count-drawn_id i, count-drawn_id j, ap count same);
}

members_named : All NamesTenant store.contents.memberships
unfolding string_dec
members_named = (differ _ _ refl, tt)

with_auth_example :
    (with_auth library 100 request store audit
      ≡ error_json 401 "unauthorized" "authentication required" store)
    ⊎ (with_auth library 100 request store audit
        ≡ error_json 403 "forbidden" "tenant membership required" store)
    ⊎ ((session : Session) × (tc : TenantContext) × IsSignedIn library 100 request store session
        × IsContext request store session.user_id tc
        × (with_auth library 100 request store audit ≡ audit tc store))
with_auth_example = with_auth_lem library 100 request store audit members_named

assigns : can_assign_role ("organization_administrator" ∷ []) "fleet_operator" ≡ true
unfolding can_assign_role role_permissions string_dec
assigns = refl

can_assign_role-role_grants_example :
    (any (λ name. "fleet_operator" == name) role_names ≡ true)
    × ((role_grants device_read "fleet_operator" ≡ false)
        ⊎ (any (role_grants device_read) ("organization_administrator" ∷ []) ≡ true))
can_assign_role-role_grants_example =
    can_assign_role-role_grants ("organization_administrator" ∷ []) "fleet_operator" device_read
      assigns

control_handler-needed_example :
    ((control_handler server reads request (at_devices (failure "no body")) store).1 ≡ store)
    ⊎ ((session : Session) × (tc : TenantContext) × (p : Permission) × IsSignedIn library 100
          request store session
        × IsContext request store session.user_id tc
        × (request.method ≢ "GET")
        × (needed (at_devices (failure "no body")) request.method ≡ some p)
        × (any (role_grants p) tc.roles ≡ true))
control_handler-needed_example =
    control_handler-needed server reads request (at_devices (failure "no body")) store members_named

flatpak_valid : validate_metadata library flatpak ≡ none
unfolding validate_metadata validate_flatpak validate_rollout flatpak_ref_pattern name_pattern
    matches string_dec
flatpak_valid = refl

canary_count_example :
    (1 ≤ canary_count 1 (pos 50))
    × (canary_count 1 (pos 50) ≤ 1)
    × (1 * 50 ≤ 100 * canary_count 1 (pos 50))
    × (100 * canary_count 1 (pos 50) < 1 * 50 + 100)
canary_count_example = canary_count_lem library flatpak flatpak_valid

abbrev promotion : PromoteRequest
promotion = record { campaign_id = "ota_1"; action = "promote" }

promoted : (promote library calls calls (tenant_context "t1") promotion store).0.status ≡ 200
unfolding promote get_ota_campaign lookup string_dec remaining_targets jobs_for_deployment values
    promote_rest queue_ota_jobs queue_jobs new_job allowed_types create_job find_replay save_locked
    finish_rollout update_ota_campaign insert new_id
promoted = refl

promote-HasKey_example :
    (c : Campaign) × ((get_ota_campaign (tenant_context "t1") promotion.campaign_id store).0
      ≡ some c)
    × (c.state ≡ "canary_complete")
    × All
        (λ d.
          (has_job (jobs_for_deployment (tenant_context "t1") c.id store) d ≡ true)
          ⊎ HasJob
              (tenant_context "t1")
              c
              store.contents.jobs
              (promote library calls calls (tenant_context "t1") promotion store).1.contents.jobs
              d)
        c.target_ids
promote-HasKey_example =
    promote-HasKey library calls calls (tenant_context "t1") promotion store calls-AreFresh promoted
