-- ===== src/Cloud/Server/Control.antt =====
-- `ControlHandler` of cloud-infra/internal/server/server.go: the endpoints behind `withAuth`, with
-- the bodies that their handlers decode. Left out are `/api/v1/roles`, `/api/v1/deployments`,
-- `/api/v1/applications` and `/api/v1/alerts`, whose answers are constant, and the configuration, the
-- test and the chat of the assistant. Login and logout do not go through `withAuth`.
use soul_room_edge_platform.Base.{String, Bool, Option, List}
use soul_room_edge_platform.Cloud.Model.{TenantContext, Time, PlatformSettings, Campaign}
use soul_room_edge_platform.Cloud.Store.{Store}
use soul_room_edge_platform.Cloud.Server.{Outcome, Library, Request, Handled, Calls, with_auth}
use soul_room_edge_platform.Cloud.Server.Settings.{Config, platform_info, platform_settings}
use soul_room_edge_platform.Cloud.Server.Accounts.{
  TokenRequest, UserRequest, current_session, organizations, enrollment_tokens, users,
}
use soul_room_edge_platform.Cloud.Server.Fleet.{
  DeviceRequest, AccessRequest, downstream, inventory, telemetry_query, artifacts, audit, dev_ca,
  devices, remote_access,
}
use soul_room_edge_platform.Cloud.Server.Assistant.{Cipher, ai_action}
use soul_room_edge_platform.Cloud.Server.Work.{JobRequest, jobs}
use soul_room_edge_platform.Cloud.Server.Rollout.{PromoteRequest, ota_campaigns}

pub data Endpoint : Type 0 where
  at_session at_organizations at_downstream at_inventory at_telemetry at_audit at_artifacts :
      Endpoint
  at_dev_ca at_platform_info : Endpoint
  at_settings : Outcome PlatformSettings → Endpoint
  at_tokens : TokenRequest → Outcome String → Endpoint
  at_devices : Outcome DeviceRequest → Endpoint
  at_jobs : Outcome JobRequest → Endpoint
  at_users : Outcome UserRequest → Endpoint
  at_ota : Outcome PromoteRequest → Outcome Campaign → Endpoint
  at_remote_access : Outcome AccessRequest → Endpoint
  at_ai_actions : Outcome String → Endpoint

-- The server: the library, its configuration, the cipher of the assistant, the certificate of its authority, if it has one, and
-- `sort.Slice`, which takes the order in which to sort.
pub record Server : Type 1 where
  pub lib : Library
  pub config : Config
  pub cipher : Cipher
  pub certificate : Option String
  pub sort : (A : Type 0) → (A → A → Bool) → List A → List A

-- The calls of the store by `queueOTAJobs` and by the rest of a handler.
pub record Reads : Type 0 where
  pub now : Time
  pub queueing : Calls
  pub calls : Calls

unfoldable pub route : Server → Reads → Request → Endpoint → TenantContext → Store → Handled
route srv r req at_session tc s = current_session req tc s
route srv r req at_organizations tc s = organizations (srv.sort _) req s
route srv r req at_downstream tc s = downstream (srv.sort _) tc s
route srv r req at_inventory tc s = inventory tc s
route srv r req at_telemetry tc s = telemetry_query req tc s
route srv r req at_audit tc s = audit tc s
route srv r req at_artifacts tc s = artifacts (srv.sort _) tc s
route srv r req at_dev_ca tc s = dev_ca srv.certificate req s
route srv r req at_platform_info tc s = platform_info srv.config req tc s
route srv r req (at_settings body) tc s = platform_settings srv.config srv.lib r.calls req body tc s
route srv r req (at_tokens body drawn) tc s =
    enrollment_tokens srv.lib srv.config (srv.sort _) r.calls req body drawn tc s
route srv r req (at_devices body) tc s =
    devices srv.lib srv.config (srv.sort _) r.calls req body tc s
route srv r req (at_jobs body) tc s = jobs srv.lib srv.config (srv.sort _) r.calls req body tc s
route srv r req (at_users body) tc s = users srv.lib (srv.sort _) r.calls req body tc s
route srv r req (at_ota promotion creation) tc s =
    ota_campaigns srv.lib r.queueing r.calls tc (srv.sort _) req promotion creation s
route srv r req (at_remote_access body) tc s =
    remote_access srv.lib srv.config (r.calls 0) req body tc s
route srv r req (at_ai_actions body) tc s =
    ai_action srv.lib srv.cipher tc srv.config r.calls req body s

unfoldable pub control_handler : Server → Reads → Request → Endpoint → Store → Handled
control_handler srv r req e s = with_auth srv.lib r.now req s (route srv r req e)
