-- ===== src/Cloud/Server/Policy.antt =====
-- The policy that the handlers of the control plane enforce, apart from them, and that they do.
use soul_room_edge_platform.Base.{
  String, ◌≡◌, ◌≢◌, ◌⊎◌, inl, inr, refl, ap, ◌∙◌, Bool, true, false, Option, none, some, [], ◌==◌,
  if◌then◌else◌, arith, Option-cases, string_dec, differ,
}
use soul_room_edge_platform.Base.Lists.{any, All}
use soul_room_edge_platform.Cloud.Model.{TenantContext, Session, PlatformSettings, Campaign}
use soul_room_edge_platform.Cloud.Rbac.{
  Permission, device_enroll, device_update, device_delete, device_command, job_delete,
  deployment_create, deployment_approve, user_manage, remote_create, tenant_settings, ai_use,
  authorize, role_grants,
}
use soul_room_edge_platform.Cloud.Rbac.Roles.{roles_allow}
use soul_room_edge_platform.Cloud.Store.{Store}
use soul_room_edge_platform.Cloud.Server.{Outcome, Request, Handled, guarded}
use soul_room_edge_platform.Cloud.Server.Settings.{platform_settings, platform_info}
use soul_room_edge_platform.Cloud.Server.Accounts.{
  TokenRequest, UserRequest, current_session, organizations, enrollment_tokens, users,
}
use soul_room_edge_platform.Cloud.Server.Fleet.{
  DeviceRequest, AccessRequest, downstream, inventory, telemetry_query, artifacts, audit, dev_ca,
  devices, remote_access,
}
use soul_room_edge_platform.Cloud.Server.Assistant.{ai_action}
use soul_room_edge_platform.Cloud.Server.Work.{JobRequest, jobs}
use soul_room_edge_platform.Cloud.Server.Rollout.{
  PromoteRequest, promote_ota_campaign, ota_campaigns,
}
use soul_room_edge_platform.Cloud.Server.Access.{NamesTenant, IsSignedIn, IsContext, with_auth_lem}
use soul_room_edge_platform.Cloud.Server.Control.{
  Endpoint, at_session, at_organizations, at_downstream, at_inventory, at_telemetry, at_audit,
  at_artifacts, at_dev_ca, at_platform_info, at_settings, at_tokens, at_devices, at_jobs, at_users,
  at_ota, at_remote_access, at_ai_actions, Server, Reads, route, control_handler,
}

-- The permission without which a request changes nothing, if there is one that lets it.
unfoldable pub needed : Endpoint → String → Option Permission
needed (at_settings _) method = some tenant_settings
needed (at_tokens _ _) method = some device_enroll
needed (at_devices _) method = some (if method == "DELETE" then device_delete else device_update)
needed (at_jobs _) method = some (if method == "DELETE" then job_delete else device_command)
needed (at_users _) method = some user_manage
needed (at_ota _ _) method =
    some (if method == "PATCH" then deployment_approve else deployment_create)
needed (at_remote_access _) method = some remote_create
needed (at_ai_actions _) method = some ai_use
needed _ method = none

abbrev pub is_authorized : TenantContext → Option Permission → Bool
is_authorized tc none = false
is_authorized tc (some p) = elim (authorize (some tc) p) [ none ↦ true | some _ ↦ false ]

-- A request to read changes nothing, and any other needs its permission.
abbrev pub Obeys : TenantContext → Option Permission → String → Store → Handled → Type 0
Obeys tc p method s answer = (answer.1 ≡ s) ⊎ ((is_authorized tc p ≡ true) × (method ≢ "GET"))

guarded-Obeys :
    (tc : TenantContext) (p : Permission) (method : String) (s : Store) (allowed : Handled)
    → method ≢ "GET"
    → Obeys tc (some p) method s (guarded tc p s allowed)
guarded-Obeys tc p method s allowed ne = ground arith

settings-Obeys :
    (srv : Server) (r : Reads) (req : Request) (body : Outcome PlatformSettings)
    (tc : TenantContext) (s : Store)
    → Obeys tc
        (some tenant_settings)
        req.method
        s
        (platform_settings srv.config srv.lib r.calls req body tc s)
unfolding platform_settings
settings-Obeys srv r req body tc s = ground arith

tokens-Obeys :
    (srv : Server) (r : Reads) (req : Request) (body : TokenRequest) (drawn : Outcome String)
    (tc : TenantContext) (s : Store)
    → Obeys tc
        (some device_enroll)
        req.method
        s
        (enrollment_tokens srv.lib srv.config (srv.sort _) r.calls req body drawn tc s)
unfolding enrollment_tokens
tokens-Obeys srv r req body drawn tc s = ground arith

devices-Obeys :
    (srv : Server) (r : Reads) (req : Request) (body : Outcome DeviceRequest) (tc : TenantContext)
    (s : Store)
    → Obeys tc
        (needed (at_devices body) req.method)
        req.method
        s
        (devices srv.lib srv.config (srv.sort _) r.calls req body tc s)
unfolding devices needed
devices-Obeys srv r req body tc s = ground arith

jobs-Obeys :
    (srv : Server) (r : Reads) (req : Request) (body : Outcome JobRequest) (tc : TenantContext)
    (s : Store)
    → Obeys tc
        (needed (at_jobs body) req.method)
        req.method
        s
        (jobs srv.lib srv.config (srv.sort _) r.calls req body tc s)
unfolding jobs needed
jobs-Obeys srv r req body tc s = ground arith

users-Obeys :
    (srv : Server) (r : Reads) (req : Request) (body : Outcome UserRequest) (tc : TenantContext)
    (s : Store)
    → Obeys tc (some user_manage) req.method s (users srv.lib (srv.sort _) r.calls req body tc s)
unfolding users
users-Obeys srv r req body tc s = ground arith

ota-Obeys :
    (srv : Server) (r : Reads) (req : Request) (p : Outcome PromoteRequest) (c : Outcome Campaign)
    (tc : TenantContext) (s : Store)
    → Obeys tc
        (needed (at_ota p c) req.method)
        req.method
        s
        (ota_campaigns srv.lib r.queueing r.calls tc (srv.sort _) req p c s)
unfolding ota_campaigns needed promote_ota_campaign
ota-Obeys srv r req p c tc s = ground arith

post_differs : ¬ Path String "POST" "GET"
unfolding string_dec
post_differs = differ _ _ refl

remote_access-Obeys :
    (srv : Server) (r : Reads) (req : Request) (body : Outcome AccessRequest) (tc : TenantContext)
    (s : Store)
    → Obeys tc
        (some remote_create)
        req.method
        s
        (remote_access srv.lib srv.config (r.calls 0) req body tc s)
unfolding remote_access
remote_access-Obeys srv r req body tc s = ground (arith, post_differs)

ai_actions-Obeys :
    (srv : Server) (r : Reads) (req : Request) (body : Outcome String) (tc : TenantContext)
    (s : Store)
    → Obeys tc
        (some ai_use)
        req.method
        s
        (ai_action srv.lib srv.cipher tc srv.config r.calls req body s)
unfolding ai_action
ai_actions-Obeys srv r req body tc s = ground (arith, post_differs)

-- An endpoint without a permission of its own only reads.
reads_only :
    (srv : Server) (req : Request) (tc : TenantContext) (s : Store)
    → ((current_session req tc s).1 ≡ s)
      × ((organizations (srv.sort _) req s).1 ≡ s)
      × ((downstream (srv.sort _) tc s).1 ≡ s)
      × ((inventory tc s).1 ≡ s)
      × ((telemetry_query req tc s).1 ≡ s)
      × ((audit tc s).1 ≡ s)
      × ((dev_ca srv.certificate req s).1 ≡ s)
      × ((platform_info srv.config req tc s).1 ≡ s)
unfolding current_session organizations downstream inventory telemetry_query audit dev_ca
    platform_info
reads_only srv req tc s = (
  ground arith,
  ground arith,
  ground arith,
  ground arith,
  ground arith,
  ground arith,
  ground arith,
  ground arith,
)

route-Obeys :
    (srv : Server) (r : Reads) (req : Request) (e : Endpoint) (tc : TenantContext) (s : Store)
    → Obeys tc (needed e req.method) req.method s (route srv r req e tc s)
unfolding route needed artifacts
route-Obeys srv r req at_session tc s = inl (reads_only srv req tc s).0
route-Obeys srv r req at_organizations tc s = inl (reads_only srv req tc s).1
route-Obeys srv r req at_downstream tc s = inl (reads_only srv req tc s).2
route-Obeys srv r req at_inventory tc s = inl (reads_only srv req tc s).3
route-Obeys srv r req at_telemetry tc s = inl (reads_only srv req tc s).4
route-Obeys srv r req at_audit tc s = inl (reads_only srv req tc s).5
route-Obeys srv r req at_artifacts tc s = inl refl
route-Obeys srv r req at_dev_ca tc s = inl (reads_only srv req tc s).6
route-Obeys srv r req at_platform_info tc s = inl (reads_only srv req tc s).7
route-Obeys srv r req (at_settings body) tc s = settings-Obeys srv r req body tc s
route-Obeys srv r req (at_tokens body drawn) tc s = tokens-Obeys srv r req body drawn tc s
route-Obeys srv r req (at_devices body) tc s = devices-Obeys srv r req body tc s
route-Obeys srv r req (at_jobs body) tc s = jobs-Obeys srv r req body tc s
route-Obeys srv r req (at_users body) tc s = users-Obeys srv r req body tc s
route-Obeys srv r req (at_ota p c) tc s = ota-Obeys srv r req p c tc s
route-Obeys srv r req (at_remote_access body) tc s = remote_access-Obeys srv r req body tc s
route-Obeys srv r req (at_ai_actions body) tc s = ai_actions-Obeys srv r req body tc s

roles_authorize :
    (tc : TenantContext) (p : Option Permission)
    → is_authorized tc p ≡ true
    → tc.scopes ≡ []
    → (q : Permission) × (p ≡ some q) × (any (role_grants q) tc.roles ≡ true)
roles_authorize tc none h bare = absurd (ground arith)
roles_authorize tc (some q) h bare = (
  q,
  refl,
  roles_allow tc q
      (elim (Option-cases (authorize (some tc) q)) [
        | inl e ↦ e
        | inr (x, e) ↦ absurd (ground arith)
      ])
      bare,
)

-- Where every membership names its tenant, a request to one of the endpoints of `Endpoint`, which are
-- those behind `withAuth` but for the constant lists and the configuration, the test and the chat of
-- the assistant, changes the store only if it is not one to read, its session is stored, neither
-- revoked nor expired, and the user of the session has, in the tenant of the request, a role that
-- grants the permission that the policy asks for the endpoint and the method.
pub control_handler-needed :
    (srv : Server) (r : Reads) (req : Request) (e : Endpoint) (s : Store)
    → All NamesTenant s.contents.memberships
    → ((control_handler srv r req e s).1 ≡ s)
      ⊎ ((session : Session) × (tc : TenantContext) × (p : Permission) × IsSignedIn srv.lib r.now
            req s session
          × IsContext req s session.user_id tc
          × (req.method ≢ "GET")
          × (needed e req.method ≡ some p)
          × (any (role_grants p) tc.roles ≡ true))
unfolding control_handler
control_handler-needed srv r req e s named =
    elim (with_auth_lem srv.lib r.now req s (route srv r req e) named) [
      | inl refused ↦ inl (ap (λ h. h.1) refused)
      | inr (inl refused) ↦ inl (ap (λ h. h.1) refused)
      | inr (inr (session, tc, signed, ctx, same)) ↦ elim (route-Obeys srv r req e tc s) [
        | inl kept ↦ inl (ap (λ h. h.1) same ∙ kept)
        | inr (allowed, ne) ↦
            let (p, asked, grants) =
              roles_authorize tc (needed e req.method) allowed ctx.no_scope in
            inr (session, tc, p, signed, ctx, ne, asked, grants)
      ]
    ]
