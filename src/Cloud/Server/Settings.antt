-- ===== src/Cloud/Server/Settings.antt =====
-- The platform settings: cloud-infra/internal/settings/settings.go, and their handlers in
-- cloud-infra/internal/server/server.go.
pub mod Loading
use soul_room_edge_platform.Base.{
  ℕ, String, ◌<>◌, Bool, true, false, ◌&&◌, ◌||◌, not, Option, none, some, [], ◌∷◌, ◌==◌, ◌!=◌,
  if◌then◌else◌, ltb,
}
use soul_room_edge_platform.Base.Int.{ℤ, pos, ltb_ℤ, eqb_ℤ}
use soul_room_edge_platform.Base.Patterns.{byte_length, has_char}
use soul_room_edge_platform.Cloud.Model.{TenantContext, Organization, PlatformSettings}
use soul_room_edge_platform.Cloud.Rbac.{authorize, tenant_settings}
use soul_room_edge_platform.Cloud.Store.{Store, or_default}
use soul_room_edge_platform.Cloud.Store.Organizations.{
  organization, platform_settings_of, save_platform_settings, reset_platform_settings,
}
use soul_room_edge_platform.Cloud.Server.{
  Outcome, Library, Request, platform_body, settings_body, Handled, Calls, write_json, error_json,
  method_not_allowed, error_text, guarded, with_body, record_event,
}

-- The configuration of the server. A `time.Duration` counts nanoseconds.
pub record Config : Type 0 where
  pub http_addr : String
  pub device_addr : String
  pub device_public_host : String
  pub store_path : String
  pub dev_ca_dir : String
  pub organization_name : String
  pub organization_slug : String
  pub admin_email : String
  pub admin_password : String
  pub session_ttl : ℤ
  pub certificate_ttl : ℤ
  pub signup_enabled : Bool
  pub max_payload_bytes : ℤ
  pub shell_hub_url : String
  pub shell_hub_ssh_port : ℤ
  pub shell_hub_managed : Bool
  pub company_domain : String
  pub device_offline_minutes : ℤ
  pub default_telemetry_window : String
  pub default_ota_pilot_percent : ℤ
  pub default_enrollment_ttl_hours : ℤ
  pub default_job_ttl_minutes : ℤ
  pub ai_secret_key_path : String
  pub ai_request_timeout : ℤ
  pub ai_requests_per_minute : ℤ

abbrev pub is_outside : ℤ → ℕ → ℕ → Bool
is_outside value least most = ltb_ℤ value (pos least) || ltb_ℤ (pos most) value

module _ (lib : Library) where
  unfoldable pub is_company_domain : String → Bool
  is_company_domain value =
      let domain = lib.to_lower (lib.trim_space value) in
      elim (lib.parse_url ("https://" <> domain)) [
        | none ↦ false
        | some parsed ↦ parsed.hostname == domain && has_char b'.' domain
      ]

  unfoldable pub is_portal_url : String → Bool
  is_portal_url value = elim (lib.parse_url (lib.trim_space value)) [
    | none ↦ false
    | some portal ↦
        (portal.scheme == "http" || portal.scheme == "https")
        && portal.hostname != ""
        && not portal.has_user
  ]

  abbrev pub is_name_length : String → Bool
  is_name_length name = let n = byte_length (lib.trim_space name) in not (ltb n 2 || ltb 80 n)

  -- the text of the error of `Validate`, if there is one
  unfoldable pub validate_settings : PlatformSettings → Option String
  validate_settings value =
      if not (is_name_length value.organization_name)
      then some "organization name must contain 2 to 80 characters"
      else if value.company_domain != "" && not (is_company_domain value.company_domain)
      then some "company domain must be a hostname such as example.com"
      else if value.shell_hub_url != "" && not (is_portal_url value.shell_hub_url)
      then some "ShellHub portal URL must be an absolute HTTP or HTTPS URL"
      else if is_outside value.shell_hub_ssh_port 1 65535
      then some "ShellHub SSH port must be between 1 and 65535"
      else if is_outside value.device_offline_minutes 2 1440
      then some "offline window must be between 2 and 1440 minutes"
      else if value.default_telemetry_window != "15m"
          && value.default_telemetry_window != "1h"
          && value.default_telemetry_window != "24h"
      then some "telemetry window must be 15m, 1h, or 24h"
      else if is_outside value.default_ota_pilot_percent 1 100
      then some "pilot percentage must be between 1 and 100"
      else if is_outside value.default_enrollment_ttl_hours 1 720
      then some "enrollment token lifetime must be between 1 and 720 hours"
      else if is_outside value.default_job_ttl_minutes 5 10080
      then some "job expiry must be between 5 and 10080 minutes"
      else none

  -- the three assignments before `Validate`
  abbrev pub tidy_settings : PlatformSettings → PlatformSettings
  tidy_settings value = record value {
    organization_name = lib.trim_space value.organization_name;
    company_domain = lib.to_lower (lib.trim_space value.company_domain);
    shell_hub_url = lib.trim_right_slash (lib.trim_space value.shell_hub_url);
  }

module _ (cfg : Config) where
  abbrev pub completed_settings : PlatformSettings → PlatformSettings
  completed_settings value = record value {
    shell_hub_url = or_default value.shell_hub_url cfg.shell_hub_url;
    shell_hub_ssh_port =
        if eqb_ℤ value.shell_hub_ssh_port (pos 0)
        then cfg.shell_hub_ssh_port
        else value.shell_hub_ssh_port;
  }

  abbrev pub deployment_settings : Option Organization → PlatformSettings
  deployment_settings org = record {
    organization_name = elim org [
      | none ↦ cfg.organization_name
      | some found ↦ or_default found.name cfg.organization_name
    ];
    company_domain = cfg.company_domain;
    shell_hub_url = cfg.shell_hub_url;
    shell_hub_ssh_port = cfg.shell_hub_ssh_port;
    device_offline_minutes = cfg.device_offline_minutes;
    default_telemetry_window = cfg.default_telemetry_window;
    default_ota_pilot_percent = cfg.default_ota_pilot_percent;
    default_enrollment_ttl_hours = cfg.default_enrollment_ttl_hours;
    default_job_ttl_minutes = cfg.default_job_ttl_minutes;
    updated_by = "";
    updated_at = 0;
  }

  unfoldable pub effective_platform_settings : TenantContext → Store → PlatformSettings × String
  effective_platform_settings tc s = elim (platform_settings_of tc s) [
    | some value ↦ (completed_settings value, "platform")
    | none ↦ (deployment_settings (organization tc s).0, "deployment")
  ]

  unfoldable pub platform_info : Request → TenantContext → Store → Handled
  platform_info req tc s =
      if req.method != "GET"
      then method_not_allowed s
      else (let settings = (effective_platform_settings tc s).0 in
          write_json 200
            (platform_body
              (("device_gateway_endpoint", "https://" <> cfg.device_public_host <> ":8443")
                ∷ ("remote_access_provider", "shellhub")
                ∷ ("remote_access_url", settings.shell_hub_url)
                ∷ [])
              (settings.shell_hub_url != "") cfg.shell_hub_managed settings.shell_hub_ssh_port)
            s)

  abbrev pub may_manage : TenantContext → Bool
  may_manage tc = elim (authorize (some tc) tenant_settings) [ none ↦ true | some _ ↦ false ]

  module _ (lib : Library) where
    -- `DELETE`: the settings of the deployment apply again.
    unfoldable pub reset_settings : Calls → TenantContext → Store → Handled
    reset_settings calls tc s =
        let (failed, reset) = reset_platform_settings (calls 0) tc s in
        elim failed [
          | some e ↦ error_json 500 "settings_reset_failed" (error_text e) reset
          | none ↦
              let s' =
                record_event lib (calls 1) tc "platform_settings.reset" "organization" tc.tenant_id
                  none reset in
              write_json 200 (settings_body (effective_platform_settings tc s').0 "deployment" true)
                s'
        ]

    -- `PUT`, once the body is decoded
    unfoldable pub put_settings : Calls → TenantContext → PlatformSettings → Store → Handled
    put_settings calls tc value s = elim (validate_settings lib (tidy_settings lib value)) [
      | some message ↦ error_json 400 "invalid_settings" message s
      | none ↦
          let (failed, saved) = save_platform_settings (calls 0) tc (tidy_settings lib value) s in
          elim failed [
            | some e ↦ error_json 500 "settings_save_failed" (error_text e) saved
            | none ↦
                let settings = (effective_platform_settings tc saved).0 in
                write_json 200 (settings_body settings "platform" true) (
                  record_event lib (calls 1) tc "platform_settings.updated" "organization"
                    tc.tenant_id (some (("company_domain", settings.company_domain) ∷ [])) saved)
          ]
    ]

    -- The fixed list `infrastructure` of the answer to `GET` is left out.
    unfoldable pub platform_settings :
        Calls → Request → Outcome PlatformSettings → TenantContext → Store → Handled
    platform_settings calls req body tc s =
        if req.method == "GET"
        then (let (value, source) = effective_platform_settings tc s in
            write_json 200 (settings_body value source (may_manage tc)) s)
        else guarded tc tenant_settings s (
            if req.method == "DELETE"
            then reset_settings calls tc s
            else if req.method != "PUT"
            then method_not_allowed s
            else with_body body s (λ value. put_settings calls tc value s))
