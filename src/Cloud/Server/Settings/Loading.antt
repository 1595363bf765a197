-- ===== src/Cloud/Server/Settings/Loading.antt =====
-- cloud-infra/internal/config/config.go: the configuration of the server from the variables of its
-- environment, and what `Validate` of cloud-infra/internal/settings/settings.go says of it.
use soul_room_edge_platform.Base.{
  ℕ, String, ◌≡◌, ◌⊎◌, inl, inr, refl, true, false, Option, none, some, List, [], ◌∷◌, ◌==◌, ◌!=◌,
  if◌then◌else◌, arith, Bool-cases,
}
use soul_room_edge_platform.Base.Int.{ℤ, pos, ◌≤ℤ◌}
use soul_room_edge_platform.Base.Lists.{any}
use soul_room_edge_platform.Cloud.Model.{Organization}
use soul_room_edge_platform.Cloud.Server.{Library}
use soul_room_edge_platform.Cloud.Server.Settings.{
  Config, is_outside, is_company_domain, is_portal_url, is_name_length, validate_settings,
  deployment_settings,
}

-- `os.Getenv`, which returns the empty text for a variable that is not set, `time.ParseDuration` and
-- `strconv.Atoi`.
pub record Environment : Type 0 where
  pub variable : String → String
  pub parse_duration : String → Option ℤ
  pub atoi : String → Option ℤ

abbrev or_fallback : ℤ → Option ℤ → ℤ
or_fallback fallback none = fallback
or_fallback fallback (some value) = value

module _ (os : Environment) where
  unfoldable pub getenv : String → String → String
  getenv key fallback = let v = os.variable key in if v != "" then v else fallback

  unfoldable pub duration : String → ℤ → ℤ
  duration key fallback =
      let v = os.variable key in
      if v != "" then or_fallback fallback (os.parse_duration v) else fallback

  unfoldable pub integer : String → ℤ → ℤ
  integer key fallback =
      let v = os.variable key in if v != "" then or_fallback fallback (os.atoi v) else fallback

  unfoldable pub integer_range : String → ℤ → ℕ → ℕ → ℤ
  integer_range key fallback minimum maximum =
      let value = integer key fallback in
      if is_outside value minimum maximum then fallback else value

  unfoldable pub choice : String → String → List String → String
  choice key fallback allowed =
      let value = getenv key fallback in
      if any (λ candidate. value == candidate) allowed then value else fallback

  -- `Load`
  unfoldable pub load : Config
  load = record {
    http_addr = getenv "SOULROOM_HTTP_ADDR" "127.0.0.1:8080";
    device_addr = getenv "SOULROOM_DEVICE_ADDR" "127.0.0.1:8443";
    device_public_host = getenv "SOULROOM_DEVICE_PUBLIC_HOST" "localhost";
    store_path = getenv "SOULROOM_STORE_PATH" ".soul-room/control-plane.json";
    dev_ca_dir = getenv "SOULROOM_DEV_CA_DIR" ".soul-room/ca";
    organization_name = getenv "SOULROOM_ORGANIZATION_NAME" "Soul Room Local";
    organization_slug = getenv "SOULROOM_ORGANIZATION_SLUG" "local";
    admin_email = getenv "SOULROOM_ADMIN_EMAIL" "admin@soulroom.local";
    admin_password = getenv "SOULROOM_ADMIN_PASSWORD" "change-me-local";
    session_ttl = duration "SOULROOM_SESSION_TTL" (pos 43200000000000);
    certificate_ttl = duration "SOULROOM_CERTIFICATE_TTL" (pos 7776000000000000);
    signup_enabled = getenv "SOULROOM_SIGNUP_ENABLED" "false" == "true";
    max_payload_bytes = integer "SOULROOM_MAX_PAYLOAD_BYTES" (pos 2097152);
    shell_hub_url = getenv "SOULROOM_SHELLHUB_URL" "";
    shell_hub_ssh_port = integer "SOULROOM_SHELLHUB_SSH_PORT" (pos 22);
    shell_hub_managed = getenv "SOULROOM_SHELLHUB_MANAGED" "false" == "true";
    company_domain = getenv "SOULROOM_COMPANY_DOMAIN" "";
    device_offline_minutes = integer_range "SOULROOM_DEVICE_OFFLINE_MINUTES" (pos 5) 2 1440;
    default_telemetry_window =
        choice "SOULROOM_DEFAULT_TELEMETRY_WINDOW" "1h" ("15m" ∷ "1h" ∷ "24h" ∷ []);
    default_ota_pilot_percent = integer_range "SOULROOM_DEFAULT_OTA_PILOT_PERCENT" (pos 10) 1 100;
    default_enrollment_ttl_hours =
        integer_range "SOULROOM_DEFAULT_ENROLLMENT_TTL_HOURS" (pos 24) 1 720;
    default_job_ttl_minutes = integer_range "SOULROOM_DEFAULT_JOB_TTL_MINUTES" (pos 60) 5 10080;
    ai_secret_key_path = getenv "SOULROOM_AI_SECRET_KEY_PATH" ".soul-room/ai-secrets.key";
    ai_request_timeout = duration "SOULROOM_AI_REQUEST_TIMEOUT" (pos 45000000000);
    ai_requests_per_minute = integer_range "SOULROOM_AI_REQUESTS_PER_MINUTE" (pos 30) 1 120;
  }

  integer_range-is_outside :
      (key : String) (fallback : ℤ) (minimum maximum : ℕ)
      → is_outside fallback minimum maximum ≡ false
      → is_outside (integer_range key fallback minimum maximum) minimum maximum ≡ false
  unfolding integer_range
  integer_range-is_outside key fallback minimum maximum h =
      elim (Bool-cases (is_outside (integer key fallback) minimum maximum)) [
        | inl e ↦ rw (integer_range, e) h
        | inr e ↦ rw (integer_range, e) e
      ]

  choice-any :
      (key fallback : String) (allowed : List String)
      → any (λ candidate. fallback == candidate) allowed ≡ true
      → any (λ candidate. choice key fallback allowed == candidate) allowed ≡ true
  unfolding choice
  choice-any key fallback allowed h =
      elim (Bool-cases (any (λ candidate. getenv key fallback == candidate) allowed)) [
        | inl e ↦ rw (choice, e) e
        | inr e ↦ rw (choice, e) h
      ]

  -- The settings that the server derives from the variables of its environment pass `Validate`,
  -- whatever the variables hold, as long as those that `Load` takes as they are do: the name of the
  -- organization has 2 to 80 bytes, the company domain and the address of the portal are empty or
  -- valid, and the port is one. The window, the pilot percentage and the lifetimes need no condition.
  pub validate_settings-load :
      (lib : Library) (org : Option Organization)
      → let value = deployment_settings load org in
        is_name_length lib value.organization_name ≡ true
        → (value.company_domain ≡ "") ⊎ (is_company_domain lib value.company_domain ≡ true)
        → (value.shell_hub_url ≡ "") ⊎ (is_portal_url lib value.shell_hub_url ≡ true)
        → pos 1 ≤ℤ value.shell_hub_ssh_port
        → value.shell_hub_ssh_port ≤ℤ pos 65535
        → validate_settings lib value ≡ none
  unfolding validate_settings load
  validate_settings-load lib org named domain portal least most =
      let minutes =
        integer_range-is_outside "SOULROOM_DEVICE_OFFLINE_MINUTES" (pos 5) 2 1440 refl in
      let window =
        choice-any "SOULROOM_DEFAULT_TELEMETRY_WINDOW" "1h" ("15m" ∷ "1h" ∷ "24h" ∷ [])
          (ground arith) in
      let pilot =
        integer_range-is_outside "SOULROOM_DEFAULT_OTA_PILOT_PERCENT" (pos 10) 1 100 refl in
      let hours =
        integer_range-is_outside "SOULROOM_DEFAULT_ENROLLMENT_TTL_HOURS" (pos 24) 1 720 refl in
      let expiry =
        integer_range-is_outside "SOULROOM_DEFAULT_JOB_TTL_MINUTES" (pos 60) 5 10080 refl in
      ground arith
