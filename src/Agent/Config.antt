-- ===== src/Agent/Config.antt =====
-- agent/internal/config/config.go: the configuration, its defaults, how a file is read line by
-- line, and its validation. A `time.Duration` counts nanoseconds, a `float64` is its bit pattern.
pub mod Reading
pub mod Headings
pub mod Validity
use soul_room_edge_platform.Base.{
  ℕ, ◌+◌, ◌^◌, String, Bool, true, false, ◌&&◌, ◌||◌, not, Option, none, some, List, [], ◌∷◌, ◌==◌,
  ◌!=◌, if◌then◌else◌,
}
use soul_room_edge_platform.Base.Int.{ℤ, pos, ltb_ℤ, eqb_ℤ}
use soul_room_edge_platform.Base.Dict.{Dict}
use soul_room_edge_platform.Base.Floats.{float_ltb}
use soul_room_edge_platform.Base.Patterns.{strip_prefix}

pub record ServerConfig : Type 0 where
  pub endpoint : String
  pub ca_file : String
  pub connect_timeout : ℤ

pub record IdentityConfig : Type 0 where
  pub state_dir : String
  pub use_tpm : Bool

pub record StorageConfig : Type 0 where
  pub state_dir : String
  pub max_queue_bytes : ℤ
  pub max_queue_age : ℤ

pub record TelemetryConfig : Type 0 where
  pub interval : ℤ
  pub jitter : ℤ
  pub collectors : Dict Bool

pub record JobsConfig : Type 0 where
  pub max_concurrent : ℤ
  pub default_timeout : ℤ
  pub allow_shell : Bool

pub record ContainerConfig : Type 0 where
  pub provider : String
  pub socket : String

pub record GatewayConfig : Type 0 where
  pub enabled : Bool
  pub connector_dir : String

pub record LocationConfig : Type 0 where
  pub source : String
  pub latitude : ℕ
  pub longitude : ℕ
  pub label : String
  pub gpsd_address : String
  pub ip_url : String

pub record OtaConfig : Type 0 where
  pub enabled : Bool
  pub product : String
  pub state_dir : String
  pub staging_dir : String
  pub trusted_keys_dir : String
  pub plugin_dir : String
  pub max_artifact_bytes : ℤ
  pub min_free_bytes : ℕ
  pub download_timeout : ℤ
  pub health_timeout : ℤ
  pub health_check_command : String
  pub auto_reboot : Bool

pub record Config : Type 0 where
  pub version : ℤ
  pub server : ServerConfig
  pub identity : IdentityConfig
  pub storage : StorageConfig
  pub telemetry : TelemetryConfig
  pub jobs : JobsConfig
  pub containers : ContainerConfig
  pub gateway : GatewayConfig
  pub location : LocationConfig
  pub ota : OtaConfig

-- A second in nanoseconds.
abbrev pub second : ℕ
second = 1000000000

-- `Default`
unfoldable pub default_config : Config
default_config = record {
  version = pos 1;
  server = record {
    endpoint = "https://127.0.0.1:9443";
    ca_file = "";
    connect_timeout = pos 15000000000;
  };
  identity = record { state_dir = "/var/lib/edge-agent/identity"; use_tpm = false };
  storage = record {
    state_dir = "/var/lib/edge-agent";
    max_queue_bytes = pos 104857600;
    max_queue_age = pos 604800000000000;
  };
  telemetry = record {
    interval = pos 60000000000;
    jitter = pos 10000000000;
    collectors =
        ("cpu", true)
        ∷ ("memory", true)
        ∷ ("disk", true)
        ∷ ("network", true)
        ∷ ("uptime", true)
        ∷ ("os", true)
        ∷ ("processes", false)
        ∷ [];
  };
  jobs = record { max_concurrent = pos 2; default_timeout = pos 600000000000; allow_shell = false };
  containers = record { provider = "docker"; socket = "unix:///var/run/docker.sock" };
  gateway = record { enabled = true; connector_dir = "/etc/edge-agent/connectors.d" };
  location = record {
    source = "disabled";
    latitude = 0;
    longitude = 0;
    label = "";
    gpsd_address = "127.0.0.1:2947";
    ip_url = "https://ipwho.is/";
  };
  ota = record {
    enabled = true;
    product = "";
    state_dir = "/var/lib/edge-agent/ota";
    staging_dir = "/var/lib/edge-agent/ota/staging";
    trusted_keys_dir = "/etc/edge-agent/trusted-update-keys";
    plugin_dir = "/usr/libexec/edge-agent/ota";
    max_artifact_bytes = pos 4294967296;
    min_free_bytes = 268435456;
    download_timeout = pos 7200000000000;
    health_timeout = pos 120000000000;
    health_check_command = "";
    auto_reboot = false;
  };
}

abbrev pub has_https : String → Bool
has_https text = elim (strip_prefix "https://" text) [ some _ ↦ true | none ↦ false ]

-- The bit patterns of 90 and 180; the sign bit negates them. A NaN is within the bounds.
abbrev pub is_out_of_bounds : LocationConfig → Bool
is_out_of_bounds l =
    float_ltb l.latitude (4636033603912859648 + 2 ^ 63)
    || float_ltb 4636033603912859648 l.latitude
    || float_ltb l.longitude (4640537203540230144 + 2 ^ 63)
    || float_ltb 4640537203540230144 l.longitude

unfoldable pub validate_location : LocationConfig → Option String
validate_location l =
    if l.source != "disabled" && l.source != "static" && l.source != "gpsd" && l.source != "ip"
    then some "location.source must be disabled, static, gpsd, or ip"
    else if l.source == "static" && is_out_of_bounds l
    then some "static location coordinates are invalid"
    else if l.source == "ip" && not (has_https l.ip_url)
    then some "location.ip_url must use https"
    else none

unfoldable pub validate_ota : OtaConfig → Option String
validate_ota o =
    if not o.enabled
    then none
    else if o.state_dir == ""
        || o.staging_dir == ""
        || o.trusted_keys_dir == ""
        || o.plugin_dir == ""
    then some "ota directories are required when OTA is enabled"
    else if ltb_ℤ o.max_artifact_bytes (pos 1048576)
    then some "ota.max_artifact_bytes must be at least 1 MiB"
    else if ltb_ℤ o.download_timeout (pos 60000000000) || ltb_ℤ o.health_timeout (pos second)
    then some "OTA download and health timeouts are too short"
    else none

-- The text of the error of `Validate`, if there is one; the version in the first is left out.
unfoldable pub validate_config : Config → Option String
validate_config c =
    if not (eqb_ℤ c.version (pos 1))
    then some "unsupported config version"
    else if not (has_https c.server.endpoint)
    then some "server.endpoint must use https"
    else if c.identity.state_dir == ""
    then some "identity.state_dir is required"
    else if c.storage.state_dir == ""
    then some "storage.state_dir is required"
    else if ltb_ℤ c.storage.max_queue_bytes (pos 1048576)
    then some "storage.max_queue_bytes must be at least 1 MiB"
    else if ltb_ℤ c.telemetry.interval (pos second)
    then some "telemetry.interval must be at least 1s"
    else if ltb_ℤ c.jobs.max_concurrent (pos 1)
    then some "jobs.max_concurrent must be positive"
    else if c.jobs.allow_shell
    then some "jobs.allow_shell must remain false for production handler set"
    else elim (validate_location c.location) [
      | some message ↦ some message
      | none ↦ validate_ota c.ota
    ]
