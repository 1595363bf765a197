-- ===== src/Agent/Config/Reading.antt =====
-- `Load` of agent/internal/config/config.go, from the lines of the file: `setValue`, and the state
-- of the section and the subsection. The functions of Go's library are parameters.
use soul_room_edge_platform.Base.{
  ℕ, ◌-◌, String, ◌<>◌, Bool, true, false, ◌||◌, not, Option, none, some, List, [], ◌∷◌, ◌==◌, ◌!=◌,
  if◌then◌else◌, eqb,
}
use soul_room_edge_platform.Base.Int.{ℤ}
use soul_room_edge_platform.Base.Dict.{insert}
use soul_room_edge_platform.Base.Patterns.{strip_prefix, byte_length}
use soul_room_edge_platform.Agent.Config.{
  ServerConfig, IdentityConfig, StorageConfig, TelemetryConfig, JobsConfig, ContainerConfig,
  GatewayConfig, LocationConfig, OtaConfig, Config, default_config, validate_config,
}

-- `none` is an error; `cut` is `strings.Cut` at a colon, `trim_quotes` the `strings.Trim` of
-- quotation marks, `trim_colon` the `strings.TrimSuffix` of a colon, `trim_left` the
-- `strings.TrimLeft` of spaces.
pub record Library : Type 0 where
  pub atoi : String → Option ℤ
  pub parse_int : String → Option ℤ
  pub parse_uint : String → Option ℕ
  pub parse_float : String → Option ℕ
  pub parse_duration : String → Option ℤ
  pub to_lower : String → String
  pub equal_fold : String → String → Bool
  pub trim_space : String → String
  pub trim_left : String → String
  pub trim_quotes : String → String
  pub ends_with_colon : String → Bool
  pub trim_colon : String → String
  pub cut : String → Option (String × String)

-- What is read so far: the section, the subsection, and the configuration.
pub record Reader : Type 0 where
  pub section : String
  pub subsection : String
  pub config : Config

-- `v, err := parse(value); if err != nil { return err }; set(v)`
abbrev pub parsed : {A B : Type 0} → Option A → (A → B) → Option B
parsed none set = none
parsed (some v) set = some (set v)

abbrev pub is_comment : String → Bool
is_comment line = elim (strip_prefix "#" line) [ some _ ↦ true | none ↦ false ]

module _ (lib : Library) where
  unfoldable pub parse_bool : String → Bool
  parse_bool s = lib.equal_fold s "true" || s == "1" || lib.equal_fold s "yes"

  -- `setValue`, one function for each section; `none` is the error of a value that cannot be read.
  unfoldable pub set_server : ServerConfig → String → String → Option ServerConfig
  set_server c key value =
      if key == "endpoint"
      then some (record c { endpoint = value })
      else if key == "ca_file"
      then some (record c { ca_file = value })
      else if key == "connect_timeout"
      then parsed (lib.parse_duration value) (λ d. record c { connect_timeout = d })
      else some c

  unfoldable pub set_identity : IdentityConfig → String → String → Option IdentityConfig
  set_identity c key value =
      if key == "state_dir"
      then some (record c { state_dir = value })
      else if key == "use_tpm"
      then some (record c { use_tpm = parse_bool value })
      else some c

  unfoldable pub set_storage : StorageConfig → String → String → Option StorageConfig
  set_storage c key value =
      if key == "state_dir"
      then some (record c { state_dir = value })
      else if key == "max_queue_bytes"
      then parsed (lib.parse_int value) (λ v. record c { max_queue_bytes = v })
      else if key == "max_queue_age"
      then parsed (lib.parse_duration value) (λ d. record c { max_queue_age = d })
      else some c

  unfoldable pub set_telemetry : TelemetryConfig → String → String → Option TelemetryConfig
  set_telemetry c key value =
      if key == "interval"
      then parsed (lib.parse_duration value) (λ d. record c { interval = d })
      else if key == "jitter"
      then parsed (lib.parse_duration value) (λ d. record c { jitter = d })
      else elim (strip_prefix "collectors." key) [
        | none ↦ some c
        | some name ↦ some (record c { collectors = insert name (parse_bool value) c.collectors })
      ]

  unfoldable pub set_jobs : JobsConfig → String → String → Option JobsConfig
  set_jobs c key value =
      if key == "max_concurrent"
      then parsed (lib.atoi value) (λ v. record c { max_concurrent = v })
      else if key == "default_timeout"
      then parsed (lib.parse_duration value) (λ d. record c { default_timeout = d })
      else if key == "allow_shell"
      then some (record c { allow_shell = parse_bool value })
      else some c

  unfoldable pub set_containers : ContainerConfig → String → String → Option ContainerConfig
  set_containers c key value =
      if key == "provider"
      then some (record c { provider = value })
      else if key == "socket"
      then some (record c { socket = value })
      else some c

  unfoldable pub set_gateway : GatewayConfig → String → String → Option GatewayConfig
  set_gateway c key value =
      if key == "enabled"
      then some (record c { enabled = parse_bool value })
      else if key == "connector_dir"
      then some (record c { connector_dir = value })
      else some c

  unfoldable pub set_location : LocationConfig → String → String → Option LocationConfig
  set_location c key value =
      if key == "source"
      then some (record c { source = lib.to_lower value })
      else if key == "latitude"
      then parsed (lib.parse_float value) (λ v. record c { latitude = v })
      else if key == "longitude"
      then parsed (lib.parse_float value) (λ v. record c { longitude = v })
      else if key == "label"
      then some (record c { label = value })
      else if key == "gpsd_address"
      then some (record c { gpsd_address = value })
      else if key == "ip_url"
      then some (record c { ip_url = value })
      else some c

  unfoldable pub set_ota : OtaConfig → String → String → Option OtaConfig
  set_ota c key value =
      if key == "enabled"
      then some (record c { enabled = parse_bool value })
      else if key == "product"
      then some (record c { product = value })
      else if key == "state_dir"
      then some (record c { state_dir = value })
      else if key == "staging_dir"
      then some (record c { staging_dir = value })
      else if key == "trusted_keys_dir"
      then some (record c { trusted_keys_dir = value })
      else if key == "plugin_dir"
      then some (record c { plugin_dir = value })
      else if key == "max_artifact_bytes"
      then parsed (lib.parse_int value) (λ v. record c { max_artifact_bytes = v })
      else if key == "min_free_bytes"
      then parsed (lib.parse_uint value) (λ v. record c { min_free_bytes = v })
      else if key == "download_timeout"
      then parsed (lib.parse_duration value) (λ d. record c { download_timeout = d })
      else if key == "health_timeout"
      then parsed (lib.parse_duration value) (λ d. record c { health_timeout = d })
      else if key == "health_check_command"
      then some (record c { health_check_command = value })
      else if key == "auto_reboot"
      then some (record c { auto_reboot = parse_bool value })
      else some c

  unfoldable pub set_value : Config → String → String → String → Option Config
  set_value cfg section key value =
      if section == ""
      then (if key == "version"
          then parsed (lib.atoi value) (λ v. record cfg { version = v })
          else some cfg)
      else if section == "server"
      then parsed (set_server cfg.server key value) (λ c. record cfg { server = c })
      else if section == "identity"
      then parsed (set_identity cfg.identity key value) (λ c. record cfg { identity = c })
      else if section == "storage"
      then parsed (set_storage cfg.storage key value) (λ c. record cfg { storage = c })
      else if section == "telemetry"
      then parsed (set_telemetry cfg.telemetry key value) (λ c. record cfg { telemetry = c })
      else if section == "jobs"
      then parsed (set_jobs cfg.jobs key value) (λ c. record cfg { jobs = c })
      else if section == "containers"
      then parsed (set_containers cfg.containers key value) (λ c. record cfg { containers = c })
      else if section == "gateway"
      then parsed (set_gateway cfg.gateway key value) (λ c. record cfg { gateway = c })
      else if section == "location"
      then parsed (set_location cfg.location key value) (λ c. record cfg { location = c })
      else if section == "ota"
      then parsed (set_ota cfg.ota key value) (λ c. record cfg { ota = c })
      else some cfg

  abbrev pub is_indented : String → Bool
  is_indented raw = not (eqb (byte_length raw - byte_length (lib.trim_left raw)) 0)

  -- a key and a value, as they stand on a line
  unfoldable pub read_pair : Reader → String → String → Option Reader
  read_pair r before after =
      let name = lib.trim_space before in
      let key = if r.subsection != "" then r.subsection <> "." <> name else name in
      parsed (set_value r.config r.section key (lib.trim_quotes (lib.trim_space after)))
        (λ c. record r { config = c })

  unfoldable pub read_entry : Reader → String → Option Reader
  read_entry r line = elim (lib.cut line) [ none ↦ none | some pair ↦ read_pair r pair.0 pair.1 ]

  -- one turn of the loop of `Load`; `none` is an error
  unfoldable pub read_line : Reader → String → Option Reader
  read_line r raw =
      let line = lib.trim_space raw in
      if line == "" || is_comment line
      then some r
      else if lib.ends_with_colon line
      then some (
          if is_indented raw
          then record r { subsection = lib.trim_colon line }
          else record r { section = lib.trim_colon line; subsection = "" })
      else read_entry r line

  unfoldable pub read_lines : Reader → List String → Option Reader
  read_lines r [] = some r
  read_lines r (raw ∷ rest) = elim (read_line r raw) [
    | none ↦ none
    | some next ↦ read_lines next rest
  ]

  abbrev pub beginning : Reader
  beginning = record { section = ""; subsection = ""; config = default_config }

  -- `Load`, for a file whose lines can be read: the configuration, if there is no error
  unfoldable pub load_config : List String → Option Config
  load_config lines = elim (read_lines beginning lines) [
    | none ↦ none
    | some r ↦ elim (validate_config r.config) [ none ↦ some r.config | some _ ↦ none ]
  ]
