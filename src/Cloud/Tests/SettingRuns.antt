-- ===== src/Cloud/Tests/SettingRuns.antt =====
-- A run of the theorem on the configuration of the server, in an environment that sets two variables.
use soul_room_edge_platform.Base.{
  ◌≡◌, inl, refl, none, some, ◌==◌, if◌then◌else◌, arith, string_dec,
}
use soul_room_edge_platform.Base.Int.{pos}
use soul_room_edge_platform.Base.Patterns.{byte_length}
use soul_room_edge_platform.Cloud.Server.Settings.{validate_settings, deployment_settings}
use soul_room_edge_platform.Cloud.Server.Settings.Loading.{
  Environment, getenv, integer, load, validate_settings-load,
}
use soul_room_edge_platform.Cloud.Tests.Servers.{library}

-- The offline window is out of range, so that its default is taken.
abbrev os : Environment
os = record {
  variable = λ key.
      if key == "SOULROOM_DEVICE_OFFLINE_MINUTES"
      then "9000"
      else if key == "SOULROOM_DEFAULT_TELEMETRY_WINDOW"
      then "24h"
      else "";
  parse_duration = λ text. none;
  atoi = λ text. if text == "9000" then some (pos 9000) else none;
}

validate_settings-load_example :
    validate_settings library (deployment_settings (load os) none) ≡ none
unfolding load getenv integer byte_length string_dec
validate_settings-load_example =
    validate_settings-load os library none refl (inl refl) (inl refl) (ground arith) (ground arith)
