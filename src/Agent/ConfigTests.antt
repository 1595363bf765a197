-- ===== src/Agent/ConfigTests.antt =====
-- Runs of the theorems on the configuration of the agent.
use Prim.Native.Char.{code}
use soul_room_edge_platform.Base.{
  ℕ, String, ◌≡◌, ◌&&◌, inr, refl, Bool, false, Option, none, some, List, [], ◌∷◌, ◌==◌,
  if◌then◌else◌, eqb, string_dec, differ,
}
use soul_room_edge_platform.Base.Int.{pos, eqb_ℤ}
use soul_room_edge_platform.Base.Patterns.{strip_prefix, byte_length}
use soul_room_edge_platform.Agent.Config.{
  Config, default_config, validate_config, validate_location, validate_ota,
}
use soul_room_edge_platform.Agent.Config.Reading.{
  Library, Reader, set_value, set_server, read_pair, read_entry, read_line, read_lines, load_config,
}
use soul_room_edge_platform.Agent.Config.Headings.{IsEntry, read_lines-subsection}
use soul_room_edge_platform.Agent.Config.Validity.{IsSound, load_config-IsSound}

-- The text without the spaces, or another character, at its beginning.
unfoldable drop_left : ℕ → String → String
drop_left space String.[] = ""
drop_left space (String.◌∷◌ c s) =
    let rest = drop_left space s in if eqb (code c) space then rest else String.◌∷◌ c s

-- The same at its end.
unfoldable drop_right : ℕ → String → String
drop_right space String.[] = ""
drop_right space (String.◌∷◌ c s) =
    let rest = drop_right space s in
    if eqb (code c) space && rest == "" then "" else String.◌∷◌ c rest

unfoldable ends_with_colon : String → Bool
ends_with_colon String.[] = false
ends_with_colon (String.◌∷◌ c s) =
    let rest = ends_with_colon s in if s == "" then eqb (code c) b':' else rest

unfoldable trim_colon : String → String
trim_colon String.[] = ""
trim_colon (String.◌∷◌ c s) =
    let rest = trim_colon s in
    if s == "" then (if eqb (code c) b':' then "" else String.◌∷◌ c s) else String.◌∷◌ c rest

unfoldable cut : String → Option (String × String)
cut String.[] = none
cut (String.◌∷◌ c s) =
    let rest = cut s in
    if eqb (code c) b':'
    then some ("", s)
    else elim rest [ none ↦ none | some pair ↦ some (String.◌∷◌ c pair.0, pair.1) ]

abbrev lib : Library
lib = record {
  atoi = λ text. none;
  parse_int = λ text. none;
  parse_uint = λ text. none;
  parse_float = λ text. none;
  parse_duration = λ text. if text == "30s" then some (pos 30000000000) else none;
  to_lower = λ text. text;
  equal_fold = λ s t. s == t;
  trim_space = λ text. drop_right b' ' (drop_left b' ' text);
  trim_left = λ text. drop_left b' ' text;
  trim_quotes = λ text. drop_right 34 (drop_left 34 text);
  ends_with_colon = ends_with_colon;
  trim_colon = trim_colon;
  cut = cut;
}

-- The section that `render` writes for an empty `ca_file`, with a timeout of 30 seconds.
abbrev reader : Reader
reader = record { section = "server"; subsection = ""; config = default_config }

read_lines-subsection_example :
    read_lines lib reader ("  ca_file: " ∷ "  connect_timeout: 30s" ∷ [])
    ≡ some (record reader { subsection = "ca_file" })
unfolding IsEntry drop_left drop_right ends_with_colon trim_colon cut byte_length strip_prefix
    string_dec
read_lines-subsection_example =
    read_lines-subsection lib reader "  ca_file: " ("  connect_timeout: 30s" ∷ [])
      (differ "server" "telemetry" refl) refl refl refl (differ "ca_file" "" refl)
      (inr (refl, (("connect_timeout", " 30s"), refl)), tt)

abbrev file : List String
file = "# the fleet" ∷ "server:" ∷ "  endpoint: https://fleet.test" ∷ "  connect_timeout: 30s" ∷ []

abbrev loaded : Config
loaded = record default_config {
  server = record {
    endpoint = "https://fleet.test";
    ca_file = "";
    connect_timeout = pos 30000000000;
  };
}

load_config-IsSound_example : IsSound loaded
unfolding load_config read_lines read_line read_entry read_pair set_value set_server drop_left
    drop_right ends_with_colon trim_colon cut byte_length strip_prefix string_dec validate_config
    validate_location validate_ota default_config eqb_ℤ
load_config-IsSound_example = load_config-IsSound lib file loaded refl
