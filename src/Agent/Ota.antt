-- ===== src/Agent/Ota.antt =====
-- The requests of agent/internal/ota/ota.go and their validation.
use native.Mathlib.Decide.{ℕ_discrete}
use soul_room_edge_platform.Base.{
  ℕ, String, ◌<>◌, Bool, false, not, ◌&&◌, ◌||◌, Option, none, some, List, ◌==◌, ◌!=◌,
  if◌then◌else◌, eqb, string_dec,
}
use soul_room_edge_platform.Base.Int.{ℤ, pos, ltb_ℤ, ℤ-discrete}
use soul_room_edge_platform.Base.Lists.{length}
use soul_room_edge_platform.Base.Patterns.{
  codes, matches, is_lower, is_digit, is_alphanumeric, is_name,
}

-- A nil slice is `none`: `reflect.DeepEqual` tells it from an empty one.
pub record Request : Type 0 where
  pub update_id : String
  pub adapter : String
  pub version : String
  pub product : String
  pub architecture : String
  pub artifact_url : String
  pub artifact_size : ℤ
  pub digest : String
  pub signature : String
  pub signing_key_id : String
  pub compatible_from : Option (List String)
  pub flatpak_ref : String
  pub flatpak_remote : String
  pub flatpak_commit : String
  pub repository_url : String
  pub ostree_remote : String
  pub ostree_ref : String
  pub ostree_commit : String
  pub ostree_os : String

pub record Status : Type 0 where
  pub update_id : String
  pub adapter : String
  pub state : String
  pub version : String
  pub error : String

-- What `ValidateRequest` and the engine read of `ota.Config`; the directories and time limits are
-- in the ports of the engine.
pub record Config : Type 0 where
  pub product : String
  pub max_artifact_bytes : ℤ
  pub auto_reboot : Bool
  pub health_check_command : String
  pub min_free_bytes : ℕ

unfoldable pub Request-discrete : Discrete Request
Request-discrete = hlevel (ℕ_discrete, string_dec, ℤ-discrete)

-- The functions of the standard library that the code calls on texts, and `runtime.GOARCH`.
-- `hex_decode` is `hex.DecodeString`, with `none` for its
-- error; `quote` is the verb `%q`, `decimal` the verb `%d`.
pub record TextLibrary : Type 0 where
  pub to_lower : String → String
  pub trim_space : String → String
  pub equal_fold : String → String → Bool
  pub contains : String → String → Bool
  pub hex_decode : String → Option (List ℕ)
  pub quote : String → String
  pub fields : String → List String
  pub decimal : ℕ → String
  pub goarch : String

-- `adapterNamePattern`, `ostreeNamePattern`, `ostreeRefPattern`
unfoldable pub is_adapter_name : String → Bool
is_adapter_name s = matches is_lower (λ c. is_lower c || is_digit c || eqb c b'-') 1 31 (codes s)

unfoldable pub is_ostree_name : String → Bool
is_ostree_name s = matches is_alphanumeric is_name 0 63 (codes s)

unfoldable pub is_ostree_ref : String → Bool
is_ostree_ref s = matches is_alphanumeric (λ c. is_name c || eqb c b'/') 0 199 (codes s)

module _ (lib : TextLibrary) where
  unfoldable pub canonical_architecture : String → String
  canonical_architecture value =
      let v = lib.to_lower (lib.trim_space value) in
      if v == "arm64" || v == "aarch64"
      then "arm64"
      else if v == "arm" || v == "armv7" || v == "armv7l" || v == "armhf"
      then "armv7"
      else if v == "amd64" || v == "x86_64"
      then "amd64"
      else v

  abbrev pub is_sha256_hex : String → Bool
  is_sha256_hex text = elim (lib.hex_decode text) [
    | none ↦ false
    | some bytes ↦ eqb (length bytes) 32
  ]

  -- The validators return the text of their error, if there is one.
  unfoldable pub validate_ostree_request : Request → Option String
  validate_ostree_request r =
      if not (is_sha256_hex r.ostree_commit)
      then some "OSTree target commit must be a 64-character SHA-256 checksum"
      else if r.ostree_os != "" && not (is_ostree_name r.ostree_os)
      then some "OSTree deployment OS name is invalid"
      else if not (r.ostree_remote != "" || r.ostree_ref != "")
      then (if r.artifact_url == ""
          then some "OSTree offline updates require a signed static-delta artifact URL"
          else none)
      else if r.artifact_url != ""
      then some "OSTree update must use either a repository or a static-delta artifact, not both"
      else if not (is_ostree_name r.ostree_remote) || not (is_ostree_ref r.ostree_ref)
      then some "OSTree repository updates require a valid preconfigured remote and ref"
      else if not (lib.equal_fold r.digest r.ostree_commit)
      then some "OSTree repository digest must equal the pinned target commit"
      else none

  -- the checks of an update that is no Flatpak
  unfoldable pub validate_os_request : Config → Request → Option String
  validate_os_request cfg r =
      if r.digest == "" || r.signature == "" || r.signing_key_id == ""
      then some "OS OTA requires a SHA-256 digest, detached signature, and signing key ID"
      else if canonical_architecture r.architecture != canonical_architecture lib.goarch
      then some (
          "artifact architecture "
          <> lib.quote r.architecture
          <> " does not match device architecture "
          <> lib.quote lib.goarch)
      else if cfg.product == ""
      then some "ota.product must be configured before OS updates are allowed"
      else if r.product != cfg.product
      then some (
          "artifact product "
          <> lib.quote r.product
          <> " does not match configured product "
          <> lib.quote cfg.product)
      else if r.adapter == "ostree"
      then validate_ostree_request r
      else if r.artifact_url == ""
      then some "OS OTA requires an artifact URL"
      else none

  abbrev pub is_oversize : Config → Request → Bool
  is_oversize cfg r =
      ltb_ℤ r.artifact_size (pos 0)
      || ltb_ℤ (pos 0) cfg.max_artifact_bytes && ltb_ℤ cfg.max_artifact_bytes r.artifact_size

  abbrev pub or_oversize : Config → Request → Option String → Option String
  or_oversize cfg r (some e) = some e
  or_oversize cfg r none =
      if is_oversize cfg r then some "artifact exceeds the configured size limit" else none

  unfoldable pub validate_request : Config → Request → Option String
  validate_request cfg r =
      if r.update_id == "" || r.version == "" || not (is_adapter_name r.adapter)
      then some "OTA request requires an update ID, version, and valid adapter"
      else or_oversize cfg r (if r.adapter != "flatpak" then validate_os_request cfg r else none)

abbrev pub uses_ostree_repository : Request → Bool
uses_ostree_repository r = r.adapter == "ostree" && r.ostree_remote != ""
