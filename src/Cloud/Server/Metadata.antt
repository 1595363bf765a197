-- ===== src/Cloud/Server/Metadata.antt =====
-- The validation of a campaign: `ValidateMetadata` of cloud-infra/internal/ota/ota.go.
use soul_room_edge_platform.Base.{
  ℕ, String, Bool, false, ◌&&◌, ◌||◌, not, Option, none, some, List, ◌==◌, ◌!=◌, if◌then◌else◌, leb,
  eqb,
}
use soul_room_edge_platform.Base.Int.{pos, ltb_ℤ, eqb_ℤ}
use soul_room_edge_platform.Base.Lists.{length}
use soul_room_edge_platform.Base.Patterns.{
  codes, matches, is_lower, is_digit, is_alphanumeric, is_name,
}
use soul_room_edge_platform.Cloud.Model.{Campaign}
use soul_room_edge_platform.Cloud.Server.{Library}

-- The regular expressions, under their names. `^A B{n,m}$` is `matches A B n m`.
unfoldable pub flatpak_ref_pattern : String → Bool
flatpak_ref_pattern s = matches is_alphanumeric (λ c. is_name c || eqb c b'/') 2 199 (codes s)

-- `flatpakRemotePattern`, `ostreeNamePattern` and the pattern of the signing key
unfoldable pub name_pattern : String → Bool
name_pattern s = matches is_alphanumeric is_name 0 63 (codes s)

abbrev pub is_hex : ℕ → Bool
is_hex c = leb b'a' c && leb c b'f' || leb b'A' c && leb c b'F' || is_digit c

unfoldable pub flatpak_commit_pattern : String → Bool
flatpak_commit_pattern s = matches is_hex is_hex 63 63 (codes s)

unfoldable pub ostree_ref_pattern : String → Bool
ostree_ref_pattern s = matches is_alphanumeric (λ c. is_name c || eqb c b'/') 0 199 (codes s)

unfoldable pub adapter_pattern : String → Bool
adapter_pattern s = matches is_lower (λ c. is_lower c || is_digit c || eqb c b'-') 1 31 (codes s)

abbrev pub has_size : ℕ → Option (List ℕ) → Bool
has_size n none = false
has_size n (some bytes) = eqb (length bytes) n

-- The text of the error, if there is one, as in the other validators.
unfoldable pub validate_rollout : Campaign → Option String
validate_rollout c =
    if ltb_ℤ c.canary_percent (pos 1) || ltb_ℤ (pos 100) c.canary_percent
    then some "OTA canary percentage must be between 1 and 100"
    else if eqb (length c.target_ids) 0
    then some "OTA campaign requires at least one target device"
    else none

module _ (lib : Library) where
  unfoldable pub supported_architecture : String → Bool
  supported_architecture value =
      let v = lib.to_lower (lib.trim_space value) in
      v == "arm64"
      || v == "aarch64"
      || v == "armv7"
      || v == "armv7l"
      || v == "armhf"
      || v == "amd64"
      || v == "x86_64"

  unfoldable pub validate_artifact_url : String → Option String
  validate_artifact_url value = elim (lib.parse_url value) [
    | none ↦ some "OTA artifact URL must use HTTPS"
    | some parsed ↦
        if parsed.scheme != "https" || parsed.host == ""
        then some "OTA artifact URL must use HTTPS"
        else none
  ]

  unfoldable pub validate_ostree : Campaign → Option String
  validate_ostree c =
      if not (has_size 32 (lib.hex_decode c.ostree_commit))
      then some "OSTree target commit must be a 64-character SHA-256 checksum"
      else if c.ostree_os != "" && not (name_pattern c.ostree_os)
      then some "OSTree deployment OS name is invalid"
      else if not (c.ostree_remote != "" || c.ostree_ref != "")
      then validate_artifact_url c.artifact_url
      else if c.artifact_url != ""
      then some "OSTree campaign must use either a repository or a static-delta artifact, not both"
      else if not (name_pattern c.ostree_remote) || not (ostree_ref_pattern c.ostree_ref)
      then some "OSTree repository campaign requires a valid preconfigured remote and ref"
      else if not (lib.equal_fold c.digest c.ostree_commit)
      then some "OSTree repository digest must equal the pinned target commit"
      else if not (eqb_ℤ c.artifact_size (pos 0))
      then some "OSTree repository campaign cannot include an artifact size"
      else none

  abbrev pub is_flatpak_repository : String → Bool
  is_flatpak_repository value = elim (lib.parse_url value) [
    | none ↦ false
    | some parsed ↦
        parsed.scheme == "https"
        && parsed.host != ""
        && lib.has_suffix (lib.to_lower parsed.path) ".flatpakrepo"
  ]

  unfoldable pub validate_flatpak : Campaign → Option String
  validate_flatpak c =
      if not (flatpak_ref_pattern c.flatpak_ref)
      then some "Flatpak reference is invalid"
      else if not (name_pattern c.flatpak_remote)
      then some "Flatpak remote is invalid"
      else if c.flatpak_commit != "" && not (flatpak_commit_pattern c.flatpak_commit)
      then some "Flatpak commit must be a 64-character OSTree commit"
      else if c.flatpak_repository_url != "" && not (is_flatpak_repository c.flatpak_repository_url)
      then some "Flatpak repository URL must use HTTPS and point to a .flatpakrepo descriptor"
      else validate_rollout c

  -- the signature, in the padded or the unpadded encoding
  abbrev pub decoded_signature : String → Option (List ℕ)
  decoded_signature text = elim (lib.base64_std text) [
    | some bytes ↦ some bytes
    | none ↦ lib.base64_raw text
  ]

  -- the checks behind the one of the artifact or the commit
  unfoldable pub validate_signing : Campaign → Option String
  validate_signing c =
      if not (has_size 32 (lib.hex_decode c.digest))
      then some "OTA digest must be a SHA-256 value"
      else if ltb_ℤ c.artifact_size (pos 0)
      then some "OTA artifact size cannot be negative"
      else if not (name_pattern c.signing_key_id)
      then some "OTA signing key ID is invalid"
      else if not (has_size 64 (decoded_signature c.signature))
      then some "OTA signature must be a base64 Ed25519 signature"
      else validate_rollout c

  abbrev pub validate_source : Campaign → Option String
  validate_source c =
      if c.adapter == "ostree" then validate_ostree c else validate_artifact_url c.artifact_url

  unfoldable pub validate_metadata : Campaign → Option String
  validate_metadata c =
      if c.name == "" || c.version == ""
      then some "update metadata requires name and version"
      else if c.adapter == "flatpak"
      then validate_flatpak c
      else if c.digest == "" || c.signature == "" || c.signing_key_id == ""
      then some "OTA metadata requires a digest, detached signature, and signing key ID"
      else if not (supported_architecture c.architecture)
      then some "OTA architecture must be arm64/aarch64, armv7, or amd64"
      else if not (adapter_pattern c.adapter)
      then some "update adapter name is invalid"
      else if c.product == ""
      then some "OTA product is required"
      else elim (validate_source c) [ some message ↦ some message | none ↦ validate_signing c ]
