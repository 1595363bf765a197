-- ===== src/Agent/Config/Headings.antt =====
-- The keys under a subsection, by `Load` of agent/internal/config/config.go.
use text.Mathlib.TextLemmas.{nil-append, cons-append}
use soul_room_edge_platform.Base.{
  String, ◌<>◌, ◌≡◌, ◌⊎◌, inl, inr, ◌≢◌, refl, true, false, ◌||◌, some, List, [], ◌∷◌, ◌==◌, ◌!=◌,
  arith, Bool-cases,
}
use soul_room_edge_platform.Base.Lists.{All}
use soul_room_edge_platform.Base.Patterns.{has_char}
use soul_room_edge_platform.Agent.Config.{
  ServerConfig, IdentityConfig, StorageConfig, JobsConfig, ContainerConfig, GatewayConfig,
  LocationConfig, OtaConfig, Config,
}
use soul_room_edge_platform.Agent.Config.Reading.{
  Library, Reader, set_server, set_identity, set_storage, set_jobs, set_containers, set_gateway,
  set_location, set_ota, set_value, is_comment, is_indented, read_pair, read_entry, read_line,
  read_lines,
}

has_char-append : (a b : String) → has_char b'.' b ≡ true → has_char b'.' (a <> b) ≡ true
unfolding has_char
has_char-append String.[] b h = rw (nil-append b) h
has_char-append (String.◌∷◌ c a) b h = rw (cons-append c a b, has_char-append a b h) (ground arith)

has_char-prefix : (a b : String) → has_char b'.' a ≡ true → has_char b'.' (a <> b) ≡ true
unfolding has_char
has_char-prefix String.[] b h = ground arith
has_char-prefix (String.◌∷◌ c a) b h = rw (cons-append c a b) (ground (arith, has_char-prefix a b))

has_char-dot : (a b : String) → has_char b'.' (a <> "." <> b) ≡ true
unfolding has_char
has_char-dot a b = has_char-append a ("." <> b) (has_char-prefix "." b refl)

unlike :
    (key known : String)
    → has_char b'.' key ≡ true
    → has_char b'.' known ≡ false
    → (key == known) ≡ false
unlike key known dotted plain = elim (Bool-cases (key == known)) [
  | inl same ↦ ground arith
  | inr other ↦ other
]

module _ (lib : Library) (key value : String) (dotted : has_char b'.' key ≡ true) where
  set_server-dotted : (c : ServerConfig) → set_server lib c key value ≡ some c
  unfolding set_server has_char
  set_server-dotted c =
      rw
        (
          unlike key "endpoint" dotted refl,
          unlike key "ca_file" dotted refl,
          unlike key "connect_timeout" dotted refl,
        )
        refl

  set_identity-dotted : (c : IdentityConfig) → set_identity lib c key value ≡ some c
  unfolding set_identity has_char
  set_identity-dotted c =
      rw (unlike key "state_dir" dotted refl, unlike key "use_tpm" dotted refl) refl

  set_storage-dotted : (c : StorageConfig) → set_storage lib c key value ≡ some c
  unfolding set_storage has_char
  set_storage-dotted c =
      rw
        (
          unlike key "state_dir" dotted refl,
          unlike key "max_queue_bytes" dotted refl,
          unlike key "max_queue_age" dotted refl,
        )
        refl

  set_jobs-dotted : (c : JobsConfig) → set_jobs lib c key value ≡ some c
  unfolding set_jobs has_char
  set_jobs-dotted c =
      rw
        (
          unlike key "max_concurrent" dotted refl,
          unlike key "default_timeout" dotted refl,
          unlike key "allow_shell" dotted refl,
        )
        refl

  set_containers-dotted : (c : ContainerConfig) → set_containers lib c key value ≡ some c
  unfolding set_containers has_char
  set_containers-dotted c =
      rw (unlike key "provider" dotted refl, unlike key "socket" dotted refl) refl

  set_gateway-dotted : (c : GatewayConfig) → set_gateway lib c key value ≡ some c
  unfolding set_gateway has_char
  set_gateway-dotted c =
      rw (unlike key "enabled" dotted refl, unlike key "connector_dir" dotted refl) refl

  set_location-dotted : (c : LocationConfig) → set_location lib c key value ≡ some c
  unfolding set_location has_char
  set_location-dotted c =
      rw
        (
          unlike key "source" dotted refl,
          unlike key "latitude" dotted refl,
          unlike key "longitude" dotted refl,
          unlike key "label" dotted refl,
          unlike key "gpsd_address" dotted refl,
          unlike key "ip_url" dotted refl,
        )
        refl

  set_ota-dotted : (c : OtaConfig) → set_ota lib c key value ≡ some c
  unfolding set_ota has_char
  set_ota-dotted c =
      rw
        (
          unlike key "enabled" dotted refl,
          unlike key "product" dotted refl,
          unlike key "state_dir" dotted refl,
          unlike key "staging_dir" dotted refl,
          unlike key "trusted_keys_dir" dotted refl,
          unlike key "plugin_dir" dotted refl,
          unlike key "max_artifact_bytes" dotted refl,
          unlike key "min_free_bytes" dotted refl,
          unlike key "download_timeout" dotted refl,
          unlike key "health_timeout" dotted refl,
          unlike key "health_check_command" dotted refl,
          unlike key "auto_reboot" dotted refl,
        )
        refl

  set_value-dotted :
      (cfg : Config) (section : String)
      → (section == "telemetry") ≡ false
      → set_value lib cfg section key value ≡ some cfg
  unfolding set_value has_char
  set_value-dotted cfg section other =
      rw
        (
          unlike key "version" dotted refl,
          set_server-dotted cfg.server,
          set_identity-dotted cfg.identity,
          set_storage-dotted cfg.storage,
          set_jobs-dotted cfg.jobs,
          set_containers-dotted cfg.containers,
          set_gateway-dotted cfg.gateway,
          set_location-dotted cfg.location,
          set_ota-dotted cfg.ota,
        )
        (ground arith)

-- A line that is blank or a comment, or one with a colon that does not end in one.
unfoldable pub IsEntry : Library → String → Type 0
IsEntry lib raw =
    ((lib.trim_space raw == "" || is_comment (lib.trim_space raw)) ≡ true)
    ⊎ ((lib.ends_with_colon (lib.trim_space raw) ≡ false)
        × ((pair : String × String) × (lib.cut (lib.trim_space raw) ≡ some pair)))

module _ (s t : String) (h : s ≢ t) where
  apart : (s != t) ≡ true
  apart = ground arith

  set_apart : (s == t) ≡ false
  set_apart = ground arith

module _ (lib : Library) where
  read_pair-hidden :
      (r : Reader) (before after : String)
      → r.subsection ≢ ""
      → r.section ≢ "telemetry"
      → read_pair lib r before after ≡ some r
  unfolding read_pair
  read_pair-hidden r before after under other =
      let key = r.subsection <> "." <> lib.trim_space before in
      rw
        (
          apart r.subsection "" under,
          set_value-dotted lib key (lib.trim_quotes (lib.trim_space after))
              (has_char-dot r.subsection (lib.trim_space before)) r.config r.section
              (set_apart r.section "telemetry" other),
        )
        refl

  read_entry-hidden :
      (r : Reader) (line before after : String)
      → r.subsection ≢ ""
      → r.section ≢ "telemetry"
      → lib.cut line ≡ some (before, after)
      → read_entry lib r line ≡ some r
  unfolding read_entry
  read_entry-hidden r line before after under other e =
      rw (read_entry, e) (read_pair-hidden r before after under other)

  read_line-hidden :
      (r : Reader) (raw : String)
      → r.subsection ≢ ""
      → r.section ≢ "telemetry"
      → IsEntry lib raw
      → read_line lib r raw ≡ some r
  unfolding read_line IsEntry
  read_line-hidden r raw under other (inl blank) = rw blank refl
  read_line-hidden r raw under other (inr h) =
      rw (h.0, read_entry-hidden r (lib.trim_space raw) h.1.0.0 h.1.0.1 under other h.1.1)
        (ground arith)

  read_lines-hidden :
      (r : Reader) (lines : List String)
      → r.subsection ≢ ""
      → r.section ≢ "telemetry"
      → All (IsEntry lib) lines
      → read_lines lib r lines ≡ some r
  unfolding read_lines
  read_lines-hidden r [] under other h = refl
  read_lines-hidden r (raw ∷ rest) under other h =
      rw (read_lines, read_line-hidden r raw under other h.0)
        (read_lines-hidden r rest under other h.1)

  read_line-subsection :
      (r : Reader) (raw : String)
      → (lib.trim_space raw == "" || is_comment (lib.trim_space raw)) ≡ false
      → lib.ends_with_colon (lib.trim_space raw) ≡ true
      → is_indented lib raw ≡ true
      → read_line lib r raw ≡ some (record r { subsection = lib.trim_colon (lib.trim_space raw) })
  unfolding read_line
  read_line-subsection r raw written ends indented = rw (written, ends, indented) refl

  -- In any section but `telemetry`, an indented line that ends in its colon, as a key with an empty
  -- value does, makes the loop of `Load` ignore the lines behind it: as long as those are blank,
  -- comments, or keys with values, the loop reports no error and leaves the configuration as it is,
  -- whatever keys they name.
  pub read_lines-subsection :
      (r : Reader) (raw : String) (lines : List String)
      → r.section ≢ "telemetry"
      → (lib.trim_space raw == "" || is_comment (lib.trim_space raw)) ≡ false
      → lib.ends_with_colon (lib.trim_space raw) ≡ true
      → is_indented lib raw ≡ true
      → lib.trim_colon (lib.trim_space raw) ≢ ""
      → All (IsEntry lib) lines
      → read_lines lib r (raw ∷ lines)
        ≡ some (record r { subsection = lib.trim_colon (lib.trim_space raw) })
  unfolding read_lines
  read_lines-subsection r raw lines other written ends indented named h =
      rw (read_lines, read_line-subsection r raw written ends indented)
        (read_lines-hidden (record r { subsection = lib.trim_colon (lib.trim_space raw) }) lines
          named other h)
