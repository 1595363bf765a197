-- ===== src/Agent/Config/Validity.antt =====
-- What `Validate` of agent/internal/config/config.go asks of a configuration that `Load` returns.
use text.Mathlib.TextLemmas.{nil-append, cons-append}
use Prim.Native.Char.{code}
use text.Mathlib.TextEquality.{Char-path}
use soul_room_edge_platform.Base.{
  ℕ, ◌+◌, ◌%◌, ◌^◌, ◌≤◌, Bool-cases, String, ◌<>◌, ◌≡◌, ◌⊎◌, inl, inr, ◌≢◌, sym, ap, true, false,
  none, some, List, arith, Option-cases,
}
use soul_room_edge_platform.Base.Int.{pos, ◌≤ℤ◌, eqb_ℤ→≡}
use soul_room_edge_platform.Base.Floats.{is_nan, float_ltb, float_leb}
use soul_room_edge_platform.Base.Patterns.{strip_prefix}
use soul_room_edge_platform.Agent.Config.{
  LocationConfig, OtaConfig, Config, second, has_https, validate_location, validate_ota,
  validate_config,
}
use soul_room_edge_platform.Agent.Config.Reading.{Library, load_config}

abbrev pub IsHttps : String → Type 0
IsHttps text = (rest : String) × (text ≡ "https://" <> rest)

-- The bit patterns of 90 and 180.
abbrev pub degrees_90 : ℕ
degrees_90 = 4636033603912859648

abbrev pub degrees_180 : ℕ
degrees_180 = 4640537203540230144

-- A float that is no number, or whose magnitude is at most that of a positive one: the bits behind
-- the sign are in the order of the magnitudes.
abbrev pub IsWithin : ℕ → ℕ → Type 0
IsWithin most x = (is_nan x ≡ true) ⊎ (x % 2 ^ 63 ≤ most)

pub record IsPlaced (l : LocationConfig) : Type 0 where
  pub of_source :
      (l.source ≡ "disabled") ⊎ (l.source ≡ "static") ⊎ (l.source ≡ "gpsd") ⊎ (l.source ≡ "ip")
  pub latitude : l.source ≡ "static" → IsWithin degrees_90 l.latitude
  pub longitude : l.source ≡ "static" → IsWithin degrees_180 l.longitude
  pub if_ip : l.source ≡ "ip" → IsHttps l.ip_url

pub record IsUpdatable (o : OtaConfig) : Type 0 where
  pub with_state : o.state_dir ≢ ""
  pub with_staging : o.staging_dir ≢ ""
  pub with_keys : o.trusted_keys_dir ≢ ""
  pub with_plugins : o.plugin_dir ≢ ""
  pub artifacts : pos 1048576 ≤ℤ o.max_artifact_bytes
  pub downloads : pos 60000000000 ≤ℤ o.download_timeout
  pub health : pos second ≤ℤ o.health_timeout

pub record IsSound (c : Config) : Type 0 where
  pub of_version : c.version ≡ pos 1
  pub of_endpoint : IsHttps c.server.endpoint
  pub with_identity : c.identity.state_dir ≢ ""
  pub with_storage : c.storage.state_dir ≢ ""
  pub queue : pos 1048576 ≤ℤ c.storage.max_queue_bytes
  pub interval : pos second ≤ℤ c.telemetry.interval
  pub jobs : pos 1 ≤ℤ c.jobs.max_concurrent
  pub without_shell : c.jobs.allow_shell ≡ false
  pub placed : IsPlaced c.location
  pub updatable : c.ota.enabled ≡ true → IsUpdatable c.ota

strip_prefix_lem : (p s rest : String) → strip_prefix p s ≡ some rest → s ≡ p <> rest
unfolding strip_prefix
strip_prefix_lem String.[] s rest h = rw (nil-append rest) (ground arith)
strip_prefix_lem (String.◌∷◌ c p) String.[] rest h = ground arith
strip_prefix_lem (String.◌∷◌ c p) (String.◌∷◌ d s) rest h =
    let same : code c ≡ code d = ground arith in
    rw (cons-append c p rest, strip_prefix_lem p s rest (ground arith))
      (ap (λ a. String.◌∷◌ a (p <> rest)) (Char-path d c (sym same)))

has_https-IsHttps : (text : String) → has_https text ≡ true → IsHttps text
has_https-IsHttps text h = elim (Option-cases (strip_prefix "https://" text)) [
  | inl e ↦ absurd (ground arith)
  | inr (rest, e) ↦ (rest, strip_prefix_lem "https://" text rest e)
]

not_ltb-IsWithin :
    (most x : ℕ)
    → most ≤ degrees_180
    → float_ltb x (most + 2 ^ 63) ≡ false
    → float_ltb most x ≡ false
    → IsWithin most x
unfolding float_ltb float_leb
not_ltb-IsWithin most x small above below = elim (Bool-cases (is_nan x)) [
  | inl e ↦ inl e
  | inr e ↦ inr (ground arith)
]

validate_location-IsPlaced : (l : LocationConfig) → validate_location l ≡ none → IsPlaced l
unfolding validate_location
validate_location-IsPlaced l h = record {
  of_source = ground arith;
  latitude =
      λ static. not_ltb-IsWithin degrees_90 l.latitude (ground arith) (ground arith) (ground arith);
  longitude = λ static.
      not_ltb-IsWithin degrees_180 l.longitude (ground arith) (ground arith) (ground arith);
  if_ip = λ ip. has_https-IsHttps l.ip_url (ground arith);
}

validate_ota-IsUpdatable :
    (o : OtaConfig) → validate_ota o ≡ none → o.enabled ≡ true → IsUpdatable o
unfolding validate_ota
validate_ota-IsUpdatable o h enabled = record {
  with_state = ground arith;
  with_staging = ground arith;
  with_keys = ground arith;
  with_plugins = ground arith;
  artifacts = ground arith;
  downloads = ground arith;
  health = ground arith;
}

validate_config-IsSound : (c : Config) → validate_config c ≡ none → IsSound c
unfolding validate_config
validate_config-IsSound c h = record {
  of_version = eqb_ℤ→≡ c.version (pos 1) (ground arith);
  of_endpoint = has_https-IsHttps c.server.endpoint (ground arith);
  with_identity = ground arith;
  with_storage = ground arith;
  queue = ground arith;
  interval = ground arith;
  jobs = ground arith;
  without_shell = ground arith;
  placed = validate_location-IsPlaced c.location (ground arith);
  updatable = validate_ota-IsUpdatable c.ota (ground arith);
}

-- A configuration that `Load` returns without an error, from any file, obeys every rule of
-- `Validate`: its version is 1, the endpoint begins with `https://`, the state directories are
-- named, the queue has at least a MiB, the telemetry at least a second, jobs may run, and none in a
-- shell; the location has a known source; where that is static, each coordinate is no number or is
-- within 90 and 180 degrees to either side, and where it is the network, it is asked for by https; and if updates are on, their directories are named and their bounds are
-- at least a MiB, a minute and a second.
pub load_config-IsSound :
    (lib : Library) (lines : List String) (c : Config) → load_config lib lines ≡ some c → IsSound c
unfolding load_config
load_config-IsSound lib lines c h = validate_config-IsSound c (ground arith)
