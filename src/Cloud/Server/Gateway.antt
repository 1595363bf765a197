-- ===== src/Cloud/Server/Gateway.antt =====
-- What the device gateway of cloud-infra/internal/server/server.go lets through, and what a batch
-- of telemetry stores.
pub mod Batches
use soul_room_edge_platform.Base.{
  ℕ, suc, ◌+◌, ◌-◌, ◌*◌, ◌≤◌, ◌<◌, String, ◌≡◌, ◌≢◌, ◌⊎◌, inl, inr, refl, sym, ap, subst, ◌∙◌, Bool,
  true, false, not, ◌&&◌, ◌||◌, Option, none, some, List, [], ◌∷◌, ◌++◌, ◌==◌, ◌!=◌, if◌then◌else◌,
  ltb, arith, Bool-cases, Option-cases,
}
use soul_room_edge_platform.Base.Int.{ℤ, pos, move, eqb_ℤ}
use soul_room_edge_platform.Base.Lists.{length, All}
use soul_room_edge_platform.Base.Dict.{Dict, lookup, insert, lookup-insert}
use soul_room_edge_platform.Cloud.Model.{TenantContext, Time, Json, Device, Metric}
use soul_room_edge_platform.Cloud.Store.{Store, Env, StoreError, save_locked, save_locked-contents}
use soul_room_edge_platform.Cloud.Store.Jobs.{owns_device}
use soul_room_edge_platform.Cloud.Store.Devices.{
  get_device, update_device, add_telemetry, add_metrics, with_telemetry, with_devices,
}
use soul_room_edge_platform.Cloud.Server.{
  Outcome, failure, success, Library, Calls, Handled, error_json,
}
use soul_room_edge_platform.Cloud.Server.Accounts.{minute}
use soul_room_edge_platform.Cloud.Server.Enrollment.{context_of}
use soul_room_edge_platform.Cloud.Server.Protocol.{
  Envelope, Heartbeat, Sample, stamp, unix_time, validate_envelope, wrap, normalized,
  normalize_samples, normalize, is_valid_sample,
}
use soul_room_edge_platform.Cloud.Server.Devices.{
  with_envelope, device_heartbeat, device_telemetry, apply_heartbeat,
}

-- An envelope that is let through: its device is one of its tenant, its time is within ten minutes
-- of the clock, and its digest, if it has one, is that of its payload.
pub record IsTrusted (lib : Library) (now : Time) (s : Store) (e : Envelope) (d : Device)
    : Type 0 where
  pub stored : lookup e.device_id s.contents.devices ≡ some d
  pub own : d.tenant_id ≡ e.tenant_id
  pub named : e.message_id ≢ ""
  pub not_late : stamp e ≤ now + 10 * minute
  pub not_early : now ≤ stamp e + 10 * minute
  pub digest : (e.payload_digest ≡ "") ⊎ (lib.sha256_hex e.payload ≡ e.payload_digest)

device_cases :
    (tenant id : String) (s : Store)
    → ((get_device (context_of tenant) id s).0 ≡ none)
      ⊎ ((d : Device) × ((get_device (context_of tenant) id s).0 ≡ some d)
          × (lookup id s.contents.devices ≡ some d)
          × (d.tenant_id ≡ tenant))
unfolding get_device
device_cases tenant id s = elim (Option-cases (lookup id s.contents.devices)) [
  | inl e ↦ inl (rw (get_device, e) refl)
  | inr (d, e) ↦ elim (Bool-cases (d.tenant_id != tenant)) [
    | inl other ↦ inl (rw (get_device, e, other) refl)
    | inr same ↦ inr (d, rw (get_device, e, same) refl, e, ground arith)
  ]
]

-- `deviceEnvelope` answers 400 or 401 and leaves the store as it is, or the handler goes on with a
-- trusted envelope and the context of its tenant.
pub with_envelope_lem :
    (lib : Library) (calls : Calls) (body : Outcome Envelope) (s : Store)
    (next : Envelope → TenantContext → Handled)
    → ((with_envelope lib calls body s next).1 ≡ s)
        × (((with_envelope lib calls body s next).0.status ≡ 400)
            ⊎ ((with_envelope lib calls body s next).0.status ≡ 401))
      ⊎ ((e : Envelope) × (d : Device) × (body ≡ success e)
          × IsTrusted lib ((calls 0).now 0) s e d
          × (with_envelope lib calls body s next ≡ next e (context_of e.tenant_id)))
unfolding with_envelope validate_envelope
with_envelope_lem lib calls (failure message) s next = inl (refl, inl refl)
with_envelope_lem lib calls (success e) s next =
    elim (Option-cases (validate_envelope lib ((calls 0).now 0) (10 * minute) e)) [
      | inr (message, bad) ↦ inl (rw (with_envelope, bad) (refl, inl refl))
      | inl good ↦ elim (device_cases e.tenant_id e.device_id s) [
        | inl unknown ↦ inl (rw (with_envelope, good, unknown) (refl, inr refl))
        | inr (d, got, found, own) ↦ inr (
          e,
          d,
          refl,
          record {
            stored = found;
            own = own;
            named = λ p. ground arith;
            not_late = ground arith;
            not_early = ground arith;
            digest = ground arith;
          },
          rw (with_envelope, good, got) refl,
        )
      ]
    ]

-- An envelope that `Wrap` makes is accepted by `Validate`: with a message id and a time that is not
-- 0, wherever the clock that reads it is off by no more than the skew.
pub validate_envelope-wrap :
    (lib : Library) (message_id tenant_id device_id schema : String) (created : ℤ) (sequence : ℕ)
    (raw : Json) (now skew : ℕ)
    → message_id ≢ ""
    → eqb_ℤ created (pos 0) ≡ false
    → unix_time created ≤ now + skew
    → now ≤ unix_time created + skew
    → validate_envelope lib now skew
        (wrap lib message_id created tenant_id device_id schema sequence raw)
      ≡ none
unfolding validate_envelope wrap
validate_envelope-wrap lib message_id tenant_id device_id schema created sequence raw now skew ne
      started late early =
    ground arith
