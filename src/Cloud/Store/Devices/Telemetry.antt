-- ===== src/Cloud/Store/Devices/Telemetry.antt =====
-- What `AddTelemetry` stores of a batch.
use soul_room_edge_platform.Base.{
  ℕ, ◌+◌, ◌≤◌, ◌≡◌, refl, ◌≢◌, ◌↔◌, ◌⊎◌, Bool, true, ◌&&◌, not, none, List, [], ◌∷◌, ◌++◌,
  if◌then◌else◌, ltb, arith,
}
use mathlib.Core.List.{append-nil, append_assoc}
use soul_room_edge_platform.Base.Lists.{length}
use soul_room_edge_platform.Base.Dict.{Dict, lookup}
use soul_room_edge_platform.Cloud.Model.{TenantContext, Time, Device, Metric}
use soul_room_edge_platform.Cloud.Store.{Store, Env, save_locked-contents}
use soul_room_edge_platform.Cloud.Store.Jobs.{owns_device}
use soul_room_edge_platform.Cloud.Store.Devices.{add_metrics, with_telemetry, add_telemetry}

-- A metric of a stored device of the tenant, with at most 12 labels.
abbrev pub is_acceptable : TenantContext → Dict Device → Metric → Bool
is_acceptable tc ds m = owns_device tc (lookup m.device_id ds) && not (ltb 12 (length m.labels))

-- The metrics before the first that is not acceptable.
abbrev pub acceptable_prefix : TenantContext → Dict Device → List Metric → List Metric
acceptable_prefix tc ds [] = []
acceptable_prefix tc ds (m ∷ ms) =
    let rest = acceptable_prefix tc ds ms in if is_acceptable tc ds m then m ∷ rest else []

-- The metrics with the readings of the clock, from the `i`th on.
abbrev pub stamped : (ℕ → Time) → ℕ → List Metric → List Metric
stamped now i [] = []
stamped now i (m ∷ ms) = record m { received_at = now i } ∷ stamped now (i + 1) ms

abbrev pub all_acceptable : TenantContext → Dict Device → List Metric → Bool
all_acceptable tc ds [] = true
all_acceptable tc ds (m ∷ ms) = is_acceptable tc ds m && all_acceptable tc ds ms

add_metrics-stored :
    (tc : TenantContext) (now : ℕ → Time) (i : ℕ) (ds : Dict Device) (ms stored : List Metric)
    → (add_metrics tc now i ds ms stored).1 ≡ stored ++ stamped now i (acceptable_prefix tc ds ms)
unfolding add_metrics
add_metrics-stored tc now i ds [] stored = rw append-nil
add_metrics-stored tc now i ds (m ∷ ms) stored =
    let m' = record m { received_at = now i } in
    let ih = add_metrics-stored tc now (i + 1) ds ms (stored ++ (m' ∷ [])) in
    ground (
      arith,
      ih,
      append_assoc stored (m' ∷ []) (stamped now (i + 1) (acceptable_prefix tc ds ms)),
      append-nil stored,
    )

add_metrics-error :
    (tc : TenantContext) (now : ℕ → Time) (i : ℕ) (ds : Dict Device) (ms stored : List Metric)
    → ((add_metrics tc now i ds ms stored).0 ≡ none) ↔ (all_acceptable tc ds ms ≡ true)
unfolding add_metrics
add_metrics-error tc now i ds [] stored = (λ _. refl, λ _. refl)
add_metrics-error tc now i ds (m ∷ ms) stored =
    let ih =
      add_metrics-error tc now (i + 1) ds ms (stored ++ (record m { received_at = now i } ∷ [])) in
    (ground (arith, ih), ground (arith, ih))

-- A batch of at most 5000 metrics: the metrics before the first bad one are stored with the time
-- of their receipt, whether there is a bad one or not, and if there is one an error is returned.
pub add_telemetry_lem :
    (env : Env) (tc : TenantContext) (ms : List Metric) (s : Store)
    → length ms ≤ 5000
    → let ds = s.contents.devices in
      let (e, s') = add_telemetry env tc ms s in
      (s'.contents ≡ record s.contents {
        telemetry = s.contents.telemetry ++ stamped env.now 0 (acceptable_prefix tc ds ms);
      })
      × ((all_acceptable tc ds ms ≡ true) ⊎ (e ≢ none))
unfolding add_telemetry
add_telemetry_lem env tc ms s small =
    let ds = s.contents.devices in
    let r = add_metrics tc env.now 0 ds ms s.contents.telemetry in
    let kept = add_metrics-stored tc env.now 0 ds ms s.contents.telemetry in
    let failed = add_metrics-error tc env.now 0 ds ms s.contents.telemetry in
    (
      ground (arith, kept, save_locked-contents env.disk (with_telemetry s r.1)),
      ground (arith, failed),
    )
