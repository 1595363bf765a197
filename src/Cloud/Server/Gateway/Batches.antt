-- ===== src/Cloud/Server/Gateway/Batches.antt =====
-- A batch of telemetry on its way through `deviceTelemetry`, `Normalize` and `AddTelemetry`.
use soul_room_edge_platform.Base.{
  ℕ, suc, ◌+◌, ◌≤◌, String, ◌≡◌, ◌⊎◌, inl, inr, refl, sym, ap, subst, ◌∙◌, true, none, some, List,
  [], ◌∷◌, ◌++◌, ltb, arith, Bool-cases, Option-cases,
}
use soul_room_edge_platform.Base.Int.{pos, eqb_ℤ, eqb_ℤ→≡}
use soul_room_edge_platform.Base.Lists.{length, All}
use soul_room_edge_platform.Base.Dict.{Dict, lookup}
use soul_room_edge_platform.Cloud.Model.{TenantContext, Time, Json, Device, Metric}
use soul_room_edge_platform.Cloud.Store.{Store, Env, save_locked-contents}
use soul_room_edge_platform.Cloud.Store.Jobs.{owns_device}
use soul_room_edge_platform.Cloud.Store.Devices.{add_telemetry, add_metrics, with_telemetry}
use soul_room_edge_platform.Cloud.Server.{Outcome, failure, success, Library, Calls, Handled}
use soul_room_edge_platform.Cloud.Server.Enrollment.{context_of}
use soul_room_edge_platform.Cloud.Server.Protocol.{
  Envelope, Sample, normalized, normalize_samples, normalize, is_valid_sample, unix_time,
}
use soul_room_edge_platform.Cloud.Server.Devices.{store_batch, device_telemetry}
use soul_room_edge_platform.Cloud.Server.Gateway.{IsTrusted, with_envelope_lem}
use soul_room_edge_platform.Cloud.Server.Pilot.Queueing.{Outcome-cases}

-- A metric of the device that `AddTelemetry` takes.
abbrev pub IsFrom : String → Metric → Type 0
IsFrom device_id m = (m.device_id ≡ device_id) × (length m.labels ≤ 12)

-- A metric of a device that holds a sample: its name, value, unit and labels, the message that it
-- came with, and the time of the sample, if it has one.
pub record IsOf (device_id message_id : String) (sample : Sample) (m : Metric) : Type 0 where
  pub device : m.device_id ≡ device_id
  pub message : m.message_id ≡ message_id
  pub name : m.name ≡ sample.name
  pub value : m.value ≡ sample.value
  pub unit : m.unit ≡ sample.unit
  pub labels : m.labels ≡ sample.labels
  pub few : length m.labels ≤ 12
  pub time : (sample.time_unix_nano ≡ pos 0) ⊎ (m.device_time ≡ unix_time sample.time_unix_nano)

-- One metric for each sample, in their order.
abbrev pub AreOf : String → String → List Sample → List Metric → Type 0
AreOf device_id message_id [] [] = Unit
AreOf device_id message_id (sample ∷ samples) (m ∷ ms) =
    IsOf device_id message_id sample m × AreOf device_id message_id samples ms
AreOf device_id message_id [] (m ∷ ms) = ¬ Unit
AreOf device_id message_id (sample ∷ samples) [] = ¬ Unit

dated :
    (device_id message_id : String) (device_now received : Time) (sample : Sample)
    → (sample.time_unix_nano ≡ pos 0)
      ⊎ ((normalized device_id message_id device_now received sample).device_time
          ≡ unix_time sample.time_unix_nano)
dated device_id message_id device_now received sample =
    elim (Bool-cases (eqb_ℤ sample.time_unix_nano (pos 0))) [
      | inl e ↦ inl (eqb_ℤ→≡ sample.time_unix_nano (pos 0) e)
      | inr e ↦ inr (ground arith)
    ]

normalize_samples-AreOf :
    (now : ℕ → Time) (i : ℕ) (device_id message_id : String) (samples : List Sample)
    (ms : List Metric)
    → normalize_samples now i device_id message_id samples ≡ some ms
    → AreOf device_id message_id samples ms
unfolding normalize_samples
normalize_samples-AreOf now i device_id message_id [] ms e =
    let same : [] ≡ ms = ground arith in subst (λ t. AreOf device_id message_id [] t) same tt
normalize_samples-AreOf now i device_id message_id (m ∷ rest) ms e =
    elim (Bool-cases (is_valid_sample m)) [
      | inr bad ↦ absurd (ground arith)
      | inl good ↦ elim (Option-cases (normalize_samples now (i + 2) device_id message_id rest)) [
        | inl none_e ↦ absurd (ground arith)
        | inr (tail, some_e) ↦
            let same : normalized device_id message_id (now i) (now (i + 1)) m ∷ tail ≡ ms =
              ground arith in
            subst (λ t. AreOf device_id message_id (m ∷ rest) t) same
              (
                record {
                  device = refl;
                  message = refl;
                  name = refl;
                  value = refl;
                  unit = refl;
                  labels = refl;
                  few = ground arith;
                  time = dated device_id message_id (now i) (now (i + 1)) m;
                },
                normalize_samples-AreOf now (i + 2) device_id message_id rest tail some_e,
              )
      ]
    ]

normalize_samples-IsFrom :
    (now : ℕ → Time) (i : ℕ) (device_id message_id : String) (samples : List Sample)
    (ms : List Metric)
    → normalize_samples now i device_id message_id samples ≡ some ms
    → All (IsFrom device_id) ms × (length ms ≡ length samples)
unfolding normalize_samples
normalize_samples-IsFrom now i device_id message_id [] ms e =
    let same : [] ≡ ms = ground arith in
    subst (λ t. All (IsFrom device_id) t × (length t ≡ 0)) same (tt, refl)
normalize_samples-IsFrom now i device_id message_id (m ∷ rest) ms e =
    elim (Bool-cases (is_valid_sample m)) [
      | inr bad ↦ absurd (ground arith)
      | inl good ↦ elim (Option-cases (normalize_samples now (i + 2) device_id message_id rest)) [
        | inl none_e ↦ absurd (ground arith)
        | inr (tail, some_e) ↦
            let (from, count) =
              normalize_samples-IsFrom now (i + 2) device_id message_id rest tail some_e in
            let same : normalized device_id message_id (now i) (now (i + 1)) m ∷ tail ≡ ms =
              ground arith in
            subst (λ t. All (IsFrom device_id) t × (length t ≡ suc (length rest))) same
              (((refl, ground arith), from), ap suc count)
      ]
    ]

-- What `AddTelemetry` stores of a batch: each metric with the time of its turn.
abbrev pub received : (ℕ → Time) → ℕ → List Metric → List Metric
received now i [] = []
received now i (m ∷ ms) = record m { received_at = now i } ∷ received now (i + 1) ms

append_nil : (xs : List Metric) → xs ++ [] ≡ xs
append_nil [] = refl
append_nil (x ∷ xs) = ap (λ t. x ∷ t) (append_nil xs)

append_assoc : (xs ys zs : List Metric) → (xs ++ ys) ++ zs ≡ xs ++ (ys ++ zs)
append_assoc [] ys zs = refl
append_assoc (x ∷ xs) ys zs = ap (λ t. x ∷ t) (append_assoc xs ys zs)

add_metrics_whole :
    (tc : TenantContext) (now : ℕ → Time) (i : ℕ) (ds : Dict Device) (device_id : String)
    (ms stored : List Metric)
    → owns_device tc (lookup device_id ds) ≡ true
    → All (IsFrom device_id) ms
    → add_metrics tc now i ds ms stored ≡ (none, stored ++ received now i ms)
unfolding add_metrics
add_metrics_whole tc now i ds device_id [] stored own from =
    ap (λ t. (none, t)) (sym (append_nil stored))
add_metrics_whole tc now i ds device_id (m ∷ ms) stored own from =
    let owned : owns_device tc (lookup m.device_id ds) ≡ true = rw from.0.0 own in
    ground (
      arith,
      from.0,
      owned,
      add_metrics_whole tc now (i + 1) ds device_id ms
          (stored ++ (record m { received_at = now i } ∷ [])) own from.1,
      append_assoc stored (record m { received_at = now i } ∷ []) (received now (i + 1) ms),
    )

received-AreOf :
    (now : ℕ → Time) (i : ℕ) (device_id message_id : String) (samples : List Sample)
    (ms : List Metric)
    → AreOf device_id message_id samples ms
    → AreOf device_id message_id samples (received now i ms)
received-AreOf now i device_id message_id [] [] h = tt
received-AreOf now i device_id message_id [] (m ∷ ms) h = h
received-AreOf now i device_id message_id (sample ∷ samples) [] h = h
received-AreOf now i device_id message_id (sample ∷ samples) (m ∷ ms) h = (
  record {
    device = h.0.device;
    message = h.0.message;
    name = h.0.name;
    value = h.0.value;
    unit = h.0.unit;
    labels = h.0.labels;
    few = h.0.few;
    time = h.0.time;
  },
  received-AreOf now (i + 1) device_id message_id samples ms h.1,
)

-- The telemetry once a batch is added to the store, whatever the disk does.
add_telemetry_whole :
    (env : Env) (tc : TenantContext) (device_id : String) (ms : List Metric) (s : Store)
    → length ms ≤ 5000
    → owns_device tc (lookup device_id s.contents.devices) ≡ true
    → All (IsFrom device_id) ms
    → (add_telemetry env tc ms s).1.contents.telemetry
      ≡ s.contents.telemetry ++ received env.now 0 ms
unfolding add_telemetry
add_telemetry_whole env tc device_id ms s small own from = ground (
  arith,
  add_metrics_whole tc env.now 0 s.contents.devices device_id ms s.contents.telemetry own from,
  save_locked-contents env.disk (with_telemetry s (s.contents.telemetry ++ received env.now 0 ms)),
)

normalize_cases :
    (now : ℕ → Time) (device_id message_id : String) (samples : List Sample)
    → ((message : String) × (normalize now device_id message_id samples ≡ failure message))
      ⊎ ((ms : List Metric) × (normalize now device_id message_id samples ≡ success ms)
          × (All (IsFrom device_id) ms
              × AreOf device_id message_id samples ms
              × (length ms ≤ 5000)))
unfolding normalize
normalize_cases now device_id message_id samples = elim (Bool-cases (ltb 5000 (length samples))) [
  | inl large ↦ inl ("telemetry batch too large", rw large refl)
  | inr small ↦ elim (Option-cases (normalize_samples now 0 device_id message_id samples)) [
    | inl e ↦ inl ("invalid metric", rw (small, e) refl)
    | inr (ms, e) ↦
        let (from, count) = normalize_samples-IsFrom now 0 device_id message_id samples ms e in
        inr (
          ms,
          rw (small, e) refl,
          (from, normalize_samples-AreOf now 0 device_id message_id samples ms e, ground arith),
        )
  ]
]

-- What a batch of samples of a message of a device leaves of the telemetry: all of it is added.
abbrev pub IsWhole : String → String → List Sample → List Metric → List Metric → Type 0
IsWhole device_id message_id samples before after =
    (ms : List Metric) × (after ≡ before ++ ms) × AreOf device_id message_id samples ms

module _ (lib : Library) (calls : Calls) (unmarshal : Json → Outcome (List Sample)) where
  store_batch_cases :
      (e : Envelope) (s : Store)
      → owns_device (context_of e.tenant_id) (lookup e.device_id s.contents.devices) ≡ true
      → let answer = store_batch lib calls unmarshal e (context_of e.tenant_id) s in
        ((answer.1 ≡ s) × (answer.0.status ≡ 400))
        ⊎ ((samples : List Sample) × (unmarshal e.payload ≡ success samples)
            × IsWhole e.device_id e.message_id samples s.contents.telemetry
                answer.1.contents.telemetry)
  unfolding store_batch
  store_batch_cases e s own = elim (Outcome-cases (List Sample) (unmarshal e.payload)) [
    | inl (message, bad) ↦ inl (rw (store_batch, bad) (refl, refl))
    | inr (samples, read) ↦ elim (normalize_cases (calls 1).now e.device_id e.message_id samples) [
      | inl (message, bad) ↦ inl (rw (store_batch, read, bad) (refl, refl))
      | inr (ms, good, (from, whole_ms, small)) ↦
          let tc = context_of e.tenant_id in
          let whole = add_telemetry_whole (calls 2) tc e.device_id ms s small own from in
          inr (
            samples,
            read,
            (
              received (calls 2).now 0 ms,
              elim (Option-cases (add_telemetry (calls 2) tc ms s).0) [
                | inl ok ↦ rw (store_batch, read, good, ok) whole
                | inr (x, failed) ↦ rw (store_batch, read, good, failed) whole
              ],
              received-AreOf (calls 2).now 0 e.device_id e.message_id samples ms whole_ms,
            ),
          )
    ]
  ]

  -- A request with telemetry adds nothing, and is answered 400 or 401, or it adds all samples of
  -- a trusted envelope, behind the telemetry that is stored and in their order, also where the disk
  -- fails: each as a metric of the device and the message of the envelope with the name, value, unit
  -- and labels of the sample, of which there are at most twelve, and with its time, if it has one.
  pub device_telemetry-IsWhole :
      (body : Outcome Envelope) (s : Store)
      → let answer = device_telemetry lib calls unmarshal body s in
        ((answer.1 ≡ s) × ((answer.0.status ≡ 400) ⊎ (answer.0.status ≡ 401)))
        ⊎ ((e : Envelope) × (d : Device) × (samples : List Sample) × (body ≡ success e)
            × IsTrusted lib ((calls 0).now 0) s e d
            × (unmarshal e.payload ≡ success samples)
            × IsWhole e.device_id e.message_id samples s.contents.telemetry
                answer.1.contents.telemetry)
  unfolding device_telemetry
  device_telemetry-IsWhole body s =
      let next = λ (e : Envelope) (tc : TenantContext). store_batch lib calls unmarshal e tc s in
      elim (with_envelope_lem lib calls body s next) [
        | inl refused ↦ inl refused
        | inr (e, d, read, trusted, same) ↦
            let owned : owns_device (context_of e.tenant_id) (lookup e.device_id s.contents.devices)
                ≡ true =
              ground (arith, trusted.stored, trusted.own) in
            elim (store_batch_cases e s owned) [
              | inl (kept, status) ↦ inl (
                ap (λ (h : Handled). h.1) same ∙ kept,
                inl (ap (λ (h : Handled). h.0.status) same ∙ status),
              )
              | inr (samples, parsed, whole) ↦ inr (
                e,
                d,
                samples,
                read,
                trusted,
                parsed,
                subst
                    (λ (h : Handled).
                      IsWhole e.device_id e.message_id samples s.contents.telemetry
                        h.1.contents.telemetry)
                    (sym same) whole,
              )
            ]
      ]
