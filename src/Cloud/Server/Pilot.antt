-- ===== src/Cloud/Server/Pilot.antt =====
-- How a campaign is rolled out by cloud-infra/internal/server/server.go: the size of the pilot
-- group, and which devices get a job.
pub mod Queueing
pub mod Promotion
use soul_room_edge_platform.Base.{
  ℕ, zero, suc, ◌+◌, ◌*◌, ◌/◌, ◌≤◌, ◌<◌, String, ◌<>◌, ◌≡◌, ◌≢◌, ◌⊎◌, inl, inr, refl, sym, ap, ◌∙◌,
  Bool, true, false, ◌&&◌, ◌||◌, eqb, Option, none, some, List, [], ◌∷◌, ◌==◌, if◌then◌else◌, arith,
  Bool-cases, Option-cases,
}
use soul_room_edge_platform.Base.Int.{ℤ, pos, negsuc, pos_part, ltb_ℤ}
use soul_room_edge_platform.Base.Lists.{length, filter, any, All}
use soul_room_edge_platform.Base.Dict.{Dict, lookup, insert, lookup-insert}
use soul_room_edge_platform.Cloud.Model.{TenantContext, Json, Job, Campaign}
use soul_room_edge_platform.Cloud.Store.{Store, Env, Reply, save_locked-contents, new_id}
use soul_room_edge_platform.Cloud.Store.Jobs.{
  with_jobs, owns_device, is_replay, find_replay, fresh_job, create_job,
}
use soul_room_edge_platform.Cloud.Store.Jobs.Creation.{
  find_replay_sound, create_job-foreign, create_job_new, create_job_old, add_job-contents,
}
use soul_room_edge_platform.Cloud.Store.Untouched.{create_job-Untouched}
use soul_room_edge_platform.Cloud.Server.{Outcome, Library, Calls}
use soul_room_edge_platform.Cloud.Server.Work.{new_job}
use soul_room_edge_platform.Cloud.Server.Metadata.{
  validate_metadata, validate_rollout, validate_flatpak, validate_signing, validate_source,
}
use soul_room_edge_platform.Cloud.Server.Rollout.{
  canary_count, update_job, queue_jobs, queue_ota_jobs, Queued, campaign_payload,
}

-- Every way through the validation ends with the checks of the rollout.
validate_metadata-rollout :
    (lib : Library) (c : Campaign) → validate_metadata lib c ≡ none → validate_rollout c ≡ none
unfolding validate_metadata validate_flatpak validate_signing
validate_metadata-rollout lib c valid = ground arith

times_le : (a b c : ℕ) → b ≤ c → a * b ≤ a * c
times_le zero b c h = omega arith
times_le (suc a) b c h = omega (arith, times_le a b c h)

product_positive : (a b : ℕ) → 1 ≤ a → 1 ≤ b → 1 ≤ a * b
product_positive a b h k = omega (arith, times_le a 1 b k)

pilot_bounds :
    (targets percent : ℕ)
    → 1 ≤ targets
    → 1 ≤ percent
    → percent ≤ 100
    → let n = canary_count targets (pos percent) in
      (1 ≤ n) × (n ≤ targets) × (targets * percent ≤ 100 * n) × (100 * n < targets * percent + 100)
unfolding canary_count
pilot_bounds targets percent h1 h2 h3 =
    let low = product_positive targets percent h1 h2 in
    let high = times_le targets percent 100 h3 in
    (ground arith, ground arith, ground arith, ground arith)

rollout_bounds :
    (targets : ℕ) (percent : ℤ)
    → (ltb_ℤ percent (pos 1) || ltb_ℤ (pos 100) percent) ≡ false
    → eqb targets 0 ≡ false
    → let n = canary_count targets percent in
      (1 ≤ n)
      × (n ≤ targets)
      × (targets * pos_part percent ≤ 100 * n)
      × (100 * n < targets * pos_part percent + 100)
rollout_bounds targets (pos percent) h k =
    pilot_bounds targets percent (ground arith) (ground arith) (ground arith)
rollout_bounds targets (negsuc n) h k = absurd (ground arith)

-- The pilot group of a campaign that passes the validation has at least one device and at most all
-- targets, so that the slice of the targets is in range; it is the given percentage of the targets,
-- rounded up.
pub canary_count_lem :
    (lib : Library) (c : Campaign)
    → validate_metadata lib c ≡ none
    → let targets = length c.target_ids in
      let n = canary_count targets c.canary_percent in
      (1 ≤ n)
      × (n ≤ targets)
      × (targets * pos_part c.canary_percent ≤ 100 * n)
      × (100 * n < targets * pos_part c.canary_percent + 100)
unfolding validate_rollout
canary_count_lem lib c valid =
    let checked = validate_metadata-rollout lib c valid in
    rollout_bounds (length c.target_ids) c.canary_percent (ground arith) (ground arith)

-- A job of the tenant with the key is stored.
abbrev pub HasKey : TenantContext → String → Dict Job → Type 0
HasKey tc key js =
    (k : String) × (job : Job) × (lookup k js ≡ some job)
    × (job.tenant_id ≡ tc.tenant_id)
    × (job.idempotency_key ≡ key)

-- The id that the call `i` would give to a job.
abbrev pub drawn_id : Calls → ℕ → String
drawn_id calls i = new_id "job" ((calls i).random 0)

-- The ids that the calls draw are new, and no two are the same.
pub record AreFresh (calls : Calls) (js : Dict Job) (start : ℕ) : Type 0 where
  pub absent : (i : ℕ) → start ≤ i → lookup (drawn_id calls i) js ≡ none
  pub distinct : (i j : ℕ) → i < j → drawn_id calls i ≢ drawn_id calls j

create_job_kept :
    (env : Env) (tc : TenantContext) (job : Job) (s : Store) (k : String)
    → new_id "job" (env.random 0) ≢ k
    → lookup k (create_job env tc job s).store.contents.jobs ≡ lookup k s.contents.jobs
unfolding create_job
create_job_kept env tc job s k ne = ground (
  arith,
  add_job-contents env (fresh_job env tc job) s,
  lookup-insert (new_id "job" (env.random 0)) k (fresh_job env tc job) s.contents.jobs,
)

fresh_after :
    (calls : Calls) (i : ℕ) (tc : TenantContext) (job : Job) (s : Store)
    → AreFresh calls s.contents.jobs i
    → AreFresh calls (create_job (calls i) tc job s).store.contents.jobs (suc i)
fresh_after calls i tc job s f = record {
  absent = λ j later.
      create_job_kept (calls i) tc job s (drawn_id calls j) (f.distinct i j later)
      ∙ f.absent j (omega arith);
  distinct = f.distinct;
}

HasKey-kept :
    (env : Env) (tc : TenantContext) (job : Job) (s : Store) (key : String)
    → lookup (new_id "job" (env.random 0)) s.contents.jobs ≡ none
    → HasKey tc key s.contents.jobs
    → HasKey tc key (create_job env tc job s).store.contents.jobs
HasKey-kept env tc job s key fresh (k, j, found, own, keyed) =
    (k, j, create_job_kept env tc job s k (λ e. ground arith) ∙ found, own, keyed)

pub create_job-HasKey :
    (env : Env) (tc : TenantContext) (job : Job) (s : Store)
    → (create_job env tc job s).error ≡ none
    → HasKey tc job.idempotency_key (create_job env tc job s).store.contents.jobs
create_job-HasKey env tc job s ok =
    elim (Bool-cases (owns_device tc (lookup job.device_id s.contents.devices))) [
      | inr foreign ↦ absurd (ground (arith, create_job-foreign env tc job s foreign, ok))
      | inl owned ↦ elim (Option-cases (find_replay tc job env.order s.contents.jobs)) [
        | inr (old, e) ↦
            let (id, found, replay) = find_replay_sound tc job env.order s.contents.jobs e in
            rw (create_job_old env tc job s owned e) (id, old, found, ground arith, ground arith)
        | inl e ↦
            let j = fresh_job env tc job in
            rw (create_job_new env tc job s owned e, add_job-contents env j s)
              (j.id, j, ground (arith, lookup-insert j.id j.id j s.contents.jobs), refl, refl)
      ]
    ]
