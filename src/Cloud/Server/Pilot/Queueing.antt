-- ===== src/Cloud/Server/Pilot/Queueing.antt =====
-- The loop of `queueOTAJobs` and the promotion of a campaign in
-- cloud-infra/internal/server/server.go.
use soul_room_edge_platform.Base.{
  ℕ, suc, String, ◌<>◌, ◌≡◌, ◌≢◌, ◌⊎◌, inl, inr, refl, sym, ap, subst, ◌∙◌, ◌*◌, none, some, List,
  [], ◌∷◌, arith, Option-cases,
}
use soul_room_edge_platform.Base.Int.{pos}
use soul_room_edge_platform.Base.Lists.{All}
use soul_room_edge_platform.Cloud.Model.{TenantContext, Json, Job, Campaign}
use soul_room_edge_platform.Cloud.Store.{Store}
use soul_room_edge_platform.Base.Dict.{Dict, lookup, lookup-insert}
use soul_room_edge_platform.Cloud.Store.Jobs.{create_job, fresh_job}
use soul_room_edge_platform.Cloud.Store.Jobs.Creation.{add_job-contents}
use soul_room_edge_platform.Cloud.Server.{Outcome, failure, success, Library, Calls}
use soul_room_edge_platform.Cloud.Server.Accounts.{hour}
use soul_room_edge_platform.Cloud.Server.Work.{new_job}
use soul_room_edge_platform.Cloud.Server.Rollout.{update_job, queue_jobs, Queued}
use soul_room_edge_platform.Cloud.Server.Pilot.{
  HasKey, AreFresh, fresh_after, HasKey-kept, create_job-HasKey,
}

-- The key of the job of a campaign for a device.
abbrev pub update_key : Campaign → String → String
update_key c device_id = c.id <> ":" <> device_id

pub Outcome-cases :
    (A : Type 0) (o : Outcome A)
    → ((message : String) × (o ≡ failure message)) ⊎ ((a : A) × (o ≡ success a))
Outcome-cases A (failure message) = inl (message, refl)
Outcome-cases A (success a) = inr (a, refl)

-- A job that was not stored before is one of the campaign, an update for the device of its key.
abbrev pub AreOwn : Campaign → Dict Job → Dict Job → Type 0
AreOwn c before js =
    (k : String) (job : Job)
    → lookup k js ≡ some job
    → (lookup k before ≡ some job)
      ⊎ ((job.deployment_id ≡ c.id)
          × (job.job_type ≡ "ota_update")
          × (job.idempotency_key ≡ update_key c job.device_id))

module _ (lib : Library) (calls : Calls) (tc : TenantContext) (c : Campaign) (payload : Json) where
  abbrev drafted : ℕ → String → Outcome Job
  drafted i device_id =
      new_job lib ((calls i).now 1) device_id "ota_update" payload tc.actor_id (pos (24 * hour))

  -- What a turn of the loop does: it stops with an error, before or after the call of `CreateJob`,
  -- or that call succeeds and the loop goes on.
  abbrev Turn : String → List String → ℕ → Store → Type 0
  Turn d ids i s =
      let result = queue_jobs lib calls i tc c payload (d ∷ ids) s in
      ((result.store ≡ s) × (result.error ≢ none))
      ⊎ ((job : Job) × (drafted i d ≡ success job)
          × (let reply = create_job (calls i) tc (update_job c d job) s in
              ((result.store ≡ reply.store) × (result.error ≢ none))
              ⊎ ((reply.error ≡ none)
                  × (result ≡ queue_jobs lib calls (suc i) tc c payload ids reply.store))))

  Turn-cases : (d : String) (ids : List String) (i : ℕ) (s : Store) → Turn d ids i s
  unfolding queue_jobs
  Turn-cases d ids i s = elim (Outcome-cases Job (drafted i d)) [
    | inl (message, e) ↦ inl (rw (queue_jobs, e) refl, rw (queue_jobs, e) (λ p. ground arith))
    | inr (job, e) ↦ inr (
      job,
      e,
      elim (Option-cases (create_job (calls i) tc (update_job c d job) s).error) [
        | inl ok ↦ inr (ok, rw (queue_jobs, e, ok) refl)
        | inr (x, bad) ↦
            inl (rw (queue_jobs, e, bad) refl, rw (queue_jobs, e, bad) (λ p. ground arith))
      ],
    )
  ]

  queue_jobs-kept :
      (ids : List String) (i : ℕ) (s : Store) (key : String)
      → AreFresh calls s.contents.jobs i
      → HasKey tc key s.contents.jobs
      → HasKey tc key (queue_jobs lib calls i tc c payload ids s).store.contents.jobs
  unfolding queue_jobs
  queue_jobs-kept [] i s key f h = h
  queue_jobs-kept (d ∷ ids) i s key f h = elim (Turn-cases d ids i s) [
    | inl (same, _) ↦ subst (λ t. HasKey tc key t.contents.jobs) (sym same) h
    | inr (job, _, inl (same, _)) ↦
        subst (λ t. HasKey tc key t.contents.jobs) (sym same)
          (HasKey-kept (calls i) tc (update_job c d job) s key (f.absent i (omega arith)) h)
    | inr (job, _, inr (ok, same)) ↦
        subst (λ (r : Queued). HasKey tc key r.store.contents.jobs) (sym same)
          (queue_jobs-kept ids (suc i) (create_job (calls i) tc (update_job c d job) s).store key
            (fresh_after calls i tc (update_job c d job) s f)
            (HasKey-kept (calls i) tc (update_job c d job) s key (f.absent i (omega arith)) h))
  ]

  pub queue_jobs-HasKey :
      (ids : List String) (i : ℕ) (s : Store)
      → AreFresh calls s.contents.jobs i
      → (queue_jobs lib calls i tc c payload ids s).error ≡ none
      → All
          (λ d.
            HasKey tc
              (update_key c d)
              (queue_jobs lib calls i tc c payload ids s).store.contents.jobs)
          ids
  queue_jobs-HasKey [] i s f ok = tt
  queue_jobs-HasKey (d ∷ ids) i s f ok = elim (Turn-cases d ids i s) [
    | inl (_, bad) ↦ absurd (bad ok)
    | inr (job, _, inl (_, bad)) ↦ absurd (bad ok)
    | inr (job, _, inr (fine, same)) ↦
        let s' = (create_job (calls i) tc (update_job c d job) s).store in
        let later = fresh_after calls i tc (update_job c d job) s f in
        subst
          (λ (r : Queued).
            HasKey tc (update_key c d) r.store.contents.jobs
            × All (λ d. HasKey tc (update_key c d) r.store.contents.jobs) ids)
          (sym same)
          (
            queue_jobs-kept ids (suc i) s' (update_key c d) later
                (create_job-HasKey (calls i) tc (update_job c d job) s fine),
            queue_jobs-HasKey ids (suc i) s' later (ap (λ (r : Queued). r.error) (sym same) ∙ ok),
          )
  ]

  drafted-device :
      (i : ℕ) (d : String) (job : Job)
      → drafted i d ≡ success job
      → (job.device_id ≡ d) × (job.job_type ≡ "ota_update")
  unfolding new_job
  drafted-device i d job e = (ground arith, ground arith)

  create_job-AreOwn :
      (before : Dict Job) (i : ℕ) (d : String) (job : Job) (s : Store)
      → drafted i d ≡ success job
      → AreOwn c before s.contents.jobs
      → AreOwn c before (create_job (calls i) tc (update_job c d job) s).store.contents.jobs
  unfolding create_job
  create_job-AreOwn before i d job s e own k x found =
      let j = fresh_job (calls i) tc (update_job c d job) in
      ground (
        arith,
        drafted-device i d job e,
        own k x,
        add_job-contents (calls i) j s,
        lookup-insert j.id k j s.contents.jobs,
      )

  pub queue_jobs-AreOwn :
      (before : Dict Job) (ids : List String) (i : ℕ) (s : Store)
      → AreOwn c before s.contents.jobs
      → AreOwn c before (queue_jobs lib calls i tc c payload ids s).store.contents.jobs
  unfolding queue_jobs
  queue_jobs-AreOwn before [] i s own = own
  queue_jobs-AreOwn before (d ∷ ids) i s own = elim (Turn-cases d ids i s) [
    | inl (same, _) ↦ subst (λ t. AreOwn c before t.contents.jobs) (sym same) own
    | inr (job, e, inl (same, _)) ↦
        subst (λ t. AreOwn c before t.contents.jobs) (sym same)
          (create_job-AreOwn before i d job s e own)
    | inr (job, e, inr (ok, same)) ↦
        subst (λ (r : Queued). AreOwn c before r.store.contents.jobs) (sym same)
          (queue_jobs-AreOwn before ids (suc i)
            (create_job (calls i) tc (update_job c d job) s).store
            (create_job-AreOwn before i d job s e own))
  ]
