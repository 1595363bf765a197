-- ===== src/Cloud/Store/Jobs/Creation.antt =====
-- `CreateJob`: the tenant check and idempotent replay; `DeleteJob`; `CompleteJob`.
use soul_room_edge_platform.Base.{
  String, ◌≡◌, refl, ◌≢◌, ◌⊎◌, inl, inr, Bool, true, false, ◌&&◌, Option, none, some, List, [], ◌∷◌,
  ◌==◌, string_dec, if◌then◌else◌, arith, Bool-cases, Option-cases,
}
use soul_room_edge_platform.Base.Lists.{any}
use soul_room_edge_platform.Base.Dict.{Dict, lookup, insert, erase, lookup-insert, lookup-erase}
use soul_room_edge_platform.Cloud.Model.{TenantContext, Json, Job, Campaign}
use soul_room_edge_platform.Cloud.Store.{Store, Env, tenant_mismatch, refuse, save_locked-contents}
use soul_room_edge_platform.Cloud.Store.Jobs.{
  with_jobs, owns_device, is_replay, find_replay, fresh_job, add_job, create_job, is_terminal,
  delete_job, completed_state, is_reportable, complete_job, refresh_campaign, complete_contents,
  campaign_state,
}

module _ (tc : TenantContext) (job : Job) where
  -- What is found was stored, and is a replay.
  pub find_replay_sound :
      (ids : List String) (js : Dict Job) {existing : Job}
      → find_replay tc job ids js ≡ some existing
      → (id : String) × (lookup id js ≡ some existing) × (is_replay tc job existing ≡ true)
  unfolding find_replay
  find_replay_sound [] js h = cc
  find_replay_sound (id ∷ ids) js {existing} h = elim (Option-cases (lookup id js)) [
    | inl e ↦ find_replay_sound ids js (rw (e, find_replay) at h)
    | inr (old, e) ↦ elim (Bool-cases (is_replay tc job old)) [
      | inl r ↦ (id, ground arith, ground arith)
      | inr r ↦ find_replay_sound ids js (ground arith)
    ]
  ]

  -- A replay that the visit reaches is not missed.
  find_replay_complete :
      (ids : List String) (js : Dict Job) (id : String) (existing : Job)
      → any (λ i. i == id) ids ≡ true
      → lookup id js ≡ some existing
      → is_replay tc job existing ≡ true
      → find_replay tc job ids js ≢ none
  unfolding find_replay
  find_replay_complete [] js id existing listed found replay = cc
  find_replay_complete (i ∷ ids) js id existing listed found replay =
      ground (arith, find_replay_complete ids js id existing)

module _ (env : Env) (tc : TenantContext) (job : Job) (s : Store) where
  -- A device that the tenant does not have gets no job, and nothing changes.
  pub create_job-foreign :
      owns_device tc (lookup job.device_id s.contents.devices) ≡ false
      → create_job env tc job s ≡ refuse tenant_mismatch s
  unfolding create_job
  create_job-foreign h = ground arith

  pub create_job_new :
      owns_device tc (lookup job.device_id s.contents.devices) ≡ true
      → find_replay tc job env.order s.contents.jobs ≡ none
      → create_job env tc job s ≡ add_job env (fresh_job env tc job) s
  unfolding create_job
  create_job_new owned e = ground arith

  pub create_job_old :
      {existing : Job}
      → owns_device tc (lookup job.device_id s.contents.devices) ≡ true
      → find_replay tc job env.order s.contents.jobs ≡ some existing
      → create_job env tc job s ≡ record { value = some existing; error = none; store = s }
  unfolding create_job
  create_job_old owned e = ground arith

  -- While a job of the tenant with the same key is stored and visited, the request creates
  -- nothing: such a job is returned, with no error, and the store stays as it is.
  create_job-replay :
      (id : String) (existing : Job)
      → owns_device tc (lookup job.device_id s.contents.devices) ≡ true
      → any (λ i. i == id) env.order ≡ true
      → lookup id s.contents.jobs ≡ some existing
      → is_replay tc job existing ≡ true
      → (found : Job) × (is_replay tc job found ≡ true)
        × (create_job env tc job s ≡ record { value = some found; error = none; store = s })
  create_job-replay id existing owned listed found replay =
      elim (Option-cases (find_replay tc job env.order s.contents.jobs)) [
        | inl e ↦ absurd (
            find_replay_complete tc job env.order s.contents.jobs id existing listed found replay e)
        | inr (old, e) ↦
            let (_, _, same) = find_replay_sound tc job env.order s.contents.jobs e in
            (old, same, create_job_old owned e)
      ]

pub add_job-contents :
    (env : Env) (job : Job) (s : Store)
    → (add_job env job s).store.contents
      ≡ record s.contents { jobs = insert job.id job s.contents.jobs }
add_job-contents env job s =
    save_locked-contents env.disk (with_jobs s (insert job.id job s.contents.jobs))

-- The same request twice, with an idempotency key: whatever the second call draws and reads, if
-- its visit reaches the new job it returns a job with the key and changes nothing.
pub create_job-create_job :
    (env env' : Env) (tc : TenantContext) (job : Job) (s : Store)
    → job.idempotency_key ≢ ""
    → owns_device tc (lookup job.device_id s.contents.devices) ≡ true
    → find_replay tc job env.order s.contents.jobs ≡ none
    → any (λ i. i == (fresh_job env tc job).id) env'.order ≡ true
    → let s' = (create_job env tc job s).store in
      (found : Job) × (found.idempotency_key ≡ job.idempotency_key)
      × (found.tenant_id ≡ tc.tenant_id)
      × (create_job env' tc job s' ≡ record { value = some found; error = none; store = s' })
create_job-create_job env env' tc job s keyed owned new listed =
    let j = fresh_job env tc job in
    let s' = (add_job env j s).store in
    let same = add_job-contents env j s in
    let stored : lookup j.id s'.contents.jobs ≡ some j =
      rw same (ground (arith, lookup-insert j.id j.id j s.contents.jobs)) in
    let (found, replay, twice) =
      create_job-replay env' tc job s' j.id j (rw same owned) listed stored (ground arith) in
    rw (create_job_new env tc job s owned new) (found, ground arith, ground arith, twice)

-- A stored job of the tenant that has ended.
abbrev pub is_removable : TenantContext → Option Job → Bool
is_removable tc none = false
is_removable tc (some job) = job.tenant_id == tc.tenant_id && is_terminal job.state

-- Whether the disk fails or not, a stored job of the tenant that has ended is removed, alone;
-- any other request is refused with an error and changes nothing.
pub delete_job_lem :
    (env : Env) (tc : TenantContext) (job_id k : String) (s : Store)
    → let (e, s') = delete_job env tc job_id s in
      let removable = is_removable tc (lookup job_id s.contents.jobs) in
      (lookup k s'.contents.jobs
        ≡ (if removable && job_id == k then none else lookup k s.contents.jobs))
      × (s'.contents ≡ record s.contents { jobs = s'.contents.jobs })
      × ((removable ≡ true) ⊎ ((e ≢ none) × (s' ≡ s)))
unfolding delete_job
delete_job_lem env tc job_id k s =
    let same = save_locked-contents env.disk (with_jobs s (erase job_id s.contents.jobs)) in
    (
      ground (arith, same, lookup-erase job_id k s.contents.jobs),
      ground (arith, same),
      ground arith,
    )

failed-is_reportable : is_reportable "failed" ≡ true
unfolding string_dec
failed-is_reportable = refl

completed_state-is_reportable :
    (reported : String) → is_reportable (completed_state reported) ≡ true
unfolding completed_state
completed_state-is_reportable reported = ground (arith, failed-is_reportable)

completed_state-reported :
    (reported : String) → is_reportable reported ≡ true → completed_state reported ≡ reported
unfolding completed_state
completed_state-reported reported h = ground arith

refresh_campaign_lem :
    (tc : TenantContext) (id : String) (js : Dict Job) (cs : Dict Campaign) (c : Campaign)
    → lookup id cs ≡ some c
    → c.tenant_id ≡ tc.tenant_id
    → c.id ≡ id
    → lookup id (refresh_campaign tc id js cs) ≡ some (record c { state = campaign_state c js })
unfolding refresh_campaign
refresh_campaign_lem tc id js cs c has own keyed =
    ground (arith, lookup-insert c.id id (record c { state = campaign_state c js }) cs)

-- Whether a stored job is the tenant's.
abbrev pub in_tenant : TenantContext → Option Job → Bool
in_tenant tc none = false
in_tenant tc (some job) = job.tenant_id == tc.tenant_id

module _ (reported : Json → String) (env : Env) (tc : TenantContext) (job_id : String)
    (result : Json) (s : Store) where
  complete_job-contents :
      (job : Job)
      → lookup job_id s.contents.jobs ≡ some job
      → job.tenant_id ≡ tc.tenant_id
      → (complete_job reported env tc job_id result s).1.contents
        ≡ complete_contents tc job_id (completed_state (reported result)) result job s.contents
  unfolding complete_job
  complete_job-contents job found own = ground (
    arith,
    save_locked-contents env.disk (record s {
      contents =
          complete_contents tc job_id (completed_state (reported result)) result job s.contents;
    }),
  )

  -- A result is accepted for every stored job of the tenant, in whatever state it is: the job
  -- takes one of the four states that a device may report, keeps the result, and no other job
  -- changes.
  pub complete_job_lem :
      (job : Job) (k : String)
      → lookup job_id s.contents.jobs ≡ some job
      → job.tenant_id ≡ tc.tenant_id
      → let s' = (complete_job reported env tc job_id result s).1 in
        (state : String) × (is_reportable state ≡ true)
        × ((is_reportable (reported result) ≡ false) ⊎ (state ≡ reported result))
        × (lookup k s'.contents.jobs ≡ (
            if job_id == k
            then some (record job { state = state; result = result })
            else lookup k s.contents.jobs))
  complete_job_lem job k found own =
      let state = completed_state (reported result) in
      rw (complete_job-contents job found own) (
        state,
        completed_state-is_reportable (reported result),
        ground (arith, completed_state-reported (reported result)),
        lookup-insert job_id k (record job { state = state; result = result }) s.contents.jobs,
      )

  -- The campaign that the job belongs to, if the tenant has it, gets the state that its jobs
  -- give it after the update.
  pub complete_job-campaign :
      (job : Job) (c : Campaign)
      → lookup job_id s.contents.jobs ≡ some job
      → job.tenant_id ≡ tc.tenant_id
      → lookup job.deployment_id s.contents.ota_campaigns ≡ some c
      → c.tenant_id ≡ tc.tenant_id
      → c.id ≡ job.deployment_id
      → let s' = (complete_job reported env tc job_id result s).1 in
        lookup job.deployment_id s'.contents.ota_campaigns
        ≡ some (record c { state = campaign_state c s'.contents.jobs })
  complete_job-campaign job c found own has own_c keyed =
      rw (complete_job-contents job found own)
        (refresh_campaign_lem tc job.deployment_id _ s.contents.ota_campaigns c has own_c keyed)

  -- A job that the tenant does not have is refused, and nothing changes.
  pub complete_job-foreign :
      in_tenant tc (lookup job_id s.contents.jobs) ≡ false
      → let (e, s') = complete_job reported env tc job_id result s in (e ≢ none) × (s' ≡ s)
  unfolding complete_job
  complete_job-foreign h = ground arith
