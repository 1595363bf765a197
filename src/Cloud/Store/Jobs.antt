-- ===== src/Cloud/Store/Jobs.antt =====
-- The job operations of cloud-infra/internal/storage/store.go.
pub mod Loop
pub mod Delivery
pub mod Progress
pub mod Order
pub mod Creation
use soul_room_edge_platform.Base.{
  String, Bool, true, false, ◌&&◌, ◌||◌, not, Option, none, some, List, [], ◌∷◌, ◌==◌, ◌!=◌,
  if◌then◌else◌, ltb,
}
use soul_room_edge_platform.Base.Lists.{length, filter}
use soul_room_edge_platform.Base.Dict.{Dict, lookup, insert, erase, values}
use soul_room_edge_platform.Cloud.Model.{TenantContext, Time, Json, Job, Campaign, Device}
use soul_room_edge_platform.Cloud.Store.{
  StoreError, not_found, tenant_mismatch, not_terminal, StoreData, Store, Env, Reply, refuse,
  answer, answer_saved, save_locked, new_id, is_after, increment, or_default,
}

abbrev pub with_jobs : Store → Dict Job → Store
with_jobs s js = record s { contents = record s.contents { jobs = js } }

-- `!ok || d.TenantID != tc.TenantID`, turned round
abbrev pub owns_device : TenantContext → Option Device → Bool
owns_device tc none = false
owns_device tc (some d) = d.tenant_id == tc.tenant_id

-- the test of the loop in `CreateJob`
abbrev pub is_replay : TenantContext → Job → Job → Bool
is_replay tc job existing =
    job.idempotency_key != ""
    && existing.tenant_id == tc.tenant_id
    && existing.idempotency_key == job.idempotency_key

-- the loop itself: the first replayed job in the order of the visit
unfoldable pub find_replay : TenantContext → Job → List String → Dict Job → Option Job
find_replay tc job [] js = none
find_replay tc job (id ∷ ids) js = elim (lookup id js) [
  | none ↦ find_replay tc job ids js
  | some existing ↦ elim (is_replay tc job existing) [
    | true ↦ some existing
    | false ↦ find_replay tc job ids js
  ]
]

abbrev pub fresh_job : Env → TenantContext → Job → Job
fresh_job env tc job = record job {
  id = new_id "job" (env.random 0);
  tenant_id = tc.tenant_id;
  created_at = env.now 0;
  state = or_default job.state "queued";
  approval_status = or_default job.approval_status "approved";
}

abbrev pub add_job : Env → Job → Store → Reply Job
add_job env job s = answer_saved env.disk job (with_jobs s (insert job.id job s.contents.jobs))

unfoldable pub create_job : Env → TenantContext → Job → Store → Reply Job
create_job env tc job s =
    if owns_device tc (lookup job.device_id s.contents.devices)
    then elim (find_replay tc job env.order s.contents.jobs) [
      | some existing ↦ answer existing s
      | none ↦ add_job env (fresh_job env tc job) s
    ]
    else refuse tenant_mismatch s

-- `sort` stands for `sort.Slice`, which takes the order in which to sort.
unfoldable pub list_jobs :
    ((Job → Job → Bool) → List Job → List Job) → TenantContext → Store → List Job
list_jobs sort tc s =
    sort (λ a b. is_after a.created_at b.created_at)
      (filter (λ job. job.tenant_id == tc.tenant_id) (values s.contents.jobs))

abbrev pub is_terminal : String → Bool
is_terminal state =
    state == "succeeded" || state == "failed" || state == "expired" || state == "cancelled"

unfoldable pub delete_job : Env → TenantContext → String → Store → Option StoreError × Store
delete_job env tc job_id s = elim (lookup job_id s.contents.jobs) [
  | none ↦ (some not_found, s)
  | some job ↦
      if job.tenant_id != tc.tenant_id
      then (some tenant_mismatch, s)
      else if not (is_terminal job.state)
      then (some not_terminal, s)
      else save_locked env.disk (with_jobs s (erase job_id s.contents.jobs))
]

unfoldable pub jobs_for_deployment : TenantContext → String → Store → List Job
jobs_for_deployment tc deployment_id s =
    filter (λ job. job.tenant_id == tc.tenant_id && job.deployment_id == deployment_id)
      (values s.contents.jobs)

-- the states in which `NextJobForDevice` hands a job out
abbrev pub is_pending : String → Bool
is_pending state =
    state == "queued" || state == "delivered" || state == "running" || state == "rebooting"

abbrev pub is_candidate : TenantContext → String → Job → Bool
is_candidate tc device_id job =
    job.tenant_id == tc.tenant_id && job.device_id == device_id && is_pending job.state

-- What one turn of the loop does with the entry that it visits.
pub data Visit : Type 0 where
  skip : Visit
  expire deliver : Job → Visit

unfoldable pub visit : TenantContext → String → Time → Option Job → Visit
visit tc device_id now none = skip
visit tc device_id now (some job) =
    if is_candidate tc device_id job
    then (if is_after now job.expires_at
        then expire (record job { state = "expired" })
        else deliver (record job { state = "delivered"; attempt = increment job.attempt }))
    else skip

unfoldable pub next_job_loop :
    TenantContext → String → Time → List String → Dict Job → Option Job × Dict Job
next_job_loop tc device_id now [] js = (none, js)
next_job_loop tc device_id now (id ∷ ids) js = elim (visit tc device_id now (lookup id js)) [
  | skip ↦ next_job_loop tc device_id now ids js
  | expire job ↦ next_job_loop tc device_id now ids (insert id job js)
  | deliver job ↦ (some job, insert id job js)
]

-- A delivered job is saved, and the error of the save is dropped; without one nothing is saved.
unfoldable pub next_job_for_device : Env → TenantContext → String → Store → Reply Job
next_job_for_device env tc device_id s =
    let (found, js) = next_job_loop tc device_id (env.now 0) env.order s.contents.jobs in
    elim found [
      | some job ↦ answer job (save_locked env.disk (with_jobs s js)).1
      | none ↦ refuse not_found (with_jobs s js)
    ]

abbrev pub is_failure : Job → Bool
is_failure job = job.state == "failed" || job.state == "expired"

-- the loop over the campaign's jobs: `none` is the early `return "failed"`
unfoldable pub all_succeeded : Bool → List Job → Option Bool
all_succeeded acc [] = some acc
all_succeeded acc (job ∷ jobs) =
    let rest = all_succeeded (if job.state != "succeeded" then false else acc) jobs in
    if is_failure job then none else rest

abbrev pub of_campaign : Campaign → Job → Bool
of_campaign c job = job.tenant_id == c.tenant_id && job.deployment_id == c.id

abbrev pub campaign_verdict : Campaign → List Job → Option Bool → String
campaign_verdict c jobs none = "failed"
campaign_verdict c jobs (some true) =
    if ltb (length jobs) (length c.target_ids) then "canary_complete" else "completed"
campaign_verdict c jobs (some false) = "running"

abbrev pub judge : Campaign → List Job → String
judge c [] = c.state
judge c (job ∷ jobs) = campaign_verdict c (job ∷ jobs) (all_succeeded true (job ∷ jobs))

unfoldable pub campaign_state : Campaign → Dict Job → String
campaign_state c all_jobs = judge c (filter (of_campaign c) (values all_jobs))

abbrev pub is_reportable : String → Bool
is_reportable state =
    state == "succeeded" || state == "failed" || state == "rebooting" || state == "running"

-- the state that `CompleteJob` gives the job
unfoldable pub completed_state : String → String
completed_state reported = if is_reportable reported then reported else "failed"

-- the update of the campaign that the job belongs to, if the tenant has it
unfoldable pub refresh_campaign : TenantContext → String → Dict Job → Dict Campaign → Dict Campaign
refresh_campaign tc deployment_id js cs = elim (lookup deployment_id cs) [
  | none ↦ cs
  | some c ↦
      if c.tenant_id == tc.tenant_id
      then insert c.id (record c { state = campaign_state c js }) cs
      else cs
]

-- the contents once the job has its new state and result
abbrev pub complete_contents : TenantContext → String → String → Json → Job → StoreData → StoreData
complete_contents tc job_id state result job c =
    let js = insert job_id (record job { state = state; result = result }) c.jobs in
    record c { jobs = js; ota_campaigns = refresh_campaign tc job.deployment_id js c.ota_campaigns }

-- `reported` is what `json.Unmarshal` reads in the field `state` of the result, "" on an error.
unfoldable pub complete_job :
    (reported : Json → String)
    → Env
    → TenantContext
    → String
    → Json
    → Store
    → Option StoreError × Store
complete_job reported env tc job_id result s = elim (lookup job_id s.contents.jobs) [
  | none ↦ (some not_found, s)
  | some job ↦
      if job.tenant_id != tc.tenant_id
      then (some tenant_mismatch, s)
      else save_locked env.disk (record s {
        contents =
            complete_contents tc job_id (completed_state (reported result)) result job s.contents;
      })
]
