-- ===== src/Cloud/Tests/StoreRuns.antt =====
-- Runs of the theorems of the store on the test data.
use mathlib.Core.List.{Permᴰ}
use soul_room_edge_platform.Cloud.Store.Jobs.Order.{campaign_state-Perm}
use soul_room_edge_platform.Base.{
  Bool, String, ◌≡◌, ◌≢◌, refl, true, false, none, some, List, [], ◌∷◌, string_dec, arith, ◌==◌,
  ◌⊎◌, if◌then◌else◌, ◌++◌, ◌&&◌, ◌+◌, ◌≤◌,
}
use soul_room_edge_platform.Base.Int.{pos, ◌≤ℤ◌}
use soul_room_edge_platform.Base.Lists.{All, any, length}
use soul_room_edge_platform.Base.Dict.{Dict, lookup}
use soul_room_edge_platform.Cloud.Model.{
  Device, DownstreamDevice, Campaign, Artifact, User, TenantContext, Job, Json, Metric,
  EnrollmentToken,
}
use soul_room_edge_platform.Cloud.Store.{Env, Store, save_locked, is_after, new_id}
use soul_room_edge_platform.Cloud.Store.Jobs.{
  list_jobs, is_candidate, owns_device, find_replay, fresh_job, next_job_for_device, next_job_loop,
  visit, create_job, delete_job, complete_job, campaign_state, is_reportable,
}
use soul_room_edge_platform.Cloud.Store.Jobs.Loop.{Fate, delivered}
use soul_room_edge_platform.Cloud.Store.Jobs.Delivery.{
  next_job_for_device-Hands, next_job_for_device-Fate, next_job_for_device-ne-none,
}
use soul_room_edge_platform.Cloud.Store.Jobs.Progress.{
  campaign_jobs, progress, campaign_state-progress,
}
use soul_room_edge_platform.Cloud.Store.Jobs.Creation.{
  create_job-create_job, delete_job_lem, is_removable, complete_job_lem, complete_job-campaign,
}
use soul_room_edge_platform.Cloud.Store.Tokens.Use.{
  IsOnly, is_usable, used, consumed, consume_enrollment_token_lem, Attempt, accepted,
  accepted-le-max_devices,
}
use soul_room_edge_platform.Cloud.Store.Visibility.{IsRedacted, lists_own}
use soul_room_edge_platform.Cloud.Store.Campaigns.{list_ota_campaigns, list_artifacts, list_audit}
use soul_room_edge_platform.Cloud.Store.Tokens.{list_enrollment_tokens}
use soul_room_edge_platform.Cloud.Store.Devices.{list_devices, list_downstream, add_telemetry}
use soul_room_edge_platform.Cloud.Store.Devices.Telemetry.{
  add_telemetry_lem, all_acceptable, acceptable_prefix, stamped,
}
use soul_room_edge_platform.Cloud.Store.Accounts.{list_users, create_tenant_user}
use soul_room_edge_platform.Cloud.Store.Accounts.Rollback.{create_tenant_user_rollback}
use soul_room_edge_platform.Cloud.Store.Invariant.{IsValid}
use soul_room_edge_platform.Cloud.Store.Steps.{History, here, next, job_polled, History-IsValid}
use soul_room_edge_platform.Cloud.Store.Untouched.{Untouched}
use soul_room_edge_platform.Cloud.Store.Isolation.{History-Untouched}
use soul_room_edge_platform.Cloud.Tests.{
  tenant_context, job, campaign, token, metric, contents, store, disk, env,
}

abbrev t1 : TenantContext
t1 = tenant_context "t1"

abbrev t2 : TenantContext
t2 = tenant_context "t2"

abbrev both : List String
both = "job_1" ∷ "job_2" ∷ []

abbrev polled : Store
polled = (next_job_for_device (env both) t1 "dev_1" store).store

-- The store is valid.
contents-IsValid : IsValid contents
unfolding lookup string_dec
contents-IsValid = record {
  device_keys = (refl, (refl, tt));
  campaign_keys = (refl, tt);
  job_owners = ((refl, refl), ((refl, refl), tt));
  metric_owners = (λ e. cc, tt);
  inventory_owners = (λ e. cc, tt);
}

abbrev reported : Json → String
reported result = result

tenants_differ : (t2.tenant_id == t1.tenant_id) ≡ false
unfolding string_dec
tenants_differ = refl

other_tenant : t2.tenant_id ≢ t1.tenant_id
other_tenant e = ground (arith, tenants_differ)

history : History reported (λ tc. t2.tenant_id ≢ tc.tenant_id) store polled
history = next t1 here other_tenant (job_polled (env both) "dev_1" store)

History-IsValid_example : IsValid polled.contents
History-IsValid_example = History-IsValid reported _ history contents-IsValid

History-Untouched_example :
    Untouched "t2" store.contents polled.contents × Untouched "t2" polled.contents store.contents
History-Untouched_example = History-Untouched reported "t2" history contents-IsValid

abbrev queued : Job
queued = job "job_1" "t1" "dev_1" "queued"

polled_job : (next_job_for_device (env both) t1 "dev_1" store).value ≡ some (delivered queued)
unfolding next_job_for_device next_job_loop visit lookup string_dec
polled_job = refl

next_job_for_device-Hands_example :
    (id : String) × (old : Job) × (lookup id store.contents.jobs ≡ some old)
    × (is_candidate t1 "dev_1" old ≡ true)
    × (is_after 100 old.expires_at ≡ false)
    × (delivered queued ≡ delivered old)
    × (lookup id polled.contents.jobs ≡ some (delivered queued))
next_job_for_device-Hands_example = next_job_for_device-Hands (env both) t1 "dev_1" store polled_job

next_job_for_device-Fate_example :
    Fate t1 "dev_1" 100 (lookup "job_1" store.contents.jobs) (lookup "job_1" polled.contents.jobs)
    × (polled.contents ≡ record store.contents { jobs = polled.contents.jobs })
next_job_for_device-Fate_example = next_job_for_device-Fate (env both) t1 "dev_1" store "job_1"

visits_job_1 : any (λ id. id == "job_1") both ≡ true
unfolding string_dec
visits_job_1 = refl

stores_job_1 : lookup "job_1" store.contents.jobs ≡ some queued
unfolding lookup string_dec
stores_job_1 = refl

job_1_candidate : is_candidate t1 "dev_1" queued ≡ true
unfolding string_dec
job_1_candidate = refl

next_job_for_device-ne-none_example : (next_job_for_device (env both) t1 "dev_1" store).value ≢ none
next_job_for_device-ne-none_example =
    next_job_for_device-ne-none (env both) t1 "dev_1" store "job_1" queued visits_job_1 stores_job_1
      job_1_candidate refl

campaign_state-progress_example :
    campaign_state campaign contents.jobs ≡ elim (campaign_jobs campaign contents.jobs) [
      | [] ↦ campaign.state
      | j ∷ jobs ↦ progress campaign (j ∷ jobs)
    ]
campaign_state-progress_example = campaign_state-progress campaign contents.jobs

delete_job_example :
    let (e, s') = delete_job (env []) t2 "job_2" store in
    let removable = is_removable t2 (lookup "job_2" store.contents.jobs) in
    (lookup "job_2" s'.contents.jobs
      ≡ (if removable && "job_2" == "job_2" then none else lookup "job_2" store.contents.jobs))
    × (s'.contents ≡ record store.contents { jobs = s'.contents.jobs })
    × ((removable ≡ true) ⊎ ((e ≢ none) × (s' ≡ store)))
delete_job_example = delete_job_lem (env []) t2 "job_2" "job_2" store

complete_job_example :
    let s' = (complete_job reported (env []) t1 "job_1" "running" store).1 in
    (state : String) × (is_reportable state ≡ true)
    × ((is_reportable "running" ≡ false) ⊎ (state ≡ "running"))
    × (lookup "job_1" s'.contents.jobs ≡ (
        if "job_1" == "job_1"
        then some (record queued { state = state; result = "running" })
        else lookup "job_1" store.contents.jobs))
complete_job_example =
    complete_job_lem reported (env []) t1 "job_1" "running" store queued "job_1" stores_job_1 refl

stores_campaign : lookup "ota_1" store.contents.ota_campaigns ≡ some campaign
unfolding lookup string_dec
stores_campaign = refl

complete_job-campaign_example :
    let s' = (complete_job reported (env []) t1 "job_1" "succeeded" store).1 in
    lookup "ota_1" s'.contents.ota_campaigns
    ≡ some (record campaign { state = campaign_state campaign s'.contents.jobs })
complete_job-campaign_example =
    complete_job-campaign reported (env []) t1 "job_1" "succeeded" store queued campaign
      stores_job_1 refl stores_campaign refl refl

visits_token : any (λ i. i == "enr_1") ("enr_1" ∷ []) ≡ true
unfolding string_dec
visits_token = refl

only_id :
    (k : String) (x : EnrollmentToken) → lookup k contents.enrollment_tokens ≡ some x → k ≡ "enr_1"
unfolding lookup
only_id k x found = ground arith

token-IsOnly : IsOnly "hash" "enr_1" token contents.enrollment_tokens
unfolding lookup string_dec
token-IsOnly = record { stored = refl; hashed = refl; unique = λ k x found same. only_id k x found }

abbrev attempts : List Attempt
attempts =
    record { env = env ("enr_1" ∷ []); serial = "s1"; product = "p" }
    ∷ record { env = env ("enr_1" ∷ []); serial = "s2"; product = "p" }
    ∷ record { env = env ("enr_1" ∷ []); serial = "s3"; product = "p" }
    ∷ []

accepted-le-max_devices_example : pos (accepted "hash" attempts store + 0) ≤ℤ pos 2
accepted-le-max_devices_example =
    accepted-le-max_devices "hash" "enr_1" token attempts store token-IsOnly
      (visits_token, (visits_token, (visits_token, tt))) (omega arith)

-- The disk works.
abbrev working : Env
working = record (env ("enr_1" ∷ [])) { disk = record disk { rename = none } }

consume_enrollment_token_example :
    let r = consumed working "hash" "s1" "p" store in
    let usable = is_usable 100 "s1" "p" token in
    (r.value ≡ (if usable then some (used token) else none))
    × (lookup "enr_1" r.store.contents.enrollment_tokens ≡ (
        if usable && "enr_1" == "enr_1"
        then some (used token)
        else lookup "enr_1" contents.enrollment_tokens))
    × (((usable ≡ true) × (r.error ≡ (save_locked working.disk store).0))
        ⊎ ((usable ≡ false) × (r.error ≢ none) × (r.store ≡ store)))
consume_enrollment_token_example =
    consume_enrollment_token_lem working "hash" "s1" "p" store "enr_1" "enr_1" token token-IsOnly
      visits_token

-- A batch with a metric of a foreign device in the middle.
abbrev batch : List Metric
batch = metric "dev_1" ∷ metric "dev_2" ∷ metric "dev_1" ∷ []

batch_small : length batch ≤ 5000
batch_small = omega arith

add_telemetry_example :
    let ds = contents.devices in
    let (e, s') = add_telemetry (env []) t1 batch store in
    (s'.contents ≡ record contents {
      telemetry = contents.telemetry ++ stamped (λ i. 100) 0 (acceptable_prefix t1 ds batch);
    })
    × ((all_acceptable t1 ds batch ≡ true) ⊎ (e ≢ none))
add_telemetry_example = add_telemetry_lem (env []) t1 batch store batch_small

no_user : lookup (new_id "usr" "00") contents.users ≡ none
unfolding lookup
no_user = refl

create_tenant_user_example :
    let r = create_tenant_user (env []) t1 "a@b" "hash" "operator" store in
    let c = r.store.contents in
    (c ≡ record contents { users = c.users; memberships = c.memberships })
    × ((r.error ≡ none)
        ⊎ ((lookup "usr_00" c.users ≡ lookup "usr_00" contents.users)
            × (c.memberships ≡ contents.memberships)))
create_tenant_user_example =
    create_tenant_user_rollback (env []) t1 "a@b" "hash" "operator" "usr_00" store no_user

abbrev wanted : Job
wanted = record (job "" "t1" "dev_1" "") { idempotency_key = "other" }

key_differs : (wanted.idempotency_key == "") ≡ false
unfolding string_dec
key_differs = refl

wanted_keyed : wanted.idempotency_key ≢ ""
wanted_keyed e = ground (arith, key_differs)

owns_dev_1 : owns_device t1 (lookup wanted.device_id contents.devices) ≡ true
unfolding lookup string_dec
owns_dev_1 = refl

wanted_new : find_replay t1 wanted both contents.jobs ≡ none
unfolding find_replay lookup string_dec
wanted_new = refl

abbrev with_new : List String
with_new = "job_1" ∷ "job_2" ∷ "job_00" ∷ []

visits_new : any (λ i. i == (fresh_job (env both) t1 wanted).id) with_new ≡ true
unfolding string_dec new_id
visits_new = refl

create_job-create_job_example :
    let s' = (create_job (env both) t1 wanted store).store in
    (found : Job) × (found.idempotency_key ≡ "other")
    × (found.tenant_id ≡ "t1")
    × (create_job (env with_new) t1 wanted s'
        ≡ record { value = some found; error = none; store = s' })
create_job-create_job_example =
    create_job-create_job (env both) (env with_new) t1 wanted store wanted_keyed owns_dev_1
      wanted_new visits_new

-- A sort that leaves a list as it is.
abbrev as_is : (A : Type 0) → (A → A → Bool) → List A → List A
as_is A less xs = xs

as_is_keeps :
    (A : Type 0) (less : A → A → Bool) (P : A → Type 0) (xs : List A)
    → All P xs
    → All P (as_is A less xs)
as_is_keeps A less P xs h = h

lists_own_example :
    All (λ j. j.tenant_id ≡ "t1") (list_jobs (as_is Job) t1 store)
    × All (λ d. d.tenant_id ≡ "t1") (list_devices (as_is Device) t1 store)
    × All (λ d. d.tenant_id ≡ "t1") (list_downstream (as_is DownstreamDevice) t1 store)
    × All (λ c. c.tenant_id ≡ "t1") (list_ota_campaigns (as_is Campaign) t1 store)
    × All (λ a. a.tenant_id ≡ "t1") (list_artifacts (as_is Artifact) t1 store)
    × All (IsRedacted "t1") (list_enrollment_tokens (as_is EnrollmentToken) t1 store)
    × All (λ e. e.tenant_id ≡ "t1") (list_audit t1 store)
    × All (λ u. u.password_hash ≡ "") (list_users (as_is User) t1 store)
lists_own_example = lists_own as_is as_is_keeps t1 store

-- The jobs of the store, the other way round.
abbrev turned : Dict Job
turned =
    ("job_2", job "job_2" "t2" "dev_2" "failed") ∷ ("job_1", job "job_1" "t1" "dev_1" "queued") ∷ []

turned-Perm : Permᴰ contents.jobs turned
turned-Perm = Permᴰ.swap refl refl

campaign_state-Perm_example : campaign_state campaign contents.jobs ≡ campaign_state campaign turned
campaign_state-Perm_example = campaign_state-Perm campaign turned-Perm
