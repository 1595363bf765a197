-- ===== src/Cloud/Store/Invariant/Jobs.antt =====
-- The job and campaign operations keep the invariant.
use mathlib.Core.Logic.{if_pos, if_neg}
use soul_room_edge_platform.Base.{
  String, ◌≡◌, refl, ◌⊎◌, inl, inr, true, Option, none, some, List, [], ◌∷◌, arith, string_dec,
  Option-cases, Bool-cases,
}
use soul_room_edge_platform.Base.Dict.{
  Dict, lookup, insert, erase, Entries-insert, Entries-erase, Entries-lookup,
}
use soul_room_edge_platform.Cloud.Model.{TenantContext, Time, Json, Device, Job, Campaign}
use soul_room_edge_platform.Cloud.Store.{
  StoreData, Store, Env, save_locked-contents, or_default, new_id,
}
use soul_room_edge_platform.Cloud.Store.Jobs.{
  with_jobs, owns_device, fresh_job, create_job, delete_job, expire, deliver, visit, next_job_loop,
  next_job_for_device, refresh_campaign, completed_state, complete_contents, complete_job,
}
use soul_room_edge_platform.Cloud.Store.Jobs.Loop.{Visit-cases}
use soul_room_edge_platform.Cloud.Store.Jobs.Delivery.{next_job_for_device-contents}
use soul_room_edge_platform.Cloud.Store.Campaigns.{
  with_campaigns, create_ota_campaign, update_ota_campaign,
}
use soul_room_edge_platform.Cloud.Store.Invariant.{IsValid, belongs, JobOwners, CampaignKeys}

-- Other jobs with owners, or other campaigns under their ids.
with_jobs-IsValid :
    (c : StoreData) (js : Dict Job)
    → IsValid c
    → JobOwners c.devices js
    → IsValid (record c { jobs = js })
with_jobs-IsValid c js v h = record {
  device_keys = v.device_keys;
  campaign_keys = v.campaign_keys;
  job_owners = h;
  metric_owners = v.metric_owners;
  inventory_owners = v.inventory_owners;
}

with_campaigns-IsValid :
    (c : StoreData) (cs : Dict Campaign)
    → IsValid c
    → CampaignKeys cs
    → IsValid (record c { ota_campaigns = cs })
with_campaigns-IsValid c cs v h = record {
  device_keys = v.device_keys;
  campaign_keys = h;
  job_owners = v.job_owners;
  metric_owners = v.metric_owners;
  inventory_owners = v.inventory_owners;
}

owns_device-belongs :
    (tc : TenantContext) (o : Option Device)
    → owns_device tc o ≡ true
    → belongs tc.tenant_id o ≡ true
owns_device-belongs tc none h = h
owns_device-belongs tc (some d) h = h

pub create_job-IsValid :
    (env : Env) (tc : TenantContext) (job : Job) (s : Store)
    → IsValid s.contents
    → IsValid (create_job env tc job s).store.contents
unfolding create_job
create_job-IsValid env tc job s v =
    let j = fresh_job env tc job in
    let js = insert j.id j s.contents.jobs in
    elim (Bool-cases (owns_device tc (lookup job.device_id s.contents.devices))) [
      | inl own ↦
          let w = with_jobs-IsValid s.contents js v (
            Entries-insert _ j.id j s.contents.jobs v.job_owners
              (refl, owns_device-belongs tc (lookup job.device_id s.contents.devices) own)) in
          ground (arith, v, w, save_locked-contents env.disk (with_jobs s js))
      | inr foreign ↦ ground (arith, v)
    ]

pub delete_job-IsValid :
    (env : Env) (tc : TenantContext) (job_id : String) (s : Store)
    → IsValid s.contents
    → IsValid (delete_job env tc job_id s).1.contents
unfolding delete_job
delete_job-IsValid env tc job_id s v =
    let js = erase job_id s.contents.jobs in
    let w =
      with_jobs-IsValid s.contents js v (Entries-erase _ job_id s.contents.jobs v.job_owners) in
    ground (arith, v, w, save_locked-contents env.disk (with_jobs s js))

-- What the loop writes has the id, the tenant and the device of what it read.
visit_keeps :
    (tc : TenantContext) (device_id : String) (now : Time) (ds : Dict Device) (js : Dict Job)
    (id : String)
    → JobOwners ds js
    → (j : Job)
    → (visit tc device_id now (lookup id js) ≡ expire j)
      ⊎ (visit tc device_id now (lookup id js) ≡ deliver j)
    → (j.id ≡ id) × (belongs j.tenant_id (lookup j.device_id ds) ≡ true)
unfolding visit
visit_keeps tc device_id now ds js id h j e = elim (Option-cases (lookup id js)) [
  | inl gone ↦ absurd (ground arith)
  | inr (old, found) ↦
      let owned = Entries-lookup _ id js h found in (ground (arith, owned), ground (arith, owned))
]

next_job_loop-JobOwners :
    (tc : TenantContext) (device_id : String) (now : Time) (ds : Dict Device) (ids : List String)
    (js : Dict Job)
    → JobOwners ds js
    → JobOwners ds (next_job_loop tc device_id now ids js).1
unfolding next_job_loop
next_job_loop-JobOwners tc device_id now ds [] js h = h
next_job_loop-JobOwners tc device_id now ds (id ∷ ids) js h =
    elim (Visit-cases (visit tc device_id now (lookup id js))) [
      | inl e ↦ rw (e, next_job_loop) (next_job_loop-JobOwners tc device_id now ds ids js h)
      | inr (inl (j, e)) ↦
          rw (e, next_job_loop)
            (next_job_loop-JobOwners tc device_id now ds ids (insert id j js)
              (Entries-insert _ id j js h (visit_keeps tc device_id now ds js id h j (inl e))))
      | inr (inr (j, e)) ↦
          rw (e, next_job_loop)
            (Entries-insert _ id j js h (visit_keeps tc device_id now ds js id h j (inr e)))
    ]

pub next_job_for_device-IsValid :
    (env : Env) (tc : TenantContext) (device_id : String) (s : Store)
    → IsValid s.contents
    → IsValid (next_job_for_device env tc device_id s).store.contents
next_job_for_device-IsValid env tc device_id s v =
    rw (next_job_for_device-contents env tc device_id s) (
      with_jobs-IsValid s.contents _ v (
        next_job_loop-JobOwners tc device_id (env.now 0) s.contents.devices env.order
          s.contents.jobs v.job_owners))

refresh_campaign-CampaignKeys :
    (tc : TenantContext) (id : String) (js : Dict Job) (cs : Dict Campaign)
    → CampaignKeys cs
    → CampaignKeys (refresh_campaign tc id js cs)
unfolding refresh_campaign
refresh_campaign-CampaignKeys tc id js cs h = elim (Option-cases (lookup id cs)) [
  | inl e ↦ rw (e, refresh_campaign) h
  | inr (c, e) ↦ elim (string_dec c.tenant_id tc.tenant_id) [
    | yes own ↦ rw (e, refresh_campaign) (rw (if_pos _ own) (Entries-insert _ c.id _ cs h refl))
    | no foreign ↦ rw (e, refresh_campaign) (rw (if_neg _ foreign) h)
  ]
]

pub complete_job-IsValid :
    (reported : Json → String) (env : Env) (tc : TenantContext) (job_id : String) (result : Json)
    (s : Store)
    → IsValid s.contents
    → IsValid (complete_job reported env tc job_id result s).1.contents
unfolding complete_job
complete_job-IsValid reported env tc job_id result s v =
    elim (Option-cases (lookup job_id s.contents.jobs)) [
      | inl e ↦ ground (arith, v)
      | inr (job, e) ↦
          let c =
            complete_contents tc job_id (completed_state (reported result)) result job s.contents in
          let owned = Entries-lookup _ job_id s.contents.jobs v.job_owners e in
          let w1 : JobOwners s.contents.devices c.jobs =
            Entries-insert _ job_id _ s.contents.jobs v.job_owners owned in
          let w =
            with_campaigns-IsValid (record s.contents { jobs = c.jobs }) c.ota_campaigns
              (with_jobs-IsValid s.contents c.jobs v w1)
              (refresh_campaign-CampaignKeys tc job.deployment_id c.jobs s.contents.ota_campaigns
                v.campaign_keys) in
          ground (arith, v, w, save_locked-contents env.disk (record s { contents = c }))
    ]

pub create_ota_campaign-IsValid :
    (env : Env) (tc : TenantContext) (campaign : Campaign) (s : Store)
    → IsValid s.contents
    → IsValid (create_ota_campaign env tc campaign s).store.contents
unfolding create_ota_campaign
create_ota_campaign-IsValid env tc campaign s v =
    let c = record campaign {
      id = new_id "ota" (env.random 0);
      tenant_id = tc.tenant_id;
      created_at = env.now 0;
      state = or_default campaign.state "ready";
    } in
    let cs = insert c.id c s.contents.ota_campaigns in
    let w =
      with_campaigns-IsValid s.contents cs v
        (Entries-insert _ c.id c s.contents.ota_campaigns v.campaign_keys refl) in
    ground (arith, v, w, save_locked-contents env.disk (with_campaigns s cs))

pub update_ota_campaign-IsValid :
    (env : Env) (tc : TenantContext) (campaign : Campaign) (s : Store)
    → IsValid s.contents
    → IsValid (update_ota_campaign env tc campaign s).1.contents
unfolding update_ota_campaign
update_ota_campaign-IsValid env tc campaign s v =
    let cs = insert campaign.id campaign s.contents.ota_campaigns in
    let w =
      with_campaigns-IsValid s.contents cs v
        (Entries-insert _ campaign.id campaign s.contents.ota_campaigns v.campaign_keys refl) in
    ground (arith, v, w, save_locked-contents env.disk (with_campaigns s cs))
