-- ===== src/Cloud/Store/Untouched.antt =====
-- What each operation of one tenant leaves to another.
use soul_room_edge_platform.Base.{
  String, ◌≡◌, ◌≢◌, inl, inr, ◌∙◌, sym, Option, some, List, ◌!=◌, arith, Option-cases,
}
use soul_room_edge_platform.Base.Dict.{
  Dict, lookup, insert, erase, lookup-insert, lookup-erase, lookup-retain, Entries-lookup,
  lookup-rewrite,
}
use soul_room_edge_platform.Cloud.Model.{TenantContext, Time, Json, Device, Metric, Job, Campaign}
use soul_room_edge_platform.Cloud.Store.{
  StoreData, Store, Env, save_locked-contents, or_default, new_id,
}
use soul_room_edge_platform.Cloud.Store.Jobs.{
  with_jobs, fresh_job, create_job, delete_job, next_job_for_device, complete_job, refresh_campaign,
  complete_contents, completed_state, campaign_state,
}
use soul_room_edge_platform.Cloud.Store.Devices.{
  with_devices, with_telemetry, create_device, update_device, delete_device, purge_device,
  drop_target, add_telemetry, add_metrics, save_inventory,
}
use soul_room_edge_platform.Cloud.Store.Campaigns.{
  with_campaigns, create_ota_campaign, update_ota_campaign,
}
use soul_room_edge_platform.Cloud.Store.Invariant.{IsValid, CampaignKeys}
use soul_room_edge_platform.Cloud.Store.Jobs.Loop.{Fate, kept, timed_out, handed_out}
use soul_room_edge_platform.Cloud.Store.Jobs.Delivery.{
  next_job_for_device-Fate, next_job_for_device-contents,
}
use soul_room_edge_platform.Cloud.Store.Invariant.Devices.{IsFreshDevice}
use soul_room_edge_platform.Cloud.Store.Steps.{IsFreshJob, IsFreshCampaign}

-- Every job, device and campaign of a tenant is stored as before.
pub record Untouched (tenant : String) (c c' : StoreData) : Type 0 where
  pub jobs :
      (k : String) (job : Job)
      → lookup k c.jobs ≡ some job
      → job.tenant_id ≡ tenant
      → lookup k c'.jobs ≡ some job
  pub devices :
      (k : String) (d : Device)
      → lookup k c.devices ≡ some d
      → d.tenant_id ≡ tenant
      → lookup k c'.devices ≡ some d
  pub campaigns :
      (k : String) (campaign : Campaign)
      → lookup k c.ota_campaigns ≡ some campaign
      → campaign.tenant_id ≡ tenant
      → lookup k c'.ota_campaigns ≡ some campaign

-- An entry of another tenant is kept by `NextJobForDevice`, and by the update of a campaign.
Fate-foreign :
    (tc : TenantContext) (device_id : String) (now : Time) (job : Job) {x y : Option Job}
    → x ≡ some job
    → job.tenant_id ≢ tc.tenant_id
    → Fate tc device_id now x y
    → y ≡ some job
Fate-foreign tc device_id now job found ne (kept e) = e ∙ found
Fate-foreign tc device_id now job found ne (timed_out old b c l a) = absurd (ground arith)
Fate-foreign tc device_id now job found ne (handed_out old b c l a) = absurd (ground arith)

refresh_campaign_foreign :
    (tc : TenantContext) (id k : String) (js : Dict Job) (cs : Dict Campaign) (x : Campaign)
    → x.tenant_id ≢ tc.tenant_id
    → CampaignKeys cs
    → lookup k cs ≡ some x
    → lookup k (refresh_campaign tc id js cs) ≡ some x
unfolding refresh_campaign
refresh_campaign_foreign tc id k js cs x ne keyed found = elim (Option-cases (lookup id cs)) [
  | inl e ↦ ground arith
  | inr (c, e) ↦ ground (
    arith,
    Entries-lookup _ id cs keyed e,
    lookup-insert c.id k (record c { state = campaign_state c js }) cs,
  )
]

module _ (other : String) (env : Env) (tc : TenantContext) (s : Store) where
  pub create_job-Untouched :
      (job : Job)
      → IsFreshJob env s
      → Untouched other s.contents (create_job env tc job s).store.contents
  unfolding create_job
  create_job-Untouched job fresh =
      let j = fresh_job env tc job in
      let same = save_locked-contents env.disk (with_jobs s (insert j.id j s.contents.jobs)) in
      record {
        jobs = λ k x found own. ground (arith, same, lookup-insert j.id k j s.contents.jobs);
        devices = λ k x found own. ground (arith, same);
        campaigns = λ k x found own. ground (arith, same);
      }

  pub delete_job-Untouched :
      (id : String)
      → other ≢ tc.tenant_id
      → Untouched other s.contents (delete_job env tc id s).1.contents
  unfolding delete_job
  delete_job-Untouched id ne =
      let same = save_locked-contents env.disk (with_jobs s (erase id s.contents.jobs)) in
      record {
        jobs = λ k x found own. ground (arith, same, lookup-erase id k s.contents.jobs);
        devices = λ k x found own. ground (arith, same);
        campaigns = λ k x found own. ground (arith, same);
      }

  pub create_device-Untouched :
      (d : Device)
      → IsFreshDevice env s
      → Untouched other s.contents (create_device env d s).store.contents
  unfolding create_device
  create_device-Untouched device fresh =
      let d = record device {
        id = new_id "dev" (env.random 0);
        created_at = env.now 0;
        presence = or_default device.presence "offline";
        enrollment_status = or_default device.enrollment_status "enrolled";
      } in
      let same =
        save_locked-contents env.disk (with_devices s (insert d.id d s.contents.devices)) in
      record {
        jobs = λ k x found own. ground (arith, same);
        devices = λ k x found own. ground (arith, same, lookup-insert d.id k d s.contents.devices);
        campaigns = λ k x found own. ground (arith, same);
      }

  pub update_device-Untouched :
      (d : Device)
      → d.tenant_id ≡ tc.tenant_id
      → other ≢ tc.tenant_id
      → Untouched other s.contents (update_device env d s).1.contents
  unfolding update_device
  update_device-Untouched d mine ne =
      let same =
        save_locked-contents env.disk (with_devices s (insert d.id d s.contents.devices)) in
      record {
        jobs = λ k x found own. ground (arith, same);
        devices = λ k x found own. ground (arith, same, lookup-insert d.id k d s.contents.devices);
        campaigns = λ k x found own. ground (arith, same);
      }

  pub add_telemetry-Untouched :
      (ms : List Metric) → Untouched other s.contents (add_telemetry env tc ms s).1.contents
  unfolding add_telemetry
  add_telemetry-Untouched ms =
      let r = add_metrics tc env.now 0 s.contents.devices ms s.contents.telemetry in
      let same = save_locked-contents env.disk (with_telemetry s r.1) in
      record {
        jobs = λ k x found own. ground (arith, same);
        devices = λ k x found own. ground (arith, same);
        campaigns = λ k x found own. ground (arith, same);
      }

  pub save_inventory-Untouched :
      (id : String) (payload : Json)
      → Untouched other s.contents (save_inventory env tc id payload s).1.contents
  unfolding save_inventory
  save_inventory-Untouched id payload =
      let js = insert id payload s.contents.inventory in
      let same =
        save_locked-contents env.disk
          (record s { contents = record s.contents { inventory = js } }) in
      record {
        jobs = λ k x found own. ground (arith, same);
        devices = λ k x found own. ground (arith, same);
        campaigns = λ k x found own. ground (arith, same);
      }

  pub create_ota_campaign-Untouched :
      (campaign : Campaign)
      → IsFreshCampaign env s
      → Untouched other s.contents (create_ota_campaign env tc campaign s).store.contents
  unfolding create_ota_campaign
  create_ota_campaign-Untouched campaign fresh =
      let c = record campaign {
        id = new_id "ota" (env.random 0);
        tenant_id = tc.tenant_id;
        created_at = env.now 0;
        state = or_default campaign.state "ready";
      } in
      let cs = insert c.id c s.contents.ota_campaigns in
      let same = save_locked-contents env.disk (with_campaigns s cs) in
      record {
        jobs = λ k x found own. ground (arith, same);
        devices = λ k x found own. ground (arith, same);
        campaigns =
            λ k x found own. ground (arith, same, lookup-insert c.id k c s.contents.ota_campaigns);
      }

  pub update_ota_campaign-Untouched :
      (c : Campaign)
      → other ≢ tc.tenant_id
      → Untouched other s.contents (update_ota_campaign env tc c s).1.contents
  unfolding update_ota_campaign
  update_ota_campaign-Untouched c ne =
      let cs = insert c.id c s.contents.ota_campaigns in
      let same = save_locked-contents env.disk (with_campaigns s cs) in
      record {
        jobs = λ k x found own. ground (arith, same);
        devices = λ k x found own. ground (arith, same);
        campaigns =
            λ k x found own. ground (arith, same, lookup-insert c.id k c s.contents.ota_campaigns);
      }

  pub next_job_for_device-Untouched :
      (device_id : String)
      → other ≢ tc.tenant_id
      → Untouched other s.contents (next_job_for_device env tc device_id s).store.contents
  next_job_for_device-Untouched device_id ne = record {
    jobs = λ k x found own.
        Fate-foreign tc device_id (env.now 0) x found (λ e. ne (sym own ∙ e))
          (next_job_for_device-Fate env tc device_id s k).0;
    devices = λ k x found own. rw (next_job_for_device-contents env tc device_id s) found;
    campaigns = λ k x found own. rw (next_job_for_device-contents env tc device_id s) found;
  }

  -- The campaign that a result updates is one of the tenant, by its own id.
  pub complete_job-Untouched :
      (reported : Json → String) (id : String) (result : Json)
      → other ≢ tc.tenant_id
      → IsValid s.contents
      → Untouched other s.contents (complete_job reported env tc id result s).1.contents
  unfolding complete_job
  complete_job-Untouched reported id result ne v = elim (Option-cases (lookup id s.contents.jobs)) [
    | inl e ↦ record {
      jobs = λ k x found own. ground arith;
      devices = λ k x found own. ground arith;
      campaigns = λ k x found own. ground arith;
    }
    | inr (job, e) ↦
        let state = completed_state (reported result) in
        let job' = record job { state = state; result = result } in
        let c = complete_contents tc id state result job s.contents in
        let same = save_locked-contents env.disk (record s { contents = c }) in
        record {
          jobs = λ k x found own. ground (arith, same, lookup-insert id k job' s.contents.jobs);
          devices = λ k x found own. ground (arith, same);
          campaigns = λ k x found own. ground (
            arith,
            same,
            refresh_campaign_foreign tc job.deployment_id k c.jobs s.contents.ota_campaigns x
                (λ e. ne (sym own ∙ e)) v.campaign_keys found,
          );
        }
  ]

  pub delete_device-Untouched :
      (id : String)
      → other ≢ tc.tenant_id
      → IsValid s.contents
      → Untouched other s.contents (delete_device env tc id s).1.contents
  unfolding delete_device purge_device
  delete_device-Untouched id ne v =
      let c = purge_device tc id s.contents in
      let same = save_locked-contents env.disk (record s { contents = c }) in
      elim (Option-cases (lookup id s.contents.devices)) [
        | inl e ↦ record {
          jobs = λ k x found own. ground arith;
          devices = λ k x found own. ground arith;
          campaigns = λ k x found own. ground arith;
        }
        | inr (d, e) ↦ record {
          jobs = λ k x found own. ground (
            arith,
            same,
            lookup-retain (λ _ job. job.device_id != id) k s.contents.jobs x,
            Entries-lookup _ k s.contents.jobs v.job_owners found,
          );
          devices = λ k x found own. ground (arith, same, lookup-erase id k s.contents.devices);
          campaigns = λ k x found own. ground (
            arith,
            same,
            lookup-rewrite (λ _ campaign. drop_target tc id campaign) k s.contents.ota_campaigns x
                x,
          );
        }
      ]
