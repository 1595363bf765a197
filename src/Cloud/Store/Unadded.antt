-- ===== src/Cloud/Store/Unadded.antt =====
-- What each operation of one tenant adds to another: nothing.
use soul_room_edge_platform.Base.{
  String, ◌≡◌, ◌≢◌, inl, inr, ◌∙◌, sym, Option, some, List, ◌!=◌, arith, Option-cases,
}
use soul_room_edge_platform.Base.Dict.{
  Dict, lookup, insert, erase, rewrite, lookup-insert, lookup-erase, lookup-retained,
  lookup-rewritten,
}
use soul_room_edge_platform.Cloud.Model.{TenantContext, Time, Json, Device, Metric, Job, Campaign}
use soul_room_edge_platform.Cloud.Store.{Store, Env, save_locked-contents, or_default, new_id}
use soul_room_edge_platform.Cloud.Store.Jobs.{
  with_jobs, fresh_job, create_job, delete_job, next_job_for_device, complete_job, refresh_campaign,
  complete_contents, completed_state, campaign_state,
}
use soul_room_edge_platform.Cloud.Store.Devices.{
  with_devices, with_telemetry, create_device, update_device, delete_device, purge_device,
  drop_target, add_telemetry, add_metrics, save_inventory,
}
use soul_room_edge_platform.Cloud.Store.Campaigns.{
  with_campaigns, create_ota_campaign, update_ota_campaign,
}
use soul_room_edge_platform.Cloud.Store.Jobs.Loop.{Fate, kept, timed_out, handed_out}
use soul_room_edge_platform.Cloud.Store.Jobs.Delivery.{
  next_job_for_device-Fate, next_job_for_device-contents,
}
use soul_room_edge_platform.Cloud.Store.Untouched.{Untouched}

-- A change of the loop of `NextJobForDevice` makes no job one of another tenant.
Fate-native :
    (tc : TenantContext) (device_id : String) (now : Time) (job : Job) {x y : Option Job}
    → y ≡ some job
    → job.tenant_id ≢ tc.tenant_id
    → Fate tc device_id now x y
    → x ≡ some job
Fate-native tc device_id now job found ne (kept e) = sym e ∙ found
Fate-native tc device_id now job found ne (timed_out old b c l a) = absurd (ground arith)
Fate-native tc device_id now job found ne (handed_out old b c l a) = absurd (ground arith)

refresh_campaign_native :
    (tc : TenantContext) (id k : String) (js : Dict Job) (cs : Dict Campaign) (x : Campaign)
    → x.tenant_id ≢ tc.tenant_id
    → lookup k (refresh_campaign tc id js cs) ≡ some x
    → lookup k cs ≡ some x
unfolding refresh_campaign
refresh_campaign_native tc id k js cs x ne found = elim (Option-cases (lookup id cs)) [
  | inl e ↦ ground arith
  | inr (c, e) ↦ ground (arith, lookup-insert c.id k (record c { state = campaign_state c js }) cs)
]

drop_target_native :
    (tc : TenantContext) (id k : String) (cs : Dict Campaign) (x : Campaign)
    → x.tenant_id ≢ tc.tenant_id
    → lookup k (rewrite (λ _ campaign. drop_target tc id campaign) cs) ≡ some x
    → lookup k cs ≡ some x
drop_target_native tc id k cs x ne found = elim (Option-cases (lookup k cs)) [
  | inl e ↦ absurd (ground (arith, lookup-rewritten (drop_target tc id) k cs))
  | inr (c, e) ↦ ground (arith, lookup-rewritten (drop_target tc id) k cs)
]

module _ (other : String) (env : Env) (tc : TenantContext) (s : Store) where
  pub create_job-Unadded :
      (job : Job)
      → other ≢ tc.tenant_id
      → Untouched other (create_job env tc job s).store.contents s.contents
  unfolding create_job
  create_job-Unadded job ne =
      let j = fresh_job env tc job in
      let same = save_locked-contents env.disk (with_jobs s (insert j.id j s.contents.jobs)) in
      record {
        jobs = λ k x found own. ground (arith, same, lookup-insert j.id k j s.contents.jobs);
        devices = λ k x found own. ground (arith, same);
        campaigns = λ k x found own. ground (arith, same);
      }

  pub delete_job-Unadded :
      (id : String)
      → other ≢ tc.tenant_id
      → Untouched other (delete_job env tc id s).1.contents s.contents
  unfolding delete_job
  delete_job-Unadded id ne =
      let same = save_locked-contents env.disk (with_jobs s (erase id s.contents.jobs)) in
      record {
        jobs = λ k x found own. ground (arith, same, lookup-erase id k s.contents.jobs);
        devices = λ k x found own. ground (arith, same);
        campaigns = λ k x found own. ground (arith, same);
      }

  pub create_device-Unadded :
      (d : Device)
      → d.tenant_id ≡ tc.tenant_id
      → other ≢ tc.tenant_id
      → Untouched other (create_device env d s).store.contents s.contents
  unfolding create_device
  create_device-Unadded device mine ne =
      let d = record device {
        id = new_id "dev" (env.random 0);
        created_at = env.now 0;
        presence = or_default device.presence "offline";
        enrollment_status = or_default device.enrollment_status "enrolled";
      } in
      let same =
        save_locked-contents env.disk (with_devices s (insert d.id d s.contents.devices)) in
      record {
        jobs = λ k x found own. ground (arith, same);
        devices = λ k x found own. ground (arith, same, lookup-insert d.id k d s.contents.devices);
        campaigns = λ k x found own. ground (arith, same);
      }

  pub update_device-Unadded :
      (d : Device)
      → d.tenant_id ≡ tc.tenant_id
      → other ≢ tc.tenant_id
      → Untouched other (update_device env d s).1.contents s.contents
  unfolding update_device
  update_device-Unadded d mine ne =
      let same =
        save_locked-contents env.disk (with_devices s (insert d.id d s.contents.devices)) in
      record {
        jobs = λ k x found own. ground (arith, same);
        devices = λ k x found own. ground (arith, same, lookup-insert d.id k d s.contents.devices);
        campaigns = λ k x found own. ground (arith, same);
      }

  pub add_telemetry-Unadded :
      (ms : List Metric) → Untouched other (add_telemetry env tc ms s).1.contents s.contents
  unfolding add_telemetry
  add_telemetry-Unadded ms =
      let r = add_metrics tc env.now 0 s.contents.devices ms s.contents.telemetry in
      let same = save_locked-contents env.disk (with_telemetry s r.1) in
      record {
        jobs = λ k x found own. ground (arith, same);
        devices = λ k x found own. ground (arith, same);
        campaigns = λ k x found own. ground (arith, same);
      }

  pub save_inventory-Unadded :
      (id : String) (payload : Json)
      → Untouched other (save_inventory env tc id payload s).1.contents s.contents
  unfolding save_inventory
  save_inventory-Unadded id payload =
      let js = insert id payload s.contents.inventory in
      let same =
        save_locked-contents env.disk
          (record s { contents = record s.contents { inventory = js } }) in
      record {
        jobs = λ k x found own. ground (arith, same);
        devices = λ k x found own. ground (arith, same);
        campaigns = λ k x found own. ground (arith, same);
      }

  pub create_ota_campaign-Unadded :
      (campaign : Campaign)
      → other ≢ tc.tenant_id
      → Untouched other (create_ota_campaign env tc campaign s).store.contents s.contents
  unfolding create_ota_campaign
  create_ota_campaign-Unadded campaign ne =
      let c = record campaign {
        id = new_id "ota" (env.random 0);
        tenant_id = tc.tenant_id;
        created_at = env.now 0;
        state = or_default campaign.state "ready";
      } in
      let cs = insert c.id c s.contents.ota_campaigns in
      let same = save_locked-contents env.disk (with_campaigns s cs) in
      record {
        jobs = λ k x found own. ground (arith, same);
        devices = λ k x found own. ground (arith, same);
        campaigns =
            λ k x found own. ground (arith, same, lookup-insert c.id k c s.contents.ota_campaigns);
      }

  pub update_ota_campaign-Unadded :
      (c : Campaign)
      → other ≢ tc.tenant_id
      → Untouched other (update_ota_campaign env tc c s).1.contents s.contents
  unfolding update_ota_campaign
  update_ota_campaign-Unadded c ne =
      let cs = insert c.id c s.contents.ota_campaigns in
      let same = save_locked-contents env.disk (with_campaigns s cs) in
      record {
        jobs = λ k x found own. ground (arith, same);
        devices = λ k x found own. ground (arith, same);
        campaigns =
            λ k x found own. ground (arith, same, lookup-insert c.id k c s.contents.ota_campaigns);
      }

  pub next_job_for_device-Unadded :
      (device_id : String)
      → other ≢ tc.tenant_id
      → Untouched other (next_job_for_device env tc device_id s).store.contents s.contents
  next_job_for_device-Unadded device_id ne = record {
    jobs = λ k x found own.
        Fate-native tc device_id (env.now 0) x found (λ e. ne (sym own ∙ e))
          (next_job_for_device-Fate env tc device_id s k).0;
    devices = λ k x found own. rw (next_job_for_device-contents env tc device_id s) at found;
    campaigns = λ k x found own. rw (next_job_for_device-contents env tc device_id s) at found;
  }

  -- The campaign that a result updates is one of the tenant, by its own id.
  pub complete_job-Unadded :
      (reported : Json → String) (id : String) (result : Json)
      → other ≢ tc.tenant_id
      → Untouched other (complete_job reported env tc id result s).1.contents s.contents
  unfolding complete_job
  complete_job-Unadded reported id result ne = elim (Option-cases (lookup id s.contents.jobs)) [
    | inl e ↦ record {
      jobs = λ k x found own. ground arith;
      devices = λ k x found own. ground arith;
      campaigns = λ k x found own. ground arith;
    }
    | inr (job, e) ↦
        let state = completed_state (reported result) in
        let job' = record job { state = state; result = result } in
        let c = complete_contents tc id state result job s.contents in
        let same = save_locked-contents env.disk (record s { contents = c }) in
        record {
          jobs = λ k x found own. ground (arith, same, lookup-insert id k job' s.contents.jobs);
          devices = λ k x found own. ground (arith, same);
          campaigns = λ k x found own. ground (
            arith,
            same,
            refresh_campaign_native tc job.deployment_id k c.jobs s.contents.ota_campaigns x
                (λ e. ne (sym own ∙ e)),
          );
        }
  ]

  pub delete_device-Unadded :
      (id : String)
      → other ≢ tc.tenant_id
      → Untouched other (delete_device env tc id s).1.contents s.contents
  unfolding delete_device purge_device
  delete_device-Unadded id ne =
      let c = purge_device tc id s.contents in
      let same = save_locked-contents env.disk (record s { contents = c }) in
      elim (Option-cases (lookup id s.contents.devices)) [
        | inl e ↦ record {
          jobs = λ k x found own. ground arith;
          devices = λ k x found own. ground arith;
          campaigns = λ k x found own. ground arith;
        }
        | inr (d, e) ↦ record {
          jobs = λ k x found own.
              ground
                (arith, same, lookup-retained (λ _ job. job.device_id != id) k s.contents.jobs x);
          devices = λ k x found own. ground (arith, same, lookup-erase id k s.contents.devices);
          campaigns = λ k x found own. ground (
            arith,
            same,
            drop_target_native tc id k s.contents.ota_campaigns x (λ e. ne (sym own ∙ e)),
          );
        }
      ]
