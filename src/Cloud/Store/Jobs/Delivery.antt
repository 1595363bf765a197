-- ===== src/Cloud/Store/Jobs/Delivery.antt =====
-- `NextJobForDevice`: what a call leaves in the store, and what it returns.
use soul_room_edge_platform.Base.{String, ◌≡◌, refl, ◌≢◌, true, false, none, some, ◌==◌, arith}
use soul_room_edge_platform.Base.Lists.{any}
use soul_room_edge_platform.Base.Dict.{lookup}
use soul_room_edge_platform.Cloud.Model.{TenantContext, Job}
use soul_room_edge_platform.Cloud.Store.{Store, Env, save_locked-contents, is_after}
use soul_room_edge_platform.Cloud.Store.Jobs.{
  is_candidate, next_job_loop, next_job_for_device, with_jobs,
}
use soul_room_edge_platform.Cloud.Store.Jobs.Loop.{
  delivered, Fate, next_job_loop-Fate, next_job_loop-Hands, next_job_loop-ne-none,
}

module _ (env : Env) (tc : TenantContext) (device_id : String) (s : Store) where
  pub next_job_for_device-contents :
      (next_job_for_device env tc device_id s).store.contents ≡ record s.contents {
        jobs = (next_job_loop tc device_id (env.now 0) env.order s.contents.jobs).1;
      }
  unfolding next_job_for_device
  next_job_for_device-contents = ground (
    arith,
    save_locked-contents env.disk
        (with_jobs s (next_job_loop tc device_id (env.now 0) env.order s.contents.jobs).1),
  )

  next_job_for_device-value :
      (next_job_for_device env tc device_id s).value
      ≡ (next_job_loop tc device_id (env.now 0) env.order s.contents.jobs).0
  unfolding next_job_for_device
  next_job_for_device-value = ground arith

  -- Whatever the order of the visit, a call changes no part of the contents but the jobs, and of
  -- these leaves each as it was, times it out or hands it out.
  pub next_job_for_device-Fate :
      (k : String)
      → let s' = (next_job_for_device env tc device_id s).store in
        Fate tc device_id (env.now 0) (lookup k s.contents.jobs) (lookup k s'.contents.jobs)
        × (s'.contents ≡ record s.contents { jobs = s'.contents.jobs })
  next_job_for_device-Fate k =
      rw next_job_for_device-contents
        (next_job_loop-Fate tc device_id (env.now 0) env.order k s.contents.jobs, refl)

  -- A job that is returned was pending for this device of this tenant and had not expired; it
  -- differs from the stored one by its state and one more attempt, and is stored.
  pub next_job_for_device-Hands :
      {job : Job}
      → (next_job_for_device env tc device_id s).value ≡ some job
      → let s' = (next_job_for_device env tc device_id s).store in
        (id : String) × (old : Job) × (lookup id s.contents.jobs ≡ some old)
        × (is_candidate tc device_id old ≡ true)
        × (is_after (env.now 0) old.expires_at ≡ false)
        × (job ≡ delivered old)
        × (lookup id s'.contents.jobs ≡ some job)
  next_job_for_device-Hands h = rw next_job_for_device-contents (
      next_job_loop-Hands tc device_id (env.now 0) env.order s.contents.jobs
        (rw next_job_for_device-value at h))

  -- While a pending job of the device has not expired and the visit reaches it, a job is returned.
  pub next_job_for_device-ne-none :
      (k : String) (job : Job)
      → any (λ id. id == k) env.order ≡ true
      → lookup k s.contents.jobs ≡ some job
      → is_candidate tc device_id job ≡ true
      → is_after (env.now 0) job.expires_at ≡ false
      → (next_job_for_device env tc device_id s).value ≢ none
  next_job_for_device-ne-none k job listed found candidate live = rw next_job_for_device-value (
      next_job_loop-ne-none tc device_id (env.now 0) env.order k s.contents.jobs job listed found
        candidate live)
