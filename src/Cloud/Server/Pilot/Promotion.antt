-- ===== src/Cloud/Server/Pilot/Promotion.antt =====
-- The promotion of a campaign by cloud-infra/internal/server/server.go.
use text.Mathlib.TextLemmas.{append_cancel_left}
use soul_room_edge_platform.Base.{
  ℕ, String, ◌<>◌, ◌≡◌, ◌⊎◌, inl, inr, refl, sym, ap, subst, ◌∙◌, Bool, true, not, ◌||◌, Option,
  none, some, List, [], ◌∷◌, ◌!=◌, arith, Bool-cases, Option-cases,
}
use soul_room_edge_platform.Base.Lists.{filter, All}
use soul_room_edge_platform.Base.Dict.{Dict, lookup}
use soul_room_edge_platform.Cloud.Model.{TenantContext, Json, Job, Campaign}
use soul_room_edge_platform.Cloud.Store.{Store, Env, save_locked}
use soul_room_edge_platform.Cloud.Store.Jobs.{jobs_for_deployment}
use soul_room_edge_platform.Cloud.Store.Campaigns.{
  get_ota_campaign, update_ota_campaign, record_audit,
}
use soul_room_edge_platform.Cloud.Server.{Library, Calls, Handled, record_event}
use soul_room_edge_platform.Cloud.Server.Rollout.{
  queue_ota_jobs, campaign_payload, has_job, remaining_targets, PromoteRequest, finish_rollout,
  promote_rest, promote,
}
use soul_room_edge_platform.Cloud.Server.Pilot.{HasKey, AreFresh}
use soul_room_edge_platform.Cloud.Server.Pilot.Queueing.{
  update_key, queue_jobs-HasKey, Outcome-cases, AreOwn, queue_jobs-AreOwn,
}

pub record_event-jobs :
    (lib : Library) (env : Env) (tc : TenantContext) (action kind id : String)
    (summary : Option (Dict String)) (s : Store)
    → (record_event lib env tc action kind id summary s).contents.jobs ≡ s.contents.jobs
unfolding record_event record_audit save_locked
record_event-jobs lib env tc action kind id summary s = ground arith

update_ota_campaign-jobs :
    (env : Env) (tc : TenantContext) (c : Campaign) (s : Store)
    → (update_ota_campaign env tc c s).1.contents.jobs ≡ s.contents.jobs
unfolding update_ota_campaign save_locked
update_ota_campaign-jobs env tc c s = ground arith

-- The tenant has a job under the key of the campaign and the device: one that was stored before
-- under it, or an update of the campaign for the device.
abbrev pub HasJob : TenantContext → Campaign → Dict Job → Dict Job → String → Type 0
HasJob tc c before js d =
    (k : String) × (job : Job) × (lookup k js ≡ some job)
    × (job.tenant_id ≡ tc.tenant_id)
    × (job.idempotency_key ≡ update_key c d)
    × ((lookup k before ≡ some job)
        ⊎ ((job.device_id ≡ d) × (job.deployment_id ≡ c.id) × (job.job_type ≡ "ota_update")))

update_key_injective : (c : Campaign) (d d' : String) → update_key c d ≡ update_key c d' → d ≡ d'
update_key_injective c d d' e =
    append_cancel_left ":" d d' (append_cancel_left c.id (":" <> d) (":" <> d') e)

HasJob-intro :
    (tc : TenantContext) (c : Campaign) (before js : Dict Job) (d : String)
    → AreOwn c before js
    → HasKey tc (update_key c d) js
    → HasJob tc c before js d
HasJob-intro tc c before js d own (k, job, found, mine, keyed) = (
  k,
  job,
  found,
  mine,
  keyed,
  elim (own k job found) [
    | inl old ↦ inl old
    | inr (deployed, typed, key) ↦
        inr (update_key_injective c job.device_id d (sym key ∙ keyed), deployed, typed)
  ],
)

All-map :
    (A : Type 0) (P Q : A → Type 0) (xs : List A) → ((x : A) → P x → Q x) → All P xs → All Q xs
All-map A P Q [] f h = tt
All-map A P Q (x ∷ xs) f h = (f x h.0, All-map A P Q xs f h.1)

All-split :
    (A : Type 0) (P : A → Type 0) (f : A → Bool) (xs : List A)
    → All P (filter (λ x. not (f x)) xs)
    → All (λ x. (f x ≡ true) ⊎ P x) xs
All-split A P f [] h = tt
All-split A P f (x ∷ xs) h = elim (Bool-cases (f x)) [
  | inl e ↦ (inl e, All-split A P f xs (rw e at h))
  | inr e ↦
      let (p, rest) : P x × All P (filter (λ x. not (f x)) xs) = rw e at h in
      (inr p, All-split A P f xs rest)
]

module _ (lib : Library) (queueing calls : Calls) (tc : TenantContext) where
  finish_rollout-jobs :
      (status : ℕ) (action : String) (summary : Option (Dict String)) (c : Campaign) (s : Store)
      → (finish_rollout lib queueing calls tc status action summary c s).1.contents.jobs
        ≡ s.contents.jobs
  unfolding finish_rollout
  finish_rollout-jobs status action summary c s =
      elim (Option-cases (update_ota_campaign (calls 1) tc c s).0) [
        | inl e ↦
            rw (finish_rollout, e)
              (record_event-jobs lib (calls 2) tc action "ota_campaign" c.id summary
                  (update_ota_campaign (calls 1) tc c s).1
                ∙ update_ota_campaign-jobs (calls 1) tc c s)
        | inr (x, e) ↦ rw (finish_rollout, e) (update_ota_campaign-jobs (calls 1) tc c s)
      ]

  queue_ota_jobs-HasKey :
      (c : Campaign) (ids : List String) (s : Store)
      → AreFresh queueing s.contents.jobs 0
      → (queue_ota_jobs lib queueing tc c ids s).error ≡ none
      → All
          (λ d.
            HasKey tc (update_key c d) (queue_ota_jobs lib queueing tc c ids s).store.contents.jobs)
          ids
  unfolding queue_ota_jobs
  queue_ota_jobs-HasKey c ids s f ok =
      elim (Outcome-cases Json (lib.marshal_payload (campaign_payload c))) [
        | inl (message, e) ↦ absurd (ground arith)
        | inr (payload, e) ↦
            rw (queue_ota_jobs, e)
              (queue_jobs-HasKey lib queueing tc c payload ids 0 s f (rw (queue_ota_jobs, e) at ok))
      ]

  promote_rest-HasKey :
      (c : Campaign) (ids : List String) (s : Store)
      → AreFresh queueing s.contents.jobs 0
      → (promote_rest lib queueing calls tc c ids s).0.status ≡ 200
      → All
          (λ d.
            HasKey tc (update_key c d) (promote_rest lib queueing calls tc c ids s).1.contents.jobs)
          ids
  unfolding promote_rest
  promote_rest-HasKey c [] s f ok = tt
  promote_rest-HasKey c (d ∷ ids) s f ok =
      let queued = queue_ota_jobs lib queueing tc c (d ∷ ids) s in
      elim (Option-cases queued.error) [
        | inr (message, e) ↦ absurd (ground arith)
        | inl e ↦
            subst (λ js. All (λ x. HasKey tc (update_key c x) js) (d ∷ ids))
              (rw (promote_rest, e)
                (sym (
                  finish_rollout-jobs 200 "ota_campaign.promoted" (some (("targets", "true") ∷ []))
                    (record c { state = "queued" }) queued.store)))
              (queue_ota_jobs-HasKey c (d ∷ ids) s f e)
      ]

  queue_ota_jobs-AreOwn :
      (c : Campaign) (ids : List String) (s : Store)
      → AreOwn c s.contents.jobs (queue_ota_jobs lib queueing tc c ids s).store.contents.jobs
  unfolding queue_ota_jobs
  queue_ota_jobs-AreOwn c ids s =
      elim (Outcome-cases Json (lib.marshal_payload (campaign_payload c))) [
        | inl (message, e) ↦ rw (queue_ota_jobs, e) (λ k job found. inl found)
        | inr (payload, e) ↦
            rw (queue_ota_jobs, e)
              (queue_jobs-AreOwn lib queueing tc c payload s.contents.jobs ids 0 s
                (λ k job found. inl found))
      ]

  promote_rest-AreOwn :
      (c : Campaign) (ids : List String) (s : Store)
      → AreOwn c s.contents.jobs (promote_rest lib queueing calls tc c ids s).1.contents.jobs
  unfolding promote_rest
  promote_rest-AreOwn c [] s = λ k job found. inl found
  promote_rest-AreOwn c (d ∷ ids) s =
      let queued = queue_ota_jobs lib queueing tc c (d ∷ ids) s in
      let own = queue_ota_jobs-AreOwn c (d ∷ ids) s in
      elim (Option-cases queued.error) [
        | inr (message, e) ↦ rw (promote_rest, e) own
        | inl e ↦
            subst (AreOwn c s.contents.jobs)
              (rw (promote_rest, e)
                (sym (
                  finish_rollout-jobs 200 "ota_campaign.promoted" (some (("targets", "true") ∷ []))
                    (record c { state = "queued" }) queued.store)))
              own
      ]

  promotable :
      (request : PromoteRequest) (s : Store) (c : Campaign)
      → (get_ota_campaign tc request.campaign_id s).0 ≡ some c
      → (promote lib queueing calls tc request s).0.status ≡ 200
      → (c.state ≡ "canary_complete")
        × (promote lib queueing calls tc request s
            ≡ promote_rest lib queueing calls tc c
                (remaining_targets (jobs_for_deployment tc c.id s) c)
                s)
  unfolding promote
  promotable request s c e ok =
      elim (Bool-cases (request.action != "promote" || c.state != "canary_complete")) [
        | inl refused ↦ absurd (ground arith)
        | inr fine ↦ (ground arith, rw (promote, e, fine) refl)
      ]

  found_campaign :
      (request : PromoteRequest) (s : Store)
      → (promote lib queueing calls tc request s).0.status ≡ 200
      → (c : Campaign) × ((get_ota_campaign tc request.campaign_id s).0 ≡ some c)
  unfolding promote
  found_campaign request s ok = elim (Option-cases (get_ota_campaign tc request.campaign_id s).0) [
    | inl e ↦ absurd (ground arith)
    | inr found ↦ found
  ]

  -- A promotion that is answered 200 is one of a campaign of the tenant whose pilot group is
  -- complete; afterwards each target that had no job of the campaign has a job under the key of the
  -- campaign and the target: an update of the campaign for this target, or a job that the tenant
  -- already had under this key. The ids that are drawn for jobs are new, and no two are the same.
  pub promote-HasKey :
      (request : PromoteRequest) (s : Store)
      → AreFresh queueing s.contents.jobs 0
      → (promote lib queueing calls tc request s).0.status ≡ 200
      → (c : Campaign) × ((get_ota_campaign tc request.campaign_id s).0 ≡ some c)
        × (c.state ≡ "canary_complete")
        × All
            (λ d.
              (has_job (jobs_for_deployment tc c.id s) d ≡ true)
              ⊎ HasJob tc c s.contents.jobs
                  (promote lib queueing calls tc request s).1.contents.jobs
                  d)
            c.target_ids
  unfolding remaining_targets
  promote-HasKey request s f ok =
      let (c, found) = found_campaign request s ok in
      let (complete, same) = promotable request s c found ok in
      let js = jobs_for_deployment tc c.id s in
      let rest = remaining_targets js c in
      let after = (promote_rest lib queueing calls tc c rest s).1.contents.jobs in
      let done =
        promote_rest-HasKey c rest s f (ap (λ (h : Handled). h.0.status) (sym same) ∙ ok) in
      let held : All (HasJob tc c s.contents.jobs after) rest =
        All-map String (λ d. HasKey tc (update_key c d) after) (HasJob tc c s.contents.jobs after)
          rest (λ d. HasJob-intro tc c s.contents.jobs after d (promote_rest-AreOwn c rest s))
          done in
      (
        c,
        found,
        complete,
        All-split String
            (HasJob tc c s.contents.jobs (promote lib queueing calls tc request s).1.contents.jobs)
            (has_job js) c.target_ids
            (subst (λ (h : Handled). All (HasJob tc c s.contents.jobs h.1.contents.jobs) rest)
              (sym same) held),
      )
