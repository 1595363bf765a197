-- ===== src/Cloud/Server/Rollout.antt =====
-- The handlers of OTA campaigns in cloud-infra/internal/server/server.go. The number of pilot
-- devices is `math.Ceil` of a quotient of floats; while the number of targets is below 2^40 the
-- floats are exact enough that it is the quotient of integers, rounded up.
use soul_room_edge_platform.Base.{
  ℕ, suc, ◌+◌, ◌*◌, ◌/◌, String, ◌<>◌, Bool, ◌&&◌, ◌||◌, not, Option, none, some, List, [], ◌∷◌,
  ◌==◌, ◌!=◌, if◌then◌else◌, ltb,
}
use soul_room_edge_platform.Base.Int.{ℤ, pos, negsuc}
use soul_room_edge_platform.Base.Dict.{Dict}
use soul_room_edge_platform.Base.Lists.{length, filter, any, take}
use soul_room_edge_platform.Cloud.Model.{TenantContext, Json, Device, Job, Campaign}
use soul_room_edge_platform.Cloud.Rbac.{deployment_create, deployment_approve}
use soul_room_edge_platform.Cloud.Store.{Store}
use soul_room_edge_platform.Cloud.Store.Jobs.{create_job, jobs_for_deployment}
use soul_room_edge_platform.Cloud.Store.Devices.{get_device}
use soul_room_edge_platform.Cloud.Store.Campaigns.{
  create_ota_campaign, get_ota_campaign, update_ota_campaign, list_ota_campaigns,
}
use soul_room_edge_platform.Cloud.Server.{
  Outcome, failure, success, PayloadValue, text, number, texts, Library, Request, campaigns_body,
  campaign_body, Handled, Calls, write_json, error_json, method_not_allowed, bool_string,
  error_text, guarded, with_body, record_event,
}
use soul_room_edge_platform.Cloud.Server.Accounts.{hour}
use soul_room_edge_platform.Cloud.Server.Work.{new_job}
use soul_room_edge_platform.Cloud.Server.Metadata.{validate_metadata}

-- the text of `campaign` that goes to the devices
unfoldable pub campaign_payload : Campaign → Dict PayloadValue
campaign_payload c =
    ("update_id", text c.id)
    ∷ ("adapter", text c.adapter)
    ∷ ("version", text c.version)
    ∷ ("product", text c.product)
    ∷ ("architecture", text c.architecture)
    ∷ ("artifact_url", text c.artifact_url)
    ∷ ("artifact_size", number c.artifact_size)
    ∷ ("digest", text c.digest)
    ∷ ("signature", text c.signature)
    ∷ ("signing_key_id", text c.signing_key_id)
    ∷ ("compatible_from", texts c.compatible_from)
    ∷ ("flatpak_ref", text c.flatpak_ref)
    ∷ ("flatpak_remote", text c.flatpak_remote)
    ∷ ("flatpak_commit", text c.flatpak_commit)
    ∷ ("repository_url", text c.flatpak_repository_url)
    ∷ ("ostree_remote", text c.ostree_remote)
    ∷ ("ostree_ref", text c.ostree_ref)
    ∷ ("ostree_commit", text c.ostree_commit)
    ∷ ("ostree_os", text c.ostree_os)
    ∷ []

abbrev pub contains_string : List String → String → Bool
contains_string values wanted = any (λ value. value == wanted) values

-- `canaryCount`: at least one device
unfoldable pub canary_count : ℕ → ℤ → ℕ
canary_count targets (negsuc _) = 1
canary_count targets (pos percent) =
    let n = (targets * percent + 99) / 100 in if ltb n 1 then 1 else n

abbrev pub update_job : Campaign → String → Job → Job
update_job c device_id job = record job {
  deployment_id = c.id;
  timeout_seconds = pos 7200;
  idempotency_key = c.id <> ":" <> device_id;
}

-- `existing` and the loop of `promoteOTACampaign`: the targets that have no job
abbrev pub has_job : List Job → String → Bool
has_job js device_id = any (λ job. job.device_id == device_id) js

unfoldable pub remaining_targets : List Job → Campaign → List String
remaining_targets js c = filter (λ device_id. not (has_job js device_id)) c.target_ids

pub record PromoteRequest : Type 0 where
  pub campaign_id : String
  pub action : String

-- What `queueOTAJobs` returns: the jobs created, the text of the error, and the store.
pub record Queued : Type 0 where
  pub created : ℕ
  pub error : Option String
  pub store : Store

module _ (lib : Library) where
  unfoldable pub canonical_architecture : String → String
  canonical_architecture value =
      let v = lib.to_lower (lib.trim_space value) in
      if v == "arm64" || v == "aarch64"
      then "arm64"
      else if v == "arm" || v == "armv7" || v == "armv7l" || v == "armhf"
      then "armv7"
      else if v == "amd64" || v == "x86_64"
      then "amd64"
      else v

  -- the loop of `queueOTAJobs`; its turn `i` makes the call `i`
  unfoldable pub queue_jobs :
      Calls → ℕ → TenantContext → Campaign → Json → List String → Store → Queued
  queue_jobs calls i tc c payload [] s = record { created = i; error = none; store = s }
  queue_jobs calls i tc c payload (device_id ∷ ids) s =
      elim (new_job lib ((calls i).now 1) device_id "ota_update" payload tc.actor_id
        (pos (24 * hour))) [
          | failure message ↦ record { created = i; error = some message; store = s }
          | success job ↦
              let reply = create_job (calls i) tc (update_job c device_id job) s in
              elim reply.error [
                | some e ↦ record { created = i; error = some (error_text e); store = reply.store }
                | none ↦ queue_jobs calls (suc i) tc c payload ids reply.store
              ]
        ]

  unfoldable pub queue_ota_jobs : Calls → TenantContext → Campaign → List String → Store → Queued
  queue_ota_jobs calls tc c device_ids s = elim (lib.marshal_payload (campaign_payload c)) [
    | failure message ↦ record { created = 0; error = some message; store = s }
    | success payload ↦ queue_jobs calls 0 tc c payload device_ids s
  ]

  abbrev pub is_incompatible : Campaign → Device → Bool
  is_incompatible c d =
      c.architecture != ""
      && d.architecture != ""
      && canonical_architecture c.architecture != canonical_architecture d.architecture

  -- the loop over the targets of a new campaign: the code and the text of the first refusal
  unfoldable pub check_targets :
      TenantContext → Campaign → List String → Store → Option (String × String)
  check_targets tc c [] s = none
  check_targets tc c (device_id ∷ ids) s =
      let rest = check_targets tc c ids s in
      elim (get_device tc device_id s).0 [
        | none ↦ some ("invalid_target", "campaign contains an unknown device")
        | some d ↦
            if is_incompatible c d
            then some ("incompatible_target", "campaign architecture does not match every target")
            else if not (contains_string d.capabilities ("ota:" <> c.adapter))
            then some (
              "incompatible_target",
              "every target must report support for the selected OTA adapter",
            )
            else rest
      ]

  -- The calls of a handler that come after those of `queueOTAJobs`.
  module _ (queueing calls : Calls) (tc : TenantContext) where
    -- the last steps: the campaign with its new state, and the event
    unfoldable pub finish_rollout : ℕ → String → Option (Dict String) → Campaign → Store → Handled
    finish_rollout status action summary c s =
        let (failed, updated) = update_ota_campaign (calls 1) tc c s in
        elim failed [
          | some e ↦ error_json 500 "campaign_update_failed" (error_text e) updated
          | none ↦
              write_json status (campaign_body c)
                (record_event lib (calls 2) tc action "ota_campaign" c.id summary updated)
        ]

    -- `TargetIDs[:canaryCount]` is in range for a campaign that passed the validation.
    unfoldable pub start_pilot : Campaign → Store → Handled
    start_pilot c s =
        let targets = length c.target_ids in
        let pilots = canary_count targets c.canary_percent in
        let queued = queue_ota_jobs queueing tc c (take pilots c.target_ids) s in
        elim queued.error [
          | some message ↦
              error_json 500 "ota_queue_failed" message
                (update_ota_campaign (calls 1) tc (record c { state = "failed" }) queued.store).1
          | none ↦
              let state = if ltb pilots targets then "canary_queued" else "queued" in
              finish_rollout 201 "ota_campaign.created"
                (some (("adapter", c.adapter) ∷ ("targets", bool_string (ltb 0 targets)) ∷ []))
                (record c { state = state }) queued.store
        ]

    unfoldable pub create_campaign : Campaign → Store → Handled
    create_campaign campaign s = elim (validate_metadata lib campaign) [
      | some message ↦ error_json 400 "invalid_campaign" message s
      | none ↦ elim (check_targets tc campaign campaign.target_ids s) [
        | some (code, message) ↦ error_json 400 code message s
        | none ↦
            let reply =
              create_ota_campaign (calls 0) tc
                (record campaign { created_by = tc.actor_id; state = "ready" }) s in
            elim reply.error [
              | some e ↦ error_json 400 "campaign_error" (error_text e) reply.store
              | none ↦ elim reply.value [
                | none ↦ error_json 400 "campaign_error" "" reply.store
                | some created ↦ start_pilot created reply.store
              ]
            ]
      ]
    ]

    -- the remaining jobs of a campaign whose pilot group is complete
    unfoldable pub promote_rest : Campaign → List String → Store → Handled
    promote_rest c [] s =
        error_json 409 "campaign_already_promoted" "all campaign targets already have an update job"
          s
    promote_rest c (device_id ∷ ids) s =
        let queued = queue_ota_jobs queueing tc c (device_id ∷ ids) s in
        elim queued.error [
          | some message ↦ error_json 500 "ota_queue_failed" message queued.store
          | none ↦
              finish_rollout 200 "ota_campaign.promoted" (some (("targets", "true") ∷ []))
                (record c { state = "queued" }) queued.store
        ]

    unfoldable pub promote : PromoteRequest → Store → Handled
    promote request s = elim (get_ota_campaign tc request.campaign_id s).0 [
      | none ↦ error_json 404 "campaign_not_found" "campaign was not found" s
      | some c ↦
          if request.action != "promote" || c.state != "canary_complete"
          then error_json 409 "campaign_not_promotable"
              "only a completed pilot group can be promoted" s
          else promote_rest c (remaining_targets (jobs_for_deployment tc c.id s) c) s
    ]

    unfoldable pub promote_ota_campaign : Outcome PromoteRequest → Store → Handled
    promote_ota_campaign body s =
        guarded tc deployment_approve s (with_body body s (λ request. promote request s))

    -- `PATCH` and `POST` decode different bodies.
    unfoldable pub ota_campaigns :
        ((Campaign → Campaign → Bool) → List Campaign → List Campaign)
        → Request
        → Outcome PromoteRequest
        → Outcome Campaign
        → Store
        → Handled
    ota_campaigns sort req promotion creation s =
        if req.method == "GET"
        then write_json 200 (campaigns_body (list_ota_campaigns sort tc s)) s
        else if req.method == "PATCH"
        then promote_ota_campaign promotion s
        else if req.method != "POST"
        then method_not_allowed s
        else guarded tc deployment_create s
            (with_body creation s (λ campaign. create_campaign campaign s))
