-- ===== src/Cloud/Server/Assistant/Approved.antt =====
-- What must hold for an action of the assistant to become a job.
use soul_room_edge_platform.Base.{
  ℕ, ◌≤◌, String, ◌≡◌, ◌≢◌, inl, inr, refl, sym, ap, subst, ◌∙◌, true, ◌||◌, none, some, [], ◌∷◌,
  ◌!=◌, arith, Bool-cases, Option-cases,
}
use soul_room_edge_platform.Base.Int.{scale}
use soul_room_edge_platform.Cloud.Model.{TenantContext, Time, Device, Job}
use soul_room_edge_platform.Cloud.Rbac.{Permission, authorize}
use soul_room_edge_platform.Cloud.Store.{Store, Env, is_after}
use soul_room_edge_platform.Cloud.Store.Devices.{get_device}
use soul_room_edge_platform.Cloud.Store.Jobs.{create_job}
use soul_room_edge_platform.Cloud.Server.{
  Outcome, failure, success, Library, Request, Handled, Calls,
}
use soul_room_edge_platform.Cloud.Server.Settings.{Config, effective_platform_settings}
use soul_room_edge_platform.Cloud.Server.Accounts.{minute}
use soul_room_edge_platform.Cloud.Server.Work.{new_job}
use soul_room_edge_platform.Cloud.Server.Pilot.{HasKey, create_job-HasKey}
use soul_room_edge_platform.Cloud.Server.Pilot.Queueing.{Outcome-cases}
use soul_room_edge_platform.Cloud.Server.Pilot.Promotion.{record_event-jobs}
use soul_room_edge_platform.Cloud.Server.Assistant.{
  Approval, Cipher, open_json, ai_job_permission, device_supports_ai_job, may_run, approval_key,
  finish_action, run_approved, refuse_approval, approve, ai_action,
}

-- An approval that the user of the context may use: it was sealed for the tenant and the user, is
-- not expired, and names a kind of job that the user has the permission to run and that the device
-- of the tenant supports.
pub record IsApproved (tc : TenantContext) (now : Time) (s : Store) (approval : Approval)
    (d : Device) (p : Permission) : Type 0 where
  pub tenant : approval.tenant_id ≡ tc.tenant_id
  pub actor : approval.actor_id ≡ tc.actor_id
  pub live : now ≤ approval.expires_at
  pub kind : ai_job_permission approval.job_type ≡ some p
  pub authorized : authorize (some tc) p ≡ none
  pub device : (get_device tc approval.device_id s).0 ≡ some d
  pub supported : device_supports_ai_job d approval.job_type ≡ true

permission_cases :
    (tc : TenantContext) (job_type : String)
    → may_run tc job_type ≡ true
    → (p : Permission) × (ai_job_permission job_type ≡ some p) × (authorize (some tc) p ≡ none)
permission_cases tc job_type h = elim (Option-cases (ai_job_permission job_type)) [
  | inl e ↦ absurd (ground arith)
  | inr (p, e) ↦ elim (Option-cases (authorize (some tc) p)) [
    | inl ok ↦ (p, e, ok)
    | inr (x, bad) ↦ absurd (ground arith)
  ]
]

module _ (lib : Library) (box : Cipher) (tc : TenantContext) where
  IsApproved-cases :
      (now : Time) (approval : Approval) (s : Store)
      → refuse_approval lib box tc now approval s ≡ none
      → (d : Device) × (p : Permission) × IsApproved tc now s approval d p
  unfolding refuse_approval
  IsApproved-cases now approval s ok =
      elim (Bool-cases (
        approval.tenant_id != tc.tenant_id
        || approval.actor_id != tc.actor_id
        || is_after now approval.expires_at)) [
          | inl foreign ↦ absurd (ground arith)
          | inr own ↦ elim (Bool-cases (may_run tc approval.job_type)) [
            | inr forbidden ↦ absurd (ground arith)
            | inl allowed ↦ elim (Option-cases (get_device tc approval.device_id s).0) [
              | inl missing ↦ absurd (ground arith)
              | inr (d, found) ↦
                  let (p, kind, authorized) = permission_cases tc approval.job_type allowed in
                  (
                    d,
                    p,
                    record {
                      tenant = ground arith;
                      actor = ground arith;
                      live = ground arith;
                      kind = kind;
                      authorized = authorized;
                      device = found;
                      supported = ground arith;
                    },
                  )
            ]
          ]
        ]

  finish_action-HasKey :
      (env env' : Env) (job : Job) (s : Store)
      → (finish_action lib box tc env (create_job env' tc job s)).0.status ≡ 201
      → HasKey tc job.idempotency_key
          (finish_action lib box tc env (create_job env' tc job s)).1.contents.jobs
  unfolding finish_action
  finish_action-HasKey env env' job s ok =
      let reply = create_job env' tc job s in
      elim (Option-cases reply.error) [
        | inr (x, failed) ↦ absurd (ground arith)
        | inl fine ↦ elim (Option-cases reply.value) [
          | inl missing ↦ absurd (ground arith)
          | inr (created, value) ↦
              subst (HasKey tc job.idempotency_key)
                (rw (finish_action, fine, value)
                  (sym (
                    record_event-jobs lib env tc "ai.action.approved" "job" created.id
                      (some (("device_id", created.device_id) ∷ ("type", created.job_type) ∷ []))
                      reply.store)))
                (create_job-HasKey env' tc job s fine)
        ]
      ]

  run_approved-HasKey :
      (cfg : Config) (calls : Calls) (token : String) (approval : Approval) (s : Store)
      → (run_approved lib box tc cfg calls token approval s).0.status ≡ 201
      → HasKey tc
          (approval_key lib box tc token)
          (run_approved lib box tc cfg calls token approval s).1.contents.jobs
  unfolding run_approved
  run_approved-HasKey cfg calls token approval s ok =
      let minutes = (effective_platform_settings cfg tc s).0.default_job_ttl_minutes in
      let payload =
        lib.marshal_texts
          (some (("requested_from", "ai_assistant") ∷ ("approved_by", tc.actor_id) ∷ [])) in
      let drafted =
        new_job lib ((calls 0).now 1) approval.device_id approval.job_type payload tc.actor_id
          (scale minutes minute) in
      elim (Outcome-cases Job drafted) [
        | inl (message, bad) ↦ absurd (ground arith)
        | inr (job, good) ↦
            let keyed = record job { idempotency_key = approval_key lib box tc token } in
            let same : run_approved lib box tc cfg calls token approval s
                ≡ finish_action lib box tc (calls 2) (create_job (calls 1) tc keyed s) =
              rw (run_approved, good) refl in
            subst (λ (h : Handled). HasKey tc (approval_key lib box tc token) h.1.contents.jobs)
              (sym same)
              (finish_action-HasKey (calls 2) (calls 1) keyed s
                (ap (λ (h : Handled). h.0.status) (sym same) ∙ ok))
      ]

  refusal_status :
      (now : Time) (approval : Approval) (s : Store) (x : ℕ × String × String)
      → refuse_approval lib box tc now approval s ≡ some x
      → x.0 ≢ 201
  unfolding refuse_approval
  refusal_status now approval s x e is = ground arith

  -- An action that is answered 201 comes from a token that opens, for the purpose of actions, as
  -- an approval of this user in this tenant; it is not expired, names a job that the user may
  -- still run on a device that the tenant still has and that supports the job, and afterwards the
  -- tenant has a job under the key of the token.
  pub ai_action-IsApproved :
      (cfg : Config) (calls : Calls) (req : Request) (body : Outcome String) (s : Store)
      → (ai_action lib box tc cfg calls req body s).0.status ≡ 201
      → (token : String) × (approval : Approval) × (d : Device) × (p : Permission) × (body
          ≡ success token)
        × (open_json box token "ai-action" ≡ success approval)
        × IsApproved tc ((calls 0).now 0) s approval d p
        × HasKey tc
            (approval_key lib box tc token)
            (ai_action lib box tc cfg calls req body s).1.contents.jobs
  unfolding ai_action approve
  ai_action-IsApproved cfg calls req (failure message) s ok = absurd (ground arith)
  ai_action-IsApproved cfg calls req (success token) s ok =
      elim (Outcome-cases Approval (open_json box token "ai-action")) [
        | inl (message, bad) ↦ absurd (ground arith)
        | inr (approval, opened) ↦
            elim (Option-cases (refuse_approval lib box tc ((calls 0).now 0) approval s)) [
              | inr (x, refused) ↦
                  absurd (ground (arith, refusal_status ((calls 0).now 0) approval s x refused))
              | inl passed ↦
                  let (d, p, approved) = IsApproved-cases ((calls 0).now 0) approval s passed in
                  let same : ai_action lib box tc cfg calls req (success token) s
                      ≡ run_approved lib box tc cfg calls token approval s =
                    ground arith in
                  (
                    token,
                    approval,
                    d,
                    p,
                    refl,
                    opened,
                    approved,
                    subst
                        (λ (h : Handled).
                          HasKey tc (approval_key lib box tc token) h.1.contents.jobs)
                        (sym same)
                        (run_approved-HasKey cfg calls token approval s
                          (ap (λ (h : Handled). h.0.status) (sym same) ∙ ok)),
                  )
            ]
      ]
