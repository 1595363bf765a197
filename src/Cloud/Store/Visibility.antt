-- ===== src/Cloud/Store/Visibility.antt =====
-- What the operations that list a part of the store show to a tenant.
use soul_room_edge_platform.Base.{String, ◌≡◌, refl, Bool, ◌&&◌, List, [], ◌∷◌, ◌==◌, map, arith}
use soul_room_edge_platform.Base.Lists.{All, filter}
use soul_room_edge_platform.Base.Dict.{Dict, values}
use soul_room_edge_platform.Cloud.Model.{
  TenantContext, Job, Device, DownstreamDevice, Campaign, Artifact, EnrollmentToken, User,
}
use soul_room_edge_platform.Cloud.Store.{Store}
use soul_room_edge_platform.Cloud.Store.Jobs.{list_jobs}
use soul_room_edge_platform.Cloud.Store.Devices.{list_devices, list_downstream}
use soul_room_edge_platform.Cloud.Store.Campaigns.{list_ota_campaigns, list_artifacts, list_audit}
use soul_room_edge_platform.Cloud.Store.Tokens.{redact, list_enrollment_tokens}
use soul_room_edge_platform.Cloud.Store.Accounts.{roles_in, visible_users, list_users}

module _ {A : Type 0} (tenant_of : A → String) (tenant : String) where
  own_filtered :
      (xs : List A) → All (λ x. tenant_of x ≡ tenant) (filter (λ x. tenant_of x == tenant) xs)
  own_filtered [] = tt
  own_filtered (x ∷ xs) = ground (arith, own_filtered xs)

  own_both :
      (p : A → Bool) (xs : List A)
      → All (λ x. tenant_of x ≡ tenant) (filter (λ x. tenant_of x == tenant && p x) xs)
  own_both p [] = tt
  own_both p (x ∷ xs) = ground (arith, own_both p xs)

-- A token of the tenant, without its secrets.
abbrev pub IsRedacted : String → EnrollmentToken → Type 0
IsRedacted tenant t = (t.tenant_id ≡ tenant) × (t.token_hash ≡ "") × (t.plain_token ≡ "")

redacted :
    (tenant : String) (ts : List EnrollmentToken)
    → All (λ t. t.tenant_id ≡ tenant) ts
    → All (IsRedacted tenant) (map redact ts)
redacted tenant [] h = tt
redacted tenant (t ∷ ts) h = ((h.0, refl, refl), redacted tenant ts h.1)

without_hashes :
    (roles : Dict String) (us : Dict User)
    → All (λ u. u.password_hash ≡ "") (visible_users roles us)
unfolding visible_users
without_hashes roles [] = tt
without_hashes roles ((id, u) ∷ us) = ground (arith, without_hashes roles us)

-- `sort` stands for `sort.Slice`; its elements are those of its argument.
module _ (sort : (A : Type 0) → (A → A → Bool) → List A → List A)
    (sort_keeps : (A : Type 0) (less : A → A → Bool) (P : A → Type 0) (xs : List A)
      → All P xs
      → All P (sort A less xs))
    (tc : TenantContext) (s : Store) where
  -- Jobs, devices, downstream devices, campaigns, artifacts, enrollment tokens and audit events
  -- are listed only to their own tenant, the tokens without their secrets; users are listed without
  -- the hash of their password.
  pub lists_own :
      All (λ job. job.tenant_id ≡ tc.tenant_id) (list_jobs (sort Job) tc s)
      × All (λ d. d.tenant_id ≡ tc.tenant_id) (list_devices (sort Device) tc s)
      × All (λ d. d.tenant_id ≡ tc.tenant_id) (list_downstream (sort DownstreamDevice) tc s)
      × All (λ c. c.tenant_id ≡ tc.tenant_id) (list_ota_campaigns (sort Campaign) tc s)
      × All (λ a. a.tenant_id ≡ tc.tenant_id) (list_artifacts (sort Artifact) tc s)
      × All (IsRedacted tc.tenant_id) (list_enrollment_tokens (sort EnrollmentToken) tc s)
      × All (λ e. e.tenant_id ≡ tc.tenant_id) (list_audit tc s)
      × All (λ u. u.password_hash ≡ "") (list_users (sort User) tc s)
  unfolding list_jobs list_devices list_downstream list_ota_campaigns list_artifacts
      list_enrollment_tokens list_audit list_users
  lists_own =
      let c = s.contents in
      let t = tc.tenant_id in
      (
        sort_keeps _ _ _ _ (own_filtered (λ x. x.tenant_id) t (values c.jobs)),
        sort_keeps _ _ _ _ (own_filtered (λ x. x.tenant_id) t (values c.devices)),
        sort_keeps _ _ _ _ (own_filtered (λ x. x.tenant_id) t (values c.downstream)),
        sort_keeps _ _ _ _ (own_filtered (λ x. x.tenant_id) t (values c.ota_campaigns)),
        sort_keeps _ _ _ _ (own_filtered (λ x. x.tenant_id) t (values c.artifacts)),
        sort_keeps _ _ _ _
            (redacted t _ (own_filtered (λ x. x.tenant_id) t (values c.enrollment_tokens))),
        own_filtered (λ x. x.tenant_id) t c.audit,
        sort_keeps _ _ _ _ (without_hashes (roles_in tc c.memberships []) c.users),
      )
