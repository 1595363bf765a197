-- ===== src/Cloud/Store/Tokens.antt =====
-- The enrollment-token operations of cloud-infra/internal/storage/store.go.
pub mod Use
use soul_room_edge_platform.Base.{
  ℕ, zero, suc, String, Bool, true, false, ◌&&◌, ◌||◌, not, Option, none, some, List, [], ◌∷◌, ◌==◌,
  ◌!=◌, map, if◌then◌else◌,
}
use soul_room_edge_platform.Base.Int.{ℤ, pos, negsuc, leb_ℤ}
use soul_room_edge_platform.Base.Lists.{filter}
use soul_room_edge_platform.Base.Dict.{Dict, lookup, insert, values}
use soul_room_edge_platform.Cloud.Model.{TenantContext, Time, EnrollmentToken}
use soul_room_edge_platform.Cloud.Store.{
  StoreError, not_found, tenant_mismatch, Store, Env, Reply, refuse, answer_saved, new_id, is_after,
  is_zero,
}

abbrev pub with_tokens : Store → Dict EnrollmentToken → Store
with_tokens s ts = record s { contents = record s.contents { enrollment_tokens = ts } }

-- `if token.MaxDevices == 0 { token.MaxDevices = 1 }`
abbrev pub at_least_one : ℤ → ℤ
at_least_one (pos zero) = pos 1
at_least_one n = n

unfoldable pub create_enrollment_token :
    Env → TenantContext → EnrollmentToken → Store → Reply EnrollmentToken
create_enrollment_token env tc token s =
    let t = record token {
      id = new_id "enr" (env.random 0);
      tenant_id = tc.tenant_id;
      created_by = tc.actor_id;
      created_at = env.now 0;
      max_devices = at_least_one token.max_devices;
    } in
    answer_saved env.disk t (with_tokens s (insert t.id t s.contents.enrollment_tokens))

abbrev pub redact : EnrollmentToken → EnrollmentToken
redact token = record token { token_hash = ""; plain_token = "" }

unfoldable pub list_enrollment_tokens :
    ((EnrollmentToken → EnrollmentToken → Bool) → List EnrollmentToken → List EnrollmentToken)
    → TenantContext
    → Store
    → List EnrollmentToken
list_enrollment_tokens sort tc s =
    sort (λ a b. is_after a.created_at b.created_at)
      (map redact (filter (λ t. t.tenant_id == tc.tenant_id) (values s.contents.enrollment_tokens)))

-- the first token with the hash, in the order of the visit, with its key
unfoldable pub find_token :
    String → List String → Dict EnrollmentToken → Option (String × EnrollmentToken)
find_token token_hash [] ts = none
find_token token_hash (id ∷ ids) ts = elim (lookup id ts) [
  | none ↦ find_token token_hash ids ts
  | some t ↦ elim (t.token_hash != token_hash) [
    | true ↦ find_token token_hash ids ts
    | false ↦ some (id, t)
  ]
]

-- revoked, past its expiry, or used up
abbrev pub is_spent : Time → EnrollmentToken → Bool
is_spent now t =
    not (is_zero t.revoked_at)
    || is_after now t.expires_at
    || leb_ℤ t.max_devices (pos t.used_count)

abbrev pub is_mismatch : String → String → Bool
is_mismatch expected value = expected != "" && expected != value

unfoldable pub consume_enrollment_token :
    Env → String → String → String → Store → Reply EnrollmentToken
consume_enrollment_token env token_hash serial product s =
    elim (find_token token_hash env.order s.contents.enrollment_tokens) [
      | none ↦ refuse not_found s
      | some (id, t) ↦
          if is_spent (env.now 0) t
          then refuse not_found s
          else if is_mismatch t.expected_serial serial
          then refuse tenant_mismatch s
          else if is_mismatch t.expected_product product
          then refuse tenant_mismatch s
          else (let t' = record t { used_count = suc t.used_count } in
              answer_saved env.disk t' (with_tokens s (insert id t' s.contents.enrollment_tokens)))
    ]
