-- ===== src/Cloud/Store/Accounts.antt =====
-- The user, membership and session operations of cloud-infra/internal/storage/store.go.
pub mod Rollback
use soul_room_edge_platform.Base.{
  String, ◌<>◌, Bool, true, false, ◌&&◌, ◌||◌, not, Option, none, some, List, [], ◌∷◌, ◌++◌, ◌==◌,
  if◌then◌else◌, ltb, eqb,
}
use soul_room_edge_platform.Base.Lists.{length, filter, any}
use soul_room_edge_platform.Base.Dict.{Dict, lookup, insert, erase, values}
use soul_room_edge_platform.Cloud.Model.{
  TenantContext, Time, Organization, User, Membership, Session, PlatformSettings, AiConfiguration,
}
use soul_room_edge_platform.Cloud.Store.{
  StoreError, not_found, duplicate, Store, Env, Disk, Reply, refuse, answer, answer_saved,
  save_locked, new_id, is_after, is_zero, string_less,
}
use soul_room_edge_platform.Cloud.Store.Organizations.{with_users, with_members, new_user}

abbrev pub has_email : String → List User → Bool
has_email email = any (λ u. u.email == email)

unfoldable pub create_user : Env → String → String → Store → Reply User
create_user env email password_hash s =
    if has_email email (values s.contents.users)
    then refuse duplicate s
    else (let u =
          new_user (new_id "usr" (env.random 0)) email password_hash "" (env.now 0) (env.now 1) in
        answer_saved env.disk u (with_users s (insert u.id u s.contents.users)))

-- `s[:len(s)-1]`
abbrev pub drop_last {ℓ} : {A : Type ℓ} → List A → List A
drop_last [] = []
drop_last (x ∷ []) = []
drop_last (x ∷ y ∷ xs) = x ∷ drop_last (y ∷ xs)

unfoldable pub create_tenant_user :
    Env → TenantContext → String → String → String → Store → Reply User
create_tenant_user env tc email password_hash role s =
    if has_email email (values s.contents.users)
    then refuse duplicate s
    else (let u =
          new_user (new_id "usr" (env.random 0)) email password_hash role (env.now 0) (env.now 0) in
        let member : Membership = record {
          tenant_id = tc.tenant_id;
          user_id = u.id;
          role = role;
        } in
        let written =
          with_members s (insert u.id u s.contents.users)
            (s.contents.memberships ++ (member ∷ [])) in
        let (failed, saved) = save_locked env.disk written in
        elim failed [
          | none ↦ answer (record u { password_hash = "" }) saved
          | some e ↦ refuse e (
              with_members saved (erase u.id saved.contents.users)
                (drop_last saved.contents.memberships))
        ])

-- the first user with the email, in the order of the visit, with its key
unfoldable pub find_by_email : String → List String → Dict User → Option (String × User)
find_by_email email [] us = none
find_by_email email (id ∷ ids) us = elim (lookup id us) [
  | none ↦ find_by_email email ids us
  | some u ↦ elim (u.email == email) [ true ↦ some (id, u) | false ↦ find_by_email email ids us ]
]

unfoldable pub upsert_user_password : Env → String → String → Store → Reply User
upsert_user_password env email password_hash s =
    elim (find_by_email email env.order s.contents.users) [
      | some (id, u) ↦
          let u' = record u {
            password_hash = password_hash;
            activated_at = env.now 0;
            locked_until = 0;
            failed_login_count = 0;
          } in
          answer_saved env.disk u' (with_users s (insert id u' s.contents.users))
      | none ↦
          let u =
            new_user (new_id "usr" (env.random 0)) email password_hash "" (env.now 0) (env.now 1) in
          answer_saved env.disk u (with_users s (insert u.id u s.contents.users))
    ]

unfoldable pub find_user_by_email : List String → String → Store → Option User × Option StoreError
find_user_by_email order email s = elim (find_by_email email order s.contents.users) [
  | some (id, u) ↦ (some u, none)
  | none ↦ (none, some not_found)
]

unfoldable pub add_membership : Env → Membership → Store → Option StoreError × Store
add_membership env m s =
    if any (λ e. e.tenant_id == m.tenant_id && e.user_id == m.user_id) s.contents.memberships
    then (some duplicate, s)
    else save_locked env.disk (with_members s s.contents.users (s.contents.memberships ++ (m ∷ [])))

-- `Memberships(userID)`
unfoldable pub memberships_of : String → Store → List Membership
memberships_of user_id s = filter (λ m. m.user_id == user_id) s.contents.memberships

-- the map `roles` of `ListUsers`: a later membership replaces an earlier one
unfoldable pub roles_in : TenantContext → List Membership → Dict String → Dict String
roles_in tc [] roles = roles
roles_in tc (m ∷ ms) roles =
    roles_in tc ms (if m.tenant_id == tc.tenant_id then insert m.user_id m.role roles else roles)

unfoldable pub visible_users : Dict String → Dict User → List User
visible_users roles [] = []
visible_users roles ((id, user) ∷ us) =
    let rest = visible_users roles us in
    elim (lookup id roles) [
      | none ↦ rest
      | some role ↦ record user { password_hash = ""; role = role } ∷ rest
    ]

unfoldable pub list_users :
    ((User → User → Bool) → List User → List User) → TenantContext → Store → List User
list_users sort tc s =
    sort (λ a b. string_less a.email b.email)
      (visible_users (roles_in tc s.contents.memberships []) s.contents.users)

unfoldable pub save_session : Env → Session → Store → Option StoreError × Store
save_session env session s = save_locked env.disk (record s {
  contents = record s.contents { sessions = insert session.token_hash session s.contents.sessions };
})

-- `hash` is `auth.HashToken`.
unfoldable pub session_by_token :
    (hash : String → String) → Time → String → Store → Option Session × Option StoreError
session_by_token hash now token s = elim (lookup (hash token) s.contents.sessions) [
  | none ↦ (none, some not_found)
  | some session ↦
      if not (is_zero session.revoked_at) || is_after now session.expires_at
      then (none, some not_found)
      else (some session, none)
]
