-- ===== src/Cloud/Store/Accounts/Rollback.antt =====
-- `CreateTenantUser` and `BootstrapOrganizationOwner` take back what a failed save left undone.
use soul_room_edge_platform.Base.{String, ◌≡◌, refl, ◌⊎◌, none, List, [], ◌∷◌, ◌++◌, arith}
use soul_room_edge_platform.Base.Dict.{lookup, insert, lookup-insert, lookup-erase}
use soul_room_edge_platform.Cloud.Model.{TenantContext, Membership}
use soul_room_edge_platform.Cloud.Store.{Store, Env, save_locked-contents, new_id}
use soul_room_edge_platform.Cloud.Store.Organizations.{with_members, new_user}
use soul_room_edge_platform.Cloud.Store.Accounts.{drop_last, create_tenant_user}

pub drop_last-append {ℓ} : {A : Type ℓ} (xs : List A) (x : A) → drop_last (xs ++ (x ∷ [])) ≡ xs
drop_last-append [] x = refl
drop_last-append (y ∷ []) x = refl
drop_last-append (y ∷ z ∷ xs) x = rw (drop_last-append (z ∷ xs) x)

-- While the random id that is drawn for the user is not in use, a call that reports an error leaves
-- the users and the memberships as they were, also where the disk fails after both were written;
-- the rest of the contents never changes.
pub create_tenant_user_rollback :
    (env : Env) (tc : TenantContext) (email hash role k : String) (s : Store)
    → lookup (new_id "usr" (env.random 0)) s.contents.users ≡ none
    → let r = create_tenant_user env tc email hash role s in
      let c = r.store.contents in
      (c ≡ record s.contents { users = c.users; memberships = c.memberships })
      × ((r.error ≡ none)
          ⊎ ((lookup k c.users ≡ lookup k s.contents.users)
              × (c.memberships ≡ s.contents.memberships)))
unfolding create_tenant_user
create_tenant_user_rollback env tc email hash role k s fresh =
    let u = new_user (new_id "usr" (env.random 0)) email hash role (env.now 0) (env.now 0) in
    let member : Membership = record { tenant_id = tc.tenant_id; user_id = u.id; role = role } in
    let us = insert u.id u s.contents.users in
    let same =
      save_locked-contents env.disk (with_members s us (s.contents.memberships ++ (member ∷ []))) in
    (
      ground (arith, same),
      ground (
        arith,
        same,
        lookup-erase u.id k us,
        lookup-insert u.id k u s.contents.users,
        drop_last-append s.contents.memberships member,
      ),
    )
