-- ===== src/Onboarding/Owner.antt =====
-- Who opens a workspace may do everything in it: proofs about Onboarding.antt, Authorization.antt and
-- the permissions of roles together.
pub mod Counted
use tteeka.Prelude.{
  ℕ, ◌≡◌, refl, sym, ap, ◌∙◌, ◌⊎◌, inl, inr, Bool, true, false, not, Option, none, some, String,
  List, [], ◌∷◌, ◌++◌, map, ◌==◌, ◌&&◌, ◌||◌, any, any-append, length, arith, ==_iff, ==_refl,
  Bool-cases, Option-cases, if◌then◌else◌,
}
use tteeka.Prelude.Table.{find, filter, find-append_none}
use tteeka.Schema.{
  Db, Uuid, AccessTables, Merchant, MerchantStatus, Membership, MembershipStatus, Role, RoleStatus,
  MembershipRole, Permission, RolePermission, OnboardingCommand,
}
use tteeka.Store.{Env, ok, err}
use tteeka.Authorization.{
  Answer, ResolvedMerchantContext, is_membership_of, is_merchant, is_role, is_role_of,
  is_permission, is_permission_of_role, is_active_role, has_key, context_record, resolved_context,
  find_merchant_context, resolve, can_activate,
}
use tteeka.Authorization.Granted.{
  permission_grants, granted_by, role_grants, grants, resolve-grants,
}
use tteeka.AccessManagement.{new_membership_role}
use tteeka.AccessManagement.Roles.{assignable_permissions, new_role_permission}
use tteeka.AccessManagement.Permitted.{IsKeyed, is_active_key, any-created}
use tteeka.Onboarding.{
  Requests, OnboardingResult, workspace_result, new_merchant, owner_membership, owner_role,
  add_merchant, add_membership, write_workspace, create_workspace_graph,
}
use tteeka.Onboarding.Catalog.{application_permission_keys}
use Counted.{IsUniqueKeyed, every_key_active}

-- No row of the tables is of this merchant, whose identifier is new.
pub record IsUnused (m : Uuid) (t : AccessTables) : Type 0 where
  pub no_merchant : any (is_merchant m) t.merchants ≡ false
  pub no_member : any (λ (x : Membership). x.merchant_id == m) t.memberships ≡ false
  pub no_role : any (λ (x : Role). x.merchant_id == m) t.roles ≡ false
  pub no_assignment : any (λ (x : MembershipRole). x.merchant_id == m) t.membership_roles ≡ false
  pub no_permission : any (λ (x : RolePermission). x.merchant_id == m) t.role_permissions ≡ false

any-weaker :
    {A : Type 0} (p q : A → Bool) (xs : List A)
    → ((x : A) → p x ≡ true → q x ≡ true)
    → any q xs ≡ false
    → any p xs ≡ false
any-weaker p q [] k h = refl
any-weaker p q (x ∷ xs) k h = ground (arith, k x, h, any-weaker p q xs k)

pub find-weaker :
    {A : Type 0} (p q : A → Bool) (xs : List A)
    → ((x : A) → p x ≡ true → q x ≡ true)
    → any q xs ≡ false
    → find p xs ≡ none
unfolding find
find-weaker p q [] k h = refl
find-weaker p q (x ∷ xs) k h = ground (arith, k x, h, find-weaker p q xs k)

-- The workspace that was written.
pub record IsOpened (user_id : Uuid) (name : String) (t : AccessTables) (result : OnboardingResult)
    (t' : AccessTables) : Type 0 where
  pub merchant : Merchant
  pub membership : Membership
  pub role : Role
  pub merchants : t'.merchants ≡ t.merchants ++ merchant ∷ []
  pub memberships : t'.memberships ≡ t.memberships ++ membership ∷ []
  pub roles : t'.roles ≡ t.roles ++ role ∷ []
  pub assigned :
      t'.membership_roles
      ≡ t.membership_roles ++ new_membership_role merchant.id membership.id role.id ∷ []
  pub permitted :
      t'.role_permissions
      ≡ t.role_permissions
        ++ map
            (new_role_permission merchant.id role.id)
            (assignable_permissions application_permission_keys t.permissions)
  pub permissions : t'.permissions ≡ t.permissions
  pub users : t'.users ≡ t.users
  pub credentials : t'.credentials ≡ t.credentials
  pub sessions : t'.sessions ≡ t.sessions
  pub enough :
      length (assignable_permissions application_permission_keys t.permissions)
      ≡ length application_permission_keys
  pub named : merchant.display_name ≡ name
  pub merchant_active : merchant.status ≡ MerchantStatus.active
  pub of_merchant : membership.merchant_id ≡ merchant.id
  pub of_user : membership.user_id ≡ user_id
  pub member_active : membership.status ≡ MembershipStatus.active
  pub role_merchant : role.merchant_id ≡ merchant.id
  pub role_active : role.status ≡ RoleStatus.active
  pub answer : result ≡ workspace_result user_id merchant membership

-- It is there whatever commands are recorded.
pub with_commands-IsOpened :
    {user_id : Uuid} {name : String} {t : AccessTables} {result : OnboardingResult}
    {t' : AccessTables} (commands : List OnboardingCommand)
    → IsOpened user_id name t result t'
    → IsOpened user_id name t result (record t' { commands = commands })
with_commands-IsOpened commands w = record {
  merchant = w.merchant;
  membership = w.membership;
  role = w.role;
  merchants = w.merchants;
  memberships = w.memberships;
  roles = w.roles;
  assigned = w.assigned;
  permitted = w.permitted;
  permissions = w.permissions;
  users = w.users;
  credentials = w.credentials;
  sessions = w.sessions;
  enough = w.enough;
  named = w.named;
  merchant_active = w.merchant_active;
  of_merchant = w.of_merchant;
  of_user = w.of_user;
  member_active = w.member_active;
  role_merchant = w.role_merchant;
  role_active = w.role_active;
  answer = w.answer;
}

-- The rows that `write_workspace` adds.
module _ (env : Env) (requests : Requests) (user_id : Uuid) (name : String) (db : Db) where
  abbrev made_merchant : Merchant
  made_merchant = new_merchant env requests name db

  abbrev made_membership : Membership
  made_membership = owner_membership env made_merchant.id user_id (add_merchant made_merchant db)

  abbrev made_role : Role
  made_role =
      owner_role env made_merchant.id
        (add_membership made_membership (add_merchant made_merchant db))

  write_workspace-IsOpened :
      let found = assignable_permissions application_permission_keys db.access.permissions in
      length found ≡ length application_permission_keys
      → IsOpened user_id name db.access
          (workspace_result user_id made_merchant made_membership)
          (write_workspace env requests user_id name found db).1.access
  unfolding write_workspace
  write_workspace-IsOpened enough = record {
    merchant = made_merchant;
    membership = made_membership;
    role = made_role;
    merchants = refl;
    memberships = refl;
    roles = refl;
    assigned = refl;
    permitted = refl;
    permissions = refl;
    users = refl;
    credentials = refl;
    sessions = refl;
    enough = enough;
    named = refl;
    merchant_active = refl;
    of_merchant = refl;
    of_user = refl;
    member_active = refl;
    role_merchant = refl;
    role_active = refl;
    answer = refl;
  }

  write_workspace_lem :
      (permissions : List Permission)
      → (write_workspace env requests user_id name permissions db).0
        ≡ ok (workspace_result user_id made_merchant made_membership)
  unfolding write_workspace
  write_workspace_lem permissions = refl

pub create_workspace_graph-IsOpened :
    (env : Env) (requests : Requests) (user_id : Uuid) (name : String) (db : Db)
    {result : OnboardingResult} {db' : Db}
    → create_workspace_graph env requests user_id name db ≡ (ok result, db')
    → IsOpened user_id name db.access result db'.access × (result.merchant_id ≡ env.fresh_id db)
unfolding create_workspace_graph
create_workspace_graph-IsOpened env requests user_id name db {result} {db'} e =
    let found = assignable_permissions application_permission_keys db.access.permissions in
    elim (Bool-cases (length found == length application_permission_keys)) [
      | inr few ↦ absurd (ground (arith, few, e))
      | inl enough ↦
          let run : write_workspace env requests user_id name found db ≡ (ok result, db') =
            ground (arith, enough, e) in
          let same_db : (write_workspace env requests user_id name found db).1 ≡ db' =
            ap (λ r. r.1) run in
          let same : workspace_result user_id (made_merchant env requests user_id name db)
                (made_membership env requests user_id name db)
              ≡ result =
            ground (arith, write_workspace_lem env requests user_id name db found, run) in
          rw (← same, ← same_db)
            (
              write_workspace-IsOpened env requests user_id name db
                  ((==_iff (length found) (length application_permission_keys)).0 enough),
              refl,
            )
    ]

module _ (user_id : Uuid) (name : String) (t t' : AccessTables) (result : OnboardingResult)
    (w : IsOpened user_id name t result t') (unused : IsUnused w.merchant.id t) where
  role_found : find (is_role w.merchant.id w.role.id) t'.roles ≡ some w.role
  unfolding is_role
  role_found = rw w.roles (
      find-append_none (is_role w.merchant.id w.role.id) t.roles (w.role ∷ []) (
        find-weaker (is_role w.merchant.id w.role.id) (λ x. x.merchant_id == w.merchant.id) t.roles
          (λ x h. ground (arith, h)) unused.no_role)
      ∙ unfold find in ground (arith, w.role_merchant, ==_refl w.merchant.id, ==_refl w.role.id))

  role_grants_all :
      (k : String)
      → IsKeyed t.permissions t.permissions
      → role_grants w.merchant.id w.role.id k t'
        ≡ (has_key k application_permission_keys && is_active_key k t.permissions)
  unfolding role_grants
  role_grants_all k keyed =
      let m = w.merchant.id in
      let test = λ (x : RolePermission).
        is_permission_of_role m w.role.id x
        && permission_grants k (find (is_permission x.permission_id) t.permissions) in
      let before : any test t.role_permissions ≡ false =
        any-weaker test (λ x. x.merchant_id == m) t.role_permissions
          (λ x h. unfold is_permission_of_role in ground (arith, h)) unused.no_permission in
      let created =
        any-created m w.role.id k t.permissions m w.role.id application_permission_keys
          t.permissions keyed in
      rw (w.permissions, w.permitted)
        (any-append test t.role_permissions (
            map (new_role_permission m w.role.id)
              (assignable_permissions application_permission_keys t.permissions))
          ∙ rw (before, created, ==_refl m, ==_refl w.role.id) refl)

  owner_grants :
      (k : String)
      → IsKeyed t.permissions t.permissions
      → grants w.merchant.id w.membership.id k t'
        ≡ (has_key k application_permission_keys && is_active_key k t.permissions)
  unfolding grants
  owner_grants k keyed =
      let m = w.merchant.id in
      let test = λ (x : MembershipRole).
        is_role_of m w.membership.id x && granted_by m k t' (find (is_role m x.role_id) t'.roles) in
      let before : any test t.membership_roles ≡ false =
        any-weaker test (λ x. x.merchant_id == m) t.membership_roles
          (λ x h. unfold is_role_of in ground (arith, h)) unused.no_assignment in
      let own : is_role_of m w.membership.id (new_membership_role m w.membership.id w.role.id)
          ≡ true =
        unfold is_role_of in ground (arith, ==_refl m, ==_refl w.membership.id) in
      let active : is_active_role w.role.status ≡ true = rw w.role_active refl in
      ap (any test) w.assigned
      ∙ any-append test t.membership_roles (new_membership_role m w.membership.id w.role.id ∷ [])
      ∙ rw (before, own, role_found, active, role_grants_all k keyed) (ground arith)

  membership_found :
      find (is_membership_of user_id w.merchant.id) t'.memberships ≡ some w.membership
  unfolding is_membership_of
  membership_found = rw w.memberships (
      find-append_none (is_membership_of user_id w.merchant.id) t.memberships (w.membership ∷ []) (
        find-weaker (is_membership_of user_id w.merchant.id) (λ x. x.merchant_id == w.merchant.id)
          t.memberships (λ x h. ground (arith, h)) unused.no_member)
      ∙ unfold find in
        ground (arith, w.of_merchant, w.of_user, ==_refl w.merchant.id, ==_refl user_id))

  merchant_found : find (is_merchant w.merchant.id) t'.merchants ≡ some w.merchant
  unfolding is_merchant
  merchant_found = rw w.merchants (
      find-append_none (is_merchant w.merchant.id) t.merchants (w.merchant ∷ []) (
        find-weaker (is_merchant w.merchant.id) (is_merchant w.merchant.id) t.merchants (λ x h. h)
          unused.no_merchant)
      ∙ unfold find in ground (arith, ==_refl w.merchant.id))

  owner_resolved :
      (context : ResolvedMerchantContext) × (resolve user_id w.merchant.id t' ≡ some context)
      × (context.membership_id ≡ w.membership.id)
  unfolding resolve find_merchant_context resolved_context
  owner_resolved = (
    resolved_context (context_record t' w.membership w.merchant),
    ground (arith, membership_found, merchant_found, w.member_active, w.merchant_active),
    refl,
  )

  -- The owner is resolved, and the guard allows every application permission.
  pub owner_allowed :
      (k : String)
      → IsKeyed t.permissions t.permissions
      → IsUniqueKeyed t.permissions
      → has_key k application_permission_keys ≡ true
      → (context : ResolvedMerchantContext) × (resolve user_id w.merchant.id t' ≡ some context)
        × (can_activate (some k) (some context) ≡ Answer.allowed)
  owner_allowed k keyed unique h =
      let (context, found, own) = owner_resolved in
      let active : is_active_key k t.permissions ≡ true =
        every_key_active application_permission_keys t.permissions k unique w.enough h in
      let granted : grants w.merchant.id context.membership_id k t' ≡ true =
        rw (own, owner_grants k keyed, h, active) refl in
      (context, found, (resolve-grants user_id w.merchant.id k t' found).1 ∙ rw granted refl)
