-- ===== src/Onboarding.antt =====
-- Registration and the first workspace of a user: apps/api/src/onboarding/onboarding.service.ts, with
-- the permission catalogue and permission-sync.ts of apps/api/src/access-management.
pub mod Catalog
pub mod Owner
pub mod Registered
use tteeka.Prelude.{
  ℕ, Bool, true, false, not, Option, none, some, String, List, [], ◌∷◌, ◌++◌, map, ◌==◌, ◌&&◌, ◌||◌,
  ltb, leb, same_option, length, any, is_some, if◌then◌else◌,
}
use tteeka.Prelude.Table.{find, filter, update_where}
use tteeka.Prelude.Texts.{str_eq}
use tteeka.Schema.{
  Db, Uuid, Key, Hash, Currency, AccessTables, User, UserStatus, Merchant, MerchantStatus,
  Membership, MembershipStatus, Role, RoleStatus, MembershipRole, Permission, PermissionStatus,
  RolePermission, PasswordCredential, OnboardingKind, OnboardingCommand,
}
use tteeka.Store.{
  Env, Store, pure, raise, gets, modify, raise_if, or_raise, transaction, catch_unique,
  unique_violation, onboarding_key, onboarding_key_conflict, duplicate_phone, existing_workspace,
  permission_catalog_unavailable, onboarding_replay_unavailable, ◌>>=◌, ◌>>◌,
}
use tteeka.Authorization.{is_merchant, is_active_membership}
use tteeka.AccessManagement.{new_membership_role}
use tteeka.AccessManagement.Roles.{assignable_permissions, new_role_permission}
use tteeka.Auth.{Security, has_phone}
use tteeka.Onboarding.Catalog.{application_permission_catalog, application_permission_keys}

abbrev pub update_access : (AccessTables → AccessTables) → Db → Db
update_access f db = record db { access = f db.access }

-- `permission.upsert` of an entry of the catalogue
unfoldable pub upsert_permission : Env → String × String → Db → Db
upsert_permission env (key, description) db =
    if any (λ (p : Permission). str_eq p.key key) db.access.permissions
    then update_access
        (λ t. record t {
          permissions =
              update_where (λ (p : Permission). str_eq p.key key)
                (λ (p : Permission). record p { description = some description }) t.permissions;
        })
        db
    else update_access
        (λ t. record t {
          permissions =
              t.permissions
              ++ record {
                id = env.fresh_id db;
                key = key;
                description = some description;
                status = PermissionStatus.active;
              }
                ∷ [];
        })
        db

unfoldable pub upsert_all : Env → List (String × String) → Db → Db
unfolding upsert_permission
upsert_all env [] db = db
upsert_all env (entry ∷ entries) db = upsert_all env entries (upsert_permission env entry db)

unfoldable pub sync_application_permissions : Env → Store (Unit {0})
unfolding upsert_all application_permission_catalog
sync_application_permissions env = modify (upsert_all env application_permission_catalog)

pub record RegistrationRequest : Type 0 where
  pub name : String
  pub phone : String
  pub phone_e164 : String
  pub password : String
  pub business_name : String

pub record OnboardingResult : Type 0 where
  pub user_id : Uuid
  pub merchant_id : Uuid
  pub display_name : String
  pub membership_id : Uuid

-- The SHA-256 digests of the two requests as JSON, and the column default of a merchant's currency.
pub record Requests : Type 0 where
  pub registration_hash : RegistrationRequest → Hash
  pub workspace_hash : String → Hash
  pub default_currency : Currency

abbrev pub same_kind : OnboardingKind → OnboardingKind → Bool
same_kind OnboardingKind.register OnboardingKind.register = true
same_kind OnboardingKind.workspace OnboardingKind.workspace = true
same_kind _ _ = false

unfoldable pub is_command : OnboardingKind → Option Uuid → Key → OnboardingCommand → Bool
is_command kind subject key c =
    same_kind c.kind kind && same_option c.subject subject && c.idempotency_key == key

-- `readResult`
unfoldable pub read_result : OnboardingCommand → Store OnboardingResult
read_result command = do
  found ← gets (λ db. find (is_merchant command.merchant_id) db.access.merchants)
  merchant ← or_raise found onboarding_replay_unavailable
  pure record {
    user_id = command.user_id;
    merchant_id = merchant.id;
    display_name = merchant.display_name;
    membership_id = command.membership_id;
  }

unfoldable pub replay : OnboardingCommand → Hash → Store OnboardingResult
unfolding read_result
replay command hash = do
  raise_if (not (command.request_hash == hash)) onboarding_key_conflict
  read_result command

abbrev pub new_merchant : Env → Requests → String → Db → Merchant
new_merchant env requests name db = record {
  id = env.fresh_id db;
  display_name = name;
  currency = requests.default_currency;
  status = MerchantStatus.active;
}

abbrev pub owner_membership : Env → Uuid → Uuid → Db → Membership
owner_membership env m user_id db = record {
  id = env.fresh_id db;
  merchant_id = m;
  user_id = user_id;
  status = MembershipStatus.active;
  created_at = env.db_now db;
}

abbrev pub owner_role : Env → Uuid → Db → Role
owner_role env m db = record {
  id = env.fresh_id db;
  merchant_id = m;
  name = "Owner";
  description = some "Initial business workspace owner";
  status = RoleStatus.active;
}

abbrev pub add_merchant : Merchant → Db → Db
add_merchant x = update_access (λ t. record t { merchants = t.merchants ++ x ∷ [] })

abbrev pub add_membership : Membership → Db → Db
add_membership x = update_access (λ t. record t { memberships = t.memberships ++ x ∷ [] })

-- The role, its assignment and its permissions.
abbrev pub add_owner_role : Membership → Role → List Permission → Db → Db
add_owner_role x role permissions = update_access (λ t. record t {
  roles = t.roles ++ role ∷ [];
  membership_roles = t.membership_roles ++ new_membership_role x.merchant_id x.id role.id ∷ [];
  role_permissions =
      t.role_permissions ++ map (new_role_permission x.merchant_id role.id) permissions;
})

abbrev pub workspace_result : Uuid → Merchant → Membership → OnboardingResult
workspace_result user_id merchant x = record {
  user_id = user_id;
  merchant_id = merchant.id;
  display_name = merchant.display_name;
  membership_id = x.id;
}

-- What `createWorkspaceGraph` writes once the permissions are found. The rows are of a new merchant,
-- so no unique key refuses them.
unfoldable pub write_workspace :
    Env → Requests → Uuid → String → List Permission → Store OnboardingResult
write_workspace env requests user_id name permissions = do
  merchant ← gets (new_merchant env requests name)
  modify (add_merchant merchant)
  x ← gets (owner_membership env merchant.id user_id)
  modify (add_membership x)
  role ← gets (owner_role env merchant.id)
  modify (add_owner_role x role permissions)
  pure (workspace_result user_id merchant x)

unfoldable pub create_workspace_graph : Env → Requests → Uuid → String → Store OnboardingResult
unfolding write_workspace application_permission_keys
create_workspace_graph env requests user_id name = do
  permissions ←
      gets (λ db. assignable_permissions application_permission_keys db.access.permissions)
  raise_if (not (length permissions == length application_permission_keys))
      permission_catalog_unavailable
  write_workspace env requests user_id name permissions

abbrev pub new_command :
    OnboardingKind → Option Uuid → Key → Hash → OnboardingResult → OnboardingCommand
new_command kind subject key hash result = record {
  kind = kind;
  subject = subject;
  idempotency_key = key;
  request_hash = hash;
  user_id = result.user_id;
  merchant_id = result.merchant_id;
  membership_id = result.membership_id;
}

-- `onboardingCommand.create`, which the unique (kind, subject, key) may refuse
unfoldable pub insert_command : OnboardingCommand → Store (Unit {0})
insert_command c db =
    (if is_some (find (is_command c.kind c.subject c.idempotency_key) db.access.commands)
        then raise (unique_violation onboarding_key)
        else modify (update_access λ t. record t { commands = t.commands ++ c ∷ [] }))
      db

abbrev pub is_active_of : Uuid → Membership → Bool
is_active_of user_id x = x.user_id == user_id && is_active_membership x.status

-- The transaction of `createInitialWorkspace` once its key was not found.
unfoldable pub open_workspace : Env → Requests → Uuid → String → Key → Store OnboardingResult
unfolding create_workspace_graph insert_command
open_workspace env requests user_id name key = do
  members ← gets (λ db. filter (is_active_of user_id) db.access.memberships)
  raise_if (not (length members == 0)) existing_workspace
  result ← create_workspace_graph env requests user_id name
  insert_command (
      new_command OnboardingKind.workspace (some user_id) key (requests.workspace_hash name) result)
  pure result

-- The advisory lock is waited for between the two transactions.
unfoldable pub create_initial_workspace :
    Env → Requests → Uuid → String → Key → Store OnboardingResult
unfolding sync_application_permissions replay open_workspace is_command
create_initial_workspace env requests user_id name key = do
  sync_application_permissions env
  modify env.waited
  transaction do
    known ←
        gets
          (λ db. find (is_command OnboardingKind.workspace (some user_id) key) db.access.commands)
    elim known [
      | some command ↦ replay command (requests.workspace_hash name)
      | none ↦ open_workspace env requests user_id name key
    ]

abbrev pub new_user : Env → RegistrationRequest → Db → User
new_user env input db = record {
  id = env.fresh_id db;
  display_name = input.name;
  phone_e164 = input.phone_e164;
  email = none;
  status = UserStatus.active;
}

-- `user.create` with its `passwordCredential`
abbrev pub add_user : Env → User → String → Db → Db
add_user env u hash db =
    update_access
      (λ t. record t {
        users = t.users ++ u ∷ [];
        credentials =
            t.credentials
            ++ record { id = env.fresh_id db; user_id = u.id; password_hash = hash } ∷ [];
      })
      db

-- The transaction of `register` from the lock of the phone number on.
unfoldable pub register_phone :
    Env → Requests → RegistrationRequest → String → Key → Store OnboardingResult
unfolding create_workspace_graph insert_command
register_phone env requests input password_hash key = do
  taken ← gets (λ db. find (has_phone input.phone_e164) db.access.users)
  raise_if (is_some taken) duplicate_phone
  u ← gets (new_user env input)
  modify (add_user env u password_hash)
  result ← create_workspace_graph env requests u.id input.business_name
  insert_command
      (new_command OnboardingKind.register none key (requests.registration_hash input) result)
  pure result

-- From the lock of the key on; the lock of the phone number is waited for where the key is new.
-- Nothing is written before it, so what throws undoes what is written after it.
unfoldable pub register_locked :
    Env → Requests → RegistrationRequest → String → Key → Store OnboardingResult
unfolding replay register_phone is_command
register_locked env requests input password_hash key = do
  known ← gets (λ db. find (is_command OnboardingKind.register none key) db.access.commands)
  elim known [
    | some command ↦ replay command (requests.registration_hash input)
    | none ↦ do modify env.waited; transaction (register_phone env requests input password_hash key)
  ]

unfoldable pub register :
    Env → Security → Requests → RegistrationRequest → Key → Store OnboardingResult
unfolding sync_application_permissions register_locked
register env security requests input key = do
  sync_application_permissions env
  password_hash ← gets (security.hash_password input.password)
  modify env.waited
  catch_unique (register_locked env requests input password_hash key) (raise duplicate_phone)

-- `workspaceStatus`: the first active membership of the user by creation, then by identifier; none is
-- NO_WORKSPACE.
abbrev pub joined_before : Membership → Membership → Bool
joined_before x y = ltb x.created_at y.created_at || (x.created_at == y.created_at && leb x.id y.id)

unfoldable pub first_membership : List Membership → Option Membership
first_membership [] = none
first_membership (x ∷ xs) = elim (first_membership xs) [
  | none ↦ some x
  | some y ↦ if joined_before x y then some x else some y
]

unfoldable pub workspace_status : Uuid → Db → Option (Uuid × String)
unfolding first_membership
workspace_status user_id db =
    elim (first_membership (filter (is_active_of user_id) db.access.memberships)) [
      | none ↦ none
      | some x ↦ elim (find (is_merchant x.merchant_id) db.access.merchants) [
        | none ↦ none
        | some merchant ↦ some (merchant.id, merchant.display_name)
      ]
    ]
