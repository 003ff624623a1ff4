-- ===== src/AccessManagement.antt =====
-- Members of a merchant, their roles and the permissions of roles:
-- apps/api/src/access-management/prisma-access-management.store.ts.
pub mod Assigned
pub mod Roles
pub mod Permitted
use tteeka.Prelude.{
  ℕ, Bool, true, false, not, Option, none, some, String, List, [], ◌∷◌, ◌++◌, map, ◌==◌, ◌&&◌, ◌||◌,
  any, contains, length, is_some, or_default, if◌then◌else◌,
}
use tteeka.Prelude.Table.{find, filter, update_where}
use tteeka.Prelude.Texts.{str_eq}
use tteeka.Schema.{
  Db, Uuid, AccessTables, User, UserStatus, Membership, MembershipStatus, Role, RoleStatus,
  MembershipRole, Permission, RolePermission,
}
use tteeka.Store.{
  Env, Store, pure, raise, gets, modify, raise_if, or_raise, transaction, catch_unique,
  unique_violation, membership_user, membership_role, role_name, role_permission, record_not_found,
  membership_already_exists, role_name_already_exists, ◌>>=◌, ◌>>◌,
}
use tteeka.Authorization.{
  PermissionRecord, is_role, is_membership_of, is_role_of, is_permission_of_role, is_active_role,
  is_active_permission, joined_permissions,
}

-- The order in which the database gives the roles of a member, by name, and the permissions of a
-- role, by key; it depends on a collation.
pub record Collation : Type 0 where
  pub by_name : List Role → List Role
  pub by_key : List PermissionRecord → List PermissionRecord

-- `StaffRecord` and `RoleRecord`; a foreign key makes the user be there.
pub record StaffRecord : Type 0 where
  pub id : Uuid
  pub status : MembershipStatus
  pub user : Option User
  pub roles : List (Uuid × String × RoleStatus)

pub record ManagedRoleRecord : Type 0 where
  pub id : Uuid
  pub name : String
  pub description : Option String
  pub status : RoleStatus
  pub permissions : List PermissionRecord

pub data ReplacementResult (A : Type 0) : Type 0 where
  updated : A → ReplacementResult A
  not_found invalid_assignment : ReplacementResult A

unfoldable pub is_membership : Uuid → Uuid → Membership → Bool
is_membership m id x = x.merchant_id == m && x.id == id

unfoldable pub assigned_roles : Uuid → Uuid → List Role → List MembershipRole → List Role
assigned_roles m membership_id roles [] = []
assigned_roles m membership_id roles (x ∷ xs) =
    let rest = assigned_roles m membership_id roles xs in
    if is_role_of m membership_id x
    then elim (find (is_role m x.role_id) roles) [ none ↦ rest | some r ↦ r ∷ rest ]
    else rest

-- `mapStaff` of what `staffSelect` selects
unfoldable pub map_staff : Collation → Membership → AccessTables → StaffRecord
unfolding assigned_roles
map_staff collation x db = record {
  id = x.id;
  status = x.status;
  user = find (λ (u : User). u.id == x.user_id) db.users;
  roles =
      map (λ (r : Role). (r.id, r.name, r.status))
        (collation.by_name (assigned_roles x.merchant_id x.id db.roles db.membership_roles));
}

-- `mapRole` of what `roleSelect` selects
unfoldable pub map_role : Collation → Role → AccessTables → ManagedRoleRecord
map_role collation r db = record {
  id = r.id;
  name = r.name;
  description = r.description;
  status = r.status;
  permissions =
      collation.by_key (joined_permissions r.merchant_id r.id db.permissions db.role_permissions);
}

abbrev pub is_active_user : UserStatus → Bool
is_active_user UserStatus.active = true
is_active_user UserStatus.disabled = false

unfoldable pub find_active_user_by_phone : String → Db → Option Uuid
find_active_user_by_phone phone db =
    elim (find (λ (u : User). str_eq u.phone_e164 phone && is_active_user u.status)
      db.access.users) [ none ↦ none | some u ↦ some u.id ]

abbrev pub new_membership : Env → Uuid → Uuid → Db → Membership
new_membership env m user_id db = record {
  id = env.fresh_id db;
  merchant_id = m;
  user_id = user_id;
  status = MembershipStatus.active;
  created_at = env.db_now db;
}

unfoldable pub insert_membership : Membership → Store Membership
insert_membership x db =
    (if is_some (find (is_membership_of x.user_id x.merchant_id) db.access.memberships)
        then raise (unique_violation membership_user)
        else do
          modify (λ t. record t {
            access = record t.access { memberships = t.access.memberships ++ x ∷ [] };
          })
          pure x)
      db

unfoldable pub create_membership : Env → Collation → Uuid → Uuid → Store StaffRecord
unfolding insert_membership map_staff
create_membership env collation m user_id =
    catch_unique
      (transaction do
        planned ← gets (new_membership env m user_id)
        x ← insert_membership planned
        gets (λ db. map_staff collation x db.access))
      (raise membership_already_exists)

-- The `data` of the update of a membership's status.
unfoldable pub save_status : Uuid → Uuid → MembershipStatus → Db → Db
unfolding is_membership
save_status m id status db = record db {
  access = record db.access {
    memberships =
        update_where (is_membership m id) (λ (x : Membership). record x { status = status })
          db.access.memberships;
  };
}

unfoldable pub update_membership_status :
    Collation → Uuid → Uuid → MembershipStatus → Store (Option StaffRecord)
unfolding save_status map_staff
update_membership_status collation m id status = do
  rows ← gets (λ db. filter (is_membership m id) db.access.memberships)
  modify (save_status m id status)
  if length rows == 0 then pure none else do
    found ← gets (λ db. find (is_membership m id) db.access.memberships)
    elim found [ none ↦ pure none | some x ↦ gets (λ db. some (map_staff collation x db.access)) ]

-- `role.findMany({ where: { merchantId, id: { in: roleIds }, status: 'ACTIVE' } })`
unfoldable pub assignable_roles : Uuid → List Uuid → Db → List Role
assignable_roles m ids db =
    filter (λ (r : Role). r.merchant_id == m && contains r.id ids && is_active_role r.status)
      db.access.roles

unfoldable pub delete_membership_roles : Uuid → Uuid → Db → Db
delete_membership_roles m membership_id db = record db {
  access = record db.access {
    membership_roles =
        filter (λ (x : MembershipRole). not (is_role_of m membership_id x))
          db.access.membership_roles;
  };
}

abbrev pub is_distinct : List Uuid → Bool
is_distinct [] = true
is_distinct (x ∷ xs) = not (contains x xs) && is_distinct xs

abbrev pub new_membership_role : Uuid → Uuid → Uuid → MembershipRole
new_membership_role m membership_id role_id = record {
  merchant_id = m;
  membership_id = membership_id;
  role_id = role_id;
}

unfoldable pub is_assigned : Uuid → List Uuid → MembershipRole → Bool
is_assigned membership_id ids x = x.membership_id == membership_id && contains x.role_id ids

-- `membershipRole.createMany`, which the unique (membership, role) may refuse
unfoldable pub create_membership_roles : Uuid → Uuid → List Uuid → Store (Unit {0})
create_membership_roles m membership_id ids db =
    (if not (is_distinct ids) || any (is_assigned membership_id ids) db.access.membership_roles
        then raise (unique_violation membership_role)
        else modify λ t. record t {
          access = record t.access {
            membership_roles =
                t.access.membership_roles ++ map (new_membership_role m membership_id) ids;
          };
        })
      db

-- What is written for roles that can be assigned. Creating no rows is skipped.
unfoldable pub write_membership_roles :
    Collation → Uuid → Uuid → List Uuid → Store (ReplacementResult StaffRecord)
unfolding delete_membership_roles create_membership_roles map_staff
write_membership_roles collation m id role_ids = do
  modify (delete_membership_roles m id)
  create_membership_roles m id role_ids
  found ← gets (λ db. find (is_membership m id) db.access.memberships)
  x ← or_raise found record_not_found
  gets (λ db. updated (map_staff collation x db.access))

unfoldable pub replace_membership_roles :
    Collation → Uuid → Uuid → List Uuid → Store (ReplacementResult StaffRecord)
unfolding write_membership_roles assignable_roles
replace_membership_roles collation m id role_ids = transaction do
  membership ← gets (λ db. find (is_membership m id) db.access.memberships)
  roles ← gets (assignable_roles m role_ids)
  elim membership [
    | none ↦ pure not_found
    | some x ↦
        if length roles == length role_ids
        then write_membership_roles collation m id role_ids
        else pure invalid_assignment
  ]
