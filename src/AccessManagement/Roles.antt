-- ===== src/AccessManagement/Roles.antt =====
-- The roles of a merchant and their permissions, of
-- apps/api/src/access-management/prisma-access-management.store.ts.
use tteeka.Prelude.{
  ℕ, Bool, false, not, Option, none, some, String, List, [], ◌∷◌, ◌++◌, map, ◌==◌, ◌&&◌, ◌||◌, any,
  contains, length, or_default, if◌then◌else◌,
}
use tteeka.Prelude.Table.{find, filter, update_where}
use tteeka.Prelude.Texts.{str_eq}
use tteeka.Schema.{Db, Uuid, Role, RoleStatus, Permission, RolePermission}
use tteeka.Store.{
  Env, Store, pure, raise, gets, modify, or_raise, transaction, catch_unique, unique_violation,
  role_name, role_permission, record_not_found, role_name_already_exists, ◌>>=◌, ◌>>◌,
}
use tteeka.Authorization.{is_role, is_permission_of_role, is_active_permission, has_key}
use tteeka.AccessManagement.{
  Collation, ManagedRoleRecord, ReplacementResult, updated, not_found, invalid_assignment, map_role,
  is_distinct,
}

abbrev pub new_role : Env → Uuid → String → Option String → Db → Role
new_role env m name description db = record {
  id = env.fresh_id db;
  merchant_id = m;
  name = name;
  description = description;
  status = RoleStatus.active;
}

abbrev pub has_name : Uuid → String → Role → Bool
has_name m name r = r.merchant_id == m && str_eq r.name name

unfoldable pub insert_new_role : Role → Store Role
insert_new_role r db =
    (if any (has_name r.merchant_id r.name) db.access.roles
        then raise (unique_violation role_name)
        else do
          modify (λ t. record t { access = record t.access { roles = t.access.roles ++ r ∷ [] } })
          pure r)
      db

unfoldable pub create_role :
    Env → Collation → Uuid → String → Option String → Store ManagedRoleRecord
unfolding insert_new_role
create_role env collation m name description =
    catch_unique
      (transaction do
        planned ← gets (new_role env m name description)
        r ← insert_new_role planned
        gets (λ db. map_role collation r db.access))
      (raise role_name_already_exists)

-- The `patch`: a column that it leaves out is none.
pub record RolePatch : Type 0 where
  pub name : Option String
  pub description : Option (Option String)
  pub status : Option RoleStatus

unfoldable pub patched_role : RolePatch → Role → Role
patched_role patch r = record r {
  name = or_default patch.name r.name;
  description = or_default patch.description r.description;
  status = or_default patch.status r.status;
}

-- The new name is that of another role of the merchant.
unfoldable pub is_name_taken : Uuid → Uuid → Option String → Db → Bool
is_name_taken m id none db = false
is_name_taken m id (some name) db =
    any (λ (r : Role). has_name m name r && not (r.id == id)) db.access.roles

unfoldable pub save_role : Uuid → Uuid → RolePatch → Db → Db
unfolding patched_role
save_role m id patch db = record db {
  access = record db.access {
    roles = update_where (is_role m id) (patched_role patch) db.access.roles;
  };
}

-- `role.updateMany`, which the unique (merchant, name) may refuse: the number of rows
unfoldable pub update_roles : Uuid → Uuid → RolePatch → Store ℕ
unfolding save_role is_name_taken
update_roles m id patch db =
    let count = length (filter (is_role m id) db.access.roles) in
    (if count == 0
        then pure 0
        else if is_name_taken m id patch.name db
        then raise (unique_violation role_name)
        else do modify (save_role m id patch); pure count)
      db

unfoldable pub update_role : Collation → Uuid → Uuid → RolePatch → Store (Option ManagedRoleRecord)
unfolding update_roles
update_role collation m id patch =
    catch_unique
      (do
        count ← update_roles m id patch
        found ← gets (λ db. find (is_role m id) db.access.roles)
        if count == 0 then pure none else elim found [
          | none ↦ pure none
          | some r ↦ gets (λ db. some (map_role collation r db.access))
        ])
      (raise role_name_already_exists)

-- `permission.findMany({ where: { key: { in: permissionKeys }, status: 'ACTIVE' } })`
unfoldable pub assignable_permissions : List String → List Permission → List Permission
assignable_permissions keys permissions =
    filter (λ (p : Permission). has_key p.key keys && is_active_permission p.status) permissions

unfoldable pub delete_role_permissions : Uuid → Uuid → Db → Db
delete_role_permissions m role_id db = record db {
  access = record db.access {
    role_permissions =
        filter (λ (x : RolePermission). not (is_permission_of_role m role_id x))
          db.access.role_permissions;
  };
}

abbrev pub new_role_permission : Uuid → Uuid → Permission → RolePermission
new_role_permission m role_id p = record {
  merchant_id = m;
  role_id = role_id;
  permission_id = p.id;
}

abbrev pub permission_ids : List Permission → List Uuid
permission_ids permissions = map (λ (p : Permission). p.id) permissions

unfoldable pub has_one_of : Uuid → List Uuid → RolePermission → Bool
has_one_of role_id ids x = x.role_id == role_id && contains x.permission_id ids

-- `rolePermission.createMany`, which the unique (role, permission) may refuse
unfoldable pub create_role_permissions : Uuid → Uuid → List Permission → Store (Unit {0})
create_role_permissions m role_id permissions db =
    (if not (is_distinct (permission_ids permissions))
          || any (has_one_of role_id (permission_ids permissions)) db.access.role_permissions
        then raise (unique_violation role_permission)
        else modify λ t. record t {
          access = record t.access {
            role_permissions =
                t.access.role_permissions ++ map (new_role_permission m role_id) permissions;
          };
        })
      db

-- What is written for permissions that can be assigned. Creating no rows is skipped.
unfoldable pub write_role_permissions :
    Collation → Uuid → Uuid → List Permission → Store (ReplacementResult ManagedRoleRecord)
unfolding delete_role_permissions create_role_permissions
write_role_permissions collation m role_id permissions = do
  modify (delete_role_permissions m role_id)
  create_role_permissions m role_id permissions
  found ← gets (λ db. find (is_role m role_id) db.access.roles)
  r ← or_raise found record_not_found
  gets (λ db. updated (map_role collation r db.access))

unfoldable pub replace_role_permissions :
    Collation → Uuid → Uuid → List String → Store (ReplacementResult ManagedRoleRecord)
unfolding write_role_permissions assignable_permissions
replace_role_permissions collation m role_id keys = transaction do
  role ← gets (λ db. find (is_role m role_id) db.access.roles)
  permissions ← gets (λ db. assignable_permissions keys db.access.permissions)
  elim role [
    | none ↦ pure not_found
    | some r ↦
        if length permissions == length keys
        then write_role_permissions collation m role_id permissions
        else pure invalid_assignment
  ]
