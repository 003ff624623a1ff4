-- ===== src/Tests/Members.antt =====
-- A merchant with one member, who is given the role of a cashier.
use tteeka.Prelude.{◌≡◌, refl, some, none, [], ◌∷◌, any, ◌==◌, ◌&&◌, if◌then◌else◌}
use tteeka.Prelude.Table.{find, filter}
use tteeka.Schema.{
  Db, AccessTables, MerchantStatus, Membership, MembershipStatus, Role, RoleStatus, Permission,
  PermissionStatus, User, UserStatus,
}
use tteeka.Store.{ok}
use tteeka.Authorization.{
  Answer, ResolvedMerchantContext, is_membership_of, is_merchant, is_role, is_role_of,
  is_permission, is_permission_of_role, joined_permissions, joined_roles, find_merchant_context,
  insert_role, sort_roles, active_roles, has_key, add_key, add_permissions, add_roles, insert_key,
  sort_keys, resolved_context, resolve, can_activate,
}
use tteeka.Authorization.Granted.{Member, role_grants, grants, resolve-grants}
use tteeka.AccessManagement.{
  Collation, StaffRecord, ManagedRoleRecord, updated, is_membership, assigned_roles, map_staff,
  map_role, assignable_roles, delete_membership_roles, is_assigned, create_membership_roles,
  write_membership_roles, replace_membership_roles,
}
use tteeka.AccessManagement.Assigned.{role_id_grants, replace_membership_roles-resolve}
use tteeka.AccessManagement.Roles.{
  assignable_permissions, delete_role_permissions, has_one_of, create_role_permissions,
  write_role_permissions, replace_role_permissions,
}
use tteeka.AccessManagement.Permitted.{IsKeyed, is_active_key, replace_role_permissions-grants}
use tteeka.Tests.{shop}

abbrev collation : Collation
collation = record { by_name = λ roles. roles; by_key = λ permissions. permissions }

abbrev user : User
user = record {
  id = 5;
  display_name = "Okello";
  phone_e164 = "+256770000000";
  email = none;
  status = UserStatus.active;
}

abbrev member : Membership
member = record {
  id = 50;
  merchant_id = 1;
  user_id = 5;
  status = MembershipStatus.active;
  created_at = 40;
}

abbrev cashier : Role
cashier = record {
  id = 60;
  merchant_id = 1;
  name = "Cashier";
  description = none;
  status = RoleStatus.active;
}

abbrev confirms : Permission
confirms = record {
  id = 80;
  key = "orders.confirm";
  description = none;
  status = PermissionStatus.active;
}

abbrev refunds : Permission
refunds = record {
  id = 81;
  key = "payments.refund";
  description = none;
  status = PermissionStatus.deprecated;
}

abbrev access : AccessTables
access = record {
  users = user ∷ [];
  merchants =
      record { id = 1; display_name = "Tteeka"; currency = 800; status = MerchantStatus.active }
      ∷ [];
  memberships = member ∷ [];
  roles = cashier ∷ [];
  membership_roles = [];
  permissions = confirms ∷ refunds ∷ [];
  role_permissions = record { merchant_id = 1; role_id = 60; permission_id = 80 } ∷ [];
  credentials = [];
  sessions = [];
  commands = [];
}

abbrev shop_staffed : Db
shop_staffed = record shop { access = access }

abbrev access_assigned : AccessTables
access_assigned = record access {
  membership_roles = record { merchant_id = 1; membership_id = 50; role_id = 60 } ∷ [];
}

abbrev shop_assigned : Db
shop_assigned = record shop { access = access_assigned }

abbrev staff : StaffRecord
staff = record {
  id = 50;
  status = MembershipStatus.active;
  user = some user;
  roles = (60, "Cashier", RoleStatus.active) ∷ [];
}

replace_run :
    replace_membership_roles collation 1 50 (60 ∷ []) shop_staffed
    ≡ (ok (updated staff), shop_assigned)
unfolding replace_membership_roles write_membership_roles create_membership_roles
    delete_membership_roles assignable_roles map_staff assigned_roles is_membership is_role
    is_role_of is_assigned find filter
replace_run = refl

abbrev context : ResolvedMerchantContext
context = record {
  merchant_id = 1;
  display_name = "Tteeka";
  membership_id = 50;
  roles = (60, "Cashier") ∷ [];
  permissions = "orders.confirm" ∷ [];
}

resolve_run : resolve 5 1 access_assigned ≡ some context
unfolding resolve find_merchant_context resolved_context joined_roles joined_permissions
    is_membership_of is_merchant is_role is_role_of is_permission is_permission_of_role active_roles
    sort_roles insert_role add_roles add_permissions add_key has_key sort_keys insert_key find
    filter
resolve_run = refl

resolve-grants_example :
    Member 5 1 access_assigned context
    × (can_activate (some "orders.confirm") (some context) ≡ (
        if grants 1 50 "orders.confirm" access_assigned then Answer.allowed else Answer.forbidden))
resolve-grants_example = resolve-grants 5 1 "orders.confirm" access_assigned resolve_run

replace_membership_roles-resolve_example : can_activate (some "orders.confirm") (some context) ≡ (
    if if 50 == 50
      then any (role_id_grants 1 "orders.confirm" access) (60 ∷ [])
      else grants 1 50 "orders.confirm" access
    then Answer.allowed
    else Answer.forbidden)
replace_membership_roles-resolve_example =
    replace_membership_roles-resolve collation 1 50 5 (60 ∷ []) "orders.confirm" shop_staffed
      replace_run resolve_run

abbrev role : ManagedRoleRecord
role = record {
  id = 60;
  name = "Cashier";
  description = none;
  status = RoleStatus.active;
  permissions = record { key = "orders.confirm"; status = PermissionStatus.active } ∷ [];
}

permit_run :
    replace_role_permissions collation 1 60 ("orders.confirm" ∷ []) shop_staffed
    ≡ (ok (updated role), shop_staffed)
unfolding replace_role_permissions write_role_permissions create_role_permissions
    delete_role_permissions assignable_permissions map_role joined_permissions is_role is_permission
    is_permission_of_role has_one_of has_key find filter
permit_run = refl

keyed : IsKeyed access.permissions access.permissions
unfolding find is_permission
keyed = (refl, (refl, tt))

replace_role_permissions-grants_example : role_grants 1 60 "orders.confirm" access ≡ (
    if 1 == 1 && 60 == 60
    then has_key "orders.confirm" ("orders.confirm" ∷ [])
      && is_active_key "orders.confirm" access.permissions
    else role_grants 1 60 "orders.confirm" access)
replace_role_permissions-grants_example =
    replace_role_permissions-grants collation 1 60 1 60 ("orders.confirm" ∷ []) "orders.confirm"
      shop_staffed keyed permit_run
