-- ===== src/Authorization.antt =====
-- Who may do what at a merchant: merchant-context.service.ts, permission-evaluator.ts,
-- permission.guard.ts and prisma-authorization.store.ts of apps/api/src/authorization.
pub mod Granted
use tteeka.Prelude.{
  ℕ, Bool, true, false, Option, none, some, String, List, [], ◌∷◌, ◌++◌, map, ltb, leb, ◌==◌, ◌&&◌,
  ◌||◌, any, all, if◌then◌else◌,
}
use tteeka.Prelude.Table.{find, filter}
use tteeka.Prelude.Texts.{str_eq, text_lt}
use tteeka.Schema.{
  Uuid, AccessTables, Merchant, MerchantStatus, Membership, MembershipStatus, Role, RoleStatus,
  MembershipRole, Permission, PermissionStatus, RolePermission,
}

-- `AuthorizationContextRecord`, from its leaves up
pub record PermissionRecord : Type 0 where
  pub key : String
  pub status : PermissionStatus

pub record RoleRecord : Type 0 where
  pub id : Uuid
  pub name : String
  pub status : RoleStatus
  pub permissions : List PermissionRecord

pub record AuthorizationContextRecord : Type 0 where
  pub id : Uuid
  pub status : MembershipStatus
  pub merchant : Merchant
  pub roles : List RoleRecord

unfoldable pub is_membership_of : Uuid → Uuid → Membership → Bool
is_membership_of user_id m x = x.merchant_id == m && x.user_id == user_id

unfoldable pub is_merchant : Uuid → Merchant → Bool
is_merchant id x = x.id == id

unfoldable pub is_role : Uuid → Uuid → Role → Bool
is_role m id x = x.merchant_id == m && x.id == id

unfoldable pub is_permission : Uuid → Permission → Bool
is_permission id x = x.id == id

unfoldable pub is_permission_of_role : Uuid → Uuid → RolePermission → Bool
is_permission_of_role m role_id x = x.merchant_id == m && x.role_id == role_id

unfoldable pub is_role_of : Uuid → Uuid → MembershipRole → Bool
is_role_of m membership_id x = x.merchant_id == m && x.membership_id == membership_id

abbrev pub permission_record : Permission → PermissionRecord
permission_record p = record { key = p.key; status = p.status }

-- The joins of `rolePermissions` and `membershipRoles`; a foreign key makes each find its row.
unfoldable pub joined_permissions :
    Uuid → Uuid → List Permission → List RolePermission → List PermissionRecord
joined_permissions m role_id permissions [] = []
joined_permissions m role_id permissions (x ∷ xs) =
    let rest = joined_permissions m role_id permissions xs in
    if is_permission_of_role m role_id x
    then elim (find (is_permission x.permission_id) permissions) [
      | none ↦ rest
      | some p ↦ permission_record p ∷ rest
    ]
    else rest

abbrev pub role_record : Uuid → AccessTables → Role → RoleRecord
role_record m db r = record {
  id = r.id;
  name = r.name;
  status = r.status;
  permissions = joined_permissions m r.id db.permissions db.role_permissions;
}

unfoldable pub joined_roles : Uuid → Uuid → AccessTables → List MembershipRole → List RoleRecord
joined_roles m membership_id db [] = []
joined_roles m membership_id db (x ∷ xs) =
    let rest = joined_roles m membership_id db xs in
    if is_role_of m membership_id x
    then elim (find (is_role m x.role_id) db.roles) [
      | none ↦ rest
      | some r ↦ role_record m db r ∷ rest
    ]
    else rest

abbrev pub context_record : AccessTables → Membership → Merchant → AuthorizationContextRecord
context_record db x merchant = record {
  id = x.id;
  status = x.status;
  merchant = merchant;
  roles = joined_roles x.merchant_id x.id db db.membership_roles;
}

-- `findMerchantContextForUser`
unfoldable pub find_merchant_context :
    Uuid → Uuid → AccessTables → Option AuthorizationContextRecord
unfolding joined_roles
find_merchant_context user_id m db = elim (find (is_membership_of user_id m) db.memberships) [
  | none ↦ none
  | some x ↦ elim (find (is_merchant m) db.merchants) [
    | none ↦ none
    | some merchant ↦ some (context_record db x merchant)
  ]
]

abbrev pub is_active_membership : MembershipStatus → Bool
is_active_membership MembershipStatus.active = true
is_active_membership MembershipStatus.disabled = false

abbrev pub is_active_merchant : MerchantStatus → Bool
is_active_merchant MerchantStatus.active = true
is_active_merchant _ = false

abbrev pub is_active_role : RoleStatus → Bool
is_active_role RoleStatus.active = true
is_active_role RoleStatus.disabled = false

abbrev pub is_active_permission : PermissionStatus → Bool
is_active_permission PermissionStatus.active = true
is_active_permission PermissionStatus.deprecated = false

-- `compareText(left.name, right.name) || compareText(left.id, right.id)`, not positive
unfoldable pub role_before : RoleRecord → RoleRecord → Bool
role_before r s = text_lt r.name s.name || (str_eq r.name s.name && leb r.id s.id)

unfoldable pub insert_role : RoleRecord → List RoleRecord → List RoleRecord
insert_role r [] = r ∷ []
insert_role r (s ∷ ss) =
    let rest = insert_role r ss in if role_before r s then r ∷ s ∷ ss else s ∷ rest

unfoldable pub sort_roles : List RoleRecord → List RoleRecord
unfolding insert_role role_before
sort_roles [] = []
sort_roles (r ∷ rs) = insert_role r (sort_roles rs)

-- `activeRoles`
unfoldable pub active_roles : List RoleRecord → List RoleRecord
unfolding sort_roles
active_roles rs = sort_roles (filter (λ (r : RoleRecord). is_active_role r.status) rs)

-- A set of texts, in the order of insertion: `has` and `add`.
unfoldable pub has_key : String → List String → Bool
has_key k keys = any (str_eq k) keys

unfoldable pub add_key : String → List String → List String
unfolding has_key
add_key k keys = if has_key k keys then keys else keys ++ k ∷ []

-- The loops that fill `permissionKeys`.
unfoldable pub add_permissions : List PermissionRecord → List String → List String
unfolding add_key
add_permissions [] keys = keys
add_permissions (p ∷ ps) keys =
    add_permissions ps (if is_active_permission p.status then add_key p.key keys else keys)

unfoldable pub add_roles : List RoleRecord → List String → List String
unfolding add_permissions
add_roles [] keys = keys
add_roles (r ∷ rs) keys = add_roles rs (add_permissions r.permissions keys)

unfoldable pub insert_key : String → List String → List String
insert_key k [] = k ∷ []
insert_key k (x ∷ xs) = let rest = insert_key k xs in if text_lt x k then x ∷ rest else k ∷ x ∷ xs

unfoldable pub sort_keys : List String → List String
unfolding insert_key
sort_keys [] = []
sort_keys (k ∷ ks) = insert_key k (sort_keys ks)

pub record ResolvedMerchantContext : Type 0 where
  pub merchant_id : Uuid
  pub display_name : String
  pub membership_id : Uuid
  pub roles : List (Uuid × String)
  pub permissions : List String

unfoldable pub resolved_context : AuthorizationContextRecord → ResolvedMerchantContext
unfolding active_roles add_roles sort_keys
resolved_context c = record {
  merchant_id = c.merchant.id;
  display_name = c.merchant.display_name;
  membership_id = c.id;
  roles = map (λ (r : RoleRecord). (r.id, r.name)) (active_roles c.roles);
  permissions = sort_keys (add_roles (active_roles c.roles) []);
}

-- `resolve`; none is where it throws a ForbiddenException.
unfoldable pub resolve : Uuid → Uuid → AccessTables → Option ResolvedMerchantContext
unfolding find_merchant_context resolved_context
resolve user_id m db = elim (find_merchant_context user_id m db) [
  | none ↦ none
  | some c ↦
      if is_active_membership c.status && is_active_merchant c.merchant.status
      then some (resolved_context c)
      else none
]

unfoldable pub has_permission : ResolvedMerchantContext → String → Bool
unfolding has_key
has_permission context key = has_key key context.permissions

unfoldable pub has_all_permissions : ResolvedMerchantContext → List String → Bool
unfolding has_permission
has_all_permissions context keys = all (has_permission context) keys

unfoldable pub has_any_permission : ResolvedMerchantContext → List String → Bool
unfolding has_permission
has_any_permission context keys = any (has_permission context) keys

-- `canActivate`: what it returns or throws. The metadata of the handler and the context of the
-- request may be missing.
pub data Answer : Type 0 where
  allowed forbidden internal_server_error : Answer

unfoldable pub can_activate : Option String → Option ResolvedMerchantContext → Answer
unfolding has_permission
can_activate none context = internal_server_error
can_activate (some key) none = internal_server_error
can_activate (some key) (some context) = if has_permission context key then allowed else forbidden
