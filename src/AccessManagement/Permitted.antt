-- ===== src/AccessManagement/Permitted.antt =====
-- What a role permits once its permissions are replaced: proofs about Roles.antt and
-- Authorization.antt together.
use tteeka.Prelude.{
  ◌≡◌, refl, ap, ◌∙◌, inl, inr, Bool, false, not, some, String, List, [], ◌∷◌, ◌++◌, map, ◌==◌,
  ◌&&◌, ◌||◌, any, any-append, length, All, ==_iff, arith, Bool-cases, Option-cases, if◌then◌else◌,
}
use tteeka.Prelude.Table.{find, filter}
use tteeka.Prelude.Texts.{str_eq, str_eq_iff}
use tteeka.Schema.{Db, Uuid, Permission, RolePermission}
use tteeka.Store.{ok}
use tteeka.Authorization.{
  has_key, is_active_permission, is_permission, is_permission_of_role, is_role,
}
use tteeka.Authorization.Granted.{permission_grants, role_grants}
use tteeka.AccessManagement.{Collation, ManagedRoleRecord, updated, is_distinct}
use tteeka.AccessManagement.Roles.{
  assignable_permissions, create_role_permissions, delete_role_permissions, has_one_of,
  new_role_permission, permission_ids, replace_role_permissions, write_role_permissions,
}

-- A permission with this key can be granted.
abbrev pub is_active_key : String → List Permission → Bool
is_active_key k permissions =
    any (λ (p : Permission). is_active_permission p.status && str_eq k p.key) permissions

-- Each permission is the one that its identifier finds.
abbrev pub IsKeyed : List Permission → List Permission → Type 0
IsKeyed table permissions =
    All (λ (p : Permission). find (is_permission p.id) table ≡ some p) permissions

module _ (m role_id : Uuid) (k : String) (table : List Permission) where
  pub any-created :
      (m' r : Uuid) (keys : List String) (permissions : List Permission)
      → IsKeyed table permissions
      → any
          (λ (x : RolePermission).
            is_permission_of_role m' r x
            && permission_grants k (find (is_permission x.permission_id) table))
          (map (new_role_permission m role_id) (assignable_permissions keys permissions))
        ≡ (if m' == m && r == role_id then has_key k keys && is_active_key k permissions else false)
  unfolding assignable_permissions filter is_permission_of_role
  any-created m' r keys [] keyed = ground arith
  any-created m' r keys (p ∷ ps) keyed =
      let rest = any-created m' r keys ps keyed.1 in
      elim (Bool-cases (has_key p.key keys && is_active_permission p.status)) [
        | inr left_out ↦ elim (Bool-cases (str_eq k p.key)) [
          | inr other ↦ ground (arith, left_out, other, rest)
          | inl same ↦
              let equal : k ≡ p.key = (str_eq_iff k p.key).0 same in
              let key : has_key k keys ≡ has_key p.key keys = ap (λ t. has_key t keys) equal in
              ground (arith, left_out, same, key, rest)
        ]
        | inl assigned ↦ elim (Bool-cases (str_eq k p.key)) [
          | inr other ↦ ground (
            arith,
            assigned,
            other,
            keyed.0,
            rest,
            ==_iff m m',
            ==_iff m' m,
            ==_iff role_id r,
            ==_iff r role_id,
          )
          | inl same ↦
              let equal : k ≡ p.key = (str_eq_iff k p.key).0 same in
              let key : has_key k keys ≡ has_key p.key keys = ap (λ t. has_key t keys) equal in
              ground (
                arith,
                assigned,
                same,
                key,
                keyed.0,
                rest,
                ==_iff m m',
                ==_iff m' m,
                ==_iff role_id r,
                ==_iff r role_id,
              )
        ]
      ]

  any-kept :
      (g : Uuid → Bool) (m' r : Uuid) (xs : List RolePermission)
      → any
          (λ (x : RolePermission). is_permission_of_role m' r x && g x.permission_id)
          (filter (λ (x : RolePermission). not (is_permission_of_role m role_id x)) xs)
        ≡ (if m' == m && r == role_id
            then false
            else any (λ (x : RolePermission). is_permission_of_role m' r x && g x.permission_id) xs)
  unfolding filter is_permission_of_role
  any-kept g m' r [] = ground arith
  any-kept g m' r (x ∷ xs) = ground (
    arith,
    any-kept g m' r xs,
    ==_iff m' m,
    ==_iff r role_id,
    ==_iff x.merchant_id m,
    ==_iff x.merchant_id m',
    ==_iff x.role_id role_id,
    ==_iff x.role_id r,
  )

-- The tables after the permissions of a role were replaced.
abbrev pub permitted : Uuid → Uuid → List String → Db → Db
permitted m role_id keys db = record db {
  access = record db.access {
    role_permissions =
        filter (λ (x : RolePermission). not (is_permission_of_role m role_id x))
          db.access.role_permissions
        ++ map (new_role_permission m role_id) (assignable_permissions keys db.access.permissions);
  };
}

replace_role_permissions-permitted :
    (collation : Collation) (m role_id : Uuid) (keys : List String) (db : Db)
    {role : ManagedRoleRecord} {db' : Db}
    → replace_role_permissions collation m role_id keys db ≡ (ok (updated role), db')
    → permitted m role_id keys db ≡ db'
unfolding replace_role_permissions write_role_permissions create_role_permissions
    delete_role_permissions
replace_role_permissions-permitted collation m role_id keys db {role} {db'} e =
    let added = assignable_permissions keys db.access.permissions in
    elim (Option-cases (find (is_role m role_id) db.access.roles)) [
      | inl missing ↦ absurd (ground (arith, missing, e))
      | inr (r, f) ↦ elim (Bool-cases (length added == length keys)) [
        | inr few ↦ absurd (ground (arith, f, few, e))
        | inl enough ↦
            let rows =
              filter (λ (x : RolePermission). not (is_permission_of_role m role_id x))
                db.access.role_permissions in
            elim (Bool-cases (
              not (is_distinct (permission_ids added))
              || any (has_one_of role_id (permission_ids added)) rows)) [
                | inl taken ↦ absurd (ground (arith, f, enough, taken, e))
                | inr free ↦ ground (arith, f, enough, free, e)
              ]
      ]
    ]

-- After the permissions of a role were replaced, where an identifier finds its one permission, the
-- role grants a permission exactly when its key was asked for and is that of an active permission;
-- what the other roles grant has not changed.
pub replace_role_permissions-grants :
    (collation : Collation) (m role_id m' r : Uuid) (keys : List String) (k : String) (db : Db)
    {role : ManagedRoleRecord} {db' : Db}
    → IsKeyed db.access.permissions db.access.permissions
    → replace_role_permissions collation m role_id keys db ≡ (ok (updated role), db')
    → role_grants m' r k db'.access ≡ (
        if m' == m && r == role_id
        then has_key k keys && is_active_key k db.access.permissions
        else role_grants m' r k db.access)
unfolding role_grants
replace_role_permissions-grants collation m role_id m' r keys k db {role} {db'} keyed e =
    let table = db.access.permissions in
    let after = replace_role_permissions-permitted collation m role_id keys db e in
    let kept =
      any-kept m role_id k table (λ id. permission_grants k (find (is_permission id) table)) m' r
        db.access.role_permissions in
    let created = any-created m role_id k table m' r keys table keyed in
    rw (← after) (
      any-append
        (λ (x : RolePermission).
          is_permission_of_role m' r x
          && permission_grants k (find (is_permission x.permission_id) table))
        (filter (λ (x : RolePermission). not (is_permission_of_role m role_id x))
          db.access.role_permissions)
        (map (new_role_permission m role_id) (assignable_permissions keys table))
      ∙ rw (kept, created)
          (elim (Bool-cases (m' == m && r == role_id)) [
            | inl own ↦ rw own refl
            | inr other ↦ rw other (ground arith)
          ]))
