-- ===== src/AccessManagement/Assigned.antt =====
-- What members may do once their roles are changed: proofs about
-- AccessManagement.antt and Authorization.antt together.
use tteeka.Prelude.{
  ◌≡◌, refl, ap, ◌∙◌, inl, inr, Bool, false, not, some, String, List, [], ◌∷◌, ◌++◌, map, ◌==◌,
  ◌&&◌, ◌||◌, any, any-append, length, ==_iff, arith, Bool-cases, Option-cases, if◌then◌else◌,
}
use tteeka.Prelude.Table.{find, filter}
use tteeka.Schema.{Db, Uuid, AccessTables, MembershipRole}
use tteeka.Store.{ok}
use tteeka.Authorization.{
  Answer, ResolvedMerchantContext, is_role, is_role_of, resolve, can_activate,
}
use tteeka.Authorization.Granted.{granted_by, role_grants, grants, resolve-grants}
use tteeka.AccessManagement.{
  Collation, StaffRecord, updated, is_membership, assignable_roles, is_distinct, is_assigned,
  new_membership_role, delete_membership_roles, create_membership_roles, write_membership_roles,
  replace_membership_roles,
}

module _ (m id : Uuid) (g : Uuid → Bool) where
  -- Of the rows that were there, those of other members stay.
  any-kept :
      (i : Uuid) (xs : List MembershipRole)
      → any
          (λ (x : MembershipRole). is_role_of m i x && g x.role_id)
          (filter (λ (x : MembershipRole). not (is_role_of m id x)) xs)
        ≡ (if i == id
            then false
            else any (λ (x : MembershipRole). is_role_of m i x && g x.role_id) xs)
  unfolding filter is_role_of
  any-kept i [] = ground arith
  any-kept i (x ∷ xs) =
      ground
        (arith, any-kept i xs, ==_iff i id, ==_iff x.membership_id i, ==_iff x.membership_id id)

  any-created :
      (i : Uuid) (ids : List Uuid)
      → any
          (λ (x : MembershipRole). is_role_of m i x && g x.role_id)
          (map (new_membership_role m id) ids)
        ≡ (if i == id then any g ids else false)
  unfolding is_role_of
  any-created i [] = ground arith
  any-created i (x ∷ xs) = ground (arith, any-created i xs, ==_iff i id, ==_iff id i, ==_iff m m)

-- The tables after the roles of a member were replaced.
abbrev pub assigned : Uuid → Uuid → List Uuid → Db → Db
assigned m id ids db = record db {
  access = record db.access {
    membership_roles =
        filter (λ (x : MembershipRole). not (is_role_of m id x)) db.access.membership_roles
        ++ map (new_membership_role m id) ids;
  };
}

-- What a role with this identifier grants.
unfoldable pub role_id_grants : Uuid → String → AccessTables → Uuid → Bool
role_id_grants m k db role_id = granted_by m k db (find (is_role m role_id) db.roles)

grants-assigned :
    (m i id : Uuid) (k : String) (ids : List Uuid) (db : Db)
    → grants m i k (assigned m id ids db).access
      ≡ (if i == id then any (role_id_grants m k db.access) ids else grants m i k db.access)
unfolding grants role_grants role_id_grants
grants-assigned m i id k ids db =
    let g = role_id_grants m k db.access in
    let kept = any-kept m id g i db.access.membership_roles in
    let created = any-created m id g i ids in
    any-append (λ (x : MembershipRole). is_role_of m i x && g x.role_id)
      (filter (λ (x : MembershipRole). not (is_role_of m id x)) db.access.membership_roles)
      (map (new_membership_role m id) ids)
    ∙ rw (kept, created)
        (elim (Bool-cases (i == id)) [
          | inl own ↦ rw own refl
          | inr other ↦ rw other (ground arith)
        ])

replace_membership_roles-assigned :
    (collation : Collation) (m id : Uuid) (ids : List Uuid) (db : Db) {staff : StaffRecord}
    {db' : Db}
    → replace_membership_roles collation m id ids db ≡ (ok (updated staff), db')
    → assigned m id ids db ≡ db'
unfolding replace_membership_roles write_membership_roles create_membership_roles
    delete_membership_roles
replace_membership_roles-assigned collation m id ids db {staff} {db'} e =
    elim (Option-cases (find (is_membership m id) db.access.memberships)) [
      | inl missing ↦ absurd (ground (arith, missing, e))
      | inr (x, f) ↦ elim (Bool-cases (length (assignable_roles m ids db) == length ids)) [
        | inr few ↦ absurd (ground (arith, f, few, e))
        | inl enough ↦
            let rows =
              filter (λ (y : MembershipRole). not (is_role_of m id y)) db.access.membership_roles in
            elim (Bool-cases (not (is_distinct ids) || any (is_assigned id ids) rows)) [
              | inl taken ↦ absurd (ground (arith, f, enough, taken, e))
              | inr free ↦ ground (arith, f, enough, free, e)
            ]
      ]
    ]

-- After the roles of a member were replaced, the guard allows a request that needs a permission to
-- the member exactly when one of the roles that were asked for is active and has the permission,
-- an active one; and it answers the merchant's other members by what the tables granted before.
pub replace_membership_roles-resolve :
    (collation : Collation) (m id user_id : Uuid) (ids : List Uuid) (k : String) (db : Db)
    {staff : StaffRecord} {db' : Db} {context : ResolvedMerchantContext}
    → replace_membership_roles collation m id ids db ≡ (ok (updated staff), db')
    → resolve user_id m db'.access ≡ some context
    → can_activate (some k) (some context) ≡ (
        if if context.membership_id == id
          then any (role_id_grants m k db.access) ids
          else grants m context.membership_id k db.access
        then Answer.allowed
        else Answer.forbidden)
replace_membership_roles-resolve collation m id user_id ids k db {staff} {db'} {context} e r =
    let after = replace_membership_roles-assigned collation m id ids db e in
    let granted : grants m context.membership_id k db'.access ≡ (
        if context.membership_id == id
        then any (role_id_grants m k db.access) ids
        else grants m context.membership_id k db.access) =
      rw (← after) (grants-assigned m context.membership_id id k ids db) in
    (resolve-grants user_id m k db'.access r).1
    ∙ ap (λ b. if b then Answer.allowed else Answer.forbidden) granted
