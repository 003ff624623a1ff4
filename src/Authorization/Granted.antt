-- ===== src/Authorization/Granted.antt =====
-- The permissions of a resolved context are those that the tables grant: proofs about
-- Authorization.antt.
use tteeka.Prelude.{
  ◌≡◌, refl, ap, ◌∙◌, Bool, true, false, Option, none, some, String, List, [], ◌∷◌, ◌++◌, ◌&&◌,
  ◌||◌, inl, inr, ==_iff, any, arith, Bool-cases, Option-cases, if◌then◌else◌,
}
use tteeka.Prelude.Table.{find, filter, find_holds}
use tteeka.Prelude.Texts.{str_eq, str_eq_iff}
use tteeka.Schema.{
  Uuid, AccessTables, Merchant, MerchantStatus, Membership, MembershipStatus, Role, MembershipRole,
  Permission, RolePermission,
}
use tteeka.Authorization.{
  PermissionRecord, RoleRecord, ResolvedMerchantContext, is_membership_of, is_merchant, is_role,
  is_permission, is_permission_of_role, is_role_of, joined_permissions, role_record, joined_roles,
  context_record, find_merchant_context, is_active_membership, is_active_merchant, is_active_role,
  is_active_permission, insert_role, sort_roles, active_roles, has_key, add_key, add_permissions,
  add_roles, insert_key, sort_keys, resolved_context, resolve, has_permission, Answer, can_activate,
}

-- The tables grant a permission through a row that exists, an active one.
abbrev pub permission_grants : String → Option Permission → Bool
permission_grants k none = false
permission_grants k (some p) = is_active_permission p.status && str_eq k p.key

unfoldable pub role_grants : Uuid → Uuid → String → AccessTables → Bool
role_grants m role_id k db =
    any
      (λ (x : RolePermission).
        is_permission_of_role m role_id x
        && permission_grants k (find (is_permission x.permission_id) db.permissions))
      db.role_permissions

abbrev pub granted_by : Uuid → String → AccessTables → Option Role → Bool
granted_by m k db none = false
granted_by m k db (some r) = is_active_role r.status && role_grants m r.id k db

-- The membership has an active role, which has the key's permission, an active one.
unfoldable pub grants : Uuid → Uuid → String → AccessTables → Bool
grants m membership_id k db =
    any
      (λ (x : MembershipRole).
        is_role_of m membership_id x && granted_by m k db (find (is_role m x.role_id) db.roles))
      db.membership_roles

-- What records grant.
unfoldable record_grants : String → PermissionRecord → Bool
record_grants k p = is_active_permission p.status && str_eq k p.key

unfoldable role_record_grants : String → RoleRecord → Bool
role_record_grants k r = any (record_grants k) r.permissions

has_key-insert_key :
    (k x : String) (xs : List String) → has_key k (insert_key x xs) ≡ (str_eq k x || has_key k xs)
unfolding has_key insert_key
has_key-insert_key k x [] = refl
has_key-insert_key k x (y ∷ ys) = ground (arith, has_key-insert_key k x ys)

has_key-sort_keys : (k : String) (xs : List String) → has_key k (sort_keys xs) ≡ has_key k xs
unfolding has_key sort_keys
has_key-sort_keys k [] = refl
has_key-sort_keys k (x ∷ xs) =
    ground (arith, has_key-insert_key k x (sort_keys xs), has_key-sort_keys k xs)

has_key-append :
    (k x : String) (xs : List String) → has_key k (xs ++ x ∷ []) ≡ (has_key k xs || str_eq k x)
unfolding has_key
has_key-append k x [] = ground arith
has_key-append k x (y ∷ ys) = ground (arith, has_key-append k x ys)

has_key-add_key :
    (k x : String) (xs : List String) → has_key k (add_key x xs) ≡ (has_key k xs || str_eq k x)
unfolding add_key
has_key-add_key k x xs = elim (Bool-cases (has_key x xs)) [
  | inr new ↦ rw new (has_key-append k x xs)
  | inl known ↦ elim (Bool-cases (str_eq k x)) [
    | inr other ↦ rw (known, other) (ground arith)
    | inl same ↦
        let equal : k ≡ x = (str_eq_iff k x).0 same in rw known (rw equal (rw known (ground arith)))
  ]
]

has_key-add_permissions :
    (k : String) (ps : List PermissionRecord) (xs : List String)
    → has_key k (add_permissions ps xs) ≡ (has_key k xs || any (record_grants k) ps)
unfolding add_permissions record_grants
has_key-add_permissions k [] xs = ground arith
has_key-add_permissions k (p ∷ ps) xs = elim (Bool-cases (is_active_permission p.status)) [
  | inl active ↦
      ground
        (arith, active, has_key-add_permissions k ps (add_key p.key xs), has_key-add_key k p.key xs)
  | inr not_active ↦ ground (arith, not_active, has_key-add_permissions k ps xs)
]

has_key-add_roles :
    (k : String) (rs : List RoleRecord) (xs : List String)
    → has_key k (add_roles rs xs) ≡ (has_key k xs || any (role_record_grants k) rs)
unfolding add_roles role_record_grants
has_key-add_roles k [] xs = ground arith
has_key-add_roles k (r ∷ rs) xs = ground (
  arith,
  has_key-add_roles k rs (add_permissions r.permissions xs),
  has_key-add_permissions k r.permissions xs,
)

any-insert_role :
    (f : RoleRecord → Bool) (r : RoleRecord) (rs : List RoleRecord)
    → any f (insert_role r rs) ≡ (f r || any f rs)
unfolding insert_role
any-insert_role f r [] = refl
any-insert_role f r (s ∷ ss) = ground (arith, any-insert_role f r ss)

any-active_roles :
    (f : RoleRecord → Bool) (rs : List RoleRecord)
    → any f (active_roles rs) ≡ any (λ r. is_active_role r.status && f r) rs
unfolding active_roles sort_roles filter
any-active_roles f [] = refl
any-active_roles f (r ∷ rs) = elim (Bool-cases (is_active_role r.status)) [
  | inr ended ↦ rw ended (any-active_roles f rs)
  | inl active ↦
      rw active (any-insert_role f r (active_roles rs) ∙ ap (λ b. f r || b) (any-active_roles f rs))
]

any-joined_permissions :
    (k : String) (m role_id : Uuid) (permissions : List Permission) (xs : List RolePermission)
    → any (record_grants k) (joined_permissions m role_id permissions xs)
      ≡ any
          (λ (x : RolePermission).
            is_permission_of_role m role_id x
            && permission_grants k (find (is_permission x.permission_id) permissions))
          xs
unfolding joined_permissions record_grants
any-joined_permissions k m role_id permissions [] = refl
any-joined_permissions k m role_id permissions (x ∷ xs) =
    let rest = any-joined_permissions k m role_id permissions xs in
    elim (Bool-cases (is_permission_of_role m role_id x)) [
      | inr other ↦ rw other rest
      | inl own ↦ elim (Option-cases (find (is_permission x.permission_id) permissions)) [
        | inl missing ↦ rw (own, missing) rest
        | inr (p, found) ↦
            rw (own, found) (ap (λ b. (is_active_permission p.status && str_eq k p.key) || b) rest)
      ]
    ]

role_record-grants :
    (k : String) (m : Uuid) (db : AccessTables) (r : Role)
    → role_record_grants k (role_record m db r) ≡ role_grants m r.id k db
unfolding role_record_grants role_grants
role_record-grants k m db r = any-joined_permissions k m r.id db.permissions db.role_permissions

any-joined_roles :
    (k : String) (m membership_id : Uuid) (db : AccessTables) (xs : List MembershipRole)
    → any
        (λ (r : RoleRecord). is_active_role r.status && role_record_grants k r)
        (joined_roles m membership_id db xs)
      ≡ any
          (λ (x : MembershipRole).
            is_role_of m membership_id x && granted_by m k db (find (is_role m x.role_id) db.roles))
          xs
unfolding joined_roles
any-joined_roles k m membership_id db [] = refl
any-joined_roles k m membership_id db (x ∷ xs) =
    let rest = any-joined_roles k m membership_id db xs in
    elim (Bool-cases (is_role_of m membership_id x)) [
      | inr other ↦ rw other rest
      | inl own ↦ elim (Option-cases (find (is_role m x.role_id) db.roles)) [
        | inl missing ↦ rw (own, missing) rest
        | inr (r, found) ↦
            rw (own, found, role_record-grants k m db r)
              (ap (λ b. (is_active_role r.status && role_grants m r.id k db) || b) rest)
      ]
    ]

resolved_context-grants :
    (k : String) (db : AccessTables) (x : Membership) (merchant : Merchant)
    → has_permission (resolved_context (context_record db x merchant)) k
      ≡ grants x.merchant_id x.id k db
unfolding resolved_context has_permission grants
resolved_context-grants k db x merchant =
    let rs = joined_roles x.merchant_id x.id db db.membership_roles in
    has_key-sort_keys k (add_roles (active_roles rs) [])
    ∙ has_key-add_roles k (active_roles rs) []
    ∙ any-active_roles (role_record_grants k) rs
    ∙ any-joined_roles k x.merchant_id x.id db db.membership_roles

-- What a context was resolved from.
pub record Member (user_id m : Uuid) (db : AccessTables) (context : ResolvedMerchantContext)
    : Type 0 where
  pub membership : Membership
  pub merchant : Merchant
  pub joined : find (is_membership_of user_id m) db.memberships ≡ some membership
  pub of_merchant : find (is_merchant m) db.merchants ≡ some merchant
  pub member_active : membership.status ≡ MembershipStatus.active
  pub merchant_active : merchant.status ≡ MerchantStatus.active
  pub context_id : context.membership_id ≡ membership.id

active_membership :
    (s : MembershipStatus) → is_active_membership s ≡ true → s ≡ MembershipStatus.active
active_membership MembershipStatus.active h = refl
active_membership MembershipStatus.disabled h = absurd (ground (arith, h))

active_merchant : (s : MerchantStatus) → is_active_merchant s ≡ true → s ≡ MerchantStatus.active
active_merchant MerchantStatus.active h = refl
active_merchant MerchantStatus.suspended h = absurd (ground (arith, h))
active_merchant MerchantStatus.archived h = absurd (ground (arith, h))

of_merchant_m :
    (user_id m : Uuid) (x : Membership) → is_membership_of user_id m x ≡ true → x.merchant_id ≡ m
unfolding is_membership_of
of_merchant_m user_id m x h = (==_iff x.merchant_id m).0 (ground (arith, h))

-- A context that is resolved is of an active membership of the user at an active merchant, and the
-- guard that asks it for a permission allows the request exactly when the tables grant the
-- permission to the membership: through an active role of it and an active permission of the role.
pub resolve-grants :
    (user_id m : Uuid) (k : String) (db : AccessTables) {context : ResolvedMerchantContext}
    → resolve user_id m db ≡ some context
    → Member user_id m db context
      × (can_activate (some k) (some context)
          ≡ (if grants m context.membership_id k db then Answer.allowed else Answer.forbidden))
unfolding resolve find_merchant_context can_activate
resolve-grants user_id m k db {context} e =
    elim (Option-cases (find (is_membership_of user_id m) db.memberships)) [
      | inl none' ↦ absurd (ground (arith, none', e))
      | inr (x, f) ↦ elim (Option-cases (find (is_merchant m) db.merchants)) [
        | inl none' ↦ absurd (ground (arith, f, none', e))
        | inr (merchant, g) ↦
            let made = context_record db x merchant in
            elim (Bool-cases
              (is_active_membership x.status && is_active_merchant merchant.status)) [
                | inr refused ↦ absurd (ground (arith, f, g, refused, e))
                | inl active ↦
                    let same : resolved_context made ≡ context = ground (arith, f, g, active, e) in
                    let of_m : x.merchant_id ≡ m =
                      of_merchant_m user_id m x
                        (find_holds (is_membership_of user_id m) db.memberships f) in
                    let own_id : (resolved_context made).membership_id ≡ x.id =
                      unfold resolved_context in refl in
                    rw (← same) (
                      record {
                        membership = x;
                        merchant = merchant;
                        joined = f;
                        of_merchant = g;
                        member_active = active_membership x.status (ground (arith, active));
                        merchant_active = active_merchant merchant.status (ground (arith, active));
                        context_id = own_id;
                      },
                      rw (resolved_context-grants k db x merchant, own_id, of_m) refl,
                    )
              ]
      ]
    ]
