-- ===== src/Onboarding/Registered.antt =====
-- What a new user can do: proofs about Onboarding.antt, Auth.antt and Authorization.antt together.
use tteeka.Prelude.{
  ◌+◌, ◌*◌, ◌≡◌, refl, sym, ap, ◌∙◌, inl, inr, true, false, none, some, String, [], ◌∷◌, ◌++◌, ◌==◌,
  any, length, arith, ==_refl, Bool-cases, Option-cases,
}
use tteeka.Prelude.Table.{find, filter, find-append_none}
use tteeka.Prelude.Texts.{str_eq, str_eq_iff}
use tteeka.Schema.{
  Db, Uuid, Key, Date, AccessTables, User, UserStatus, PasswordCredential, OnboardingKind,
  OnboardingCommand,
}
use tteeka.Store.{
  Env, ok, Outcome-cases, is_unique_violation, guarded-eq-ok, duplicate_phone, raise, catch_unique,
}
use tteeka.Authorization.{Answer, ResolvedMerchantContext, has_key, resolve, can_activate}
use tteeka.AccessManagement.Permitted.{IsKeyed}
use tteeka.Auth.{
  Security, LoginMetadata, IssuedLogin, has_phone, is_credential_of, has_token_hash, create_session,
  update_credential_hash, issue_login, login,
}
use tteeka.Onboarding.{
  Requests, RegistrationRequest, OnboardingResult, sync_application_permissions, is_command,
  insert_command, new_command, is_active_of, create_workspace_graph, open_workspace,
  create_initial_workspace, new_user, add_user, register_phone, register_locked, register,
}
use tteeka.Onboarding.Catalog.{application_permission_keys}
use tteeka.Onboarding.Owner.{
  IsUnused, find-weaker, IsOpened, with_commands-IsOpened, create_workspace_graph-IsOpened,
  owner_allowed,
}
use tteeka.Onboarding.Owner.Counted.{
  IsUniqueKeyed, has_distinct_keys, has_distinct_keys-IsUniqueKeyed,
}

-- The tables that a request meets: the permissions are those of the catalogue and what others
-- committed is seen.
abbrev pub met : Env → Db → Db
met env db = env.waited (sync_application_permissions env db).1

-- The guard lets the user do everything at the merchant.
abbrev pub IsOwner : Uuid → Uuid → AccessTables → Type 0
IsOwner user_id m t =
    (k : String)
    → has_key k application_permission_keys ≡ true
    → (context : ResolvedMerchantContext) × (resolve user_id m t ≡ some context)
      × (can_activate (some k) (some context) ≡ Answer.allowed)

-- The tables in which a workspace was opened for a user of a merchant whose identifier was unused.
IsOpened-IsOwner :
    {user_id : Uuid} {name : String} {t : AccessTables} {result : OnboardingResult}
    {t' : AccessTables}
    → IsOpened user_id name t result t'
    → IsUnused result.merchant_id t
    → IsKeyed t.permissions t.permissions
    → IsUniqueKeyed t.permissions
    → (result.user_id ≡ user_id) × IsOwner result.user_id result.merchant_id t'
IsOpened-IsOwner {user_id} {name} {t} {result} {t'} w unused keyed unique =
    let same_user : result.user_id ≡ user_id = ap (λ (r : OnboardingResult). r.user_id) w.answer in
    let same_merchant : result.merchant_id ≡ w.merchant.id =
      ap (λ (r : OnboardingResult). r.merchant_id) w.answer in
    let unused' : IsUnused w.merchant.id t = rw (← same_merchant) unused in
    (
      same_user,
      rw (same_user, same_merchant)
          (λ k h. owner_allowed user_id name t t' result w unused' k keyed unique h),
    )

-- A workspace that was opened, and its command recorded.
create_and_record :
    (env : Env) (requests : Requests) (user_id : Uuid) (name : String)
    (c : OnboardingResult → OnboardingCommand) (db : Db) {result : OnboardingResult} {db₁ db' : Db}
    → create_workspace_graph env requests user_id name db ≡ (ok result, db₁)
    → insert_command (c result) db₁ ≡ (ok tt, db')
    → IsOpened user_id name db.access result db'.access
unfolding insert_command
create_and_record env requests user_id name c db {result} {db₁} {db'} e f =
    let w = (create_workspace_graph-IsOpened env requests user_id name db e).0 in
    let made = c result in
    elim (Option-cases
      (find (is_command made.kind made.subject made.idempotency_key) db₁.access.commands)) [
        | inr (old, taken) ↦ absurd (ground (arith, taken, f))
        | inl fresh ↦
            let same : (record db₁.access { commands = db₁.access.commands ++ made ∷ [] })
                ≡ db'.access =
              ground (arith, fresh, f) in
            rw (← same) (with_commands-IsOpened (db₁.access.commands ++ made ∷ []) w)
      ]

open_workspace-IsOpened :
    (env : Env) (requests : Requests) (user_id : Uuid) (name : String) (key : Key) (db : Db)
    {result : OnboardingResult} {db' : Db}
    → open_workspace env requests user_id name key db ≡ (ok result, db')
    → IsOpened user_id name db.access result db'.access
unfolding open_workspace
open_workspace-IsOpened env requests user_id name key db {result} {db'} e =
    elim (Bool-cases (length (filter (is_active_of user_id) db.access.memberships) == 0)) [
      | inr member ↦ absurd (ground (arith, member, e))
      | inl free ↦ elim (Outcome-cases (create_workspace_graph env requests user_id name db)) [
        | inr (x, db₁, refused) ↦ absurd (ground (arith, free, refused, e))
        | inl (made, db₁, done) ↦
            let c =
              new_command OnboardingKind.workspace (some user_id) key
                (requests.workspace_hash name) in
            elim (Outcome-cases (insert_command (c made) db₁)) [
              | inr (x, db₂, refused) ↦ absurd (ground (arith, free, done, refused, e))
              | inl (u, db₂, recorded) ↦
                  let same : made ≡ result = ground (arith, free, done, recorded, e) in
                  let same_db : db₂ ≡ db' = ground (arith, free, done, recorded, e) in
                  rw (← same, ← same_db)
                    (create_and_record env requests user_id name c db done recorded)
            ]
      ]
    ]

-- A user whose first workspace is created by a new request is its owner: the guard allows every
-- permission of the application to the user at the new merchant, where the identifier of the merchant
-- was not in use, and an identifier or a key of a permission has one row.
pub create_initial_workspace-IsOwner :
    (env : Env) (requests : Requests) (user_id : Uuid) (name : String) (key : Key) (db : Db)
    {result : OnboardingResult} {db' : Db}
    → let t = (met env db).access in
      create_initial_workspace env requests user_id name key db ≡ (ok result, db')
      → find (is_command OnboardingKind.workspace (some user_id) key) t.commands ≡ none
      → IsUnused result.merchant_id t
      → IsKeyed t.permissions t.permissions
      → has_distinct_keys t.permissions ≡ true
      → (result.user_id ≡ user_id) × IsOwner user_id result.merchant_id db'.access
unfolding create_initial_workspace
create_initial_workspace-IsOwner env requests user_id name key db {result} {db'} e new unused keyed
      unique =
    elim (Outcome-cases (open_workspace env requests user_id name key (met env db))) [
      | inr (x, db₁, refused) ↦ absurd (ground (arith, new, refused, e))
      | inl (made, db₁, done) ↦
          let same : made ≡ result = ground (arith, new, done, e) in
          let same_db : db₁ ≡ db' = ground (arith, new, done, e) in
          let w : IsOpened user_id name (met env db).access result db'.access =
            rw (← same, ← same_db)
              (open_workspace-IsOpened env requests user_id name key (met env db) done) in
          let (own, owner) =
            IsOpened-IsOwner w unused keyed
              (has_distinct_keys-IsUniqueKeyed (met env db).access.permissions unique) in
          (own, rw (← own) owner)
    ]

-- The user that a registration adds, and the workspace that it opens for the user.
record IsRegistered (env : Env) (input : RegistrationRequest) (password_hash : String) (db : Db)
    (result : OnboardingResult) (db' : Db) : Type 0 where
  user : User
  credential : PasswordCredential
  fresh : find (has_phone input.phone_e164) db.access.users ≡ none
  phone : user.phone_e164 ≡ input.phone_e164
  active : user.status ≡ UserStatus.active
  own : credential.user_id ≡ user.id
  hash : credential.password_hash ≡ password_hash
  users : db'.access.users ≡ db.access.users ++ user ∷ []
  credentials : db'.access.credentials ≡ db.access.credentials ++ credential ∷ []
  before : Db
  same_tables : before.access ≡ record db.access {
    users = db.access.users ++ user ∷ [];
    credentials = db.access.credentials ++ credential ∷ [];
  }
  opened : IsOpened user.id input.business_name before.access result db'.access

register_phone-IsRegistered :
    (env : Env) (requests : Requests) (input : RegistrationRequest) (password_hash : String)
    (key : Key) (db : Db) {result : OnboardingResult} {db' : Db}
    → register_phone env requests input password_hash key db ≡ (ok result, db')
    → IsRegistered env input password_hash db result db'
unfolding register_phone
register_phone-IsRegistered env requests input password_hash key db {result} {db'} e =
    let u = new_user env input db in
    let db₀ = add_user env u password_hash db in
    elim (Option-cases (find (has_phone input.phone_e164) db.access.users)) [
      | inr (other, taken) ↦ absurd (ground (arith, taken, e))
      | inl fresh ↦
          elim (Outcome-cases (create_workspace_graph env requests u.id input.business_name db₀)) [
            | inr (x, db₁, refused) ↦ absurd (ground (arith, fresh, refused, e))
            | inl (made, db₁, done) ↦
                let c =
                  new_command OnboardingKind.register none key (requests.registration_hash input) in
                elim (Outcome-cases (insert_command (c made) db₁)) [
                  | inr (x, db₂, refused) ↦ absurd (ground (arith, fresh, done, refused, e))
                  | inl (v, db₂, recorded) ↦
                      let same : made ≡ result = ground (arith, fresh, done, recorded, e) in
                      let same_db : db₂ ≡ db' = ground (arith, fresh, done, recorded, e) in
                      let w : IsOpened u.id input.business_name db₀.access result db'.access =
                        rw (← same, ← same_db)
                          (create_and_record env requests u.id input.business_name c db₀ done
                            recorded) in
                      record {
                        user = u;
                        credential = record {
                          id = env.fresh_id db;
                          user_id = u.id;
                          password_hash = password_hash;
                        };
                        fresh = fresh;
                        phone = refl;
                        active = refl;
                        own = refl;
                        hash = refl;
                        users = w.users;
                        credentials = w.credentials;
                        before = db₀;
                        same_tables = refl;
                        opened = w;
                      }
                ]
          ]
    ]

-- A user who is there, with the hash of the password, can log in.
login_works :
    (env : Env) (security : Security) (password phone : String) (metadata : LoginMetadata)
    (now : Date) (u : User) (c : PasswordCredential) (db : Db)
    → find (has_phone phone) db.access.users ≡ some u
    → find (is_credential_of u.id) db.access.credentials ≡ some c
    → security.verify_password password c.password_hash ≡ true
    → security.password_needs_rehash c.password_hash ≡ false
    → u.status ≡ UserStatus.active
    → find
        (has_token_hash (security.hash_session_token (security.random_token db)))
        db.access.sessions
      ≡ none
    → (l : IssuedLogin) × ((login env security phone password metadata now db).0 ≡ ok l)
      × (l.user_id ≡ u.id)
unfolding login issue_login create_session update_credential_hash
login_works env security password phone metadata now u c db f g matches good active fresh = (
  record {
    user_id = u.id;
    display_name = u.display_name;
    expires_at = now + security.session_ttl_seconds * 1000;
    token = security.random_token db;
  },
  ground (arith, f, g, matches, good, active, fresh),
  refl,
)

-- A registration under a new key is that of its phone number, on what is seen then.
registering :
    (env : Env) (requests : Requests) (input : RegistrationRequest) (hash : String) (key : Key)
    (first : Db) {result : OnboardingResult} {db' : Db}
    → catch_unique (register_locked env requests input hash key) (raise duplicate_phone) first
      ≡ (ok result, db')
    → find (is_command OnboardingKind.register none key) first.access.commands ≡ none
    → register_phone env requests input hash key (env.waited first) ≡ (ok result, db')
unfolding register_locked
registering env requests input hash key first {result} {db'} e new =
    elim (guarded-eq-ok is_unique_violation (register_phone env requests input hash key)
      (λ _. raise duplicate_phone) (env.waited first) (ground (arith, new, e))) [
        | inr (x, refused) ↦ absurd (ground (arith, refused))
        | inl done ↦ done
      ]

module _ (env : Env) (input : RegistrationRequest) (hash : String) (db : Db)
    (result : OnboardingResult) (db' : Db) (w : IsRegistered env input hash db result db') where
  registered-IsOwner :
      IsUnused result.merchant_id db.access
      → IsKeyed db.access.permissions db.access.permissions
      → IsUniqueKeyed db.access.permissions
      → (result.user_id ≡ w.user.id) × IsOwner result.user_id result.merchant_id db'.access
  registered-IsOwner unused keyed unique =
      let unused₀ : IsUnused result.merchant_id w.before.access = rw w.same_tables record {
        no_merchant = unused.no_merchant;
        no_member = unused.no_member;
        no_role = unused.no_role;
        no_assignment = unused.no_assignment;
        no_permission = unused.no_permission;
      } in
      IsOpened-IsOwner w.opened unused₀ (rw w.same_tables keyed) (rw w.same_tables unique)

  registered_user : find (has_phone input.phone_e164) db'.access.users ≡ some w.user
  unfolding has_phone
  registered_user =
      let own : str_eq w.user.phone_e164 input.phone_e164 ≡ true =
        (str_eq_iff w.user.phone_e164 input.phone_e164).1 w.phone in
      rw w.users (
        find-append_none (has_phone input.phone_e164) db.access.users (w.user ∷ []) w.fresh
        ∙ unfold find in ground (arith, own))

  registered_credential :
      any (is_credential_of w.user.id) db.access.credentials ≡ false
      → find (is_credential_of w.user.id) db'.access.credentials ≡ some w.credential
  unfolding is_credential_of
  registered_credential unused = rw w.credentials (
      find-append_none (is_credential_of w.user.id) db.access.credentials (w.credential ∷ []) (
        find-weaker (is_credential_of w.user.id) (is_credential_of w.user.id) db.access.credentials
          (λ x h. h) unused)
      ∙ unfold find in ground (arith, w.own, ==_refl w.user.id))

-- A new registration that returns lets its user log in at once with the phone number and the
-- password, and makes the user the owner of the new merchant: the guard allows every permission of
-- the application. This holds where the identifiers of the merchant and of the user were not in use,
-- an identifier or a key of a permission has one row, Argon2 verifies its own hash and does not ask
-- to renew it, and the random token of the login is new.
pub register-login :
    (env : Env) (security : Security) (requests : Requests) (input : RegistrationRequest)
    (key : Key) (metadata : LoginMetadata) (now : Date) (db : Db) {result : OnboardingResult}
    {db' : Db}
    → let first = met env db in
      let t = (env.waited first).access in
      let hash = security.hash_password input.password (sync_application_permissions env db).1 in
      register env security requests input key db ≡ (ok result, db')
      → find (is_command OnboardingKind.register none key) first.access.commands ≡ none
      → IsUnused result.merchant_id t
      → any (is_credential_of result.user_id) t.credentials ≡ false
      → IsKeyed t.permissions t.permissions
      → has_distinct_keys t.permissions ≡ true
      → security.verify_password input.password hash ≡ true
      → security.password_needs_rehash hash ≡ false
      → find
          (has_token_hash (security.hash_session_token (security.random_token db')))
          db'.access.sessions
        ≡ none
      → ((l : IssuedLogin) × ((login env security input.phone_e164 input.password metadata now
              db').0
            ≡ ok l)
          × (l.user_id ≡ result.user_id))
        × IsOwner result.user_id result.merchant_id db'.access
unfolding register
register-login env security requests input key metadata now db {result} {db'} e new unused
      unused_user keyed unique matches good fresh_token =
    let first = met env db in
    let hash = security.hash_password input.password (sync_application_permissions env db).1 in
    let w =
      register_phone-IsRegistered env requests input hash key (env.waited first)
        (registering env requests input hash key first e new) in
    let owner =
      registered-IsOwner env input hash (env.waited first) result db' w unused keyed
        (has_distinct_keys-IsUniqueKeyed (env.waited first).access.permissions unique) in
    let (l, works, own) =
      login_works env security input.password input.phone_e164 metadata now w.user w.credential db'
        (registered_user env input hash (env.waited first) result db' w)
        (registered_credential env input hash (env.waited first) result db' w
          (rw (← owner.0) unused_user))
        (rw w.hash matches) (rw w.hash good) w.active fresh_token in
    ((l, works, own ∙ sym owner.0), owner.1)
