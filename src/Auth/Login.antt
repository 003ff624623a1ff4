-- ===== src/Auth/Login.antt =====
-- A login gives a token that authenticates its user: proofs about Auth.antt.
use tteeka.Prelude.{
  ◌+◌, ◌*◌, ◌<◌, ◌≡◌, refl, sym, ◌∙◌, inl, inr, Bool, true, not, none, some, String, List, [], ◌∷◌,
  ◌++◌, ◌||◌, All, arith, Bool-cases, Option-cases,
}
use tteeka.Prelude.Table.{find, find-append_none}
use tteeka.Prelude.Texts.{str_eq, str_eq_iff}
use tteeka.Schema.{Db, Date, User, PasswordCredential}
use tteeka.Store.{Env, ok}
use tteeka.AccessManagement.{is_active_user}
use tteeka.Auth.{
  Security, LoginMetadata, IssuedLogin, AuthenticatedPrincipal, has_phone, is_user,
  is_credential_of, has_token_hash, update_credential_hash, new_session, save_sessions,
  create_session, issue_login, login, authenticate_session_token,
}

-- Each user is the one that its identifier finds.
abbrev pub UsersKeyed : List User → List User → Type 0
UsersKeyed table users = All (λ (u : User). find (is_user u.id) table ≡ some u) users

keyed_found :
    (table users : List User) (p : User → Bool) {u : User}
    → UsersKeyed table users
    → find p users ≡ some u
    → find (is_user u.id) table ≡ some u
unfolding find
keyed_found table [] p keyed f = absurd (ground (arith, f))
keyed_found table (v ∷ vs) p {u} keyed f = elim (Bool-cases (p v)) [
  | inr other ↦ keyed_found table vs p keyed.1 (ground (arith, other, f))
  | inl this ↦ let same : v ≡ u = ground (arith, this, f) in rw (← same) keyed.0
]

-- Who has logged in, and with which password.
pub record Credentials (security : Security) (phone password : String) (db : Db)
    (issued : IssuedLogin) : Type 0 where
  pub user : User
  pub credential : PasswordCredential
  pub by_phone : find (has_phone phone) db.access.users ≡ some user
  pub own : find (is_credential_of user.id) db.access.credentials ≡ some credential
  pub matches : security.verify_password password credential.password_hash ≡ true
  pub user_active : is_active_user user.status ≡ true
  pub same_id : issued.user_id ≡ user.id
  pub same_name : issued.display_name ≡ user.display_name

-- The session that is written, on tables with the same users.
record Issued (env : Env) (security : Security) (u : User) (metadata : LoginMetadata)
    (expires_at : Date) (db : Db) (l : IssuedLogin) (db' : Db) : Type 0 where
  before : Db
  same_users : before.access.users ≡ db.access.users
  fresh :
      find
        (has_token_hash (security.hash_session_token (security.random_token before)))
        before.access.sessions
      ≡ none
  after :
      db'
      ≡ save_sessions
          (before.access.sessions
            ++ new_session env u.id
                (security.hash_session_token (security.random_token before))
                expires_at
                metadata
                before
              ∷ [])
          before
  same_id : l.user_id ≡ u.id
  same_name : l.display_name ≡ u.display_name
  expiry : l.expires_at ≡ expires_at
  token : l.token ≡ security.random_token before

issue_login-Issued :
    (env : Env) (security : Security) (u : User) (c : PasswordCredential) (password : String)
    (metadata : LoginMetadata) (issued_at : Date) (db : Db) {l : IssuedLogin} {db' : Db}
    → issue_login env security u c password metadata issued_at db ≡ (ok l, db')
    → Issued env security u metadata (issued_at + security.session_ttl_seconds * 1000) db l db'
unfolding issue_login create_session update_credential_hash
issue_login-Issued env security u c password metadata issued_at db {l} {db'} e =
    let rehashed = update_credential_hash c.id (security.hash_password password db) db in
    elim (Bool-cases (security.password_needs_rehash c.password_hash)) [
      | inl stale ↦
          elim (Option-cases (
            find (has_token_hash (security.hash_session_token (security.random_token rehashed)))
              db.access.sessions)) [
                | inr (s, taken) ↦ absurd (ground (arith, stale, taken, e))
                | inl fresh ↦ record {
                  before = rehashed;
                  same_users = refl;
                  fresh = fresh;
                  after = ground (arith, stale, fresh, e);
                  same_id = ground (arith, stale, fresh, e);
                  same_name = ground (arith, stale, fresh, e);
                  expiry = ground (arith, stale, fresh, e);
                  token = ground (arith, stale, fresh, e);
                }
              ]
      | inr good ↦
          elim (Option-cases (
            find (has_token_hash (security.hash_session_token (security.random_token db)))
              db.access.sessions)) [
                | inr (s, taken) ↦ absurd (ground (arith, good, taken, e))
                | inl fresh ↦ record {
                  before = db;
                  same_users = refl;
                  fresh = fresh;
                  after = ground (arith, good, fresh, e);
                  same_id = ground (arith, good, fresh, e);
                  same_name = ground (arith, good, fresh, e);
                  expiry = ground (arith, good, fresh, e);
                  token = ground (arith, good, fresh, e);
                }
              ]
    ]

login-Credentials :
    (env : Env) (security : Security) (phone password : String) (metadata : LoginMetadata)
    (issued_at : Date) (db : Db) {l : IssuedLogin} {db' : Db}
    → login env security phone password metadata issued_at db ≡ (ok l, db')
    → (who : Credentials security phone password db l) × Issued env security who.user metadata
        (issued_at + security.session_ttl_seconds * 1000)
        db
        l
        db'
unfolding login
login-Credentials env security phone password metadata issued_at db {l} {db'} e =
    elim (Option-cases (find (has_phone phone) db.access.users)) [
      | inl nobody ↦ absurd (ground (arith, nobody, e))
      | inr (u, f) ↦ elim (Option-cases (find (is_credential_of u.id) db.access.credentials)) [
        | inl missing ↦ absurd (ground (arith, f, missing, e))
        | inr (c, g) ↦
            elim (Bool-cases (
              not (security.verify_password password c.password_hash)
              || not (is_active_user u.status))) [
                | inl refused ↦ absurd (ground (arith, f, g, refused, e))
                | inr accepted ↦
                    let run : issue_login env security u c password metadata issued_at db
                        ≡ (ok l, db') =
                      ground (arith, f, g, accepted, e) in
                    let w =
                      issue_login-Issued env security u c password metadata issued_at db run in
                    (
                      record {
                        user = u;
                        credential = c;
                        by_phone = f;
                        own = g;
                        matches = ground (arith, accepted);
                        user_active = ground (arith, accepted);
                        same_id = w.same_id;
                        same_name = w.same_name;
                      },
                      w,
                    )
              ]
      ]
    ]

-- A fresh session is found by its token and serves until it expires.
authenticates_fresh :
    (env : Env) (security : Security) (u : User) (metadata : LoginMetadata) (token : String)
    (expires_at now : Date) (before : Db)
    → find (has_token_hash (security.hash_session_token token)) before.access.sessions ≡ none
    → find (is_user u.id) before.access.users ≡ some u
    → is_active_user u.status ≡ true
    → now < expires_at
    → let s = new_session env u.id (security.hash_session_token token) expires_at metadata before in
      (authenticate_session_token security token now
        (save_sessions (before.access.sessions ++ s ∷ []) before)).0
      ≡ ok record {
        user_id = u.id;
        display_name = u.display_name;
        session_id = s.id;
        expires_at = expires_at;
      }
unfolding authenticate_session_token
authenticates_fresh env security u metadata token expires_at now before fresh user active in_time =
    let hash = security.hash_session_token token in
    let s = new_session env u.id hash expires_at metadata before in
    let own : str_eq hash hash ≡ true = (str_eq_iff hash hash).1 refl in
    let found : find (has_token_hash hash) (before.access.sessions ++ s ∷ []) ≡ some s =
      find-append_none (has_token_hash hash) before.access.sessions (s ∷ []) fresh
      ∙ unfold find has_token_hash in rw own refl in
    ground (arith, found, user, active, in_time)

-- A login that returns was made with the password of an active user with this phone number, and
-- its token authenticates that user at every time before the login expires, where an identifier
-- finds its one user.
pub login_authenticates :
    (env : Env) (security : Security) (phone password : String) (metadata : LoginMetadata)
    (issued_at now : Date) (db : Db) {l : IssuedLogin} {db' : Db}
    → UsersKeyed db.access.users db.access.users
    → login env security phone password metadata issued_at db ≡ (ok l, db')
    → now < l.expires_at
    → Credentials security phone password db l
      × ((p : AuthenticatedPrincipal) × ((authenticate_session_token security l.token now db').0
            ≡ ok p)
          × (p.user_id ≡ l.user_id)
          × (p.display_name ≡ l.display_name)
          × (p.expires_at ≡ l.expires_at))
login_authenticates env security phone password metadata issued_at now db {l} {db'} keyed e
      in_time =
    let (who, w) = login-Credentials env security phone password metadata issued_at db e in
    let u = who.user in
    let expires_at = issued_at + security.session_ttl_seconds * 1000 in
    (
      who,
      (
        record {
          user_id = u.id;
          display_name = u.display_name;
          session_id = env.fresh_id w.before;
          expires_at = expires_at;
        },
        rw (w.after, w.token)
            (authenticates_fresh env security u metadata (security.random_token w.before) expires_at
              now w.before w.fresh
              (rw w.same_users
                (keyed_found db.access.users db.access.users (has_phone phone) keyed who.by_phone))
              who.user_active (omega (arith, w.expiry))),
        sym who.same_id,
        sym who.same_name,
        sym w.expiry,
      ),
    )
