-- ===== src/Auth.antt =====
-- Sign-in and sessions: apps/api/src/auth/auth.service.ts and prisma-auth.store.ts, and the format of
-- a session token of packages/security/src/session-token.ts.
pub mod Login
pub mod Revoked
use tteeka.Prelude.{
  ℕ, ◌+◌, ◌*◌, Bool, true, false, not, Option, none, some, String, List, [], ◌∷◌, ◌++◌, leb, ◌==◌,
  ◌&&◌, ◌||◌, is_some, if◌then◌else◌,
}
use tteeka.Prelude.Table.{find, update_where}
use tteeka.Prelude.Texts.{str_eq, text_length, all_units}
use tteeka.Schema.{Db, Uuid, Date, AccessTables, User, UserStatus, PasswordCredential, Session}
use tteeka.Store.{
  Env, Store, pure, raise, gets, modify, raise_if, or_raise, unique_violation, session_token,
  unauthorized, ◌>>=◌, ◌>>◌,
}
use tteeka.AccessManagement.{is_active_user}

-- Argon2, SHA-256, the random bytes of a token in base64url, the number of bytes that Node's base64url
-- decoder gives, and the configuration `sessionTtlSeconds` and `sessionTouchIntervalSeconds`.
pub record Security : Type 0 where
  pub verify_password : String → String → Bool
  pub password_needs_rehash : String → Bool
  pub hash_password : String → Db → String
  pub hash_session_token : String → String
  pub random_token : Db → String
  pub decoded_length : String → ℕ
  pub session_ttl_seconds : ℕ
  pub session_touch_interval_seconds : ℕ

-- `[A-Za-z0-9_-]`
abbrev pub is_token_unit : ℕ → Bool
is_token_unit c =
    (leb 65 c && leb c 90)
    || (leb 97 c && leb c 122)
    || (leb 48 c && leb c 57)
    || c == 95
    || c == 45

-- `isSessionTokenFormat` of a text
unfoldable pub is_session_token_format : Security → String → Bool
is_session_token_format security token =
    text_length token == 43 && all_units is_token_unit token && security.decoded_length token == 32

pub record LoginMetadata : Type 0 where
  pub user_agent : Option String
  pub ip_address : Option String

pub record IssuedLogin : Type 0 where
  pub user_id : Uuid
  pub display_name : String
  pub expires_at : Date
  pub token : String

pub record AuthenticatedPrincipal : Type 0 where
  pub user_id : Uuid
  pub display_name : String
  pub session_id : Uuid
  pub expires_at : Date

unfoldable pub has_phone : String → User → Bool
has_phone phone u = str_eq u.phone_e164 phone

unfoldable pub is_user : Uuid → User → Bool
is_user id u = u.id == id

unfoldable pub is_credential_of : Uuid → PasswordCredential → Bool
is_credential_of user_id c = c.user_id == user_id

unfoldable pub has_token_hash : String → Session → Bool
has_token_hash hash s = str_eq s.token_hash hash

-- `updateCredentialHash`
unfoldable pub update_credential_hash : Uuid → String → Db → Db
update_credential_hash id hash db = record db {
  access = record db.access {
    credentials =
        update_where (λ (c : PasswordCredential). c.id == id)
          (λ (c : PasswordCredential). record c { password_hash = hash }) db.access.credentials;
  };
}

abbrev pub new_session : Env → Uuid → String → Date → LoginMetadata → Db → Session
new_session env user_id hash expires_at metadata db = record {
  id = env.fresh_id db;
  user_id = user_id;
  token_hash = hash;
  last_used_at = env.db_now db;
  expires_at = expires_at;
  revoked_at = none;
  user_agent = metadata.user_agent;
  ip_address = metadata.ip_address;
}

abbrev pub save_sessions : List Session → Db → Db
save_sessions sessions db = record db { access = record db.access { sessions = sessions } }

-- `createSession`, which the unique token hash may refuse
unfoldable pub create_session : Session → Store (Unit {0})
create_session s db =
    (if is_some (find (has_token_hash s.token_hash) db.access.sessions)
        then raise (unique_violation session_token)
        else modify (λ t. save_sessions (t.access.sessions ++ s ∷ []) t))
      db

-- What follows once the password matches.
unfoldable pub issue_login :
    Env → Security → User → PasswordCredential → String → LoginMetadata → Date → Store IssuedLogin
unfolding update_credential_hash create_session
issue_login env security u c password metadata issued_at = do
  hash ← gets (security.hash_password password)
  modify (λ db.
      if security.password_needs_rehash c.password_hash
      then update_credential_hash c.id hash db
      else db)
  token ← gets security.random_token
  let expires_at = issued_at + security.session_ttl_seconds * 1000
  planned ← gets (new_session env u.id (security.hash_session_token token) expires_at metadata)
  create_session planned
  pure record {
    user_id = u.id;
    display_name = u.display_name;
    expires_at = expires_at;
    token = token;
  }

unfoldable pub login : Env → Security → String → String → LoginMetadata → Date → Store IssuedLogin
unfolding issue_login
login env security phone password metadata issued_at = do
  found ← gets (λ db. find (has_phone phone) db.access.users)
  u ← or_raise found unauthorized
  credential ← gets (λ db. find (is_credential_of u.id) db.access.credentials)
  c ← or_raise credential unauthorized
  raise_if
      (not (security.verify_password password c.password_hash) || not (is_active_user u.status))
      unauthorized
  issue_login env security u c password metadata issued_at

-- `touchSessionLastUsedAt`; the threshold is `now` less the interval.
unfoldable pub touch_session : Uuid → ℕ → Date → Db → Db
touch_session id interval now db =
    save_sessions
      (update_where (λ (s : Session). s.id == id && leb (s.last_used_at + interval) now)
        (λ (s : Session). record s { last_used_at = now }) db.access.sessions)
      db

-- The test of a session and its user; a foreign key makes the user be there.
abbrev pub is_usable : Date → Session → User → Bool
is_usable now s u =
    not (is_some s.revoked_at) && not (leb s.expires_at now) && is_active_user u.status

unfoldable pub authenticate_session_token : Security → String → Date → Store AuthenticatedPrincipal
unfolding touch_session
authenticate_session_token security token now = do
  found ← gets (λ db. find (has_token_hash (security.hash_session_token token)) db.access.sessions)
  s ← or_raise found unauthorized
  user ← gets (λ db. find (is_user s.user_id) db.access.users)
  u ← or_raise user unauthorized
  raise_if (not (is_usable now s u)) unauthorized
  let interval = security.session_touch_interval_seconds * 1000
  modify
      (λ db. if leb (s.last_used_at + interval) now then touch_session s.id interval now db else db)
  pure record {
    user_id = u.id;
    display_name = u.display_name;
    session_id = s.id;
    expires_at = s.expires_at;
  }

-- `canActivate` of session-auth.guard.ts, on the text of the cookie
unfoldable pub session_guard : Security → String → Date → Store AuthenticatedPrincipal
unfolding authenticate_session_token is_session_token_format
session_guard security token now = do
  raise_if (not (is_session_token_format security token)) unauthorized
  authenticate_session_token security token now

-- `updateMany({ where: { …, revokedAt: null }, data: { revokedAt } })`
unfoldable pub revoke_where : (Session → Bool) → Date → Db → Db
revoke_where test revoked_at db =
    save_sessions
      (update_where (λ (s : Session). test s && not (is_some s.revoked_at))
        (λ (s : Session). record s { revoked_at = some revoked_at }) db.access.sessions)
      db

unfoldable pub logout : Security → String → Date → Store (Unit {0})
unfolding revoke_where is_session_token_format
logout security token revoked_at =
    if is_session_token_format security token
    then modify (revoke_where (has_token_hash (security.hash_session_token token)) revoked_at)
    else pure tt

unfoldable pub logout_all : Uuid → Date → Store (Unit {0})
unfolding revoke_where
logout_all user_id revoked_at =
    modify (revoke_where (λ (s : Session). s.user_id == user_id) revoked_at)
