-- ===== src/Tests/Sessions.antt =====
-- A member who logs in and out.
use tteeka.Prelude.{◌≡◌, refl, true, some, none, [], ◌∷◌, arith}
use tteeka.Prelude.Table.{find}
use tteeka.Prelude.Texts.{str_eq, text_length, all_units}
use tteeka.Schema.{Db, User, UserStatus, Session}
use tteeka.Store.{ok, err, unauthorized}
use tteeka.Auth.{
  Security, LoginMetadata, IssuedLogin, AuthenticatedPrincipal, has_phone, is_user,
  is_credential_of, has_token_hash, update_credential_hash, create_session, issue_login, login,
  authenticate_session_token, is_session_token_format, logout, logout_all,
}
use tteeka.Auth.Login.{Credentials, UsersKeyed, login_authenticates}
use tteeka.Auth.Revoked.{logs_in, authenticates, run, logout_final}
use tteeka.Tests.{env, shop, no_access}

abbrev pub security : Security
security = record {
  verify_password = str_eq;
  password_needs_rehash = λ hash. str_eq hash "old";
  hash_password = λ password db. password;
  hash_session_token = λ token. token;
  random_token = λ db. "0123456789abcdefghijABCDEFGHIJ0123456789-_x";
  decoded_length = λ token. 32;
  session_ttl_seconds = 60;
  session_touch_interval_seconds = 5;
}

abbrev pub metadata : LoginMetadata
metadata = record { user_agent = none; ip_address = none }

abbrev user : User
user = record {
  id = 5;
  display_name = "Okello";
  phone_e164 = "+256770000000";
  email = none;
  status = UserStatus.active;
}

abbrev shop_with_user : Db
shop_with_user = record shop {
  access = record no_access {
    users = user ∷ [];
    credentials = record { id = 6; user_id = 5; password_hash = "pass" } ∷ [];
  };
}

abbrev session : Session
session = record {
  id = 900;
  user_id = 5;
  token_hash = "0123456789abcdefghijABCDEFGHIJ0123456789-_x";
  last_used_at = 100;
  expires_at = 61000;
  revoked_at = none;
  user_agent = none;
  ip_address = none;
}

abbrev shop_logged_in : Db
shop_logged_in = record shop {
  access = record no_access {
    users = user ∷ [];
    credentials = record { id = 6; user_id = 5; password_hash = "pass" } ∷ [];
    sessions = session ∷ [];
  };
}

abbrev issued : IssuedLogin
issued = record {
  user_id = 5;
  display_name = "Okello";
  expires_at = 61000;
  token = "0123456789abcdefghijABCDEFGHIJ0123456789-_x";
}

login_run :
    login env security "+256770000000" "pass" metadata 1000 shop_with_user
    ≡ (ok issued, shop_logged_in)
unfolding login issue_login update_credential_hash create_session has_phone is_credential_of
    has_token_hash find
login_run = refl

keyed : UsersKeyed (user ∷ []) (user ∷ [])
unfolding is_user find
keyed = (refl, tt)

login_authenticates_example :
    Credentials security "+256770000000" "pass" shop_with_user issued
    × ((p : AuthenticatedPrincipal) × ((authenticate_session_token security issued.token 2000
            shop_logged_in).0
          ≡ ok p)
        × (p.user_id ≡ issued.user_id)
        × (p.display_name ≡ issued.display_name)
        × (p.expires_at ≡ issued.expires_at))
login_authenticates_example =
    login_authenticates env security "+256770000000" "pass" metadata 1000 2000 shop_with_user keyed
      login_run (omega arith)

session_found : find (has_token_hash issued.token) shop_logged_in.access.sessions ≡ some session
unfolding find has_token_hash
session_found = refl

token_format : is_session_token_format security issued.token ≡ true
unfolding is_session_token_format text_length all_units
token_format = refl

logout_final_example :
    let calls =
      logs_in "+256770000000" "pass" metadata 4000 ∷ authenticates issued.token 5000 ∷ [] in
    let after = run env security calls (logout security issued.token 3000 shop_logged_in).1 in
    let after_all = run env security calls (logout_all 5 3000 shop_logged_in).1 in
    (authenticate_session_token security issued.token 6000 after ≡ (err unauthorized, after))
    × (authenticate_session_token security issued.token 6000 after_all
        ≡ (err unauthorized, after_all))
logout_final_example =
    logout_final env security issued.token 3000
      (logs_in "+256770000000" "pass" metadata 4000 ∷ authenticates issued.token 5000 ∷ []) 6000
      shop_logged_in session_found token_format
