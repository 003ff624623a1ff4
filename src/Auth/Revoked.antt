-- ===== src/Auth/Revoked.antt =====
-- A session that was ended stays ended: proofs about Auth.antt.
use tteeka.Prelude.{
  ◌+◌, ◌*◌, ◌≡◌, refl, ◌⊎◌, inl, inr, Bool, true, not, some, String, List, [], ◌∷◌, ◌++◌, leb, ◌==◌,
  ◌&&◌, ◌||◌, is_some, arith, Bool-cases, Option-cases, ==_refl, if◌then◌else◌,
}
use tteeka.Prelude.Table.{find, find-append_some, find_holds, update_where}
use tteeka.Prelude.Texts.{str_eq}
use tteeka.Schema.{Db, Uuid, Date, Session, User, PasswordCredential}
use tteeka.Store.{Env, err, unauthorized}
use tteeka.AccessManagement.{is_active_user}
use tteeka.Auth.{
  Security, LoginMetadata, has_phone, is_user, is_credential_of, has_token_hash,
  update_credential_hash, new_session, create_session, issue_login, login, touch_session, is_usable,
  authenticate_session_token, is_session_token_format, session_guard, revoke_where, logout,
  logout_all,
}

-- A call of the service, each at its own time.
pub data Call : Type 0 where
  logs_in : String → String → LoginMetadata → Date → Call
  authenticates logs_out : String → Date → Call
  logs_out_all : Uuid → Date → Call

pub step : Env → Security → Call → Db → Db
step env security (logs_in phone password metadata now) db =
    (login env security phone password metadata now db).1
step env security (authenticates token now) db = (session_guard security token now db).1
step env security (logs_out token now) db = (logout security token now db).1
step env security (logs_out_all user_id now) db = (logout_all user_id now db).1

pub run : Env → Security → List Call → Db → Db
run env security [] db = db
run env security (c ∷ cs) db = run env security cs (step env security c db)

-- The session that has this token hash was revoked.
pub record IsEnded (hash : String) (sessions : List Session) : Type 0 where
  pub session : Session
  pub known : find (has_token_hash hash) sessions ≡ some session
  pub ended : is_some session.revoked_at ≡ true

-- An update that keeps the hash of a session and its revocation keeps it ended.
update-IsEnded :
    (hash : String) (q : Session → Bool) (f : Session → Session) (sessions : List Session)
    → ((s : Session) → ((f s).token_hash ≡ s.token_hash))
    → ((s : Session) → is_some s.revoked_at ≡ true → is_some (f s).revoked_at ≡ true)
    → IsEnded hash sessions
    → IsEnded hash (update_where q f sessions)
unfolding find update_where has_token_hash
update-IsEnded hash q f [] same kept w = absurd (ground (arith, w.known))
update-IsEnded hash q f (s ∷ ss) same kept w = elim (Bool-cases (str_eq s.token_hash hash)) [
  | inr other ↦
      let later =
        update-IsEnded hash q f ss same kept (record {
          session = w.session;
          known = ground (arith, other, w.known);
          ended = w.ended;
        }) in
      record {
        session = later.session;
        known = ground (arith, other, same s, later.known);
        ended = later.ended;
      }
  | inl this ↦
      let own : s ≡ w.session = ground (arith, this, w.known) in
      let over : is_some s.revoked_at ≡ true = rw own w.ended in
      record {
        session = if q s then f s else s;
        known = ground (arith, this, same s);
        ended = ground (arith, kept s over, over);
      }
]

-- A revocation ends the session that it finds.
revoke-IsEnded :
    (hash : String) (test : Session → Bool) (now : Date) (sessions : List Session) {s : Session}
    → find (has_token_hash hash) sessions ≡ some s
    → test s ≡ true
    → IsEnded hash (
        update_where
          (λ (x : Session). test x && not (is_some x.revoked_at))
          (λ (x : Session). record x { revoked_at = some now })
          sessions)
unfolding find update_where has_token_hash
revoke-IsEnded hash test now [] f t = absurd (ground (arith, f))
revoke-IsEnded hash test now (x ∷ xs) {s} f t = elim (Bool-cases (str_eq x.token_hash hash)) [
  | inr other ↦
      let later = revoke-IsEnded hash test now xs {s = s} (ground (arith, other, f)) t in
      record {
        session = later.session;
        known = ground (arith, other, later.known);
        ended = later.ended;
      }
  | inl this ↦
      let own : x ≡ s = ground (arith, this, f) in
      let tested : test x ≡ true = rw own t in
      elim (Option-cases x.revoked_at) [
        | inl open' ↦ record {
          session = record x { revoked_at = some now };
          known = ground (arith, this, tested, open');
          ended = refl;
        }
        | inr (at, ended) ↦ record {
          session = x;
          known = ground (arith, this, tested, ended);
          ended = ground (arith, ended);
        }
      ]
]

-- A login adds a session at most.
issue_login-sessions :
    (env : Env) (security : Security) (u : User) (c : PasswordCredential) (password : String)
    (metadata : LoginMetadata) (issued_at : Date) (db : Db)
    → let db' = (issue_login env security u c password metadata issued_at db).1 in
      (db'.access.sessions ≡ db.access.sessions)
      ⊎ ((s : Session) × (db'.access.sessions ≡ db.access.sessions ++ s ∷ []))
unfolding issue_login create_session update_credential_hash
issue_login-sessions env security u c password metadata issued_at db =
    let rehashed = update_credential_hash c.id (security.hash_password password db) db in
    elim (Bool-cases (security.password_needs_rehash c.password_hash)) [
      | inl stale ↦
          elim (Option-cases (
            find (has_token_hash (security.hash_session_token (security.random_token rehashed)))
              db.access.sessions)) [
                | inr (s, taken) ↦ inl (ground (arith, stale, taken))
                | inl fresh ↦ inr (
                  new_session env u.id
                      (security.hash_session_token (security.random_token rehashed))
                      (issued_at + security.session_ttl_seconds * 1000) metadata rehashed,
                  ground (arith, stale, fresh),
                )
              ]
      | inr good ↦
          elim (Option-cases (
            find (has_token_hash (security.hash_session_token (security.random_token db)))
              db.access.sessions)) [
                | inr (s, taken) ↦ inl (ground (arith, good, taken))
                | inl fresh ↦ inr (
                  new_session env u.id (security.hash_session_token (security.random_token db))
                      (issued_at + security.session_ttl_seconds * 1000) metadata db,
                  ground (arith, good, fresh),
                )
              ]
    ]

login-sessions :
    (env : Env) (security : Security) (phone password : String) (metadata : LoginMetadata)
    (issued_at : Date) (db : Db)
    → let db' = (login env security phone password metadata issued_at db).1 in
      (db'.access.sessions ≡ db.access.sessions)
      ⊎ ((s : Session) × (db'.access.sessions ≡ db.access.sessions ++ s ∷ []))
unfolding login
login-sessions env security phone password metadata issued_at db =
    elim (Option-cases (find (has_phone phone) db.access.users)) [
      | inl nobody ↦ inl (ground (arith, nobody))
      | inr (u, f) ↦ elim (Option-cases (find (is_credential_of u.id) db.access.credentials)) [
        | inl missing ↦ inl (ground (arith, f, missing))
        | inr (c, g) ↦
            elim (Bool-cases (
              not (security.verify_password password c.password_hash)
              || not (is_active_user u.status))) [
                | inl refused ↦ inl (ground (arith, f, g, refused))
                | inr accepted ↦
                    let run : login env security phone password metadata issued_at db
                        ≡ issue_login env security u c password metadata issued_at db =
                      ground (arith, f, g, accepted) in
                    rw run (issue_login-sessions env security u c password metadata issued_at db)
              ]
      ]
    ]

-- The guard touches the session that it finds at most.
session_guard-sessions :
    (security : Security) (token : String) (now : Date) (db : Db)
    → let db' = (session_guard security token now db).1 in
      (db'.access.sessions ≡ db.access.sessions)
      ⊎ ((q : Session → Bool) × (db'.access.sessions
            ≡ update_where q (λ (s : Session). record s { last_used_at = now }) db.access.sessions))
unfolding session_guard authenticate_session_token touch_session
session_guard-sessions security token now db =
    elim (Bool-cases (is_session_token_format security token)) [
      | inr other ↦ inl (ground (arith, other))
      | inl format ↦
          elim (Option-cases
            (find (has_token_hash (security.hash_session_token token)) db.access.sessions)) [
              | inl unknown ↦ inl (ground (arith, format, unknown))
              | inr (s, f) ↦ elim (Option-cases (find (is_user s.user_id) db.access.users)) [
                | inl nobody ↦ inl (ground (arith, format, f, nobody))
                | inr (u, g) ↦ elim (Bool-cases (is_usable now s u)) [
                  | inr refused ↦ inl (ground (arith, format, f, g, refused))
                  | inl usable ↦
                      let interval = security.session_touch_interval_seconds * 1000 in
                      elim (Bool-cases (leb (s.last_used_at + interval) now)) [
                        | inr recent ↦ inl (ground (arith, format, f, g, usable, recent))
                        | inl due ↦ inr (
                          (λ x. x.id == s.id && leb (x.last_used_at + interval) now),
                          ground (arith, format, f, g, usable, due),
                        )
                      ]
                ]
              ]
            ]
    ]

append-IsEnded :
    (hash : String) (sessions : List Session) (s : Session)
    → IsEnded hash sessions
    → IsEnded hash (sessions ++ s ∷ [])
append-IsEnded hash sessions s w = record {
  session = w.session;
  known = find-append_some (has_token_hash hash) sessions (s ∷ []) w.known;
  ended = w.ended;
}

abbrev revoked : (Session → Bool) → Date → List Session → List Session
revoked test now sessions =
    update_where (λ (x : Session). test x && not (is_some x.revoked_at))
      (λ (x : Session). record x { revoked_at = some now }) sessions

logout-sessions :
    (security : Security) (token : String) (now : Date) (db : Db)
    → (logout security token now db).1.access.sessions ≡ (
        if is_session_token_format security token
        then revoked (has_token_hash (security.hash_session_token token)) now db.access.sessions
        else db.access.sessions)
unfolding logout revoke_where
logout-sessions security token now db = elim (Bool-cases (is_session_token_format security token)) [
  | inr other ↦ ground (arith, other)
  | inl format ↦ ground (arith, format)
]

revoked-IsEnded :
    (hash : String) (test : Session → Bool) (now : Date) (sessions : List Session)
    → IsEnded hash sessions
    → IsEnded hash (revoked test now sessions)
revoked-IsEnded hash test now sessions w =
    update-IsEnded hash _ (λ s. record s { revoked_at = some now }) sessions (λ s. refl)
      (λ s e. refl) w

step-IsEnded :
    (env : Env) (security : Security) (hash : String) (c : Call) (db : Db)
    → IsEnded hash db.access.sessions
    → IsEnded hash (step env security c db).access.sessions
unfolding step logout_all revoke_where
step-IsEnded env security hash (logs_in phone password metadata now) db w =
    elim (login-sessions env security phone password metadata now db) [
      | inl same ↦ rw same w
      | inr (s, added) ↦ rw added (append-IsEnded hash db.access.sessions s w)
    ]
step-IsEnded env security hash (authenticates token now) db w =
    elim (session_guard-sessions security token now db) [
      | inl same ↦ rw same w
      | inr (q, touched) ↦ rw touched (
          update-IsEnded hash q (λ s. record s { last_used_at = now }) db.access.sessions
            (λ s. refl) (λ s e. e) w)
    ]
step-IsEnded env security hash (logs_out token now) db w =
    rw (logout-sessions security token now db)
      (elim (Bool-cases (is_session_token_format security token)) [
        | inr other ↦ rw other w
        | inl format ↦ rw format (revoked-IsEnded hash _ now db.access.sessions w)
      ])
step-IsEnded env security hash (logs_out_all user_id now) db w =
    revoked-IsEnded hash _ now db.access.sessions w

run-IsEnded :
    (env : Env) (security : Security) (hash : String) (calls : List Call) (db : Db)
    → IsEnded hash db.access.sessions
    → IsEnded hash (run env security calls db).access.sessions
unfolding run
run-IsEnded env security hash [] db w = w
run-IsEnded env security hash (c ∷ cs) db w =
    run-IsEnded env security hash cs (step env security c db)
      (step-IsEnded env security hash c db w)

ended-refused :
    (security : Security) (token : String) (now : Date) (db : Db)
    → IsEnded (security.hash_session_token token) db.access.sessions
    → authenticate_session_token security token now db ≡ (err unauthorized, db)
unfolding authenticate_session_token
ended-refused security token now db w =
    elim (Option-cases (find (is_user w.session.user_id) db.access.users)) [
      | inl nobody ↦ ground (arith, w.known, nobody)
      | inr (u, g) ↦ ground (arith, w.known, w.ended, g)
    ]

-- Once a session is ended, by logging out with its token or by ending all sessions of its user, no
-- later history of logins, requests and logouts makes its token serve again: it is refused as
-- unauthorized at every time, and the refusal changes nothing.
pub logout_final :
    (env : Env) (security : Security) (token : String) (ended_at : Date) (calls : List Call)
    (now : Date) (db : Db) {s : Session}
    → find (has_token_hash (security.hash_session_token token)) db.access.sessions ≡ some s
    → is_session_token_format security token ≡ true
    → let after = run env security calls (logout security token ended_at db).1 in
      let after_all = run env security calls (logout_all s.user_id ended_at db).1 in
      (authenticate_session_token security token now after ≡ (err unauthorized, after))
      × (authenticate_session_token security token now after_all ≡ (err unauthorized, after_all))
unfolding logout_all revoke_where
logout_final env security token ended_at calls now db {s} f format =
    let hash = security.hash_session_token token in
    let one =
      revoke-IsEnded hash (has_token_hash hash) ended_at db.access.sessions f
        (find_holds (has_token_hash hash) db.access.sessions f) in
    let all =
      revoke-IsEnded hash (λ (x : Session). x.user_id == s.user_id) ended_at db.access.sessions f
        (==_refl s.user_id) in
    (
      ended-refused security token now _ (
          run-IsEnded env security hash calls (logout security token ended_at db).1
            (rw (logout-sessions security token ended_at db, format) one)),
      ended-refused security token now _
          (run-IsEnded env security hash calls (logout_all s.user_id ended_at db).1 all),
    )
