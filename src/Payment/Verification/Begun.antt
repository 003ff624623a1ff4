-- ===== src/Payment/Verification/Begun.antt =====
-- An attempt is begun once: proofs about Verification.antt.
use tteeka.Prelude.{
  ◌≡◌, ◌++◌, ◌⊎◌, inl, inr, true, false, none, some, [], ◌∷◌, Option-cases, Bool-cases, ==_iff, ap,
  ◌∙◌, arith,
}
use tteeka.Prelude.Table.{find, find_holds, find-append_none}
use tteeka.Schema.{Db, Uuid, Key, Date, Payment, VerificationAttempt}
use tteeka.Store.{Env, ok, Outcome-cases, is_unique_violation, guarded-eq-ok}
use tteeka.Payment.Transactions.{is_payment, is_open}
use tteeka.Payment.Provider.{ProviderVerificationInput}
use tteeka.Payment.Verification.{
  RequestHash, BeginProviderVerificationCommand, BegunProviderVerification, is_attempt_key,
  find_attempt_key, payment_input, is_same_request, new_attempt, provider_for_method,
  replayed_attempt, input_of, begin_locked, begin_in_transaction, recover_begin, begin,
}

id_of_found :
    (m order_id id : Uuid) (db : Db) (p : Payment)
    → find (is_payment m order_id id) db.payments ≡ some p
    → p.id ≡ id
unfolding is_payment
id_of_found m order_id id db p f =
    ground (arith, find_holds (is_payment m order_id id) db.payments f, ==_iff p.id id)

find_attempt_key-append :
    (m : Uuid) (k : Key) (db : Db) (a : VerificationAttempt)
    → find_attempt_key m k db ≡ none
    → is_attempt_key m k a ≡ true
    → find_attempt_key m k (record db { verifications = db.verifications ++ a ∷ [] }) ≡ some a
unfolding find_attempt_key find
find_attempt_key-append m k db a fresh named =
    find-append_none (is_attempt_key m k) db.verifications (a ∷ []) fresh ∙ rw named

payment_input-readable :
    (p : Payment) (db : Db) {input : ProviderVerificationInput} {db' : Db}
    → payment_input p db ≡ (ok input, db')
    → (db' ≡ db)
      × (input.payment_transaction_id ≡ p.id)
      × ((db₁ : Db) → payment_input p db₁ ≡ (ok input, db₁))
unfolding payment_input
payment_input-readable p db {input} {db'} e = elim (Option-cases (provider_for_method p.method)) [
  | inl by_cash ↦ absurd (ground (arith, by_cash, e))
  | inr (provider, pr) ↦ elim (Option-cases p.provider_reference) [
    | inl no_reference ↦ absurd (ground (arith, pr, no_reference, e))
    | inr (reference, r) ↦ elim (Option-cases p.payer_phone) [
      | inl no_phone ↦ absurd (ground (arith, pr, r, no_phone, e))
      | inr (phone, ph) ↦
          let same : input ≡ input_of p provider reference phone = ground (arith, pr, r, ph, e) in
          (
            ground (arith, pr, r, ph, e),
            ap (λ (i : ProviderVerificationInput). i.payment_transaction_id) same,
            λ db₁. ground (arith, pr, r, ph, same),
          )
    ]
  ]
]

replayed_attempt-kept :
    (p : Payment) (a : VerificationAttempt) (db : Db) {b : BegunProviderVerification} {db' : Db}
    → replayed_attempt p a db ≡ (ok (some b), db')
    → (b.is_new ≡ false) × (db' ≡ db)
unfolding replayed_attempt
replayed_attempt-kept p a db {b} {db'} e = elim (Option-cases a.provider_reference_snapshot) [
  | inl missing ↦ absurd (ground (arith, missing, e))
  | inr (shown, s) ↦ (ground (arith, s, e), ground (arith, s, e))
]

-- What there is for a request to be a replay that gives `b`.
record Replays (hash_of : RequestHash) (m order_id id : Uuid) (key : Key) (db : Db)
    (b : BegunProviderVerification) : Type 0 where
  pub payment : Payment
  pub found : find (is_payment m order_id id) db.payments ≡ some payment
  pub input : ProviderVerificationInput
  pub readable : payment_input payment db ≡ (ok input, db)
  pub attempt : VerificationAttempt
  pub known : find_attempt_key m key db ≡ some attempt
  pub same : is_same_request id (hash_of input) attempt ≡ true
  pub replayed : replayed_attempt payment attempt db ≡ (ok (some b), db)

replayed_attempt-Replays :
    (hash_of : RequestHash) (m order_id id : Uuid) (key : Key) (db : Db) (p : Payment)
    (input : ProviderVerificationInput) (a : VerificationAttempt) {b : BegunProviderVerification}
    {db' : Db}
    → find (is_payment m order_id id) db.payments ≡ some p
    → payment_input p db ≡ (ok input, db)
    → find_attempt_key m key db ≡ some a
    → is_same_request id (hash_of input) a ≡ true
    → replayed_attempt p a db ≡ (ok (some b), db')
    → Replays hash_of m order_id id key db b × (db' ≡ db) × (b.is_new ≡ false)
replayed_attempt-Replays hash_of m order_id id key db p input a {b} {db'} f readable g same run =
    let kept = replayed_attempt-kept p a db run in
    (
      record {
        payment = p;
        found = f;
        input = input;
        readable = readable;
        attempt = a;
        known = g;
        same = same;
        replayed = run ∙ ap (λ t. (ok (some b), t)) kept.1;
      },
      kept.1,
      kept.0,
    )

begin-Replays :
    (env : Env) (hash_of : RequestHash) (m order_id id : Uuid)
    (command : BeginProviderVerificationCommand) (db : Db) (b : BegunProviderVerification)
    → Replays hash_of m order_id id command.idempotency_key db b
    → begin env hash_of m order_id id command db ≡ (ok (some b), db)
begin-Replays env hash_of m order_id id command db b w =
    let locked : begin_locked env hash_of m id command w.payment db ≡ (ok (some b), db) =
      unfold begin_locked in ground (arith, w.readable, w.known, w.same, w.replayed) in
    let found = w.found in unfold begin in ground (arith, found, locked)

-- How a request under a new key is answered.
record Opens (env : Env) (hash_of : RequestHash) (m id : Uuid)
    (command : BeginProviderVerificationCommand) (p : Payment) (db : Db)
    (b : BegunProviderVerification) (db' : Db) : Type 0 where
  pub input : ProviderVerificationInput
  pub readable : payment_input p db ≡ (ok input, db)
  pub fresh : find_attempt_key m command.idempotency_key db ≡ none
  pub answer : b ≡ record {
    is_new = true;
    payment = p;
    attempt = new_attempt env m id input command (hash_of input) db;
    adapter_input = input;
  }
  pub added : db' ≡ record db {
    verifications = db.verifications ++ new_attempt env m id input command (hash_of input) db ∷ [];
  }

begin_locked-ok :
    (env : Env) (hash_of : RequestHash) (m order_id id : Uuid)
    (command : BeginProviderVerificationCommand) (p : Payment) (db : Db)
    {b : BegunProviderVerification} {db' : Db}
    → find (is_payment m order_id id) db.payments ≡ some p
    → begin_locked env hash_of m id command p db ≡ (ok (some b), db')
    → (Replays hash_of m order_id id command.idempotency_key db b × (db' ≡ db) × (b.is_new ≡ false))
      ⊎ Opens env hash_of m id command p db b db'
unfolding begin_locked
begin_locked-ok env hash_of m order_id id command p db {b} {db'} f e =
    elim (Outcome-cases (payment_input p db)) [
      | inr (x, db₁, refused) ↦ absurd (ground (arith, refused, e))
      | inl (input, db₁, read) ↦
          let same_db : db₁ ≡ db = (payment_input-readable p db read).0 in
          let readable : payment_input p db ≡ (ok input, db) =
            (payment_input-readable p db read).2 db in
          elim (Option-cases (find_attempt_key m command.idempotency_key db)) [
            | inr (a, g) ↦ elim (Bool-cases (is_same_request id (hash_of input) a)) [
              | inr other ↦ absurd (ground (arith, readable, g, other, e))
              | inl same ↦
                  let run : replayed_attempt p a db ≡ (ok (some b), db') =
                    ground (arith, readable, g, same, e) in
                  inl (
                    replayed_attempt-Replays hash_of m order_id id command.idempotency_key db p
                      input a f readable g same run)
            ]
            | inl fresh ↦ elim (Bool-cases (is_open p.status)) [
              | inr closed ↦ absurd (ground (arith, readable, fresh, closed, e))
              | inl open' ↦ inr record {
                input = input;
                readable = readable;
                fresh = fresh;
                answer = ground (arith, readable, fresh, open', e);
                added = ground (arith, readable, fresh, open', e);
              }
            ]
          ]
    ]

Opens-Replays :
    (env : Env) (hash_of : RequestHash) (m order_id id : Uuid)
    (command : BeginProviderVerificationCommand) (p : Payment) (db : Db)
    {b : BegunProviderVerification} {db' : Db}
    → find (is_payment m order_id id) db.payments ≡ some p
    → Opens env hash_of m id command p db b db'
    → Replays hash_of m order_id id command.idempotency_key db' (record b { is_new = false })
Opens-Replays env hash_of m order_id id command p db {b} {db'} f w =
    let made = new_attempt env m id w.input command (hash_of w.input) db in
    let db₁ : Db = record db { verifications = db.verifications ++ made ∷ [] } in
    let names : w.input.payment_transaction_id ≡ id =
      (payment_input-readable p db w.readable).1 ∙ id_of_found m order_id id db p f in
    let known : find_attempt_key m command.idempotency_key db₁ ≡ some made =
      find_attempt_key-append m command.idempotency_key db made w.fresh (
        unfold is_attempt_key in
        ground (arith, ==_iff m m, ==_iff command.idempotency_key command.idempotency_key)) in
    rw (w.answer, w.added)
      record {
        payment = p;
        found = f;
        input = w.input;
        readable = (payment_input-readable p db w.readable).2 db₁;
        attempt = made;
        known = known;
        same = ground (arith, ==_iff id id, ==_iff (hash_of w.input) (hash_of w.input));
        replayed = unfold replayed_attempt in ground (arith, names);
      }

-- The handler of a unique violation answers with a replay as well.
recover_begin-Replays :
    (hash_of : RequestHash) (m order_id id : Uuid) (command : BeginProviderVerificationCommand)
    (db : Db) {b : BegunProviderVerification} {db' : Db}
    → recover_begin hash_of m order_id id command db ≡ (ok (some b), db')
    → Replays hash_of m order_id id command.idempotency_key db b × (db' ≡ db) × (b.is_new ≡ false)
unfolding recover_begin
recover_begin-Replays hash_of m order_id id command db {b} {db'} e =
    elim (Option-cases (find (is_payment m order_id id) db.payments)) [
      | inl missing ↦ elim (Option-cases (find_attempt_key m command.idempotency_key db)) [
        | inl unknown ↦ absurd (ground (arith, missing, unknown, e))
        | inr (a, g) ↦ absurd (ground (arith, missing, g, e))
      ]
      | inr (p, f) ↦ elim (Option-cases (find_attempt_key m command.idempotency_key db)) [
        | inl unknown ↦ absurd (ground (arith, f, unknown, e))
        | inr (a, g) ↦ elim (Outcome-cases (payment_input p db)) [
          | inr (x, db₁, refused) ↦ absurd (ground (arith, f, g, refused, e))
          | inl (input, db₁, read) ↦
              let readable : payment_input p db ≡ (ok input, db) =
                (payment_input-readable p db read).2 db in
              elim (Bool-cases (is_same_request id (hash_of input) a)) [
                | inr other ↦ absurd (ground (arith, f, g, readable, other, e))
                | inl same ↦
                    replayed_attempt-Replays hash_of m order_id id command.idempotency_key db p
                      input a f readable g same (ground (arith, f, g, readable, same, e))
              ]
        ]
      ]
    ]

begin-ok :
    (env : Env) (hash_of : RequestHash) (m order_id id : Uuid)
    (command : BeginProviderVerificationCommand) (db : Db) {b : BegunProviderVerification}
    {db' : Db}
    → begin env hash_of m order_id id command db ≡ (ok (some b), db')
    → (Replays hash_of m order_id id command.idempotency_key db b × (db' ≡ db) × (b.is_new ≡ false))
      ⊎ ((p : Payment) × (find (is_payment m order_id id) db.payments ≡ some p)
          × Opens env hash_of m id command p db b db')
unfolding begin
begin-ok env hash_of m order_id id command db {b} {db'} e =
    elim (guarded-eq-ok is_unique_violation (begin_in_transaction env hash_of m order_id id command)
      (λ _. recover_begin hash_of m order_id id command) db e) [
        | inr (x, recovered) ↦
            inl (recover_begin-Replays hash_of m order_id id command db recovered)
        | inl done ↦ elim (Option-cases (find (is_payment m order_id id) db.payments)) [
          | inl missing ↦ absurd (ground (arith, missing, done))
          | inr (p, f) ↦
              elim (begin_locked-ok env hash_of m order_id id command p db {b = b} {db' = db'} f
                (ground (arith, f, done))) [ inl w ↦ inl w | inr w ↦ inr (p, f, w) ]
        ]
      ]

-- Once a verification was begun under a key, the same request sent again, on the tables that the
-- first left, gives the same attempt, no longer new, for the same payment and the same input, and
-- changes nothing.
pub begin_once :
    (env env' : Env) (hash_of : RequestHash) (m order_id id : Uuid)
    (command : BeginProviderVerificationCommand) (later : Date) (db : Db)
    {b : BegunProviderVerification} {db' : Db}
    → begin env hash_of m order_id id command db ≡ (ok (some b), db')
    → begin env' hash_of m order_id id (record command { now = later }) db'
      ≡ (ok (some (record b { is_new = false })), db')
begin_once env env' hash_of m order_id id command later db {b} {db'} e =
    elim (begin-ok env hash_of m order_id id command db e) [
      | inl (w, same, old) ↦ rw same (
          begin-Replays env' hash_of m order_id id (record command { now = later }) db b w
          ∙ ground (arith, old))
      | inr (p, f, w) ↦
          begin-Replays env' hash_of m order_id id (record command { now = later }) db'
            (record b { is_new = false }) (Opens-Replays env hash_of m order_id id command p db f w)
    ]
