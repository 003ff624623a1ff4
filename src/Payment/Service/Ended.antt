-- ===== src/Payment/Service/Ended.antt =====
-- No attempt stays pending: proofs about Service.antt.
use tteeka.Prelude.{
  ◌≡◌, ◌⊎◌, inl, inr, true, false, some, or_default, ◌&&◌, Option-cases, Bool-cases, arith,
}
use tteeka.Prelude.Table.{find}
use tteeka.Schema.{Db, Uuid, Key, Date, Payment, VerificationAttempt}
use tteeka.Store.{Env, ok, err, Result, verification_unavailable}
use tteeka.Payment.Transactions.{is_payment, is_open, save_payment}
use tteeka.Payment.Provider.{CompleteProviderVerificationCommand, completion_from_result}
use tteeka.Payment.Verification.{
  RequestHash, BegunProviderVerification, begin, is_attempt, is_pending, is_verified_completion,
  completed_attempt, verified_payment, save_attempt, write_completion, complete,
}
use tteeka.Payment.Verification.Completed.{complete-Found}
use tteeka.Payment.Service.{
  Registry, Verified, adapter_error, unavailable_completion, ask_provider, verify,
}

-- The payment and the attempt are in the tables.
pub record IsThere (m order_id id attempt_id : Uuid) (db : Db) : Type 0 where
  pub payment : Payment
  pub attempt : VerificationAttempt
  pub has_payment : find (is_payment m order_id id) db.payments ≡ some payment
  pub has_attempt : find (is_attempt m id attempt_id) db.verifications ≡ some attempt

-- A completion of what is there returns.
complete_returns :
    (m order_id id attempt_id : Uuid) (c : CompleteProviderVerificationCommand) (db : Db)
    → IsThere m order_id id attempt_id db
    → (p : Payment) × (a : VerificationAttempt) × (db' : Db) × (complete m order_id id attempt_id c
          db
        ≡ (ok (some (p, a)), db'))
unfolding complete write_completion
complete_returns m order_id id attempt_id c db w = elim (Bool-cases (is_pending w.attempt.status)) [
  | inr over ↦ (w.payment, w.attempt, db, ground (arith, w.has_payment, w.has_attempt, over))
  | inl pending ↦ elim (Bool-cases (is_verified_completion c.status && is_open w.payment.status)) [
    | inl pays ↦ (
      verified_payment c.now w.payment,
      completed_attempt c w.attempt,
      save_payment m order_id id (verified_payment c.now)
          (save_attempt m id attempt_id (completed_attempt c) db),
      ground (arith, w.has_payment, w.has_attempt, pending, pays),
    )
    | inr unpaid ↦ (
      w.payment,
      completed_attempt c w.attempt,
      save_attempt m id attempt_id (completed_attempt c) db,
      ground (arith, w.has_payment, w.has_attempt, pending, unpaid),
    )
  ]
]

-- The attempt has ended, and the call has answered.
pub record HasEnded (m id attempt_id : Uuid) (run : Result Verified × Db) : Type 0 where
  pub attempt : VerificationAttempt
  pub there : find (is_attempt m id attempt_id) run.1.verifications ≡ some attempt
  pub ended : is_pending attempt.status ≡ false
  pub answered :
      (run.0 ≡ err verification_unavailable) ⊎ ((p : Payment) × (run.0 ≡ ok (p, attempt)))

ask_provider-HasEnded :
    (env : Env) (registry : Registry) (m order_id id : Uuid) (now : Date)
    (b : BegunProviderVerification) (db : Db)
    → IsThere m order_id id b.attempt.id db
    → IsThere m order_id id b.attempt.id (env.waited db)
    → HasEnded m id b.attempt.id (ask_provider env registry m order_id id now b db)
unfolding ask_provider
ask_provider-HasEnded env registry m order_id id now b db before after =
    elim (Option-cases (registry b.adapter_input.provider)) [
      | inl nobody ↦
          let c = unavailable_completion now in
          let (p, a, db', done) = complete_returns m order_id id b.attempt.id c db before in
          let w = complete-Found m order_id id b.attempt.id c db done in
          record {
            attempt = a;
            there = ground (arith, nobody, done, w.attempt);
            ended = w.over;
            answered = inl (ground (arith, nobody, done));
          }
      | inr (adapter, found) ↦
          let answer = or_default (adapter b.adapter_input) adapter_error in
          let c = completion_from_result b.adapter_input answer now in
          let (p, a, db', done) =
            complete_returns m order_id id b.attempt.id c (env.waited db) after in
          let w = complete-Found m order_id id b.attempt.id c (env.waited db) done in
          record {
            attempt = a;
            there = ground (arith, found, done, w.attempt);
            ended = w.over;
            answered = inr (p, ground (arith, found, done));
          }
    ]

-- A verification that began a new attempt ends it and answers, whether the provider has no adapter,
-- the adapter throws or it says anything at all: the attempt is no longer pending afterwards, as
-- long as the payment and the attempt are in the tables before and after the provider is asked.
pub verify_ends :
    (env : Env) (hash_of : RequestHash) (registry : Registry) (m order_id id : Uuid) (key : Key)
    (now later : Date) (db : Db) {b : BegunProviderVerification} {db₁ : Db}
    → begin env hash_of m order_id id (record { idempotency_key = key; now = now }) db
      ≡ (ok (some b), db₁)
    → b.is_new ≡ true
    → IsThere m order_id id b.attempt.id db₁
    → IsThere m order_id id b.attempt.id (env.waited db₁)
    → HasEnded m id b.attempt.id (verify env hash_of registry m order_id id key now later db)
unfolding verify
verify_ends env hash_of registry m order_id id key now later db {b} {db₁} e new before after =
    let run : verify env hash_of registry m order_id id key now later db
        ≡ ask_provider env registry m order_id id later b db₁ =
      ground (arith, e, new) in
    rw run (ask_provider-HasEnded env registry m order_id id later b db₁ before after)
