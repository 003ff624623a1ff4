-- ===== src/Payment/Verification.antt =====
-- `begin` and `complete` of apps/api/src/payments/prisma-provider-verification.store.ts.
pub mod Evidence
pub mod Begun
pub mod Completed
use tteeka.Prelude.{
  ℕ, Bool, true, false, not, Option, none, some, String, [], ◌∷◌, ◌++◌, ◌==◌, ◌&&◌, is_some,
  or_default, if◌then◌else◌,
}
use tteeka.Prelude.Table.{find, update_first}
use tteeka.Prelude.Texts.{str_eq, is_blank, trim, slice}
use tteeka.Schema.{
  Db, Uuid, Key, Hash, Currency, Date, Payment, PaymentMethod, PaymentProvider, PaymentStatus,
  VerificationSource, VerificationAttempt, AttemptStatus,
}
use tteeka.Store.{
  Env, Store, pure, raise, gets, modify, or_raise, raise_if, transaction, catch_unique,
  unique_violation, idempotency_key, verification_idempotency_conflict, verification_not_applicable,
  provider_reference_required, verification_state_conflict, ◌>>=◌, ◌>>◌,
}
use tteeka.Payment.Transactions.{is_payment, is_open, save_payment}
use tteeka.Payment.Provider.{
  CompleteProviderVerificationCommand, CompletionStatus, ProviderEvidence,
  ProviderVerificationInput, ProviderVerificationResult, ProviderVerifiedResult, agrees,
  attempt_status, bounded, completion, completion_from_result, failed, is_match, not_verified,
  same_provider, verified,
}

-- `providerForMethod`; none is where it throws.
unfoldable pub provider_for_method : PaymentMethod → Option PaymentProvider
provider_for_method PaymentMethod.mtn_momo = some PaymentProvider.mtn_momo
provider_for_method PaymentMethod.airtel_money = some PaymentProvider.airtel_money
provider_for_method PaymentMethod.cash = none

unfoldable pub is_attempt_key : Uuid → Key → VerificationAttempt → Bool
is_attempt_key m k a = a.merchant_id == m && a.idempotency_key == k

unfoldable pub find_attempt_key : Uuid → Key → Db → Option VerificationAttempt
find_attempt_key m k db = find (is_attempt_key m k) db.verifications

pub record BeginProviderVerificationCommand : Type 0 where
  pub idempotency_key : Key
  pub now : Date

pub record BegunProviderVerification : Type 0 where
  pub is_new : Bool
  pub payment : Payment
  pub attempt : VerificationAttempt
  pub adapter_input : ProviderVerificationInput

abbrev pub Begun : Type 0
Begun = Option BegunProviderVerification

-- `adapterInput`
unfoldable pub adapter_input : VerificationAttempt → Store ProviderVerificationInput
adapter_input a = do
  reference ← or_raise a.provider_reference_snapshot provider_reference_required
  pure record {
    provider = a.provider;
    payment_transaction_id = a.payment_transaction_id;
    provider_reference = reference;
    payer_phone = a.payer_phone_snapshot;
    amount = a.amount_snapshot;
    currency = a.currency_snapshot;
  }

abbrev pub input_of : Payment → PaymentProvider → String → String → ProviderVerificationInput
input_of p provider reference phone = record {
  provider = provider;
  payment_transaction_id = p.id;
  provider_reference = reference;
  payer_phone = phone;
  amount = p.amount;
  currency = p.currency;
}

-- The checks that come first, and `input`.
unfoldable pub payment_input : Payment → Store ProviderVerificationInput
unfolding provider_for_method
payment_input p = do
  provider ← or_raise (provider_for_method p.method) verification_not_applicable
  reference ← or_raise p.provider_reference provider_reference_required
  phone ← or_raise p.payer_phone verification_not_applicable
  pure (input_of p provider reference phone)

-- `providerVerificationRequestHash` is a SHA-256 digest of its input.
abbrev pub RequestHash : Type 0
RequestHash = ProviderVerificationInput → Hash

-- `replay.paymentTransactionId === paymentId && replay.requestHash === requestHash`
abbrev pub is_same_request : Uuid → Hash → VerificationAttempt → Bool
is_same_request id hash a = a.payment_transaction_id == id && a.request_hash == hash

unfoldable pub replayed_attempt : Payment → VerificationAttempt → Store Begun
unfolding adapter_input
replayed_attempt p a = do
  input ← adapter_input a
  pure (some record { is_new = false; payment = p; attempt = a; adapter_input = input })

abbrev pub new_attempt :
    Env
    → Uuid
    → Uuid
    → ProviderVerificationInput
    → BeginProviderVerificationCommand
    → Hash
    → Db
    → VerificationAttempt
new_attempt env m id input command hash db = record {
  id = env.fresh_id db;
  merchant_id = m;
  payment_transaction_id = id;
  provider = input.provider;
  status = AttemptStatus.pending;
  provider_reference_snapshot = some input.provider_reference;
  payer_phone_snapshot = input.payer_phone;
  amount_snapshot = input.amount;
  currency_snapshot = input.currency;
  provider_transaction_id = none;
  provider_status_code = none;
  provider_status_text = none;
  failure_code = none;
  failure_message = none;
  requested_at = command.now;
  completed_at = none;
  idempotency_key = command.idempotency_key;
  request_hash = hash;
}

-- `paymentVerificationAttempt.create`, which the unique (merchant, key) may refuse
unfoldable pub insert_attempt : VerificationAttempt → Store VerificationAttempt
insert_attempt a db =
    (if is_some (find_attempt_key a.merchant_id a.idempotency_key db)
        then raise (unique_violation idempotency_key)
        else do modify (λ t. record t { verifications = t.verifications ++ a ∷ [] }); pure a)
      db

-- From the lock of the payment on.
unfoldable pub begin_locked :
    Env → RequestHash → Uuid → Uuid → BeginProviderVerificationCommand → Payment → Store Begun
unfolding replayed_attempt insert_attempt
begin_locked env hash_of m id command p = do
  input ← payment_input p
  replay ← gets (find_attempt_key m command.idempotency_key)
  elim replay [
    | some a ↦
        if is_same_request id (hash_of input) a
        then replayed_attempt p a
        else raise verification_idempotency_conflict
    | none ↦ do
      raise_if (not (is_open p.status)) verification_state_conflict
      planned ← gets (new_attempt env m id input command (hash_of input))
      attempt ← insert_attempt planned
      pure (some record { is_new = true; payment = p; attempt = attempt; adapter_input = input })
  ]

-- The `catch` of a unique violation.
unfoldable pub recover_begin :
    RequestHash → Uuid → Uuid → Uuid → BeginProviderVerificationCommand → Store Begun
unfolding payment_input replayed_attempt
recover_begin hash_of m order_id id command = do
  payment ← gets (λ db. find (is_payment m order_id id) db.payments)
  replay ← gets (find_attempt_key m command.idempotency_key)
  p ← or_raise payment verification_idempotency_conflict
  a ← or_raise replay verification_idempotency_conflict
  input ← payment_input p
  raise_if (not (is_same_request id (hash_of input) a)) verification_idempotency_conflict
  replayed_attempt p a

-- The callback of the transaction.
unfoldable pub begin_in_transaction :
    Env → RequestHash → Uuid → Uuid → Uuid → BeginProviderVerificationCommand → Store Begun
unfolding begin_locked
begin_in_transaction env hash_of m order_id id command = do
  locked ← gets (λ db. find (is_payment m order_id id) db.payments)
  elim locked [ none ↦ pure none | some p ↦ begin_locked env hash_of m id command p ]

unfoldable pub begin :
    Env → RequestHash → Uuid → Uuid → Uuid → BeginProviderVerificationCommand → Store Begun
unfolding begin_in_transaction recover_begin
begin env hash_of m order_id id command =
    catch_unique (transaction (begin_in_transaction env hash_of m order_id id command))
      (recover_begin hash_of m order_id id command)

-- SELECT "id" FROM "payment_verification_attempts" …
unfoldable pub is_attempt : Uuid → Uuid → Uuid → VerificationAttempt → Bool
is_attempt m payment_id id a =
    a.merchant_id == m && a.payment_transaction_id == payment_id && a.id == id

abbrev pub is_pending : AttemptStatus → Bool
is_pending AttemptStatus.pending = true
is_pending _ = false

abbrev pub is_verified_completion : CompletionStatus → Bool
is_verified_completion CompletionStatus.verified = true
is_verified_completion _ = false

-- The `data` of the attempt's update, and of the payment's.
unfoldable pub completed_attempt :
    CompleteProviderVerificationCommand → VerificationAttempt → VerificationAttempt
completed_attempt c a = record a {
  status = attempt_status c.status;
  provider_transaction_id = c.provider_transaction_id;
  provider_status_code = c.provider_status_code;
  provider_status_text = c.provider_status_text;
  failure_code = c.failure_code;
  failure_message = c.failure_message;
  completed_at = some c.now;
}

unfoldable pub verified_payment : Date → Payment → Payment
verified_payment now p = record p {
  status = PaymentStatus.verified;
  verification_source = some VerificationSource.provider;
  verified_at = some now;
}

unfoldable pub save_attempt :
    Uuid → Uuid → Uuid → (VerificationAttempt → VerificationAttempt) → Db → Db
save_attempt m payment_id id f db = record db {
  verifications = update_first (is_attempt m payment_id id) f db.verifications;
}

abbrev pub Completed : Type 0
Completed = Option (Payment × VerificationAttempt)

-- What is written for an attempt that is still pending.
unfoldable pub write_completion :
    Uuid
    → Uuid
    → Uuid
    → Uuid
    → CompleteProviderVerificationCommand
    → Payment
    → VerificationAttempt
    → Store Completed
unfolding save_attempt completed_attempt verified_payment
write_completion m order_id payment_id id c p a = do
  modify (save_attempt m payment_id id (completed_attempt c))
  if is_verified_completion c.status && is_open p.status
      then (modify (save_payment m order_id payment_id (verified_payment c.now))
          >> pure (some (verified_payment c.now p, completed_attempt c a)))
      else pure (some (p, completed_attempt c a))

unfoldable pub complete :
    Uuid → Uuid → Uuid → Uuid → CompleteProviderVerificationCommand → Store Completed
unfolding write_completion
complete m order_id payment_id id c = transaction do
  payment ← gets (λ db. find (is_payment m order_id payment_id) db.payments)
  attempt ← gets (λ db. find (is_attempt m payment_id id) db.verifications)
  elim payment [
    | none ↦ pure none
    | some p ↦ elim attempt [
      | none ↦ pure none
      | some a ↦
          if not (is_pending a.status)
          then pure (some (p, a))
          else write_completion m order_id payment_id id c p a
    ]
  ]
