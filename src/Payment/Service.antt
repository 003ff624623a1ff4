-- ===== src/Payment/Service.antt =====
-- `verify` of apps/api/src/payments/provider-verification.service.ts: the calls of the store around
-- the call of a provider's adapter. Its errors are those of the store, before `mapError`.
pub mod Ended
pub mod Replayed
use tteeka.Prelude.{Bool, true, false, not, Option, none, some, String, or_default, if◌then◌else◌}
use tteeka.Prelude.Texts.{str_eq}
use tteeka.Schema.{Db, Uuid, Key, Date, Payment, PaymentProvider, VerificationAttempt}
use tteeka.Store.{
  Env, Store, pure, raise, gets, modify, or_raise, not_found, verification_unavailable, ◌>>=◌, ◌>>◌,
}
use tteeka.Payment.Provider.{
  ProviderVerificationInput, ProviderVerificationResult, ProviderEvidence, CompletionStatus,
  CompleteProviderVerificationCommand, completion_from_result,
}
use tteeka.Payment.Verification.{
  RequestHash, BeginProviderVerificationCommand, BegunProviderVerification, begin, complete,
}

-- An adapter asks a provider; none is where it throws.
abbrev pub Adapter : Type 0
Adapter = ProviderVerificationInput → Option ProviderVerificationResult

-- `resolve` of the registry of adapters
abbrev pub Registry : Type 0
Registry = PaymentProvider → Option Adapter

abbrev pub unavailable_code : String
unavailable_code = "PROVIDER_VERIFICATION_UNAVAILABLE"

unfoldable pub is_unavailable : Option String → Bool
is_unavailable none = false
is_unavailable (some code) = str_eq code unavailable_code

-- What is completed where there is no adapter.
abbrev pub unavailable_completion : Date → CompleteProviderVerificationCommand
unavailable_completion now = record {
  status = CompletionStatus.failed;
  provider_transaction_id = none;
  provider_status_code = none;
  provider_status_text = none;
  failure_code = some unavailable_code;
  failure_message = some "No provider verification adapter is configured.";
  now = now;
}

-- The result that stands for an adapter that throws.
abbrev pub adapter_error : ProviderVerificationResult
adapter_error =
    ProviderVerificationResult.failed
      (record {
        provider_transaction_id = none;
        provider_status_code = none;
        provider_status_text = none;
      })
      "ADAPTER_ERROR" (some "Provider verification failed.")

abbrev pub Verified : Type 0
Verified = Payment × VerificationAttempt

-- What is done with an attempt that is new. Other requests commit while the provider is asked.
unfoldable pub ask_provider :
    Env → Registry → Uuid → Uuid → Uuid → Date → BegunProviderVerification → Store Verified
ask_provider env registry m order_id id now b = elim (registry b.adapter_input.provider) [
  | none ↦ do
    complete m order_id id b.attempt.id (unavailable_completion now)
    raise verification_unavailable
  | some adapter ↦ do
    modify env.waited
    let answer = or_default (adapter b.adapter_input) adapter_error
    completed ←
        complete m order_id id b.attempt.id (completion_from_result b.adapter_input answer now)
    or_raise completed not_found
]

abbrev pub replayed : BegunProviderVerification → Store Verified
replayed b =
    if is_unavailable b.attempt.failure_code
    then raise verification_unavailable
    else pure (b.payment, b.attempt)

unfoldable pub verify :
    Env → RequestHash → Registry → Uuid → Uuid → Uuid → Key → Date → Date → Store Verified
unfolding ask_provider is_unavailable
verify env hash_of registry m order_id id key now later = do
  begun ← begin env hash_of m order_id id (record { idempotency_key = key; now = now })
  b ← or_raise begun not_found
  if not b.is_new then replayed b else ask_provider env registry m order_id id later b
