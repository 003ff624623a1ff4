-- ===== src/Payment/Provider.antt =====
-- What is asked of a payment provider and what its answer is turned into:
-- apps/api/src/payments/provider-verification.ts and provider-verification.service.ts.
use tteeka.Prelude.{
  ℕ, Bool, true, false, Option, none, some, String, ◌==◌, ◌&&◌, or_default, if◌then◌else◌,
}
use tteeka.Prelude.Texts.{str_eq, is_blank, trim, slice}
use tteeka.Schema.{Uuid, Currency, Date, PaymentProvider, AttemptStatus}

pub record ProviderVerificationInput : Type 0 where
  pub provider : PaymentProvider
  pub payment_transaction_id : Uuid
  pub provider_reference : String
  pub payer_phone : String
  pub amount : ℕ
  pub currency : Currency

-- A field that is undefined or null is none.
pub record ProviderEvidence : Type 0 where
  pub provider_transaction_id : Option String
  pub provider_status_code : Option String
  pub provider_status_text : Option String

pub record ProviderVerifiedResult : Type 0 where
  pub provider : PaymentProvider
  pub amount : ℕ
  pub currency : Currency
  pub payer_phone : Option String
  pub provider_reference : Option String

pub data ProviderVerificationResult : Type 0 where
  verified : ProviderEvidence → ProviderVerifiedResult → ProviderVerificationResult
  not_verified : ProviderEvidence → ProviderVerificationResult
  failed : ProviderEvidence → String → Option String → ProviderVerificationResult

-- `Exclude<PaymentVerificationAttemptStatus, 'PENDING'>`
pub data CompletionStatus : Type 0 where
  verified not_verified failed : CompletionStatus

abbrev pub attempt_status : CompletionStatus → AttemptStatus
attempt_status CompletionStatus.verified = AttemptStatus.verified
attempt_status CompletionStatus.not_verified = AttemptStatus.not_verified
attempt_status CompletionStatus.failed = AttemptStatus.failed

pub record CompleteProviderVerificationCommand : Type 0 where
  pub status : CompletionStatus
  pub provider_transaction_id : Option String
  pub provider_status_code : Option String
  pub provider_status_text : Option String
  pub failure_code : Option String
  pub failure_message : Option String
  pub now : Date

unfoldable pub bounded : Option String → ℕ → Option String
bounded none max = none
bounded (some value) max = if is_blank (trim value) then none else some (slice max (trim value))

abbrev pub same_provider : PaymentProvider → PaymentProvider → Bool
same_provider PaymentProvider.mtn_momo PaymentProvider.mtn_momo = true
same_provider PaymentProvider.airtel_money PaymentProvider.airtel_money = true
same_provider _ _ = false

-- `value === undefined || value === null || value === expected`
abbrev pub agrees : Option String → String → Bool
agrees none expected = true
agrees (some value) expected = str_eq value expected

-- `matches`
unfoldable pub is_match : ProviderVerificationInput → ProviderVerifiedResult → Bool
is_match input result =
    same_provider result.provider input.provider
    && result.amount == input.amount
    && result.currency == input.currency
    && agrees result.payer_phone input.payer_phone
    && agrees result.provider_reference input.provider_reference

abbrev pub completion :
    ProviderEvidence
    → CompletionStatus
    → Option String
    → Option String
    → Date
    → CompleteProviderVerificationCommand
completion evidence status code message now = record {
  status = status;
  provider_transaction_id = bounded evidence.provider_transaction_id 160;
  provider_status_code = bounded evidence.provider_status_code 80;
  provider_status_text = bounded evidence.provider_status_text 240;
  failure_code = code;
  failure_message = message;
  now = now;
}

unfoldable pub completion_from_result :
    ProviderVerificationInput
    → ProviderVerificationResult
    → Date
    → CompleteProviderVerificationCommand
unfolding is_match bounded
completion_from_result input (failed evidence code message) now =
    completion evidence CompletionStatus.failed
      (some (or_default (bounded (some code) 80) "ADAPTER_FAILURE")) (bounded message 500) now
completion_from_result input (not_verified evidence) now =
    completion evidence CompletionStatus.not_verified none none now
completion_from_result input (verified evidence result) now =
    completion evidence
      (if is_match input result then CompletionStatus.verified else CompletionStatus.not_verified)
      none none now
