-- ===== src/Schema/Payments.antt =====
-- Models PaymentTransaction and PaymentVerificationAttempt of prisma/schema.prisma.
use tteeka.Prelude.{ℕ, Option, String}
use tteeka.Schema.Types.{Uuid, Key, Hash, Currency, Date}

pub data PaymentMethod : Type 0 where
  cash mtn_momo airtel_money : PaymentMethod

pub data PaymentStatus : Type 0 where
  reported verification_pending verified rejected failed reversed refunded : PaymentStatus

pub data VerificationSource : Type 0 where
  manual provider : VerificationSource

pub record Payment : Type 0 where
  pub id : Uuid
  pub merchant_id : Uuid
  pub order_id : Uuid
  pub method : PaymentMethod
  pub status : PaymentStatus
  pub verification_source : Option VerificationSource
  pub amount : ℕ
  pub currency : Currency
  pub payer_phone : Option String
  pub provider_reference : Option String
  pub merchant_reference : Option String
  pub note : Option String
  pub reported_at : Date
  pub verification_pending_at : Option Date
  pub verified_at : Option Date
  pub rejected_at : Option Date
  pub idempotency_key : Key
  pub request_hash : Hash

pub data PaymentProvider : Type 0 where
  mtn_momo airtel_money : PaymentProvider

pub data AttemptStatus : Type 0 where
  pending verified not_verified failed : AttemptStatus

pub record VerificationAttempt : Type 0 where
  pub id : Uuid
  pub merchant_id : Uuid
  pub payment_transaction_id : Uuid
  pub provider : PaymentProvider
  pub status : AttemptStatus
  pub provider_reference_snapshot : Option String
  pub payer_phone_snapshot : String
  pub amount_snapshot : ℕ
  pub currency_snapshot : Currency
  pub provider_transaction_id : Option String
  pub provider_status_code : Option String
  pub provider_status_text : Option String
  pub failure_code : Option String
  pub failure_message : Option String
  pub requested_at : Date
  pub completed_at : Option Date
  pub idempotency_key : Key
  pub request_hash : Hash
