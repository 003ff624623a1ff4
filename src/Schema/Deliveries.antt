-- ===== src/Schema/Deliveries.antt =====
-- Models DeliveryJob and DeliveryAttempt of prisma/schema.prisma.
use tteeka.Prelude.{ℕ, Option, String}
use tteeka.Schema.Types.{Uuid, Key, Hash, Date}

pub data JobStatus : Type 0 where
  pending ready dispatched delivered failed cancelled : JobStatus

pub record DeliveryJob : Type 0 where
  pub id : Uuid
  pub merchant_id : Uuid
  pub order_id : Uuid
  pub status : JobStatus
  pub recipient_name_snapshot : Option String
  pub recipient_phone_snapshot : String
  pub area_snapshot : String
  pub landmark_snapshot : String
  pub delivery_phone_snapshot : String
  pub instructions_snapshot : Option String
  pub map_pin_url_snapshot : Option String
  pub idempotency_key : Key
  pub request_hash : Hash
  pub created_at : Date
  pub ready_at : Option Date
  pub dispatched_at : Option Date
  pub delivered_at : Option Date
  pub failed_at : Option Date
  pub cancelled_at : Option Date

pub data AttemptResult : Type 0 where
  delivered failed : AttemptResult

pub data FailureReason : Type 0 where
  customer_unreachable customer_unavailable customer_refused : FailureReason
  wrong_location address_not_found : FailureReason
  vehicle_or_rider_issue weather_or_access_issue other : FailureReason

pub record DeliveryAttempt : Type 0 where
  pub id : Uuid
  pub merchant_id : Uuid
  pub delivery_job_id : Uuid
  pub attempt_number : ℕ
  pub result : AttemptResult
  pub failure_reason : Option FailureReason
  pub note : Option String
  pub attempted_at : Date
  pub idempotency_key : Key
  pub request_hash : Hash
  pub created_at : Date
