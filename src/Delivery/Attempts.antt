-- ===== src/Delivery/Attempts.antt =====
-- `recordAttempt` of apps/api/src/deliveries/prisma-delivery.store.ts.
use tteeka.Prelude.{
  ℕ, ◌+◌, Bool, true, false, not, Option, none, some, String, List, [], ◌∷◌, ◌++◌, ◌==◌, ◌&&◌, leb,
  is_some, any, if◌then◌else◌,
}
use tteeka.Prelude.Table.{find}
use tteeka.Schema.{
  Db, Uuid, Key, Hash, Date, DeliveryJob, DeliveryAttempt, JobStatus, AttemptResult, FailureReason,
}
use tteeka.Store.{
  Env, Store, pure, raise, gets, modify, raise_if, or_raise, transaction, catch_unique,
  unique_violation, idempotency_key, attempt_number, delivery_attempt_idempotency_conflict,
  delivery_invalid_transition, ◌>>=◌, ◌>>◌,
}
use tteeka.Delivery.Jobs.{find_job, save_job}

pub record RecordDeliveryAttemptCommand : Type 0 where
  pub result : AttemptResult
  pub failure_reason : Option FailureReason
  pub note : Option String
  pub idempotency_key : Key
  pub request_hash : Hash

abbrev pub Recorded : Type 0
Recorded = Option (DeliveryJob × DeliveryAttempt)

unfoldable pub is_attempt_key : Uuid → Key → DeliveryAttempt → Bool
is_attempt_key m k a = a.merchant_id == m && a.idempotency_key == k

unfoldable pub find_attempt_key : Uuid → Key → Db → Option DeliveryAttempt
find_attempt_key m k db = find (is_attempt_key m k) db.attempts

unfoldable pub is_attempt_of : Uuid → Uuid → DeliveryAttempt → Bool
is_attempt_of m id a = a.merchant_id == m && a.delivery_job_id == id

-- `isExactAttemptReplay`
abbrev pub is_exact_attempt_replay : DeliveryAttempt → Uuid → RecordDeliveryAttemptCommand → Bool
is_exact_attempt_replay replay id command =
    replay.delivery_job_id == id && replay.request_hash == command.request_hash

-- `_max.attemptNumber ?? 0` over the rows of the job
unfoldable pub max_number : Uuid → Uuid → List DeliveryAttempt → ℕ
max_number m id [] = 0
max_number m id (a ∷ rest) =
    let highest = max_number m id rest in
    if is_attempt_of m id a && leb highest a.attempt_number then a.attempt_number else highest

unfoldable pub has_number : Uuid → Uuid → ℕ → DeliveryAttempt → Bool
unfolding is_attempt_of
has_number m id n a = is_attempt_of m id a && a.attempt_number == n

-- `deliveryAttempt.create`, which the unique (merchant, key) or (merchant, job, number) may refuse
unfoldable pub insert_attempt : DeliveryAttempt → Store DeliveryAttempt
insert_attempt a db =
    (if is_some (find_attempt_key a.merchant_id a.idempotency_key db)
        then raise (unique_violation idempotency_key)
        else if any (has_number a.merchant_id a.delivery_job_id a.attempt_number) db.attempts
        then raise (unique_violation attempt_number)
        else do modify (λ t. record t { attempts = t.attempts ++ a ∷ [] }); pure a)
      db

abbrev pub new_attempt :
    Env → Uuid → Uuid → RecordDeliveryAttemptCommand → Date → Db → DeliveryAttempt
new_attempt env m id command attempted_at db = record {
  id = env.fresh_id db;
  merchant_id = m;
  delivery_job_id = id;
  attempt_number = max_number m id db.attempts + 1;
  result = command.result;
  failure_reason = command.failure_reason;
  note = command.note;
  attempted_at = attempted_at;
  idempotency_key = command.idempotency_key;
  request_hash = command.request_hash;
  created_at = env.db_now db;
}

-- The `data` of the job's update.
unfoldable pub conclude : AttemptResult → Date → DeliveryJob → DeliveryJob
conclude AttemptResult.delivered at j = record j {
  status = JobStatus.delivered;
  delivered_at = some at;
}
conclude AttemptResult.failed at j = record j { status = JobStatus.failed; failed_at = some at }

abbrev pub is_dispatched : JobStatus → Bool
is_dispatched JobStatus.dispatched = true
is_dispatched _ = false

-- What is written once nothing was recorded under the key.
unfoldable pub write_attempt :
    Env → Uuid → Uuid → RecordDeliveryAttemptCommand → Date → DeliveryJob → Store Recorded
unfolding insert_attempt conclude
write_attempt env m id command now current = do
  raise_if (not (is_dispatched current.status)) delivery_invalid_transition
  planned ← gets (new_attempt env m id command now)
  attempt ← insert_attempt planned
  modify (save_job m id (conclude command.result now))
  pure (some (conclude command.result now current, attempt))

unfoldable pub record_locked :
    Env → Uuid → Uuid → RecordDeliveryAttemptCommand → Date → Store Recorded
unfolding write_attempt
record_locked env m id command now = do
  locked ← gets (find_job m id)
  elim locked [
    | none ↦ pure none
    | some current ↦ do
      replay ← gets (find_attempt_key m command.idempotency_key)
      elim replay [
        | some attempt ↦
            if is_exact_attempt_replay attempt id command
            then pure (some (current, attempt))
            else raise delivery_attempt_idempotency_conflict
        | none ↦ write_attempt env m id command now current
      ]
  ]

-- The answer to a replay that is found outside the transaction.
abbrev pub with_job : Option DeliveryJob → DeliveryAttempt → Recorded
with_job none a = none
with_job (some job) a = some (job, a)

unfoldable pub recover_attempt : Uuid → Uuid → RecordDeliveryAttemptCommand → Store Recorded
recover_attempt m id command = do
  replay ← gets (find_attempt_key m command.idempotency_key)
  job ← gets (find_job m id)
  attempt ← or_raise replay delivery_attempt_idempotency_conflict
  raise_if (not (is_exact_attempt_replay attempt id command)) delivery_attempt_idempotency_conflict
  current ← or_raise job delivery_attempt_idempotency_conflict
  pure (some (current, attempt))

unfoldable pub record_attempt :
    Env → Uuid → Uuid → RecordDeliveryAttemptCommand → Date → Store Recorded
record_attempt env m id command now = do
  existing_replay ← gets (find_attempt_key m command.idempotency_key)
  elim existing_replay [
    | some attempt ↦ do
      raise_if (not (is_exact_attempt_replay attempt id command))
          delivery_attempt_idempotency_conflict
      job ← gets (find_job m id)
      pure (with_job job attempt)
    | none ↦ do
      modify env.waited
      catch_unique (transaction (record_locked env m id command now)) (recover_attempt m id command)
  ]
