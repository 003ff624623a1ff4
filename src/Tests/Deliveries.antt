-- ===== src/Tests/Deliveries.antt =====
-- The delivery of the confirmed order: asked for twice, moved on, and attempted.
use tteeka.Prelude.{◌≡◌, refl, some, none, [], ◌∷◌, arith}
use tteeka.Prelude.Table.{find, update_first, sum_of}
use tteeka.Schema.{
  Db, Uuid, Order, OrderStatus, DeliveryJob, DeliveryAttempt, JobStatus, AttemptResult,
}
use tteeka.Store.{ok, err, delivery_invalid_transition}
use tteeka.Delivery.Jobs.{
  CreateDeliveryCommand, is_order, is_job_key, find_job_key, is_job_for, find_job_for, is_job,
  find_job, new_job, insert_job, create_for_order, create_locked, create_after_lookup, create,
  JobTarget, same_status, is_allowed, advance, save_job, transition_locked, transition,
}
use tteeka.Delivery.Attempts.{RecordDeliveryAttemptCommand, find_attempt_key, record_locked}
use tteeka.Delivery.Creation.{create_again}
use tteeka.Delivery.OneEach.{HasOneJobEach, jobs_of, create-HasOneJobEach}
use tteeka.Delivery.Lifecycle.{Moved, transition-Moved}
use tteeka.Delivery.Recording.{IsRecorded, record_locked_concludes}
use tteeka.Tests.{env, shop, draft_order}

abbrev confirmed : Order
confirmed = record draft_order { status = OrderStatus.confirmed }

abbrev shop_confirmed : Db
shop_confirmed = record shop { orders = confirmed ∷ [] }

abbrev command : CreateDeliveryCommand
command = record { order_id = 70; idempotency_key = 11; request_hash = 111 }

abbrev opened : DeliveryJob
opened =
    new_job env 1 command confirmed "Kololo" "Opposite the airstrip" "+256700000000" shop_confirmed

abbrev shop_opened : Db
shop_opened = record shop_confirmed { deliveries = opened ∷ [] }

create_run : create env 1 command shop_confirmed ≡ (ok opened, shop_opened)
unfolding create create_after_lookup create_locked create_for_order insert_job is_order is_job_key
    find_job_key is_job_for find_job_for find
create_run = refl

create_again_example : create env 1 command shop_opened ≡ (ok opened, shop_opened)
create_again_example = create_again env env 1 command shop_confirmed create_run

shop_confirmed-HasOneJobEach : HasOneJobEach shop_confirmed
unfolding jobs_of sum_of
shop_confirmed-HasOneJobEach = record { at_most = λ m o. omega arith }

create-HasOneJobEach_example : HasOneJobEach (create env 1 command shop_confirmed).1
create-HasOneJobEach_example =
    create-HasOneJobEach env 1 command shop_confirmed shop_confirmed-HasOneJobEach
      shop_confirmed-HasOneJobEach

abbrev ready : DeliveryJob
ready = advance JobTarget.ready 130 opened

abbrev shop_ready : Db
shop_ready = record shop_confirmed { deliveries = ready ∷ [] }

ready_run : transition env 1 900 JobTarget.ready 130 shop_opened ≡ (ok (some ready), shop_ready)
unfolding transition transition_locked same_status is_allowed advance save_job find_job is_job find
    update_first
ready_run = refl

transition-Moved_example :
    (ready.status ≡ JobStatus.ready)
    × ((observed : DeliveryJob) × (find_job 1 900 shop_opened ≡ some observed)
        × Moved 1 900 JobTarget.ready observed shop_opened ready shop_ready)
transition-Moved_example = transition-Moved env 1 900 JobTarget.ready 130 shop_opened ready_run

abbrev dispatched : DeliveryJob
dispatched = record opened { status = JobStatus.dispatched; dispatched_at = some 140 }

abbrev shop_dispatched : Db
shop_dispatched = record shop_confirmed { deliveries = dispatched ∷ [] }

abbrev delivered : RecordDeliveryAttemptCommand
delivered = record {
  result = AttemptResult.delivered;
  failure_reason = none;
  note = none;
  idempotency_key = 12;
  request_hash = 121;
}

abbrev delivered_later : RecordDeliveryAttemptCommand
delivered_later = record delivered { idempotency_key = 13 }

dispatched_found : find_job 1 900 shop_dispatched ≡ some dispatched
unfolding find_job is_job find
dispatched_found = refl

no_attempt : (k : Uuid) → find_attempt_key 1 k shop_dispatched ≡ none
unfolding find_attempt_key find
no_attempt k = refl

record_locked_concludes_example :
    (job' : DeliveryJob) × (attempt : DeliveryAttempt) × (db' : Db) × (record_locked env 1 900
        delivered 150 shop_dispatched
      ≡ (ok (some (job', attempt)), db'))
    × IsRecorded 1 900 delivered 150 shop_dispatched dispatched job' attempt db'
    × (record_locked env 1 900 delivered_later 160 db' ≡ (err delivery_invalid_transition, db'))
record_locked_concludes_example =
    record_locked_concludes env env 1 900 delivered delivered_later 150 160 shop_dispatched
      dispatched dispatched_found refl (no_attempt 12) (no_attempt 13) refl
