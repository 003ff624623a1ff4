-- ===== src/Delivery/Jobs.antt =====
-- `create` and `transition` of apps/api/src/deliveries/prisma-delivery.store.ts.
use tteeka.Prelude.{
  Bool, true, false, not, Option, none, some, String, [], ◌∷◌, ◌++◌, ◌==◌, ◌&&◌, is_some,
  if◌then◌else◌,
}
use tteeka.Prelude.Table.{find, update_first}
use tteeka.Schema.{Db, Uuid, Key, Hash, Date, Order, OrderStatus, DeliveryJob, JobStatus}
use tteeka.Store.{
  Env, Store, pure, raise, gets, modify, raise_if, or_raise, transaction, catch_unique,
  unique_violation, idempotency_key, delivery_order, delivery_idempotency_conflict,
  delivery_already_exists, delivery_order_unavailable, delivery_order_ineligible,
  delivery_location_required, delivery_invalid_transition, ◌>>=◌, ◌>>◌,
}

pub record CreateDeliveryCommand : Type 0 where
  pub order_id : Uuid
  pub idempotency_key : Key
  pub request_hash : Hash

unfoldable pub is_order : Uuid → Uuid → Order → Bool
is_order m id o = o.merchant_id == m && o.id == id

unfoldable pub is_job_key : Uuid → Key → DeliveryJob → Bool
is_job_key m k j = j.merchant_id == m && j.idempotency_key == k

unfoldable pub find_job_key : Uuid → Key → Db → Option DeliveryJob
find_job_key m k db = find (is_job_key m k) db.deliveries

unfoldable pub is_job_for : Uuid → Uuid → DeliveryJob → Bool
is_job_for m order_id j = j.merchant_id == m && j.order_id == order_id

unfoldable pub find_job_for : Uuid → Uuid → Db → Option DeliveryJob
find_job_for m order_id db = find (is_job_for m order_id) db.deliveries

unfoldable pub is_job : Uuid → Uuid → DeliveryJob → Bool
is_job m id j = j.merchant_id == m && j.id == id

-- `find`
unfoldable pub find_job : Uuid → Uuid → Db → Option DeliveryJob
find_job m id db = find (is_job m id) db.deliveries

-- `isExactCreationReplay`
abbrev pub is_exact_creation_replay : DeliveryJob → CreateDeliveryCommand → Bool
is_exact_creation_replay replay command =
    replay.order_id == command.order_id && replay.request_hash == command.request_hash

unfoldable pub resolve_creation : DeliveryJob → CreateDeliveryCommand → Store DeliveryJob
resolve_creation replay command =
    if is_exact_creation_replay replay command
    then pure replay
    else raise delivery_idempotency_conflict

abbrev pub is_confirmed : OrderStatus → Bool
is_confirmed OrderStatus.confirmed = true
is_confirmed _ = false

abbrev pub new_job :
    Env → Uuid → CreateDeliveryCommand → Order → String → String → String → Db → DeliveryJob
new_job env m command order area landmark phone db = record {
  id = env.fresh_id db;
  merchant_id = m;
  order_id = order.id;
  status = JobStatus.pending;
  recipient_name_snapshot = order.customer_name_snapshot;
  recipient_phone_snapshot = order.customer_phone_snapshot;
  area_snapshot = area;
  landmark_snapshot = landmark;
  delivery_phone_snapshot = phone;
  instructions_snapshot = order.delivery.instructions;
  map_pin_url_snapshot = order.delivery.map_pin_url;
  idempotency_key = command.idempotency_key;
  request_hash = command.request_hash;
  created_at = env.db_now db;
  ready_at = none;
  dispatched_at = none;
  delivered_at = none;
  failed_at = none;
  cancelled_at = none;
}

-- `deliveryJob.create`, which the unique (merchant, key) or (merchant, order) may refuse
unfoldable pub insert_job : Uuid → DeliveryJob → Store DeliveryJob
insert_job m job db =
    (if is_some (find_job_key m job.idempotency_key db)
        then raise (unique_violation idempotency_key)
        else if is_some (find_job_for m job.order_id db)
        then raise (unique_violation delivery_order)
        else do modify (λ t. record t { deliveries = t.deliveries ++ job ∷ [] }); pure job)
      db

-- From the check of the order's state on.
unfoldable pub create_for_order : Env → Uuid → CreateDeliveryCommand → Order → Store DeliveryJob
unfolding insert_job
create_for_order env m command order = do
  raise_if (not (is_confirmed order.status)) delivery_order_ineligible
  or_raise order.delivery.location_id delivery_location_required
  area ← or_raise order.delivery.area delivery_location_required
  landmark ← or_raise order.delivery.landmark delivery_location_required
  phone ← or_raise order.delivery.phone delivery_location_required
  job ← gets (new_job env m command order area landmark phone)
  insert_job m job

unfoldable pub create_locked : Env → Uuid → CreateDeliveryCommand → Store DeliveryJob
unfolding resolve_creation create_for_order
create_locked env m command = do
  locked ← gets (λ db. find (is_order m command.order_id) db.orders)
  order ← or_raise locked delivery_order_unavailable
  replay ← gets (find_job_key m command.idempotency_key)
  elim replay [
    | some job ↦ resolve_creation job command
    | none ↦ do
      existing ← gets (find_job_for m command.order_id)
      raise_if (is_some existing) delivery_already_exists
      create_for_order env m command order
  ]

-- The `catch` of a unique violation.
unfoldable pub recover_creation : Uuid → CreateDeliveryCommand → Store DeliveryJob
recover_creation m command = do
  replay ← gets (find_job_key m command.idempotency_key)
  existing ← gets (find_job_for m command.order_id)
  let refused =
      raise {A = DeliveryJob}
        (if is_some existing then delivery_already_exists else delivery_idempotency_conflict)
  elim replay [
    | some job ↦ if is_exact_creation_replay job command then pure job else refused
    | none ↦ refused
  ]

-- What follows the lookup of the key, outside the transaction at first.
unfoldable pub create_after_lookup :
    Env → Uuid → CreateDeliveryCommand → Option DeliveryJob → Store DeliveryJob
unfolding resolve_creation
create_after_lookup env m command (some job) = resolve_creation job command
create_after_lookup env m command none = do
  modify env.waited
  catch_unique (transaction (create_locked env m command)) (recover_creation m command)

unfoldable pub create : Env → Uuid → CreateDeliveryCommand → Store DeliveryJob
unfolding create_after_lookup
create env m command = do
  existing_replay ← gets (find_job_key m command.idempotency_key)
  create_after_lookup env m command existing_replay

pub data JobTarget : Type 0 where
  ready dispatched cancelled : JobTarget

abbrev pub target_status : JobTarget → JobStatus
target_status JobTarget.ready = JobStatus.ready
target_status JobTarget.dispatched = JobStatus.dispatched
target_status JobTarget.cancelled = JobStatus.cancelled

-- `===` on the states
unfoldable pub same_status : JobStatus → JobStatus → Bool
same_status JobStatus.pending JobStatus.pending = true
same_status JobStatus.ready JobStatus.ready = true
same_status JobStatus.dispatched JobStatus.dispatched = true
same_status JobStatus.delivered JobStatus.delivered = true
same_status JobStatus.failed JobStatus.failed = true
same_status JobStatus.cancelled JobStatus.cancelled = true
same_status _ _ = false

-- `allowed`
unfoldable pub is_allowed : JobTarget → JobStatus → Bool
is_allowed JobTarget.ready JobStatus.pending = true
is_allowed JobTarget.dispatched JobStatus.ready = true
is_allowed JobTarget.cancelled JobStatus.pending = true
is_allowed JobTarget.cancelled JobStatus.ready = true
is_allowed _ _ = false

-- The `data` of the update.
unfoldable pub advance : JobTarget → Date → DeliveryJob → DeliveryJob
advance JobTarget.ready now j = record j { status = JobStatus.ready; ready_at = some now }
advance JobTarget.dispatched now j = record j {
  status = JobStatus.dispatched;
  dispatched_at = some now;
}
advance JobTarget.cancelled now j = record j {
  status = JobStatus.cancelled;
  cancelled_at = some now;
}

unfoldable pub save_job : Uuid → Uuid → (DeliveryJob → DeliveryJob) → Db → Db
save_job m id f db = record db { deliveries = update_first (is_job m id) f db.deliveries }

-- From the lock of the job on, with the state that was seen before it.
unfoldable pub transition_locked :
    Uuid → Uuid → JobTarget → Date → DeliveryJob → Store (Option DeliveryJob)
unfolding save_job
transition_locked m id target now observed = do
  locked ← gets (find_job m id)
  elim locked [
    | none ↦ pure none
    | some current ↦
        if same_status current.status (target_status target)
        then pure (some current)
        else if not (same_status current.status observed.status)
        then raise delivery_invalid_transition
        else if not (is_allowed target current.status)
        then raise delivery_invalid_transition
        else do
          modify (save_job m id (advance target now))
          pure (some (advance target now current))
  ]

unfoldable pub transition : Env → Uuid → Uuid → JobTarget → Date → Store (Option DeliveryJob)
unfolding transition_locked
transition env m id target now = do
  seen ← gets (find_job m id)
  elim seen [
    | none ↦ pure none
    | some observed ↦ do modify env.waited; transaction (transition_locked m id target now observed)
  ]
