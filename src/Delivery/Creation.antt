-- ===== src/Delivery/Creation.antt =====
-- A confirmed order gets one delivery, with what the order recorded: proofs about `create` of
-- Jobs.antt.
use tteeka.Prelude.{
  ◌≡◌, sym, ap, ◌∙◌, none, some, [], ◌∷◌, ◌++◌, ◌⊎◌, ◌≢◌, inl, inr, Option-cases, arith,
}
use tteeka.Prelude.Table.{find, find-append_none, find_holds}
use tteeka.Schema.{Db, Uuid, Order, OrderStatus, DeliveryJob, JobStatus}
use tteeka.Store.{
  Env, ok, err, StoreError, guarded-eq-ok, guarded-eq-err, is_unique_violation, catch_unique,
  transaction,
}
use tteeka.Delivery.Jobs.{
  CreateDeliveryCommand, create, create_after_lookup, create_locked, create_for_order, find_job_key,
  is_job_key, find_job_for, is_order, recover_creation,
}

-- A job that carries what its order recorded about the customer and the place.
pub record CopiedFrom (o : Order) (j : DeliveryJob) : Type 0 where
  pub order_id : j.order_id ≡ o.id
  pub recipient_name : j.recipient_name_snapshot ≡ o.customer_name_snapshot
  pub recipient_phone : j.recipient_phone_snapshot ≡ o.customer_phone_snapshot
  pub area : o.delivery.area ≡ some j.area_snapshot
  pub landmark : o.delivery.landmark ≡ some j.landmark_snapshot
  pub phone : o.delivery.phone ≡ some j.delivery_phone_snapshot
  pub instructions : j.instructions_snapshot ≡ o.delivery.instructions
  pub map_pin : j.map_pin_url_snapshot ≡ o.delivery.map_pin_url
  pub state : j.status ≡ JobStatus.pending

-- How a job that is new came to be, on the tables that the transaction found.
pub record Opened (m : Uuid) (command : CreateDeliveryCommand) (db : Db) (job : DeliveryJob)
    (db' : Db) : Type 0 where
  pub order : Order
  pub found : find (is_order m command.order_id) db.orders ≡ some order
  pub confirmed : order.status ≡ OrderStatus.confirmed
  pub copied : CopiedFrom order job
  pub for_order : job.order_id ≡ command.order_id
  pub merchant : job.merchant_id ≡ m
  pub key : job.idempotency_key ≡ command.idempotency_key
  pub hash : job.request_hash ≡ command.request_hash
  pub new_key : find_job_key m command.idempotency_key db ≡ none
  pub no_other : find_job_for m command.order_id db ≡ none
  pub appended : db' ≡ record db { deliveries = db.deliveries ++ job ∷ [] }

create_for_order-Opened :
    (env : Env) (m : Uuid) (command : CreateDeliveryCommand) (order : Order) (db : Db)
    {job : DeliveryJob} {db' : Db}
    → find (is_order m command.order_id) db.orders ≡ some order
    → find_job_key m command.idempotency_key db ≡ none
    → find_job_for m command.order_id db ≡ none
    → create_for_order env m command order db ≡ (ok job, db')
    → Opened m command db job db'
unfolding create_for_order is_order
create_for_order-Opened env m command order db {job} {db'} f k n e = record {
  order = order;
  found = f;
  confirmed = ground (arith, e);
  copied = ground (arith, e);
  for_order = ground (arith, e, find_holds (is_order m command.order_id) db.orders f);
  merchant = ground (arith, e);
  key = ground (arith, e);
  hash = ground (arith, e);
  new_key = k;
  no_other = n;
  appended = ground (arith, e);
}

-- The ways in which `create` returns a job.
pub data Opening (env : Env) (m : Uuid) (command : CreateDeliveryCommand) (db : Db)
    (job : DeliveryJob) (db' : Db) : Type 0 where
  replayed :
      find_job_key m command.idempotency_key db' ≡ some job
      → job.order_id ≡ command.order_id
      → job.request_hash ≡ command.request_hash
      → (db' ≡ db) ⊎ (db' ≡ env.waited db)
      → Opening env m command db job db'
  opened : Opened m command (env.waited db) job db' → Opening env m command db job db'

create_locked-Opening :
    (env : Env) (m : Uuid) (command : CreateDeliveryCommand) (db : Db) {job : DeliveryJob}
    {db' : Db}
    → create_locked env m command (env.waited db) ≡ (ok job, db')
    → Opening env m command db job db'
unfolding create_locked
create_locked-Opening env m command db {job} {db'} e =
    let db₁ = env.waited db in
    elim (Option-cases (find (is_order m command.order_id) db₁.orders)) [
      | inl missing ↦ absurd (ground (arith, missing, e))
      | inr (order, f) ↦ elim (Option-cases (find_job_key m command.idempotency_key db₁)) [
        | inr (old, k) ↦
            replayed (ground (arith, f, k, e)) (ground (arith, f, k, e)) (ground (arith, f, k, e))
              (inr (ground (arith, f, k, e)))
        | inl k ↦ elim (Option-cases (find_job_for m command.order_id db₁)) [
          | inr (other, n) ↦ absurd (ground (arith, f, k, n, e))
          | inl n ↦
              opened
                (create_for_order-Opened env m command order db₁ f k n (ground (arith, f, k, n, e)))
        ]
      ]
    ]

recover_creation-ok :
    (m : Uuid) (command : CreateDeliveryCommand) (db : Db) {job : DeliveryJob} {db' : Db}
    → recover_creation m command db ≡ (ok job, db')
    → (find_job_key m command.idempotency_key db ≡ some job)
      × (job.order_id ≡ command.order_id)
      × (job.request_hash ≡ command.request_hash)
      × (db' ≡ db)
unfolding recover_creation
recover_creation-ok m command db {job} {db'} e = ground arith

recover_creation_err :
    (m : Uuid) (command : CreateDeliveryCommand) (db : Db) {x : StoreError} {db' : Db}
    → recover_creation m command db ≡ (err x, db')
    → db' ≡ db
unfolding recover_creation
recover_creation_err m command db {x} {db'} e = ground (arith, e)

create_found :
    (env : Env) (m : Uuid) (command : CreateDeliveryCommand) (db : Db) {old job : DeliveryJob}
    {db' : Db}
    → find_job_key m command.idempotency_key db ≡ some old
    → create env m command db ≡ (ok job, db')
    → (job.order_id ≡ command.order_id)
      × (job.request_hash ≡ command.request_hash)
      × (job ≡ old)
      × (db' ≡ db)
unfolding create
create_found env m command db {old} {job} {db'} k e = ground (arith, k, e)

create_shut :
    (env : Env) (m : Uuid) (command : CreateDeliveryCommand) (db : Db)
    → find_job_key m command.idempotency_key db ≡ none
    → create env m command db
      ≡ catch_unique
          (transaction (create_locked env m command))
          (recover_creation m command)
          (env.waited db)
unfolding create
create_shut env m command db k = ap (λ o. create_after_lookup env m command o db) k

pub create-Opening :
    (env : Env) (m : Uuid) (command : CreateDeliveryCommand) (db : Db) {job : DeliveryJob}
    {db' : Db}
    → create env m command db ≡ (ok job, db')
    → Opening env m command db job db'
create-Opening env m command db {job} {db'} e =
    elim (Option-cases (find_job_key m command.idempotency_key db)) [
      | inr (old, k) ↦
          let (o, hash, same, kept) = create_found env m command db {job = job} {db' = db'} k e in
          replayed (ground (arith, k, same, kept)) o hash (inl kept)
      | inl k ↦
          elim (guarded-eq-ok is_unique_violation (create_locked env m command)
            (λ _. recover_creation m command) (env.waited db)
            (sym (create_shut env m command db k) ∙ e)) [
              | inl done ↦ create_locked-Opening env m command db done
              | inr (x, again) ↦
                  let (f, o, hash, same) = recover_creation-ok m command (env.waited db) again in
                  replayed (ground (arith, f, same)) o hash (inr same)
            ]
    ]

-- A call that throws leaves no write of its own.
pub create_err :
    (env : Env) (m : Uuid) (command : CreateDeliveryCommand) (db : Db) {x : StoreError} {db' : Db}
    → create env m command db ≡ (err x, db')
    → (db' ≡ db) ⊎ (db' ≡ env.waited db)
create_err env m command db {x} {db'} e =
    elim (Option-cases (find_job_key m command.idempotency_key db)) [
      | inr (old, k) ↦ inl (unfold create in ground (arith, k, e))
      | inl k ↦
          elim (guarded-eq-err is_unique_violation (create_locked env m command)
            (λ _. recover_creation m command) (env.waited db)
            (sym (create_shut env m command db k) ∙ e)) [
              | inl same ↦ inr same
              | inr (y, again) ↦ inr (recover_creation_err m command (env.waited db) again)
            ]
    ]

create_recorded :
    (env : Env) (m : Uuid) (command : CreateDeliveryCommand) (db : Db) {job : DeliveryJob}
    → find_job_key m command.idempotency_key db ≡ some job
    → job.order_id ≡ command.order_id
    → job.request_hash ≡ command.request_hash
    → create env m command db ≡ (ok job, db)
unfolding create
create_recorded env m command db {job} k o hash = ground (arith, k, o, hash)

Opening-recorded :
    (env : Env) (m : Uuid) (command : CreateDeliveryCommand) (db : Db) {job : DeliveryJob}
    {db' : Db}
    → Opening env m command db job db'
    → (find_job_key m command.idempotency_key db' ≡ some job)
      × (job.order_id ≡ command.order_id)
      × (job.request_hash ≡ command.request_hash)
unfolding find_job_key find is_job_key
Opening-recorded env m command db (replayed k o hash same) = (k, o, hash)
Opening-recorded env m command db {job} {db'} (opened w) = (
  ground (
    arith,
    w.appended,
    w.merchant,
    w.key,
    find-append_none (is_job_key m command.idempotency_key) (env.waited db).deliveries (job ∷ [])
        w.new_key,
  ),
  w.for_order,
  w.hash,
)

-- Once a delivery has been returned, the same request sent again on the tables that it left, and
-- whatever is committed during its waits, returns that delivery and changes nothing.
pub create_again :
    (env env' : Env) (m : Uuid) (command : CreateDeliveryCommand) (db : Db) {job : DeliveryJob}
    {db' : Db}
    → create env m command db ≡ (ok job, db')
    → create env' m command db' ≡ (ok job, db')
create_again env env' m command db {job} {db'} e =
    let (k, o, hash) = Opening-recorded env m command db (create-Opening env m command db e) in
    create_recorded env' m command db' k o hash

-- A delivery that is returned with a row that neither the tables at first nor those after the wait
-- held is for an order that was confirmed with a complete place when its row was locked, it copies
-- what that order recorded, and it is the only row that is added.
pub create_copies :
    (env : Env) (m : Uuid) (command : CreateDeliveryCommand) (db : Db) {job : DeliveryJob}
    {db' : Db}
    → create env m command db ≡ (ok job, db')
    → db' ≢ db
    → db' ≢ env.waited db
    → (order : Order) × (find (is_order m command.order_id) (env.waited db).orders ≡ some order)
      × (order.status ≡ OrderStatus.confirmed)
      × CopiedFrom order job
      × (db' ≡ record (env.waited db) { deliveries = (env.waited db).deliveries ++ job ∷ [] })
create_copies env m command db {job} {db'} e new new' = copies (create-Opening env m command db e)
  where
    copies :
        Opening env m command db job db'
        → (order : Order) × (find (is_order m command.order_id) (env.waited db).orders ≡ some order)
          × (order.status ≡ OrderStatus.confirmed)
          × CopiedFrom order job
          × (db' ≡ record (env.waited db) { deliveries = (env.waited db).deliveries ++ job ∷ [] })
    copies (replayed k o hash (inl same)) = absurd (new same)
    copies (replayed k o hash (inr same)) = absurd (new' same)
    copies (opened w) = (w.order, w.found, w.confirmed, w.copied, w.appended)
