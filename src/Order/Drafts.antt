-- ===== src/Order/Drafts.antt =====
-- `create` and `patch` of apps/api/src/orders/prisma-order.store.ts.
use tteeka.Prelude.{
  Bool, not, Option, none, some, [], ◌∷◌, ◌++◌, ◌==◌, ◌&&◌, is_some, same_option, or_default,
  if◌then◌else◌,
}
use tteeka.Prelude.Table.{find}
use tteeka.Schema.{Db, Uuid, Key, Hash, Customer, Location, Order, OrderStatus, DeliverySnapshot}
use tteeka.Store.{
  Env, Store, pure, raise, gets, modify, or_raise, raise_if, transaction, catch_unique,
  unique_violation, idempotency_key, order_idempotency_conflict, order_reference_unavailable,
  order_not_editable, ◌>>=◌, ◌>>◌,
}
use tteeka.Order.Lifecycle.{find_order, save_order, is_draft}

pub record CreateOrderCommand : Type 0 where
  pub customer_id : Uuid
  pub delivery_location_id : Option Uuid
  pub idempotency_key : Key
  pub request_hash : Hash

-- A field that is absent is none.
pub record OrderPatchInput : Type 0 where
  pub customer_id : Option Uuid
  pub delivery_location_id : Option (Option Uuid)

unfoldable pub is_order_key : Uuid → Key → Order → Bool
is_order_key m k o = o.merchant_id == m && o.idempotency_key == k

unfoldable pub find_order_key : Uuid → Key → Db → Option Order
find_order_key m k db = find (is_order_key m k) db.orders

-- `where: { merchantId, id, status: 'ACTIVE' }`
unfoldable pub is_active_customer : Uuid → Uuid → Customer → Bool
is_active_customer m id c = c.merchant_id == m && c.id == id && c.is_active

unfoldable pub find_active_customer : Uuid → Uuid → Db → Option Customer
find_active_customer m id db = find (is_active_customer m id) db.customers

-- `where: { merchantId, customerId, id, status: 'ACTIVE' }`
unfoldable pub is_active_location : Uuid → Uuid → Uuid → Location → Bool
is_active_location m customer_id id l =
    l.merchant_id == m && l.customer_id == customer_id && l.id == id && l.is_active

-- `locationId === null ? null : await …`
unfoldable pub location_of : Uuid → Uuid → Option Uuid → Db → Option Location
unfolding is_active_location
location_of m customer_id none db = none
location_of m customer_id (some id) db = find (is_active_location m customer_id id) db.locations

-- The fields `location?.… ?? null`.
unfoldable pub snapshot_of : Option Location → DeliverySnapshot
snapshot_of none = record {
  location_id = none;
  area = none;
  landmark = none;
  phone = none;
  instructions = none;
  map_pin_url = none;
}
snapshot_of (some l) = record {
  location_id = some l.id;
  area = some l.details.area;
  landmark = some l.details.landmark;
  phone = some l.details.phone;
  instructions = l.details.instructions;
  map_pin_url = l.details.map_pin_url;
}

abbrev pub new_order : Env → Uuid → CreateOrderCommand → Customer → Option Location → Db → Order
new_order env m command customer location db = record {
  id = env.fresh_id db;
  merchant_id = m;
  customer_id = customer.id;
  status = OrderStatus.draft;
  customer_name_snapshot = customer.name;
  customer_phone_snapshot = customer.phone;
  delivery = snapshot_of location;
  currency = none;
  subtotal = 0;
  idempotency_key = command.idempotency_key;
  request_hash = command.request_hash;
  created_at = env.db_now db;
  abandoned_at = none;
  cancelled_at = none;
  confirmed_at = none;
  stock_hold_expires_at = none;
  confirmation_idempotency_key = none;
  confirmation_request_hash = none;
}

-- `transaction.order.create`, which the unique (merchant, key) may refuse
unfoldable pub insert_order :
    Env → Uuid → CreateOrderCommand → Customer → Option Location → Store Order
insert_order env m command customer location db =
    (if is_some (find_order_key m command.idempotency_key db)
        then raise (unique_violation idempotency_key)
        else do
          let order = new_order env m command customer location db
          modify (λ t. record t { orders = t.orders ++ order ∷ [] })
          pure order)
      db

unfoldable pub resolve_order_replay : Order → CreateOrderCommand → Store Order
resolve_order_replay replay command =
    if replay.request_hash == command.request_hash
    then pure replay
    else raise order_idempotency_conflict

-- Nothing is locked; what others commit is seen when the new row meets the unique key.
unfoldable pub create_in_transaction : Env → Uuid → CreateOrderCommand → Store Order
unfolding insert_order
create_in_transaction env m command = do
  replay ← gets (find_order_key m command.idempotency_key)
  elim replay [
    | some order ↦ resolve_order_replay order command
    | none ↦ do
      found ← gets (find_active_customer m command.customer_id)
      customer ← or_raise found order_reference_unavailable
      location ← gets (location_of m customer.id command.delivery_location_id)
      raise_if (is_some command.delivery_location_id && not (is_some location))
          order_reference_unavailable
      modify env.waited
      insert_order env m command customer location
  ]

unfoldable pub recover_order : Uuid → CreateOrderCommand → Store Order
unfolding resolve_order_replay
recover_order m command = do
  replay ← gets (find_order_key m command.idempotency_key)
  order ← or_raise replay order_idempotency_conflict
  resolve_order_replay order command

unfoldable pub create : Env → Uuid → CreateOrderCommand → Store Order
unfolding create_in_transaction recover_order
create env m command = catch_unique (create_in_transaction env m command) (recover_order m command)

-- `patch.customerId !== undefined && patch.customerId !== current.customerId`
abbrev pub is_customer_changed : OrderPatchInput → Order → Bool
is_customer_changed patch o =
    is_some patch.customer_id && not (or_default patch.customer_id o.customer_id == o.customer_id)

unfoldable pub target_location_id : OrderPatchInput → Order → Option Uuid
target_location_id patch o = elim patch.delivery_location_id [
  | some given ↦ given
  | none ↦ if is_customer_changed patch o then none else o.delivery.location_id
]

-- The `data` of the update.
unfoldable pub patched_order : Uuid → Option Customer → Option Location → Order → Order
patched_order customer_id none location o = record o {
  customer_id = customer_id;
  delivery = snapshot_of location;
}
patched_order customer_id (some c) location o = record o {
  customer_id = customer_id;
  customer_name_snapshot = c.name;
  customer_phone_snapshot = c.phone;
  delivery = snapshot_of location;
}

-- From the comparison with the current order on.
unfoldable pub patch_draft : Uuid → Uuid → OrderPatchInput → Order → Store (Option Order)
unfolding target_location_id
patch_draft m id input current =
    let customer_changed = is_customer_changed input current in
    let customer_id = or_default input.customer_id current.customer_id in
    let location_id = target_location_id input current in
    if not customer_changed && same_option location_id current.delivery.location_id
    then pure (some current)
    else do
      customer ←
          gets (λ db. if customer_changed then find_active_customer m customer_id db else none)
      raise_if (customer_changed && not (is_some customer)) order_reference_unavailable
      location ← gets (location_of m customer_id location_id)
      raise_if (is_some location_id && not (is_some location)) order_reference_unavailable
      modify (save_order m id (patched_order customer_id customer location))
      pure (some (patched_order customer_id customer location current))

unfoldable pub patch : Uuid → Uuid → OrderPatchInput → Store (Option Order)
unfolding patch_draft
patch m id input = transaction do
  locked ← gets (find_order m id)
  elim locked [
    | none ↦ pure none
    | some current ↦ do
      raise_if (not (is_draft current.status)) order_not_editable
      patch_draft m id input current
  ]
