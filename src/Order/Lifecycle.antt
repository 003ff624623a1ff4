-- ===== src/Order/Lifecycle.antt =====
-- `confirm` and `transition` of apps/api/src/orders/prisma-order.store.ts.
use tteeka.Prelude.{
  ℕ, Bool, true, false, not, Option, none, some, List, [], ◌∷◌, map, ◌==◌, ◌&&◌, ◌||◌, ltb, leb,
  any, same_option, if◌then◌else◌,
}
use tteeka.Prelude.Table.{find, filter, update_first, update_where}
use tteeka.Schema.{Db, Uuid, Key, Hash, Date, Order, OrderItem, OrderStatus, Hold}
use tteeka.Store.{
  Env, Store, StoreError, ok, err, pure, raise, gets, modify, raise_if, transaction,
  is_unique_violation, insufficient_sellable_inventory, order_confirmation_conflict, order_empty,
  order_invalid_transition, order_insufficient_sellable_inventory, ◌>>=◌, ◌>>◌,
}
use tteeka.Inventory.Queries.{is_active}
use tteeka.Inventory.Allocation.{StockHoldAllocation, allocate_stock_holds}
use tteeka.Inventory.Holds.{expire, release}

pub record ConfirmOrderCommand : Type 0 where
  pub expires_at_date : Date
  pub idempotency_key : Key
  pub request_hash : Hash
  pub now : Date

-- `order-${randomUUID()}` for each item, and `stockHoldRequestHash`, which is a SHA-256 digest.
pub record Tokens : Type 0 where
  pub random_key : OrderItem → Key
  pub stock_hold_request_hash : Uuid → ℕ → Date → Hash

unfoldable pub is_order : Uuid → Uuid → Order → Bool
is_order m id o = o.merchant_id == m && o.id == id

unfoldable pub find_order : Uuid → Uuid → Db → Option Order
find_order m id db = find (is_order m id) db.orders

unfoldable pub save_order : Uuid → Uuid → (Order → Order) → Db → Db
save_order m id f db = record db { orders = update_first (is_order m id) f db.orders }

unfoldable pub has_confirmation_key : Uuid → Key → Order → Bool
has_confirmation_key m k o =
    o.merchant_id == m && same_option o.confirmation_idempotency_key (some k)

unfoldable pub is_item_of : Uuid → Uuid → OrderItem → Bool
is_item_of m order_id i = i.merchant_id == m && i.order_id == order_id

abbrev item_comes_before : OrderItem → OrderItem → Bool
item_comes_before i j =
    ltb i.variant_id j.variant_id || (i.variant_id == j.variant_id && leb i.id j.id)

insert_item : OrderItem → List OrderItem → List OrderItem
insert_item i [] = i ∷ []
insert_item i (j ∷ js) =
    let rest = insert_item i js in if item_comes_before i j then i ∷ j ∷ js else j ∷ rest

-- `orderBy: [{ variantId: 'asc' }, { id: 'asc' }]`
unfoldable pub sort_items : List OrderItem → List OrderItem
unfolding insert_item
sort_items [] = []
sort_items (i ∷ is) = insert_item i (sort_items is)

-- `orderItem.findMany`
unfoldable pub items_of : Uuid → Uuid → Db → List OrderItem
items_of m order_id db = sort_items (filter (is_item_of m order_id) db.items)

abbrev pub allocation_of : Tokens → ConfirmOrderCommand → OrderItem → StockHoldAllocation
allocation_of tokens command i = record {
  variant_id = i.variant_id;
  order_item_id = some i.id;
  quantity = i.quantity;
  expires_at = command.expires_at_date;
  idempotency_key = tokens.random_key i;
  request_hash = tokens.stock_hold_request_hash i.variant_id i.quantity command.expires_at_date;
}

abbrev pub allocations_of : Tokens → ConfirmOrderCommand → List OrderItem → List StockHoldAllocation
allocations_of tokens command items = map (allocation_of tokens command) items

unfoldable pub confirmed_order : ConfirmOrderCommand → Order → Order
confirmed_order command o = record o {
  status = OrderStatus.confirmed;
  confirmed_at = some command.now;
  stock_hold_expires_at = some command.expires_at_date;
  confirmation_idempotency_key = some command.idempotency_key;
  confirmation_request_hash = some command.request_hash;
}

-- A list is empty: `items.length === 0`.
abbrev pub is_empty : List OrderItem → Bool
is_empty [] = true
is_empty (i ∷ is) = false

-- What is written for a draft.
unfoldable pub confirm_draft :
    Env → Tokens → Uuid → Uuid → ConfirmOrderCommand → Order → Store (Option Order)
unfolding confirmed_order save_order
confirm_draft env tokens m id command current = do
  items ← gets (items_of m id)
  raise_if (is_empty items) order_empty
  allocate_stock_holds env m (allocations_of tokens command items) command.now
  modify (save_order m id (confirmed_order command))
  pure (some (confirmed_order command current))

-- `current.confirmationIdempotencyKey === … && current.confirmationRequestHash === …`
abbrev pub is_same_confirmation : ConfirmOrderCommand → Order → Bool
is_same_confirmation command o =
    same_option o.confirmation_idempotency_key (some command.idempotency_key)
    && same_option o.confirmation_request_hash (some command.request_hash)

unfoldable pub confirm_by_status :
    Env → Tokens → Uuid → Uuid → ConfirmOrderCommand → Order → OrderStatus → Store (Option Order)
confirm_by_status env tokens m id command current OrderStatus.confirmed =
    if is_same_confirmation command current
    then pure (some current)
    else raise order_confirmation_conflict
confirm_by_status env tokens m id command current OrderStatus.draft =
    confirm_draft env tokens m id command current
confirm_by_status env tokens m id command current _ = raise order_invalid_transition

-- `keyOwner !== null && keyOwner.id !== orderId`
abbrev pub is_owned_by_other : Uuid → Option Order → Bool
is_owned_by_other id none = false
is_owned_by_other id (some owner) = not (owner.id == id)

unfoldable pub confirm_locked :
    Env → Tokens → Uuid → Uuid → ConfirmOrderCommand → Store (Option Order)
unfolding has_confirmation_key confirm_by_status
confirm_locked env tokens m id command = do
  locked ← gets (find_order m id)
  elim locked [
    | none ↦ pure none
    | some current ↦ do
      key_owner ← gets (λ db. find (has_confirmation_key m command.idempotency_key) db.orders)
      raise_if (is_owned_by_other id key_owner) order_confirmation_conflict
      confirm_by_status env tokens m id command current current.status
  ]

-- `error instanceof InsufficientSellableInventoryError`
abbrev pub is_insufficient : StoreError → Bool
is_insufficient insufficient_sellable_inventory = true
is_insufficient _ = false

-- The errors that the `catch` throws in place of those of the transaction.
unfoldable pub confirmation_error : StoreError → StoreError
confirmation_error x =
    if is_insufficient x
    then order_insufficient_sellable_inventory
    else if is_unique_violation x
    then order_confirmation_conflict
    else x

abbrev pub map_error : {A : Type 0} → (StoreError → StoreError) → Store A → Store A
map_error f m db = let (r, db') = m db in elim r [ ok a ↦ (ok a, db') | err x ↦ (err (f x), db') ]

unfoldable pub confirm : Env → Tokens → Uuid → Uuid → ConfirmOrderCommand → Store (Option Order)
confirm env tokens m id command =
    map_error confirmation_error (transaction (confirm_locked env tokens m id command))

pub data OrderTarget : Type 0 where
  abandoned cancelled : OrderTarget

abbrev pub target_status : OrderTarget → OrderStatus
target_status OrderTarget.abandoned = OrderStatus.abandoned
target_status OrderTarget.cancelled = OrderStatus.cancelled

-- `current.status === target`
abbrev pub is_at : OrderTarget → OrderStatus → Bool
is_at OrderTarget.abandoned OrderStatus.abandoned = true
is_at OrderTarget.cancelled OrderStatus.cancelled = true
is_at _ _ = false

-- `target === 'CANCELLED' && current.status === 'CONFIRMED'`
abbrev pub cancels_confirmed : OrderTarget → OrderStatus → Bool
cancels_confirmed OrderTarget.cancelled OrderStatus.confirmed = true
cancels_confirmed _ _ = false

abbrev pub is_draft : OrderStatus → Bool
is_draft OrderStatus.draft = true
is_draft _ = false

abbrev pub has_item : Option Uuid → Uuid → Uuid → List OrderItem → Bool
has_item none m order_id items = false
has_item (some item_id) m order_id items =
    any (λ i. is_item_of m order_id i && i.id == item_id) items

-- `where: { merchantId, orderItem: { orderId } }`
unfoldable pub is_hold_of_order : Uuid → Uuid → List OrderItem → Hold → Bool
is_hold_of_order m order_id items h =
    h.merchant_id == m && has_item h.order_item_id m order_id items

-- The body of the loop over the holds.
unfoldable pub end_hold : Date → Hold → Hold
end_hold now h =
    if not (is_active h.status) then h else if leb h.expires_at now then expire h else release now h

unfoldable pub end_holds : Uuid → Uuid → Date → Db → Db
unfolding is_hold_of_order end_hold
end_holds m order_id now db = record db {
  holds = update_where (is_hold_of_order m order_id db.items) (end_hold now) db.holds;
}

unfoldable pub closed_order : OrderTarget → Date → Order → Order
closed_order OrderTarget.abandoned now o = record o {
  status = OrderStatus.abandoned;
  abandoned_at = some now;
}
closed_order OrderTarget.cancelled now o = record o {
  status = OrderStatus.cancelled;
  cancelled_at = some now;
}

-- From the lock of the order on; `now` is `new Date()`.
unfoldable pub close_order : Uuid → Uuid → OrderTarget → Date → Order → Store (Option Order)
unfolding closed_order
close_order m id target now current =
    if is_at target current.status
    then pure (some current)
    else if not (is_draft current.status) && not (cancels_confirmed target current.status)
    then raise order_invalid_transition
    else do
      modify (λ db. if cancels_confirmed target current.status then end_holds m id now db else db)
      modify (save_order m id (closed_order target now))
      pure (some (closed_order target now current))

unfoldable pub transition : Uuid → Uuid → OrderTarget → Date → Store (Option Order)
unfolding close_order
transition m id target now = transaction do
  locked ← gets (find_order m id)
  elim locked [ none ↦ pure none | some current ↦ close_order m id target now current ]
