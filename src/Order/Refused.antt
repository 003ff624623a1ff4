-- ===== src/Order/Refused.antt =====
-- A confirmation is refused for want of stock: proofs about `confirm` of Lifecycle.antt.
use tteeka.Prelude.{◌+◌, ◌<◌, ◌≡◌, refl, false, some, List, [], ◌∷◌, arith}
use tteeka.Prelude.Table.{find}
use tteeka.Schema.{Db, Uuid, Order, OrderItem, OrderStatus}
use tteeka.Store.{Env, err, order_insufficient_sellable_inventory}
use tteeka.Inventory.Queries.{held, physical}
use tteeka.Inventory.Allocation.Sellable.{allocate_stock_holds-refused}
use tteeka.Order.Lifecycle.{
  Tokens, ConfirmOrderCommand, confirm, confirm_locked, confirm_by_status, confirm_draft,
  confirmation_error, find_order, items_of, allocations_of, is_empty, is_owned_by_other,
  has_confirmation_key,
}
use tteeka.Order.Stocked.{ordered, requested-ordered}

asks_something : (v : Uuid) (items : List OrderItem) → 0 < ordered v items → is_empty items ≡ false
unfolding ordered
asks_something v [] h = absurd (omega (arith, h))
asks_something v (i ∷ items) h = refl

-- A draft whose items ask for more of some variant than the shelf has over what is held, whatever
-- they ask of others, is refused for want of stock under a key that no other order has; and nothing
-- changes: none of its items is held, and the order is as it was.
pub confirm_refused :
    (env : Env) (tokens : Tokens) (m id v : Uuid) (command : ConfirmOrderCommand) (db : Db)
    (current : Order)
    → find_order m id db ≡ some current
    → current.status ≡ OrderStatus.draft
    → is_owned_by_other id (find (has_confirmation_key m command.idempotency_key) db.orders) ≡ false
    → 0 < ordered v (items_of m id db)
    → physical m v db < held m v command.now db + ordered v (items_of m id db)
    → confirm env tokens m id command db ≡ (err order_insufficient_sellable_inventory, db)
unfolding confirm confirm_locked confirm_by_status confirm_draft confirmation_error
confirm_refused env tokens m id v command db current f draft free asks exceeds =
    let items = items_of m id db in
    let asked = requested-ordered tokens command v items in
    let some_left = asks_something v items asks in
    let (db₁, refused) =
      allocate_stock_holds-refused env m v (allocations_of tokens command items) command.now db
        (omega (arith, asked, asks)) (omega (arith, asked, exceeds)) in
    ground (arith, f, draft, free, some_left, refused)
