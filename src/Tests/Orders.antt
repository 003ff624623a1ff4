-- ===== src/Tests/Orders.antt =====
-- The draft order, confirmed, confirmed again, refused for want of stock, and cancelled.
use tteeka.Prelude.{
  List, map, ◌+◌, ◌≡◌, ◌≤◌, ◌<◌, ◌⊎◌, ◌==◌, ◌&&◌, false, any, if◌then◌else◌, refl, some, [], ◌∷◌,
  arith,
}
use tteeka.Prelude.Table.{find, filter, update_first, sum_of}
use tteeka.Prelude.Assoc.{get, put}
use tteeka.Schema.{Db, Uuid, Date, Hold, Order, OrderStatus}
use tteeka.Store.{ok, err, order_insufficient_sellable_inventory}
use tteeka.Inventory.Queries.{
  is_balance, find_balance, ensure_balance, held, physical, is_hold_key, find_hold_key,
}
use tteeka.Inventory.Stock.{IsStocked}
use tteeka.Inventory.Allocation.{
  distinct, insert_sorted, sort, lock_order, lock_each, lock_available_balances, held_by_variant,
  requested_by_variant, exceeds_sellable, create_hold, create_holds, allocate_stock_holds, new_hold,
}
use tteeka.Order.Lifecycle.{
  Tokens, ConfirmOrderCommand, is_order, find_order, save_order, has_confirmation_key, is_item_of,
  sort_items, items_of, allocation_of, confirmed_order, confirm_draft, confirm_by_status,
  confirm_locked, confirm, is_owned_by_other, OrderTarget, closed_order, close_order, transition,
}
use tteeka.Order.Service.{ConfirmationHash}
use tteeka.Order.Refused.{confirm_refused}
use tteeka.Order.Stocked.{ordered, confirm-IsStocked, confirm_reserves}
use tteeka.Order.Cancelled.{
  Step, order_transition-Step, is_active_of_order, live_quantity_of_others, cancel_confirmed_frees,
}
use tteeka.Tests.{env, shop, draft_order, items}

abbrev tokens : Tokens
tokens = record { random_key = λ i. i.id; stock_hold_request_hash = λ v quantity expires_at. 66 }

abbrev command : ConfirmOrderCommand
command = record { expires_at_date = 200; idempotency_key = 8; request_hash = 88; now = 90 }

abbrev holds_of_items : List Hold
holds_of_items = map (λ i. new_hold env 1 (allocation_of tokens command i) shop) items

abbrev confirmed : Order
confirmed = confirmed_order command draft_order

abbrev shop_confirmed : Db
shop_confirmed = record shop { orders = confirmed ∷ []; holds = holds_of_items }

confirm_run : confirm env tokens 1 70 command shop ≡ (ok (some confirmed), shop_confirmed)
unfolding confirm confirm_locked confirm_by_status confirm_draft confirmed_order save_order
    find_order is_order has_confirmation_key items_of sort_items is_item_of filter update_first
    allocate_stock_holds lock_available_balances lock_each lock_order distinct sort insert_sorted
    held_by_variant requested_by_variant exceeds_sellable create_holds create_hold find_hold_key
    is_hold_key find_balance is_balance ensure_balance find get put
confirm_run = refl

abbrev hash_of : ConfirmationHash
hash_of = λ id expires_at. 88

-- Nothing is on the shelf.
abbrev bare_shop : Db
bare_shop = record shop { balances = [] }

bare_draft_found : find_order 1 70 bare_shop ≡ some draft_order
unfolding find_order is_order find
bare_draft_found = refl

bare_key_free :
    is_owned_by_other 70 (find (has_confirmation_key 1 command.idempotency_key) bare_shop.orders)
    ≡ false
unfolding find has_confirmation_key
bare_key_free = refl

bare_ordered : ordered 10 (items_of 1 70 bare_shop) ≡ 2
unfolding ordered items_of sort_items is_item_of filter
bare_ordered = refl

bare_shelf : physical 1 10 bare_shop < held 1 10 90 bare_shop + ordered 10 (items_of 1 70 bare_shop)
unfolding physical find_balance find
bare_shelf = omega (arith, bare_ordered)

confirm_refused_example :
    confirm env tokens 1 70 command bare_shop
    ≡ (err order_insufficient_sellable_inventory, bare_shop)
confirm_refused_example =
    confirm_refused env tokens 1 70 10 command bare_shop draft_order bare_draft_found refl
      bare_key_free (omega (arith, bare_ordered)) bare_shelf

shop-IsStocked : IsStocked 90 shop
unfolding held physical find_balance sum_of
shop-IsStocked m v = omega arith

confirm-IsStocked_example : IsStocked 90 shop_confirmed
confirm-IsStocked_example =
    confirm-IsStocked env tokens 1 70 command shop confirm_run shop-IsStocked

draft_found : find_order 1 70 shop ≡ some draft_order
unfolding find_order is_order find
draft_found = refl

confirm_reserves_example :
    (confirmed.status ≡ OrderStatus.confirmed)
    × ((m' v : Uuid)
        → held m' v 90 shop_confirmed
          ≡ held m' v 90 shop + (if m' == 1 then ordered v (items_of 1 70 shop) else 0))
    × ((v : Uuid)
        → (ordered v (items_of 1 70 shop) ≡ 0)
          ⊎ (held 1 v 90 shop + ordered v (items_of 1 70 shop) ≤ physical 1 v shop))
confirm_reserves_example =
    confirm_reserves env tokens 1 70 command shop confirm_run draft_found refl (omega arith)

confirmed_found : find_order 1 70 shop_confirmed ≡ some confirmed
unfolding find_order is_order find confirmed_order
confirmed_found = refl

status_of_confirmed : confirmed.status ≡ OrderStatus.confirmed
unfolding confirmed_order
status_of_confirmed = refl

cancel_confirmed_frees_example :
    let (r, db') = transition 1 70 OrderTarget.cancelled 120 shop_confirmed in
    (r ≡ ok (some (closed_order OrderTarget.cancelled 120 confirmed)))
    × (any (is_active_of_order 1 70 items) db'.holds ≡ false)
    × ((m' v : Uuid) (t : Date)
        → held m' v t db' ≡ sum_of (live_quantity_of_others 1 70 items m' v t) holds_of_items)
    × ((m' v : Uuid) (t : Date)
        → (held m' v t db' ≤ held m' v t shop_confirmed)
          × (physical m' v db' ≡ physical m' v shop_confirmed))
cancel_confirmed_frees_example =
    cancel_confirmed_frees 1 70 120 shop_confirmed confirmed_found status_of_confirmed

abbrev abandoned : Order
abandoned = closed_order OrderTarget.abandoned 100 draft_order

abandon_run :
    transition 1 70 OrderTarget.abandoned 100 shop
    ≡ (ok (some abandoned), record shop { orders = abandoned ∷ [] })
unfolding transition close_order closed_order find_order is_order save_order find update_first
abandon_run = refl

order_transition-Step_example :
    (abandoned.status ≡ OrderStatus.abandoned)
    × (find_order 1 70 (record shop { orders = abandoned ∷ [] }) ≡ some abandoned)
    × ((m' id' : Uuid)
        → (m' == 1 && id' == 70) ≡ false
        → find_order m' id' (record shop { orders = abandoned ∷ [] }) ≡ find_order m' id' shop)
    × ((current : Order) × (find_order 1 70 shop ≡ some current)
        × (((abandoned ≡ current) × (record shop { orders = abandoned ∷ [] } ≡ shop))
            ⊎ Step current.status abandoned.status))
order_transition-Step_example =
    order_transition-Step 1 70 OrderTarget.abandoned 100 shop abandon_run
