-- ===== src/Tests/StockHolds.antt =====
-- A hold of two pieces until 200, run against the shop, then released, prolonged and expired.
use tteeka.Prelude.{ℕ, ◌≡◌, false, refl, some, [], ◌∷◌, arith}
use tteeka.Prelude.Table.{find, update_first, sum_of}
use tteeka.Prelude.Assoc.{get, put}
use tteeka.Schema.{Db, Hold}
use tteeka.Store.{ok}
use tteeka.Inventory.Queries.{
  is_variant, find_variant, is_balance, find_balance, ensure_balance, held, physical, is_hold_key,
  find_hold_key,
}
use tteeka.Inventory.Stock.{IsStocked}
use tteeka.Inventory.Allocation.{
  distinct, insert_sorted, sort, lock_order, lock_each, lock_available_balances, held_by_variant,
  requested_by_variant, exceeds_sellable, create_hold, create_holds, allocate_stock_holds, new_hold,
}
use tteeka.Inventory.Allocation.Sellable.{Allocated, allocate_stock_holds-Allocated}
use tteeka.Inventory.Holds.{
  CreateStockHoldCommand, allocation_of, create_stock_hold, hold_in_transaction, locked_hold,
  is_hold, update_hold, save_hold, release, release_locked, release_stock_hold,
  update_expiry_locked, update_stock_hold_expiry, expire_due_stock_holds,
}
use tteeka.Inventory.Holds.Stocked.{create_stock_hold-IsStocked}
use tteeka.Inventory.View.{map_hold}
use tteeka.Inventory.Service.{CreateStockHoldInput, HoldHash, create_hold_request}
use tteeka.Inventory.Service.Retried.{create_hold_request_again}
use tteeka.Inventory.Holds.Batch.{IsKeyed}
use tteeka.Inventory.Holds.Sweep.{IsSwept, expire_due_stock_holds-IsSwept}
use tteeka.Tests.{env, shop}

abbrev command : CreateStockHoldCommand
command = record {
  variant_id = 10;
  quantity = 2;
  expires_at = 200;
  idempotency_key = 6;
  request_hash = 66;
  now = 90;
}

abbrev held_two : Hold
held_two = new_hold env 1 (allocation_of command) shop

abbrev shop_with_hold : Db
shop_with_hold = record shop { holds = held_two ∷ [] }

allocation_run :
    allocate_stock_holds env 1 (allocation_of command ∷ []) 90 shop
    ≡ (ok (held_two ∷ []), shop_with_hold)
unfolding allocate_stock_holds lock_available_balances lock_each lock_order distinct sort
    insert_sorted held_by_variant requested_by_variant exceeds_sellable create_holds create_hold
    find_hold_key is_hold_key find_balance is_balance ensure_balance find get put
allocation_run = refl

hold_run : create_stock_hold env 1 command shop ≡ (ok held_two, shop_with_hold)
unfolding create_stock_hold hold_in_transaction locked_hold allocate_stock_holds
    lock_available_balances lock_each lock_order distinct sort insert_sorted held_by_variant
    requested_by_variant exceeds_sellable create_holds create_hold find_hold_key is_hold_key
    find_variant is_variant find_balance is_balance ensure_balance find get put
hold_run = refl

shop-IsStocked : IsStocked 90 shop
unfolding held physical find_balance sum_of
shop-IsStocked m v = omega arith

allocate_stock_holds-Allocated_example :
    Allocated 1 (allocation_of command ∷ []) 90 shop (held_two ∷ []) shop_with_hold
allocate_stock_holds-Allocated_example =
    allocate_stock_holds-Allocated env 1 (allocation_of command ∷ []) 90 shop allocation_run

create_stock_hold-IsStocked_example : IsStocked 90 (create_stock_hold env 1 command shop).1
create_stock_hold-IsStocked_example =
    create_stock_hold-IsStocked env 1 command shop shop-IsStocked shop-IsStocked

abbrev two : CreateStockHoldInput
two = record { quantity = 2; expires_at = 200 }

abbrev hash_of : HoldHash
hash_of = λ v input. 66

request_run :
    create_hold_request env hash_of 1 10 two 6 90 shop
    ≡ (ok (held_two, map_hold held_two 90), shop_with_hold)
unfolding create_hold_request
request_run = ground (arith, hold_run)

create_hold_request_again_example :
    create_hold_request env hash_of 1 10 two 6 95 shop_with_hold
    ≡ (ok (held_two, map_hold held_two 95), shop_with_hold)
create_hold_request_again_example =
    create_hold_request_again env env hash_of 1 10 two 6 90 95 shop request_run

release_run :
    release_stock_hold 1 10 900 120 shop_with_hold
    ≡ (ok (some (release 120 held_two)), record shop { holds = release 120 held_two ∷ [] })
unfolding release_stock_hold release_locked save_hold update_hold is_hold find update_first
release_run = refl

abbrev prolonged : Hold
prolonged = record held_two { expires_at = 300 }

prolong_run :
    update_stock_hold_expiry 1 10 900 300 120 shop_with_hold
    ≡ (ok (some prolonged), record shop { holds = prolonged ∷ [] })
unfolding update_stock_hold_expiry update_expiry_locked save_hold update_hold is_hold find
    update_first
prolong_run = refl

shop_with_hold-IsKeyed : IsKeyed shop_with_hold.holds
shop_with_hold-IsKeyed = (refl, tt)

expire_due_stock_holds-IsSwept_example :
    (count : ℕ) × (db' : Db) × (expire_due_stock_holds (λ h. false) 250 100 shop_with_hold
      ≡ (ok count, db'))
    × IsSwept (λ h. false) 250 100 shop_with_hold count db'
expire_due_stock_holds-IsSwept_example =
    expire_due_stock_holds-IsSwept (λ h. false) 250 100 shop_with_hold shop_with_hold-IsKeyed
