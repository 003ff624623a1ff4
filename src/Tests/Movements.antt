-- ===== src/Tests/Movements.antt =====
-- A receipt of three pieces, run against the shop.
use tteeka.Prelude.{none, [], ◌∷◌, ◌≡◌, refl, arith}
use tteeka.Schema.{Db, LedgerEntry, MovementType}
use tteeka.Store.{ok}
use tteeka.Inventory.Queries.{
  is_variant, find_variant, is_balance, find_balance, ensure_balance, held, physical,
  is_movement_key, find_movement_key,
}
use tteeka.Prelude.Table.{find, update_where, sum_of}
use tteeka.Inventory.Stock.{IsStocked}
use tteeka.Inventory.Movement.{
  ApplyMovementCommand, movement_command, next_quantity, new_entry, create_entry, update_balance,
  write_movement, locked_movement, apply_in_transaction, apply_movement,
}
use tteeka.Inventory.Movement.Stocked.{apply_movement-IsStocked}
use tteeka.Inventory.Movement.Ledger.{IsReconciled, apply_movement-IsReconciled}
use tteeka.Inventory.Movement.Replay.{apply_movement_again}
use tteeka.Tests.{env, shop, shelf_of_first, shelf_of_second}

abbrev receipt_of_three : ApplyMovementCommand
receipt_of_three = movement_command 10 MovementType.receipt 3 none 5 55

-- The shop before anything was counted.
abbrev empty_shop : Db
empty_shop = record shop { balances = [] }

abbrev recorded : LedgerEntry
recorded = new_entry env 1 receipt_of_three 8 shop

abbrev shop_after : Db
shop_after = record shop {
  balances = record shelf_of_first { quantity = 8; updated_at = 100 } ∷ shelf_of_second ∷ [];
  ledger = recorded ∷ [];
}

receipt_run : apply_movement env 1 receipt_of_three 90 shop ≡ (ok recorded, shop_after)
unfolding movement_command apply_movement apply_in_transaction locked_movement write_movement
    create_entry update_balance next_quantity find_movement_key is_movement_key find_variant
    is_variant find_balance is_balance ensure_balance held find update_where sum_of
receipt_run = refl

shop-IsStocked : IsStocked 90 shop
unfolding held physical find_balance sum_of
shop-IsStocked m v = omega arith

empty_shop-IsReconciled : IsReconciled empty_shop
unfolding sum_of physical find_balance find
empty_shop-IsReconciled = record { accounts = λ m v. refl }

apply_movement-IsStocked_example : IsStocked 90 (apply_movement env 1 receipt_of_three 90 shop).1
apply_movement-IsStocked_example =
    apply_movement-IsStocked env 1 10 MovementType.receipt 3 none 5 55 90 shop shop-IsStocked
      shop-IsStocked

apply_movement-IsReconciled_example :
    IsReconciled (apply_movement env 1 receipt_of_three 90 empty_shop).1
apply_movement-IsReconciled_example =
    apply_movement-IsReconciled env 1 10 MovementType.receipt 3 none 5 55 90 empty_shop
      empty_shop-IsReconciled empty_shop-IsReconciled

apply_movement_again_example :
    apply_movement env 1 receipt_of_three 95 shop_after ≡ (ok recorded, shop_after)
apply_movement_again_example =
    apply_movement_again env env 1 receipt_of_three 90 95 shop receipt_run
