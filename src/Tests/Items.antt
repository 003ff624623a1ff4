-- ===== src/Tests/Items.antt =====
-- The draft order's items replaced: of the first variant three instead of two, none of the second
-- and one of a third.
use tteeka.Prelude.{◌≡◌, ◌⊎◌, ==_iff, refl, true, some, List, [], ◌∷◌, arith}
use tteeka.Prelude.Table.{find, filter, update_where, update_first, sum_of}
use tteeka.Schema.{Db, Uuid, Order, OrderItem, OrderStatus}
use tteeka.Store.{ok}
use tteeka.Inventory.Allocation.{distinct}
use tteeka.Order.Lifecycle.{is_order, find_order, save_order, is_item_of}
use tteeka.Order.Desired.{
  OrderItemInput, accepts_items, current_items, sort_created, by_variant, by_id, new_ids,
  variants_of, is_ineligible, priced_item, desired_items, subtotal_from, is_unchanged,
}
use tteeka.Order.Items.{
  delete_others, is_row, write_item, write_items, repriced_order, write_desired, replace_desired,
  replace_draft, replace_items,
}
use tteeka.Order.Items.Rows.{row_weight, item_weight}
use tteeka.Order.Items.Desired.{requested}
use tteeka.Order.Items.Priced.{IsPriced, replace_items-IsPriced, replace_items-requested}
use tteeka.Tests.{env, shop, draft_order, items, item, variant}

abbrev shop_with_three : Db
shop_with_three = record shop { variants = variant 10 ∷ variant 11 ∷ variant 12 ∷ [] }

abbrev input : List OrderItemInput
input = record { variant_id = 10; quantity = 3 } ∷ record { variant_id = 12; quantity = 1 } ∷ []

abbrev new_items : List OrderItem
new_items =
    record (item 80 10 60) { quantity = 3; line_total = 90000 }
    ∷ record (item 900 12 100) { quantity = 1; line_total = 30000 }
    ∷ []

abbrev new_order : Order
new_order = record draft_order { currency = some 800; subtotal = 120000 }

abbrev shop_after : Db
shop_after = record shop_with_three { orders = new_order ∷ []; items = new_items }

replace_run :
    replace_items env 1 70 input shop_with_three ≡ (ok (some (new_order, new_items)), shop_after)
unfolding replace_items replace_draft replace_desired write_desired current_items sort_created
    by_variant by_id new_ids variants_of is_ineligible priced_item desired_items subtotal_from
    is_unchanged delete_others is_row write_item write_items repriced_order distinct find_order
    is_order save_order is_item_of find filter update_where update_first
replace_run = refl

accepted : accepts_items input ≡ true
unfolding accepts_items
accepted = refl

priced : IsPriced 1 70 shop_with_three
unfolding row_weight item_weight is_row is_item_of sum_of find_order is_order find
priced = record {
  once = λ v. ground (arith, ==_iff 10 v, ==_iff 11 v);
  lines = λ v. ground (arith, ==_iff 10 v, ==_iff 11 v);
  total = λ o f. ground (arith, f);
}

replace_items-IsPriced_example : IsPriced 1 70 shop_after
replace_items-IsPriced_example =
    replace_items-IsPriced env 1 70 input shop_with_three replace_run accepted priced

replace_items-requested_example :
    ((order : Order) × (find_order 1 70 shop_with_three ≡ some order)
      × (order.status ≡ OrderStatus.draft))
    × ((v : Uuid)
        → (sum_of (row_weight 1 70 (λ i. i.quantity) v) new_items ≡ requested v input)
          × ((sum_of (row_weight 1 70 (λ i. 1) v) items ≡ 0)
              ⊎ (requested v input ≡ 0)
              ⊎ (sum_of (row_weight 1 70 (λ i. i.unit_selling_price) v) new_items
                  ≡ sum_of (row_weight 1 70 (λ i. i.unit_selling_price) v) items)))
replace_items-requested_example =
    replace_items-requested env 1 70 input shop_with_three replace_run accepted priced
