-- ===== src/Order/Items.antt =====
-- `replaceItems` of apps/api/src/orders/prisma-order.store.ts, and the checks that
-- apps/api/src/orders/order-items.schema.ts makes of its input.
pub mod Rows
pub mod Written
pub mod Desired
pub mod Outcome
pub mod Unchanged
pub mod Priced
use tteeka.Prelude.{
  ℕ, ◌+◌, ◌*◌, ◌/◌, Bool, true, false, not, Option, none, some, List, [], ◌∷◌, ◌++◌, map, ltb, leb,
  ◌==◌, ◌&&◌, ◌||◌, is_some, same_option, length, any, all, contains, if◌then◌else◌,
}
use tteeka.Prelude.Table.{filter, update_where}
use tteeka.Schema.{Db, Uuid, Currency, Variant, CatalogueStatus, Order, OrderItem, max_bigint}
use tteeka.Store.{
  Env, Store, pure, raise, gets, modify, raise_if, transaction, unique_violation,
  order_item_variant, range_error, order_not_editable, order_item_ineligible,
  order_currency_mismatch, order_arithmetic_overflow, ◌>>=◌, ◌>>◌,
}
use tteeka.Inventory.Allocation.{distinct}
use tteeka.Order.Lifecycle.{find_order, save_order, is_item_of, is_draft}
use tteeka.Order.Desired.{
  DesiredItem, OrderItemInput, accepts_items, by_id, by_variant, created_before, currency_of,
  current_items, desired_item, desired_items, has_no_duplicate, ids_of, insert_created, is_for_sale,
  is_ineligible, is_kept, is_order_quantity, is_unchanged, new_ids, price_of, priced_item,
  quantity_of, sort_created, subtotal_from, variants_of,
}

-- `orderItem.deleteMany({ where: { variantId: { notIn: desiredIds } } })`
unfoldable pub delete_others : Uuid → Uuid → List Uuid → Db → Db
delete_others m order_id ids db = record db {
  items =
      filter (λ (i : OrderItem). not (is_item_of m order_id i && not (contains i.variant_id ids)))
        db.items;
}

unfoldable pub is_row : Uuid → Uuid → Uuid → OrderItem → Bool
is_row m order_id v i = is_item_of m order_id i && i.variant_id == v

-- `orderItem.update({ where: { merchantId_orderId_variantId }, data: { quantity, lineTotal } })`
unfoldable pub update_item : Uuid → Uuid → DesiredItem → Db → Db
unfolding is_row
update_item m order_id d db = record db {
  items =
      update_where (is_row m order_id d.variant_id)
        (λ (i : OrderItem). record i { quantity = d.quantity; line_total = d.line_total }) db.items;
}

abbrev pub new_item : Env → Uuid → Uuid → DesiredItem → Variant → Db → OrderItem
new_item env m order_id d x db = record {
  id = env.fresh_id db;
  merchant_id = m;
  order_id = order_id;
  variant_id = x.id;
  product_name_snapshot = x.product_name;
  sku_snapshot = x.sku;
  size_snapshot = x.size;
  colour_snapshot = x.colour;
  quantity = d.quantity;
  unit_selling_price = d.unit_selling_price;
  currency = d.currency;
  line_total = d.line_total;
  created_at = env.db_now db;
}

-- `orderItem.create`, which the unique (merchant, order, variant) may refuse
unfoldable pub create_item : Env → Uuid → Uuid → DesiredItem → Variant → Store (Unit {0})
unfolding is_row
create_item env m order_id d x db =
    (if any (is_row m order_id x.id) db.items
        then raise (unique_violation order_item_variant)
        else modify (λ t. record t { items = t.items ++ new_item env m order_id d x t ∷ [] }))
      db

-- The body of the loop over `desired`.
unfoldable pub write_item : Env → Uuid → Uuid → DesiredItem → Store (Unit {0})
unfolding update_item create_item
write_item env m order_id d = elim d.existing [
  | some e ↦ if e.quantity == d.quantity then pure tt else modify (update_item m order_id d)
  | none ↦ elim d.variant [
    | none ↦ raise order_item_ineligible
    | some x ↦ create_item env m order_id d x
  ]
]

unfoldable pub write_items : Env → Uuid → Uuid → List DesiredItem → Store (Unit {0})
write_items env m order_id [] = pure tt
write_items env m order_id (d ∷ ds) = do write_item env m order_id d; write_items env m order_id ds

-- `desired[0]?.currency ?? null`
abbrev pub first_currency : List DesiredItem → Option Currency
first_currency [] = none
first_currency (d ∷ ds) = some d.currency

unfoldable pub repriced_order : List DesiredItem → ℕ → Order → Order
repriced_order desired subtotal o = record o {
  currency = first_currency desired;
  subtotal = subtotal;
}

abbrev pub Replaced : Type 0
Replaced = Option (Order × List OrderItem)

-- What is written for the desired items.
unfoldable pub write_desired : Env → Uuid → Uuid → Order → List DesiredItem → ℕ → Store Replaced
unfolding delete_others write_items repriced_order
write_desired env m id order desired subtotal = do
  modify (delete_others m id (ids_of desired))
  write_items env m id desired
  modify (save_order m id (repriced_order desired subtotal))
  items ← gets (current_items m id)
  pure (some (repriced_order desired subtotal order, items))

-- From the check of the currencies on.
unfoldable pub replace_desired :
    Env → Uuid → Uuid → Order → List OrderItem → List DesiredItem → Store Replaced
unfolding subtotal_from is_unchanged
replace_desired env m id order current desired =
    if ltb 1 (length (distinct (map (λ (d : DesiredItem). d.currency) desired)))
    then raise order_currency_mismatch
    else elim (subtotal_from 0 desired) [
      | none ↦ raise order_arithmetic_overflow
      | some subtotal ↦
          if is_unchanged desired current
          then pure (some (order, current))
          else write_desired env m id order desired subtotal
    ]

-- From the lock of a draft on.
unfoldable pub replace_draft : Env → Uuid → Uuid → List OrderItemInput → Order → Store Replaced
unfolding new_ids variants_of is_ineligible
replace_draft env m id input order = do
  current ← gets (current_items m id)
  let added = new_ids current input
  variants ← gets (variants_of m added)
  raise_if (not (length variants == length added) || any is_ineligible variants)
      order_item_ineligible
  desired ← desired_items current variants input
  replace_desired env m id order current desired

unfoldable pub replace_items : Env → Uuid → Uuid → List OrderItemInput → Store Replaced
unfolding replace_draft
replace_items env m id input = transaction do
  locked ← gets (find_order m id)
  elim locked [
    | none ↦ pure none
    | some order ↦ do
      raise_if (not (is_draft order.status)) order_not_editable
      replace_draft env m id input order
  ]
