-- ===== src/Order/Desired.antt =====
-- The input of `replaceItems` (apps/api/src/orders/order-items.schema.ts), and the desired items that
-- apps/api/src/orders/prisma-order.store.ts computes from it.
use tteeka.Prelude.{
  ℕ, ◌+◌, ◌*◌, ◌/◌, Bool, true, false, not, Option, none, some, List, [], ◌∷◌, map, ltb, leb, ◌==◌,
  ◌&&◌, ◌||◌, is_some, same_option, length, all, contains, if◌then◌else◌,
}
use tteeka.Prelude.Table.{filter}
use tteeka.Schema.{Db, Uuid, Currency, Variant, CatalogueStatus, OrderItem, max_bigint}
use tteeka.Store.{
  Store, pure, raise, range_error, order_item_ineligible, order_arithmetic_overflow, ◌>>=◌,
}
use tteeka.Order.Lifecycle.{is_item_of}

-- An element of `input.items`; `quantity` is `BigInt(quantityText)`.
pub record OrderItemInput : Type 0 where
  pub variant_id : Uuid
  pub quantity : ℕ

-- `orderItemQuantitySchema`, on the number that the text stands for.
unfoldable pub is_order_quantity : ℕ → Bool
is_order_quantity quantity = ltb 0 quantity && leb quantity max_bigint

-- The loop of `superRefine`: no variant is named twice.
unfoldable pub has_no_duplicate : List OrderItemInput → List Uuid → Bool
has_no_duplicate [] seen = true
has_no_duplicate (i ∷ is) seen =
    not (contains i.variant_id seen) && has_no_duplicate is (i.variant_id ∷ seen)

-- `replaceOrderItemsSchema`
unfoldable pub accepts_items : List OrderItemInput → Bool
unfolding is_order_quantity has_no_duplicate
accepts_items items =
    leb (length items) 100
    && all (λ (i : OrderItemInput). is_order_quantity i.quantity) items
    && has_no_duplicate items []

unfoldable pub created_before : OrderItem → OrderItem → Bool
created_before i j =
    ltb i.created_at j.created_at || (i.created_at == j.created_at && leb i.id j.id)

unfoldable pub insert_created : OrderItem → List OrderItem → List OrderItem
insert_created i [] = i ∷ []
insert_created i (j ∷ js) =
    let rest = insert_created i js in if created_before i j then i ∷ j ∷ js else j ∷ rest

-- `orderBy: [{ createdAt: 'asc' }, { id: 'asc' }]`
unfoldable pub sort_created : List OrderItem → List OrderItem
unfolding insert_created created_before
sort_created [] = []
sort_created (i ∷ is) = insert_created i (sort_created is)

-- `orderItem.findMany`
unfoldable pub current_items : Uuid → Uuid → Db → List OrderItem
current_items m order_id db = sort_created (filter (is_item_of m order_id) db.items)

-- `currentByVariant.get(variantId)`, where the last of equal keys counts.
unfoldable pub by_variant : Uuid → List OrderItem → Option OrderItem
by_variant v [] = none
by_variant v (i ∷ is) = elim (by_variant v is) [
  | some later ↦ some later
  | none ↦ if i.variant_id == v then some i else none
]

-- `variantById.get(variantId)`
unfoldable pub by_id : Uuid → List Variant → Option Variant
by_id v [] = none
by_id v (x ∷ xs) = elim (by_id v xs) [
  | some later ↦ some later
  | none ↦ if x.id == v then some x else none
]

unfoldable pub new_ids : List OrderItem → List OrderItemInput → List Uuid
new_ids current [] = []
new_ids current (i ∷ is) =
    let rest = new_ids current is in
    if is_some (by_variant i.variant_id current) then rest else i.variant_id ∷ rest

abbrev pub is_for_sale : CatalogueStatus → Bool
is_for_sale CatalogueStatus.active = true
is_for_sale _ = false

-- The test of `variants.some`.
unfoldable pub is_ineligible : Variant → Bool
is_ineligible x =
    not (is_for_sale x.status)
    || not (is_for_sale x.product_status)
    || not (is_some x.selling_price)
    || not (is_some x.price_currency)

-- `productVariant.findMany({ where: { merchantId, id: { in: newIds } } })`
unfoldable pub variants_of : Uuid → List Uuid → Db → List Variant
variants_of m ids db = filter (λ (x : Variant). x.merchant_id == m && contains x.id ids) db.variants

-- An element of `desired`.
pub record DesiredItem : Type 0 where
  pub variant_id : Uuid
  pub quantity : ℕ
  pub line_total : ℕ
  pub unit_selling_price : ℕ
  pub currency : Currency
  pub existing : Option OrderItem
  pub variant : Option Variant

-- `existing?.unitSellingPrice ?? variant?.sellingPrice`, and the same of the currency.
abbrev pub price_of : Option OrderItem → Option Variant → Option ℕ
price_of (some e) variant = some e.unit_selling_price
price_of none (some x) = x.selling_price
price_of none none = none

abbrev pub currency_of : Option OrderItem → Option Variant → Option Currency
currency_of (some e) variant = some e.currency
currency_of none (some x) = x.price_currency
currency_of none none = none

-- The body of the callback once both are known. A BigInt divided by zero throws a RangeError.
unfoldable pub desired_item :
    OrderItemInput → Option OrderItem → Option Variant → ℕ → Currency → Store DesiredItem
desired_item input existing variant unit currency =
    if unit == 0
    then raise range_error
    else if ltb (max_bigint / unit) input.quantity
    then raise order_arithmetic_overflow
    else pure record {
      variant_id = input.variant_id;
      quantity = input.quantity;
      line_total = input.quantity * unit;
      unit_selling_price = unit;
      currency = currency;
      existing = existing;
      variant = variant;
    }

unfoldable pub priced_item :
    OrderItemInput
    → Option OrderItem
    → Option Variant
    → Option ℕ
    → Option Currency
    → Store DesiredItem
unfolding desired_item
priced_item input existing variant (some unit) (some currency) =
    desired_item input existing variant unit currency
priced_item input existing variant _ _ = raise order_item_ineligible

-- `desired`
unfoldable pub desired_items :
    List OrderItem → List Variant → List OrderItemInput → Store (List DesiredItem)
desired_items current variants [] = pure []
desired_items current variants (i ∷ is) = do
  let existing = by_variant i.variant_id current
  let variant = by_id i.variant_id variants
  item ← priced_item i existing variant (price_of existing variant) (currency_of existing variant)
  rest ← desired_items current variants is
  pure (item ∷ rest)

-- The loop that adds up the subtotal; none is the overflow.
unfoldable pub subtotal_from : ℕ → List DesiredItem → Option ℕ
subtotal_from subtotal [] = some subtotal
subtotal_from subtotal (d ∷ ds) =
    let rest = subtotal_from (subtotal + d.line_total) ds in
    if ltb max_bigint (subtotal + d.line_total) then none else rest

abbrev pub quantity_of : Option OrderItem → Option ℕ
quantity_of none = none
quantity_of (some e) = some e.quantity

-- `existing?.quantity === quantity`
abbrev pub is_kept : DesiredItem → Bool
is_kept d = same_option (quantity_of d.existing) (some d.quantity)

-- `unchanged`
unfoldable pub is_unchanged : List DesiredItem → List OrderItem → Bool
is_unchanged desired current = length desired == length current && all is_kept desired

abbrev pub ids_of : List DesiredItem → List Uuid
ids_of desired = map (λ (d : DesiredItem). d.variant_id) desired
