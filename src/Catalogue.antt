-- ===== src/Catalogue.antt =====
-- Products, their variants and the prices of variants:
-- apps/api/src/catalogue/prisma-catalogue.store.ts.
pub mod Logged
use tteeka.Prelude.{
  ℕ, Bool, true, false, not, Option, none, some, String, List, [], ◌∷◌, ◌++◌, ◌==◌, ◌&&◌, any,
  length, is_some, ltb, leb, same_option, or_default, if◌then◌else◌,
}
use tteeka.Prelude.Table.{find, filter, update_where, update_first}
use tteeka.Prelude.Texts.{str_eq}
use tteeka.Schema.{
  Db, Uuid, Currency, Date, CatalogueTables, Product, CatalogueStatus, Variant, VariantPriceHistory,
  Merchant, max_bigint,
}
use tteeka.Store.{
  Env, Store, StoreError, pure, raise, gets, modify, transaction, catch_unique, catch_when,
  is_unique_violation, unique_violation, variant_sku, variant_barcode, sku_already_exists,
  barcode_already_exists, raise_if, bigint_out_of_range, ◌>>=◌, ◌>>◌,
}
use tteeka.Authorization.{is_merchant}

abbrev pub update_catalogue : (CatalogueTables → CatalogueTables) → Db → Db
update_catalogue f db = record db { catalogue = f db.catalogue }

-- An optional field that is left out is none; a column that is null is `some none` of a patch.
pub record CreateProductInput : Type 0 where
  pub name : String
  pub description : Option String
  pub category : Option String
  pub brand : Option String

pub record ProductPatch : Type 0 where
  pub name : Option String
  pub description : Option (Option String)
  pub category : Option (Option String)
  pub brand : Option (Option String)
  pub status : Option CatalogueStatus

abbrev pub new_product : Env → Uuid → CreateProductInput → Db → Product
new_product env m input db = record {
  id = env.fresh_id db;
  merchant_id = m;
  name = input.name;
  description = input.description;
  category = input.category;
  brand = input.brand;
  status = CatalogueStatus.active;
}

unfoldable pub create_product : Env → Uuid → CreateProductInput → Store Product
create_product env m input = do
  product ← gets (new_product env m input)
  modify (update_catalogue λ t. record t { products = t.products ++ product ∷ [] })
  pure product

unfoldable pub is_product : Uuid → Uuid → Product → Bool
is_product m id p = p.merchant_id == m && p.id == id

unfoldable pub find_product : Uuid → Uuid → Db → Option Product
unfolding is_product
find_product m id db = find (is_product m id) db.catalogue.products

unfoldable pub patched_product : ProductPatch → Product → Product
patched_product patch p = record p {
  name = or_default patch.name p.name;
  description = or_default patch.description p.description;
  category = or_default patch.category p.category;
  brand = or_default patch.brand p.brand;
  status = or_default patch.status p.status;
}

-- The columns of a variant that are its product's.
abbrev pub with_product : ProductPatch → Variant → Variant
with_product patch x = record x {
  product_name = or_default patch.name x.product_name;
  product_status = or_default patch.status x.product_status;
}

unfoldable pub save_product : Uuid → Uuid → ProductPatch → Db → Db
unfolding patched_product
save_product m id patch db = record db {
  catalogue = record db.catalogue {
    products = update_where (is_product m id) (patched_product patch) db.catalogue.products;
  };
  variants =
      update_where (λ (x : Variant). x.merchant_id == m && x.product_id == id) (with_product patch)
        db.variants;
}

unfoldable pub update_product : Uuid → Uuid → ProductPatch → Store (Option Product)
unfolding save_product find_product
update_product m id patch = do
  rows ← gets (λ db. filter (is_product m id) db.catalogue.products)
  modify (save_product m id patch)
  if length rows == 0 then pure none else gets (find_product m id)

pub record CreateProductVariantInput : Type 0 where
  pub sku : String
  pub barcode : Option String
  pub size : Option String
  pub colour : Option String

pub record ProductVariantPatch : Type 0 where
  pub sku : Option String
  pub barcode : Option (Option String)
  pub size : Option (Option String)
  pub colour : Option (Option String)
  pub status : Option CatalogueStatus

abbrev pub new_variant : Env → Uuid → Product → CreateProductVariantInput → Db → Variant
new_variant env m product input db = record {
  id = env.fresh_id db;
  merchant_id = m;
  product_id = product.id;
  sku = input.sku;
  barcode = input.barcode;
  size = input.size;
  colour = input.colour;
  status = CatalogueStatus.inactive;
  selling_price = none;
  cost_price = none;
  price_currency = none;
  price_updated_at = none;
  product_name = product.name;
  product_status = product.status;
}

abbrev pub same_text : Option String → Option String → Bool
same_text (some s) (some t) = str_eq s t
same_text _ _ = false

-- Another variant of the merchant has the SKU, or the barcode. Null barcodes are never equal.
unfoldable pub takes_sku : Variant → Variant → Bool
takes_sku x y = y.merchant_id == x.merchant_id && not (y.id == x.id) && str_eq y.sku x.sku

unfoldable pub takes_barcode : Variant → Variant → Bool
takes_barcode x y =
    y.merchant_id == x.merchant_id && not (y.id == x.id) && same_text y.barcode x.barcode

-- The unique keys that a row meets when it is written, the SKU's first.
abbrev pub unique_or : Variant → Store Variant → Store Variant
unique_or x write db =
    (if any (takes_sku x) db.variants
        then raise (unique_violation variant_sku)
        else if any (takes_barcode x) db.variants
        then raise (unique_violation variant_barcode)
        else write)
      db

-- `mapVariantUniqueConflict`
unfoldable pub map_conflict : StoreError → StoreError
map_conflict (unique_violation variant_barcode) = barcode_already_exists
map_conflict (unique_violation variant_sku) = sku_already_exists
map_conflict e = e

unfoldable pub create_variant :
    Env → Uuid → Uuid → CreateProductVariantInput → Store (Option Variant)
unfolding find_product map_conflict
create_variant env m product_id input = do
  found ← gets (find_product m product_id)
  elim found [
    | none ↦ pure none
    | some product ↦
        catch_when is_unique_violation
          (do
            x ← gets (new_variant env m product input)
            unique_or x (do modify (λ t. record t { variants = t.variants ++ x ∷ [] }); pure x)
            pure (some x))
          (λ e. raise (map_conflict e))
  ]

unfoldable pub is_variant_of : Uuid → Uuid → Uuid → Variant → Bool
is_variant_of m product_id id x = x.merchant_id == m && x.product_id == product_id && x.id == id

-- `findVariant`
unfoldable pub find_variant_of : Uuid → Uuid → Uuid → Db → Option Variant
unfolding is_variant_of
find_variant_of m product_id id db = find (is_variant_of m product_id id) db.variants

-- `findVariantByIdentifier`: by SKU, or else by barcode
pub data Identifier : Type 0 where
  by_sku by_barcode : String → Identifier

unfoldable pub find_variant_by_identifier : Uuid → Identifier → Db → Option Variant
find_variant_by_identifier m (by_sku sku) db =
    find (λ (x : Variant). x.merchant_id == m && str_eq x.sku sku) db.variants
find_variant_by_identifier m (by_barcode barcode) db =
    find (λ (x : Variant). x.merchant_id == m && same_text x.barcode (some barcode)) db.variants

unfoldable pub patched_variant : ProductVariantPatch → Variant → Variant
patched_variant patch x = record x {
  sku = or_default patch.sku x.sku;
  barcode = or_default patch.barcode x.barcode;
  size = or_default patch.size x.size;
  colour = or_default patch.colour x.colour;
  status = or_default patch.status x.status;
}

-- `updateVariant`: `updateMany` meets one row at most, an identifier being a primary key.
unfoldable pub update_variant : Uuid → Uuid → Uuid → ProductVariantPatch → Store (Option Variant)
unfolding find_variant_of patched_variant map_conflict
update_variant m product_id id patch = do
  found ← gets (find_variant_of m product_id id)
  elim found [
    | none ↦ pure none
    | some x ↦
        catch_when is_unique_violation
          (do
            unique_or (patched_variant patch x) (do
              modify (λ t. record t {
                variants =
                    update_first (is_variant_of m product_id id) (patched_variant patch) t.variants;
              })
              pure x)
            gets (find_variant_of m product_id id))
          (λ e. raise (map_conflict e))
  ]

-- `SetVariantPriceInput`, with its prices as numbers; a cost price that is undefined or null is none.
pub record SetVariantPriceInput : Type 0 where
  pub selling_price : ℕ
  pub cost_price : Option ℕ

-- `integerMoneySchema`: what a BIGINT column takes, a natural number being never too small.
abbrev pub fits_bigint : ℕ → Bool
fits_bigint n = leb n max_bigint

abbrev pub is_cost : Option ℕ → Bool
is_cost none = true
is_cost (some n) = fits_bigint n

-- `setVariantPriceSchema`
unfoldable pub is_price_input : SetVariantPriceInput → Bool
is_price_input input =
    fits_bigint input.selling_price && ltb 0 input.selling_price && is_cost input.cost_price

abbrev pub is_same_price : SetVariantPriceInput → Currency → Variant → Bool
is_same_price input currency x =
    same_option x.selling_price (some input.selling_price)
    && same_option x.cost_price input.cost_price
    && same_option x.price_currency (some currency)

unfoldable pub priced_variant : SetVariantPriceInput → Currency → Date → Variant → Variant
priced_variant input currency changed_at x = record x {
  selling_price = some input.selling_price;
  cost_price = input.cost_price;
  price_currency = some currency;
  price_updated_at = some changed_at;
}

unfoldable pub is_variant_id : Uuid → Uuid → Variant → Bool
is_variant_id m id x = x.merchant_id == m && x.id == id

abbrev pub new_price : Uuid → Uuid → SetVariantPriceInput → Currency → Date → VariantPriceHistory
new_price m id input currency changed_at = record {
  merchant_id = m;
  variant_id = id;
  selling_price = input.selling_price;
  cost_price = input.cost_price;
  currency = currency;
  created_at = changed_at;
}

-- The two writes of a price that has changed.
unfoldable pub save_price : Uuid → Uuid → SetVariantPriceInput → Currency → Date → Db → Db
unfolding is_variant_id priced_variant
save_price m id input currency changed_at db = record db {
  variants =
      update_first (is_variant_id m id) (priced_variant input currency changed_at) db.variants;
  catalogue = record db.catalogue {
    prices = db.catalogue.prices ++ new_price m id input currency changed_at ∷ [];
  };
}

-- The update refuses a price that its BIGINT column does not take.
unfoldable pub set_variant_price :
    Uuid → Uuid → Uuid → SetVariantPriceInput → Date → Store (Option Variant)
unfolding find_variant_of save_price
set_variant_price m product_id id input changed_at = transaction do
  locked ← gets (find_variant_of m product_id id)
  current ← gets (λ db. find (is_variant_id m id) db.variants)
  merchant ← gets (λ db. find (is_merchant m) db.access.merchants)
  elim locked [
    | none ↦ pure none
    | some x ↦ elim current [
      | none ↦ pure none
      | some variant ↦ elim merchant [
        | none ↦ pure none
        | some seller ↦
            if is_same_price input seller.currency variant then pure (some variant) else do
              raise_if (not (fits_bigint input.selling_price && is_cost input.cost_price))
                  bigint_out_of_range
              modify (save_price m id input seller.currency changed_at)
              pure (some (priced_variant input seller.currency changed_at variant))
      ]
    ]
  ]
