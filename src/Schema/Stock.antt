-- ===== src/Schema/Stock.antt =====
-- Models Product, ProductVariant, VariantPriceHistory, InventoryBalance,
-- InventoryLedgerEntry and StockHold of prisma/schema.prisma, but for the holds' `updated_at`.
use tteeka.Prelude.{ℕ, Option, String, List}
use tteeka.Schema.Types.{Uuid, Key, Hash, Currency, Date}

-- ProductStatus and ProductVariantStatus
pub data CatalogueStatus : Type 0 where
  active inactive archived : CatalogueStatus

pub record Product : Type 0 where
  pub id : Uuid
  pub merchant_id : Uuid
  pub name : String
  pub description : Option String
  pub category : Option String
  pub brand : Option String
  pub status : CatalogueStatus

-- A row of the table joined with the name and the status of its product, which the writes of a
-- product keep up to date.
pub record Variant : Type 0 where
  pub id : Uuid
  pub merchant_id : Uuid
  pub product_id : Uuid
  pub sku : String
  pub barcode : Option String
  pub size : Option String
  pub colour : Option String
  pub status : CatalogueStatus
  pub selling_price : Option ℕ
  pub cost_price : Option ℕ
  pub price_currency : Option Currency
  pub price_updated_at : Option Date
  pub product_name : String
  pub product_status : CatalogueStatus

pub record VariantPriceHistory : Type 0 where
  pub merchant_id : Uuid
  pub variant_id : Uuid
  pub selling_price : ℕ
  pub cost_price : Option ℕ
  pub currency : Currency
  pub created_at : Date

-- The tables of the catalogue besides the variants.
pub record CatalogueTables : Type 0 where
  pub products : List Product
  pub prices : List VariantPriceHistory

-- The only state that an item of stock can be in.
pub data InventoryState : Type 0 where
  available : InventoryState

pub record Balance : Type 0 where
  pub merchant_id : Uuid
  pub variant_id : Uuid
  pub quantity : ℕ
  pub updated_at : Date

pub data MovementType : Type 0 where
  receipt adjustment_in adjustment_out : MovementType

pub record LedgerEntry : Type 0 where
  pub id : Uuid
  pub merchant_id : Uuid
  pub variant_id : Uuid
  pub movement_type : MovementType
  pub from_state : Option InventoryState
  pub to_state : Option InventoryState
  pub quantity : ℕ
  pub from_state_balance_after : Option ℕ
  pub to_state_balance_after : Option ℕ
  pub note : Option String
  pub idempotency_key : Key
  pub request_hash : Hash
  pub created_at : Date

pub data HoldStatus : Type 0 where
  active released expired : HoldStatus

pub record Hold : Type 0 where
  pub id : Uuid
  pub merchant_id : Uuid
  pub variant_id : Uuid
  pub order_item_id : Option Uuid
  pub quantity : ℕ
  pub status : HoldStatus
  pub expires_at : Date
  pub released_at : Option Date
  pub expired_at : Option Date
  pub idempotency_key : Key
  pub request_hash : Hash
  pub created_at : Date
