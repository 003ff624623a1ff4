-- ===== src/Schema/Sales.antt =====
-- Models Customer, DeliveryLocation, Order and OrderItem of prisma/schema.prisma.
use tteeka.Prelude.{ℕ, Option, String, Bool}
use tteeka.Schema.Types.{Uuid, Key, Hash, Currency, Date}

pub record Customer : Type 0 where
  pub id : Uuid
  pub merchant_id : Uuid
  pub name : Option String
  pub phone : String
  pub is_active : Bool

-- The fields of a location that an order copies.
pub record LocationDetails : Type 0 where
  pub area : String
  pub landmark : String
  pub phone : String
  pub instructions : Option String
  pub map_pin_url : Option String

pub record Location : Type 0 where
  pub id : Uuid
  pub merchant_id : Uuid
  pub customer_id : Uuid
  pub details : LocationDetails
  pub is_active : Bool

pub data OrderStatus : Type 0 where
  draft confirmed fulfilled completed abandoned cancelled : OrderStatus

-- The columns delivery_location_id and delivery_*_snapshot.
pub record DeliverySnapshot : Type 0 where
  pub location_id : Option Uuid
  pub area : Option String
  pub landmark : Option String
  pub phone : Option String
  pub instructions : Option String
  pub map_pin_url : Option String

pub record Order : Type 0 where
  pub id : Uuid
  pub merchant_id : Uuid
  pub customer_id : Uuid
  pub status : OrderStatus
  pub customer_name_snapshot : Option String
  pub customer_phone_snapshot : String
  pub delivery : DeliverySnapshot
  pub currency : Option Currency
  pub subtotal : ℕ
  pub idempotency_key : Key
  pub request_hash : Hash
  pub created_at : Date
  pub abandoned_at : Option Date
  pub cancelled_at : Option Date
  pub confirmed_at : Option Date
  pub stock_hold_expires_at : Option Date
  pub confirmation_idempotency_key : Option Key
  pub confirmation_request_hash : Option Hash

pub record OrderItem : Type 0 where
  pub id : Uuid
  pub merchant_id : Uuid
  pub order_id : Uuid
  pub variant_id : Uuid
  pub product_name_snapshot : String
  pub sku_snapshot : String
  pub size_snapshot : Option String
  pub colour_snapshot : Option String
  pub quantity : ℕ
  pub unit_selling_price : ℕ
  pub currency : Currency
  pub line_total : ℕ
  pub created_at : Date
