-- ===== src/Tests.antt =====
-- A shop for the tests: merchant 1 with two variants, five pieces of the first on the shelf and
-- three of the second, and a draft order for two of each.
mod Movements
mod StockHolds
mod Orders
mod Payments
mod Deliveries
mod Drafts
mod Phones
mod Members
mod Sessions
mod Newcomers
mod Prices
mod Views
mod Items
mod Verifications
use tteeka.Prelude.{List, some, none, [], ◌∷◌}
use tteeka.Schema.{
  AccessTables, Db, Variant, Balance, CatalogueStatus, Order, OrderItem, OrderStatus,
  DeliverySnapshot, Uuid, Date,
}
use tteeka.Store.{Env}

abbrev pub env : Env
env = record { fresh_id = λ db. 900; db_now = λ db. 100; waited = λ db. db }

abbrev pub variant : Uuid → Variant
variant id = record {
  id = id;
  merchant_id = 1;
  product_id = 9;
  sku = "KITENGE";
  barcode = none;
  size = none;
  colour = none;
  status = CatalogueStatus.active;
  selling_price = some 30000;
  cost_price = none;
  price_currency = some 800;
  price_updated_at = none;
  product_name = "Kitenge dress";
  product_status = CatalogueStatus.active;
}

abbrev pub shelf_of_first : Balance
shelf_of_first = record { merchant_id = 1; variant_id = 10; quantity = 5; updated_at = 50 }

abbrev pub shelf_of_second : Balance
shelf_of_second = record { merchant_id = 1; variant_id = 11; quantity = 3; updated_at = 50 }

abbrev pub item : Uuid → Uuid → Date → OrderItem
item id v at = record {
  id = id;
  merchant_id = 1;
  order_id = 70;
  variant_id = v;
  product_name_snapshot = "Kitenge dress";
  sku_snapshot = "KITENGE";
  size_snapshot = none;
  colour_snapshot = none;
  quantity = 2;
  unit_selling_price = 30000;
  currency = 800;
  line_total = 60000;
  created_at = at;
}

abbrev pub items : List OrderItem
items = item 80 10 60 ∷ item 81 11 61 ∷ []

abbrev pub place : DeliverySnapshot
place = record {
  location_id = some 40;
  area = some "Kololo";
  landmark = some "Opposite the airstrip";
  phone = some "+256700000000";
  instructions = none;
  map_pin_url = none;
}

abbrev pub draft_order : Order
draft_order = record {
  id = 70;
  merchant_id = 1;
  customer_id = 30;
  status = OrderStatus.draft;
  customer_name_snapshot = some "Amina";
  customer_phone_snapshot = "+256700000000";
  delivery = place;
  currency = some 800;
  subtotal = 120000;
  idempotency_key = 7;
  request_hash = 77;
  created_at = 60;
  abandoned_at = none;
  cancelled_at = none;
  confirmed_at = none;
  stock_hold_expires_at = none;
  confirmation_idempotency_key = none;
  confirmation_request_hash = none;
}

abbrev pub no_access : AccessTables
no_access = record {
  users = [];
  merchants = [];
  memberships = [];
  roles = [];
  membership_roles = [];
  permissions = [];
  role_permissions = [];
  credentials = [];
  sessions = [];
  commands = [];
}

abbrev pub shop : Db
shop = record {
  variants = variant 10 ∷ variant 11 ∷ [];
  balances = shelf_of_first ∷ shelf_of_second ∷ [];
  ledger = [];
  holds = [];
  customers = [];
  locations = [];
  orders = draft_order ∷ [];
  items = items;
  payments = [];
  verifications = [];
  deliveries = [];
  attempts = [];
  access = no_access;
  catalogue = record { products = []; prices = [] };
}
