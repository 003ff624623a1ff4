-- ===== src/Tests/Views.antt =====
-- What is shown of a hold of two pieces until 200.
use tteeka.Prelude.{◌≡◌, ◌↔◌, none, arith}
use tteeka.Schema.{Hold, HoldStatus}
use tteeka.Inventory.Queries.{live_quantity}
use tteeka.Inventory.View.{map_hold, map_hold-active}

abbrev held_two : Hold
held_two = record {
  id = 900;
  merchant_id = 1;
  variant_id = 10;
  order_item_id = none;
  quantity = 2;
  status = HoldStatus.active;
  expires_at = 200;
  released_at = none;
  expired_at = none;
  idempotency_key = 6;
  request_hash = 66;
  created_at = 90;
}

map_hold-active_example :
    ((map_hold held_two 250).status ≡ HoldStatus.active) ↔ (live_quantity 1 10 250 held_two ≡ 2)
map_hold-active_example = map_hold-active held_two 250 (omega arith)
