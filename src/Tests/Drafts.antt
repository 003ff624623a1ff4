-- ===== src/Tests/Drafts.antt =====
-- An order that is created for a customer, and the draft order moved to the customer's place.
use tteeka.Prelude.{◌≡◌, ◌⊎◌, ◌==◌, ◌&&◌, refl, true, false, some, none, [], ◌∷◌}
use tteeka.Prelude.Table.{find, update_first}
use tteeka.Schema.{Db, Uuid, Customer, Location, Order, OrderStatus}
use tteeka.Store.{ok}
use tteeka.Order.Lifecycle.{is_order, find_order, save_order}
use tteeka.Order.Drafts.{
  CreateOrderCommand, OrderPatchInput, is_order_key, find_order_key, is_active_customer,
  find_active_customer, is_active_location, location_of, snapshot_of, new_order, insert_order,
  create_in_transaction, create, target_location_id, patched_order, patch_draft, patch,
}
use tteeka.Order.References.{create_order_again, Refers, patch-Refers}
use tteeka.Tests.{env, shop, draft_order}

abbrev amina : Customer
amina = record {
  id = 30;
  merchant_id = 1;
  name = some "Amina";
  phone = "+256700000000";
  is_active = true;
}

abbrev home : Location
home = record {
  id = 41;
  merchant_id = 1;
  customer_id = 30;
  details = record {
    area = "Ntinda";
    landmark = "Behind the market";
    phone = "+256700000000";
    instructions = none;
    map_pin_url = none;
  };
  is_active = true;
}

abbrev town : Db
town = record shop { customers = amina ∷ []; locations = home ∷ [] }

abbrev command : CreateOrderCommand
command = record {
  customer_id = 30;
  delivery_location_id = some 41;
  idempotency_key = 14;
  request_hash = 141;
}

abbrev created : Order
created = new_order env 1 command amina (some home) town

abbrev town_after : Db
town_after = record town { orders = draft_order ∷ created ∷ [] }

create_run : create env 1 command town ≡ (ok created, town_after)
unfolding create create_in_transaction insert_order find_order_key is_order_key find_active_customer
    is_active_customer location_of is_active_location find
create_run = refl

create_order_again_example : create env 1 command town_after ≡ (ok created, town_after)
create_order_again_example = create_order_again env env 1 command town create_run

abbrev moving : OrderPatchInput
moving = record { customer_id = none; delivery_location_id = some (some 41) }

abbrev moved : Order
moved = record draft_order { delivery = snapshot_of (some home) }

patch_run : patch 1 70 moving town ≡ (ok (some moved), record town { orders = moved ∷ [] })
unfolding patch patch_draft patched_order target_location_id find_order is_order save_order
    location_of is_active_location find update_first
patch_run = refl

patch-Refers_example :
    (find_order 1 70 (record town { orders = moved ∷ [] }) ≡ some moved)
    × ((m' id' : Uuid)
        → (m' == 1 && id' == 70) ≡ false
        → find_order m' id' (record town { orders = moved ∷ [] }) ≡ find_order m' id' town)
    × ((current : Order) × (find_order 1 70 town ≡ some current)
        × (moved.status ≡ OrderStatus.draft)
        × (moved.subtotal ≡ current.subtotal)
        × (moved.currency ≡ current.currency)
        × (((moved ≡ current) × (record town { orders = moved ∷ [] } ≡ town))
            ⊎ Refers 1 town moved))
patch-Refers_example = patch-Refers 1 70 moving town patch_run
