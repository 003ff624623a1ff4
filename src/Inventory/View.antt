-- ===== src/Inventory/View.antt =====
-- What is shown of the stock: `getInventory`, `getStockHold` and `mapInventoryRow` of
-- apps/api/src/inventory/prisma-inventory.store.ts, `mapHold` of inventory.service.ts.
use tteeka.Prelude.{ℕ, ◌≤◌, ◌≡◌, ◌↔◌, Option, none, some, leb, ◌&&◌, if◌then◌else◌, arith}
use tteeka.Prelude.Table.{find}
use tteeka.Schema.{Db, Uuid, Date, Variant, Balance, Hold, HoldStatus}
use tteeka.Inventory.Queries.{
  find_variant, find_balance, held, quantity_or_zero, is_active, live_quantity,
}
use tteeka.Inventory.Holds.{is_hold}

pub record InventoryIdentityRecord : Type 0 where
  pub variant : Variant
  pub available_quantity : ℕ
  pub held_quantity : ℕ
  pub inventory_updated_at : Option Date

-- `balance?.updatedAt ?? null`
abbrev pub updated_at_or_none : Option Balance → Option Date
updated_at_or_none none = none
updated_at_or_none (some b) = some b.updated_at

unfoldable pub map_inventory_row : Variant → Option Balance → ℕ → InventoryIdentityRecord
map_inventory_row variant balance held_quantity = record {
  variant = variant;
  available_quantity = quantity_or_zero balance;
  held_quantity = held_quantity;
  inventory_updated_at = updated_at_or_none balance;
}

unfoldable pub get_inventory : Uuid → Uuid → Date → Db → Option InventoryIdentityRecord
unfolding map_inventory_row
get_inventory m v now db = elim (find_variant m v db) [
  | none ↦ none
  | some variant ↦ some (map_inventory_row variant (find_balance m v db) (held m v now db))
]

unfoldable pub get_stock_hold : Uuid → Uuid → Uuid → Db → Option Hold
get_stock_hold m v id db = find (is_hold m v id) db.holds

-- The fields of the answer that depend on the time.
pub record HoldView : Type 0 where
  pub status : HoldStatus
  pub expired_at : Option Date

-- `record.expiredAt ?? (effectivelyExpired ? record.expiresAt : null)`
abbrev pub first_date : Option Date → Option Date → Option Date
first_date none other = other
first_date (some at) other = some at

unfoldable pub map_hold : Hold → Date → HoldView
map_hold h now =
    let effectively_expired = is_active h.status && leb h.expires_at now in
    record {
      status = if effectively_expired then HoldStatus.expired else h.status;
      expired_at =
          first_date h.expired_at (if effectively_expired then some h.expires_at else none);
    }

-- A hold is shown as active exactly when its quantity still counts as held of its variant at that
-- time, unless it holds nothing.
pub map_hold-active :
    (h : Hold) (now : Date)
    → 1 ≤ h.quantity
    → ((map_hold h now).status ≡ HoldStatus.active)
      ↔ (live_quantity h.merchant_id h.variant_id now h ≡ h.quantity)
unfolding map_hold live_quantity
map_hold-active h now pos = ground (arith, pos)
