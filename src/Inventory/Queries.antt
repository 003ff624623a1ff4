-- ===== src/Inventory/Queries.antt =====
-- The queries of apps/api/src/inventory/prisma-inventory.store.ts and stock-hold-allocation.ts:
-- which rows their `where` clauses select, and the sums that they aggregate.
use tteeka.Prelude.{
  ℕ, Bool, true, false, ◌&&◌, Option, none, some, ◌++◌, [], ◌∷◌, ltb, ◌==◌, is_some, if◌then◌else◌,
}
use tteeka.Prelude.Table.{find, sum_of}
use tteeka.Schema.{Db, Uuid, Key, Date, Variant, Balance, Hold, HoldStatus, LedgerEntry}
use tteeka.Store.{Env}

unfoldable pub is_variant : Uuid → Uuid → Variant → Bool
is_variant m v x = x.merchant_id == m && x.id == v

-- `productVariant.findUnique({ where: { merchantId_id } })`
unfoldable pub find_variant : Uuid → Uuid → Db → Option Variant
unfolding is_variant find
find_variant m v db = find (is_variant m v) db.variants

unfoldable pub is_balance : Uuid → Uuid → Balance → Bool
is_balance m v b = b.merchant_id == m && b.variant_id == v

-- SELECT "quantity" FROM "inventory_balances" …
unfoldable pub find_balance : Uuid → Uuid → Db → Option Balance
find_balance m v db = find (is_balance m v) db.balances

abbrev pub quantity_or_zero : Option Balance → ℕ
quantity_or_zero none = 0
quantity_or_zero (some b) = b.quantity

-- The stock that is on the shelf: `balance?.quantity ?? 0n`.
unfoldable pub physical : Uuid → Uuid → Db → ℕ
physical m v db = quantity_or_zero (find_balance m v db)

-- INSERT … VALUES (…, 0, CURRENT_TIMESTAMP) ON CONFLICT … DO NOTHING
unfoldable pub ensure_balance : Env → Uuid → Uuid → Db → Db
ensure_balance env m v db = if is_some (find_balance m v db) then db else record db {
  balances =
      db.balances
      ++ record { merchant_id = m; variant_id = v; quantity = 0; updated_at = env.db_now db } ∷ [];
}

abbrev pub is_active : HoldStatus → Bool
is_active HoldStatus.active = true
is_active _ = false

-- `status: 'ACTIVE', expiresAt: { gt: now }`
unfoldable pub is_live : Date → Hold → Bool
is_live now h = is_active h.status && ltb now h.expires_at

unfoldable pub is_live_hold_of : Uuid → Uuid → Date → Hold → Bool
unfolding is_live
is_live_hold_of m v now h = h.merchant_id == m && h.variant_id == v && is_live now h

unfoldable pub live_quantity : Uuid → Uuid → Date → Hold → ℕ
unfolding is_live_hold_of
live_quantity m v now h = if is_live_hold_of m v now h then h.quantity else 0

-- `stockHold.aggregate({ _sum: { quantity } })`, `_sum.quantity ?? 0n`
unfoldable pub held : Uuid → Uuid → Date → Db → ℕ
held m v now db = sum_of (live_quantity m v now) db.holds

unfoldable pub is_hold_key : Uuid → Key → Hold → Bool
is_hold_key m k h = h.merchant_id == m && h.idempotency_key == k

-- `stockHold.findUnique({ where: { merchantId_idempotencyKey } })`
unfoldable pub find_hold_key : Uuid → Key → Db → Option Hold
find_hold_key m k db = find (is_hold_key m k) db.holds

unfoldable pub is_movement_key : Uuid → Key → LedgerEntry → Bool
is_movement_key m k e = e.merchant_id == m && e.idempotency_key == k

-- `inventoryLedgerEntry.findUnique({ where: { merchantId_idempotencyKey } })`
unfoldable pub find_movement_key : Uuid → Key → Db → Option LedgerEntry
find_movement_key m k db = find (is_movement_key m k) db.ledger
