-- ===== src/Inventory/Service.antt =====
-- `createHold` of apps/api/src/inventory/inventory.service.ts: what is checked before the call of the
-- store, and what is shown of the hold. Its errors are those of the store, before they are mapped.
pub mod Retried
use tteeka.Prelude.{ℕ, leb}
use tteeka.Schema.{Uuid, Key, Hash, Date, Hold}
use tteeka.Store.{Env, Store, pure, raise_if, hold_expiry_not_in_future, ◌>>=◌, ◌>>◌}
use tteeka.Inventory.Holds.{CreateStockHoldCommand, create_stock_hold}
use tteeka.Inventory.View.{HoldView, map_hold}

-- The request's body, with its quantity and its date read.
pub record CreateStockHoldInput : Type 0 where
  pub quantity : ℕ
  pub expires_at : Date

-- `stockHoldRequestHash`, which is a SHA-256 digest
abbrev pub HoldHash : Type 0
HoldHash = Uuid → CreateStockHoldInput → Hash

abbrev pub command_of : HoldHash → Uuid → CreateStockHoldInput → Key → Date → CreateStockHoldCommand
command_of hash_of v input key now = record {
  variant_id = v;
  quantity = input.quantity;
  expires_at = input.expires_at;
  idempotency_key = key;
  request_hash = hash_of v input;
  now = now;
}

-- `now` is `new Date()`; the answer is the hold with the fields that depend on the time.
unfoldable pub create_hold_request :
    Env → HoldHash → Uuid → Uuid → CreateStockHoldInput → Key → Date → Store (Hold × HoldView)
create_hold_request env hash_of m v input key now = do
  raise_if (leb input.expires_at now) hold_expiry_not_in_future
  hold ← create_stock_hold env m (command_of hash_of v input key now)
  pure (hold, map_hold hold now)
