-- ===== src/Order/Service.antt =====
-- `confirm` of apps/api/src/orders/order.service.ts: what is checked before the call of the store. Its
-- errors are those of the store, before `mapError`, and its answer is the order, before `mapOrder`.
pub mod Retried
use tteeka.Prelude.{leb}
use tteeka.Schema.{Uuid, Key, Hash, Date, Order}
use tteeka.Store.{Env, Store, raise_if, or_raise, not_found, hold_expiry_not_in_future, ◌>>=◌, ◌>>◌}
use tteeka.Order.Lifecycle.{ConfirmOrderCommand, Tokens, confirm}

-- `orderConfirmationRequestHash`, which is a SHA-256 digest
abbrev pub ConfirmationHash : Type 0
ConfirmationHash = Uuid → Date → Hash

abbrev pub command_of : ConfirmationHash → Uuid → Date → Key → Date → ConfirmOrderCommand
command_of hash_of id expires_at key now = record {
  expires_at_date = expires_at;
  idempotency_key = key;
  request_hash = hash_of id expires_at;
  now = now;
}

-- `now` is `new Date()`.
unfoldable pub confirm_request :
    Env → Tokens → ConfirmationHash → Uuid → Uuid → Date → Key → Date → Store Order
confirm_request env tokens hash_of m id expires_at key now = do
  raise_if (leb expires_at now) hold_expiry_not_in_future
  order ← confirm env tokens m id (command_of hash_of id expires_at key now)
  or_raise order not_found
