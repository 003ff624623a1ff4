-- ===== src/Inventory/Movement.antt =====
-- `applyMovement` of apps/api/src/inventory/prisma-inventory.store.ts, and how
-- apps/api/src/inventory/inventory.service.ts builds its command.
pub mod Effect
pub mod Stocked
pub mod Ledger
pub mod Replay
use tteeka.Prelude.{
  ℕ, ◌+◌, ◌-◌, Bool, true, false, Option, none, some, String, [], ◌∷◌, ◌++◌, ltb, ◌==◌, ◌&&◌,
  is_some, if◌then◌else◌,
}
use tteeka.Prelude.Table.{update_where}
use tteeka.Schema.{
  Db, Uuid, Key, Hash, Date, Balance, LedgerEntry, InventoryState, available, MovementType, receipt,
  adjustment_in, adjustment_out, max_bigint,
}
use tteeka.Store.{
  Env, Store, StoreError, pure, raise, gets, modify, or_raise, raise_if, transaction,
  catch_idempotency, unique_violation, idempotency_key, balance_missing, bigint_out_of_range,
  inventory_variant_not_found, inventory_idempotency_conflict, insufficient_available_stock,
  inventory_reserved_by_holds, ◌>>=◌, ◌>>◌,
}
use tteeka.Inventory.Queries.{
  find_variant, find_balance, is_balance, ensure_balance, held, find_movement_key,
}

pub record ApplyMovementCommand : Type 0 where
  pub variant_id : Uuid
  pub movement_type : MovementType
  pub quantity : ℕ
  pub from_state : Option InventoryState
  pub to_state : Option InventoryState
  pub note : Option String
  pub idempotency_key : Key
  pub request_hash : Hash

abbrev pub is_adjustment_out : MovementType → Bool
is_adjustment_out adjustment_out = true
is_adjustment_out _ = false

-- The command of `InventoryService.applyMovement`; `entering` is `type !== 'ADJUSTMENT_OUT'`.
unfoldable pub movement_command :
    Uuid → MovementType → ℕ → Option String → Key → Hash → ApplyMovementCommand
movement_command variant_id movement_type quantity note key hash = record {
  variant_id = variant_id;
  movement_type = movement_type;
  quantity = quantity;
  from_state = if is_adjustment_out movement_type then some available else none;
  to_state = if is_adjustment_out movement_type then none else some available;
  note = note;
  idempotency_key = key;
  request_hash = hash;
}

unfoldable pub resolve_replay : LedgerEntry → ApplyMovementCommand → Store LedgerEntry
resolve_replay entry command =
    if entry.request_hash == command.request_hash
    then pure entry
    else raise inventory_idempotency_conflict

-- `next`; a difference below 0 is none.
unfoldable pub next_quantity : ApplyMovementCommand → ℕ → Option ℕ
next_quantity command current =
    if is_some command.to_state
    then some (current + command.quantity)
    else if ltb current command.quantity
    then none
    else some (current - command.quantity)

abbrev pub new_entry : Env → Uuid → ApplyMovementCommand → ℕ → Db → LedgerEntry
new_entry env m command next db = record {
  id = env.fresh_id db;
  merchant_id = m;
  variant_id = command.variant_id;
  movement_type = command.movement_type;
  from_state = command.from_state;
  to_state = command.to_state;
  quantity = command.quantity;
  from_state_balance_after = if is_some command.from_state then some next else none;
  to_state_balance_after = if is_some command.to_state then some next else none;
  note = command.note;
  idempotency_key = command.idempotency_key;
  request_hash = command.request_hash;
  created_at = env.db_now db;
}

-- `inventoryLedgerEntry.create`; a BIGINT column takes no value above `max_bigint`.
unfoldable pub create_entry : Env → Uuid → ApplyMovementCommand → ℕ → Store LedgerEntry
create_entry env m command next db =
    (if ltb max_bigint next
        then raise bigint_out_of_range
        else if is_some (find_movement_key m command.idempotency_key db)
        then raise (unique_violation idempotency_key)
        else do
          let entry = new_entry env m command next db
          modify (λ t. record t { ledger = t.ledger ++ entry ∷ [] })
          pure entry)
      db

-- `inventoryBalance.update`
unfoldable pub update_balance : Env → Uuid → Uuid → ℕ → Db → Db
update_balance env m v next db = record db {
  balances =
      update_where (is_balance m v) (λ b. record b { quantity = next; updated_at = env.db_now db })
        db.balances;
}

-- What the transaction does once nothing was recorded under the key; `now` is `new Date()`.
unfoldable pub write_movement : Env → Uuid → ApplyMovementCommand → Date → ℕ → Store LedgerEntry
unfolding next_quantity update_balance
write_movement env m command now current = do
  next ← or_raise (next_quantity command current) insufficient_available_stock
  held_now ← gets (held m command.variant_id now)
  raise_if (is_adjustment_out command.movement_type && ltb next held_now)
      inventory_reserved_by_holds
  movement ← create_entry env m command next
  modify (update_balance env m command.variant_id next)
  pure movement

-- The statements from the lock of the balance on.
unfoldable pub locked_movement : Env → Uuid → ApplyMovementCommand → Date → Store LedgerEntry
unfolding resolve_replay
locked_movement env m command now = do
  modify (ensure_balance env m command.variant_id)
  balance ← gets (find_balance m command.variant_id)
  row ← or_raise balance balance_missing
  serialized_replay ← gets (find_movement_key m command.idempotency_key)
  elim serialized_replay [
    | some entry ↦ resolve_replay entry command
    | none ↦ write_movement env m command now row.quantity
  ]

unfoldable pub apply_in_transaction : Env → Uuid → ApplyMovementCommand → Date → Store LedgerEntry
apply_in_transaction env m command now = do
  replay ← gets (find_movement_key m command.idempotency_key)
  elim replay [
    | some entry ↦ resolve_replay entry command
    | none ↦ do
      variant ← gets (find_variant m command.variant_id)
      or_raise variant inventory_variant_not_found
      modify env.waited
      transaction (locked_movement env m command now)
  ]

unfoldable pub replay_movement : Uuid → ApplyMovementCommand → StoreError → Store LedgerEntry
unfolding resolve_replay
replay_movement m command error = do
  replay ← gets (find_movement_key m command.idempotency_key)
  entry ← or_raise replay error
  resolve_replay entry command

unfoldable pub apply_movement : Env → Uuid → ApplyMovementCommand → Date → Store LedgerEntry
unfolding apply_in_transaction replay_movement
apply_movement env m command now =
    catch_idempotency (apply_in_transaction env m command now) (replay_movement m command)
