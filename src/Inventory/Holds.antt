-- ===== src/Inventory/Holds.antt =====
-- The stock holds of apps/api/src/inventory/prisma-inventory.store.ts: `createStockHold`,
-- `releaseStockHold`, `updateStockHoldExpiry` and `expireDueStockHolds`.
pub mod Outcome
pub mod Stocked
pub mod Replay
pub mod Lifecycle
pub mod Batch
pub mod Taken
pub mod Sweep
use tteeka.Prelude.{
  ℕ, zero, suc, ◌+◌, Bool, true, false, not, Option, none, some, List, [], ◌∷◌, ltb, leb, ◌==◌,
  ◌&&◌, ◌||◌, is_some, contains, map, length, if◌then◌else◌,
}
use tteeka.Prelude.Table.{find, filter, update_where, update_first}
use tteeka.Schema.{Db, Uuid, Key, Hash, Date, Hold, HoldStatus}
use tteeka.Store.{
  Env, Store, StoreError, ok, pure, raise, gets, modify, or_raise, raise_if, transaction,
  catch_idempotency, record_not_found, inventory_variant_not_found, stock_hold_idempotency_conflict,
  stock_hold_not_active, order_managed_stock_hold, ◌>>=◌, ◌>>◌,
}
use tteeka.Inventory.Queries.{find_variant, find_hold_key, is_active}
use tteeka.Inventory.Allocation.{StockHoldAllocation, allocate_stock_holds, lock_available_balances}

pub record CreateStockHoldCommand : Type 0 where
  pub variant_id : Uuid
  pub quantity : ℕ
  pub expires_at : Date
  pub idempotency_key : Key
  pub request_hash : Hash
  pub now : Date

abbrev pub allocation_of : CreateStockHoldCommand → StockHoldAllocation
allocation_of c = record {
  variant_id = c.variant_id;
  order_item_id = none;
  quantity = c.quantity;
  expires_at = c.expires_at;
  idempotency_key = c.idempotency_key;
  request_hash = c.request_hash;
}

unfoldable pub resolve_hold_replay : Hold → CreateStockHoldCommand → Store Hold
resolve_hold_replay hold command =
    if hold.request_hash == command.request_hash
    then pure hold
    else raise stock_hold_idempotency_conflict

-- The statements from the lock of the balance on.
unfoldable pub locked_hold : Env → Uuid → CreateStockHoldCommand → Store Hold
unfolding resolve_hold_replay
locked_hold env m command = do
  lock_available_balances env m (command.variant_id ∷ [])
  serialized_replay ← gets (find_hold_key m command.idempotency_key)
  elim serialized_replay [
    | some hold ↦ resolve_hold_replay hold command
    | none ↦ do
      allocate_stock_holds env m (allocation_of command ∷ []) command.now
      created ← gets (find_hold_key m command.idempotency_key)
      or_raise created record_not_found
  ]

unfoldable pub hold_in_transaction : Env → Uuid → CreateStockHoldCommand → Store Hold
hold_in_transaction env m command = do
  replay ← gets (find_hold_key m command.idempotency_key)
  elim replay [
    | some hold ↦ resolve_hold_replay hold command
    | none ↦ do
      variant ← gets (find_variant m command.variant_id)
      or_raise variant inventory_variant_not_found
      modify env.waited
      transaction (locked_hold env m command)
  ]

unfoldable pub replay_hold : Uuid → CreateStockHoldCommand → StoreError → Store Hold
unfolding resolve_hold_replay
replay_hold m command error = do
  replay ← gets (find_hold_key m command.idempotency_key)
  hold ← or_raise replay error
  resolve_hold_replay hold command

unfoldable pub create_stock_hold : Env → Uuid → CreateStockHoldCommand → Store Hold
unfolding hold_in_transaction replay_hold
create_stock_hold env m command =
    catch_idempotency (hold_in_transaction env m command) (replay_hold m command)

-- SELECT "id" FROM "stock_holds" WHERE "merchant_id" = … AND "variant_id" = … AND "id" = …
unfoldable pub is_hold : Uuid → Uuid → Uuid → Hold → Bool
is_hold m v id h = h.merchant_id == m && h.variant_id == v && h.id == id

-- `update({ where: { id } })`: the identifier is the primary key.
unfoldable pub update_hold : Uuid → Uuid → Uuid → (Hold → Hold) → Db → Db
unfolding is_hold
update_hold m v id f db = record db { holds = update_first (is_hold m v id) f db.holds }

abbrev pub release : Date → Hold → Hold
release now h = record h { status = HoldStatus.released; released_at = some now }

abbrev pub expire : Hold → Hold
expire h = record h { status = HoldStatus.expired; expired_at = some h.expires_at }

-- `update` of the locked row; the result is what `select` reads back.
unfoldable pub save_hold : Uuid → Uuid → Uuid → (Hold → Hold) → Hold → Store (Option Hold)
unfolding update_hold
save_hold m v id f hold = do modify (update_hold m v id f); pure (some (f hold))

unfoldable pub release_locked : Uuid → Uuid → Uuid → Date → Hold → Store (Option Hold)
unfolding save_hold
release_locked m v id now hold =
    if is_some hold.order_item_id
    then raise order_managed_stock_hold
    else if not (is_active hold.status)
    then pure (some hold)
    else if leb hold.expires_at now
    then save_hold m v id expire hold
    else save_hold m v id (release now) hold

unfoldable pub release_stock_hold : Uuid → Uuid → Uuid → Date → Store (Option Hold)
unfolding release_locked
release_stock_hold m v id now = transaction do
  locked ← gets (λ db. find (is_hold m v id) db.holds)
  elim locked [ none ↦ pure none | some hold ↦ release_locked m v id now hold ]

unfoldable pub update_expiry_locked : Uuid → Uuid → Uuid → Date → Date → Hold → Store (Option Hold)
unfolding save_hold
update_expiry_locked m v id expires_at now hold =
    if is_some hold.order_item_id
    then raise order_managed_stock_hold
    else if not (is_active hold.status) || leb hold.expires_at now
    then raise stock_hold_not_active
    else if hold.expires_at == expires_at
    then pure (some hold)
    else save_hold m v id (λ h. record h { expires_at = expires_at }) hold

unfoldable pub update_stock_hold_expiry : Uuid → Uuid → Uuid → Date → Date → Store (Option Hold)
unfolding update_expiry_locked
update_stock_hold_expiry m v id expires_at now = transaction do
  locked ← gets (λ db. find (is_hold m v id) db.holds)
  elim locked [ none ↦ pure none | some hold ↦ update_expiry_locked m v id expires_at now hold ]

-- WHERE "status" = 'ACTIVE' AND "expires_at" <= now … SKIP LOCKED: `skipped` tells the rows that
-- other requests have locked.
unfoldable pub is_due : (Hold → Bool) → Date → Hold → Bool
is_due skipped now h = is_active h.status && leb h.expires_at now && not (skipped h)

abbrev comes_before : Hold → Hold → Bool
comes_before h k = ltb h.expires_at k.expires_at || (h.expires_at == k.expires_at && leb h.id k.id)

insert_due : Hold → List Hold → List Hold
insert_due h [] = h ∷ []
insert_due h (k ∷ ks) =
    let rest = insert_due h ks in if comes_before h k then h ∷ k ∷ ks else k ∷ rest

-- ORDER BY "expires_at", "id"
pub sort_due : List Hold → List Hold
unfolding insert_due
sort_due [] = []
sort_due (h ∷ hs) = insert_due h (sort_due hs)

-- LIMIT batchSize
pub take : ℕ → List Hold → List Hold
take zero hs = []
take (suc n) [] = []
take (suc n) (h ∷ hs) = h ∷ take n hs

unfoldable pub due_batch : (Hold → Bool) → Date → ℕ → Db → List Uuid
unfolding take sort_due
due_batch skipped now batch_size db =
    map (λ (h : Hold). h.id) (take batch_size (sort_due (filter (is_due skipped now) db.holds)))

-- h."id" = due."id"
abbrev pub is_taken : List Uuid → Hold → Bool
is_taken due h = contains h.id due

-- UPDATE "stock_holds" … FROM due WHERE h."id" = due."id" RETURNING h."id": the number of rows
-- updated.
unfoldable pub expire_due_stock_holds : (Hold → Bool) → Date → ℕ → Store ℕ
unfolding due_batch
expire_due_stock_holds skipped now batch_size db =
    let due = due_batch skipped now batch_size db in
    (
      ok (length (filter (is_taken due) db.holds)),
      record db { holds = update_where (is_taken due) expire db.holds },
    )
