-- ===== src/Inventory/Movement/Replay.antt =====
-- A movement is applied once for each idempotency key: proofs about Movement.antt.
use tteeka.Prelude.{◌≡◌, none, some, arith, [], ◌∷◌, ◌++◌}
use tteeka.Prelude.Table.{find, find-append_none}
use tteeka.Schema.{Db, Uuid, Key, Date, LedgerEntry}
use tteeka.Store.{Env, ok}
use tteeka.Inventory.Queries.{find_movement_key, is_movement_key, ensure_balance}
use tteeka.Inventory.Allocation.Locks.{ensure_balance-others}
use tteeka.Inventory.Movement.{ApplyMovementCommand, apply_movement, resolve_replay}
use tteeka.Inventory.Movement.Stocked.{
  Applied, replayed, replayed_after_wait, recovered, written, apply_movement-Applied,
}

-- A recorded entry answers every later request with its key and its hash.
apply_movement_recorded :
    (env : Env) (m : Uuid) (command : ApplyMovementCommand) (now : Date) (db : Db)
    {entry : LedgerEntry}
    → find_movement_key m command.idempotency_key db ≡ some entry
    → entry.request_hash ≡ command.request_hash
    → apply_movement env m command now db ≡ (ok entry, db)
unfolding apply_movement resolve_replay
apply_movement_recorded env m command now db {entry} f e = ground (arith, f, e)

find_movement_key-append :
    (m : Uuid) (k : Key) (db db' : Db) (entry : LedgerEntry)
    → find_movement_key m k db ≡ none
    → db'.ledger ≡ db.ledger ++ entry ∷ []
    → entry.merchant_id ≡ m
    → entry.idempotency_key ≡ k
    → find_movement_key m k db' ≡ some entry
unfolding find_movement_key find is_movement_key
find_movement_key-append m k db db' entry f e p q =
    ground (arith, find-append_none (is_movement_key m k) db.ledger (entry ∷ []) f)

Applied-recorded :
    (env : Env) (m : Uuid) (command : ApplyMovementCommand) (now : Date) (db : Db)
    {entry : LedgerEntry} {db' : Db}
    → Applied env m command now db entry db'
    → (find_movement_key m command.idempotency_key db' ≡ some entry)
      × (entry.request_hash ≡ command.request_hash)
Applied-recorded env m command now db {entry} {db'} (replayed f e same) = ground (arith, f, e, same)
Applied-recorded env m command now db {entry} {db'} (recovered f e same) =
    ground (arith, f, e, same)
Applied-recorded env m command now db {entry} {db'} (replayed_after_wait f e same) = (
  unfold find_movement_key in
      ground (arith, f, same, ensure_balance-others env m command.variant_id (env.waited db)),
  e,
)
Applied-recorded env m command now db {entry} {db'} (written w) =
    let db₀ = ensure_balance env m command.variant_id (env.waited db) in
    (
      find_movement_key-append m command.idempotency_key db₀ db' entry w.new_key w.appended
          (ground (arith, w.written)) (ground (arith, w.written)),
      ground (arith, w.written),
    )

-- Once a movement has returned an entry, the same command sent again, at any time and whatever is
-- committed during its waits, returns that entry and changes nothing.
pub apply_movement_again :
    (env env' : Env) (m : Uuid) (command : ApplyMovementCommand) (now later : Date) (db : Db)
    {entry : LedgerEntry} {db' : Db}
    → apply_movement env m command now db ≡ (ok entry, db')
    → apply_movement env' m command later db' ≡ (ok entry, db')
apply_movement_again env env' m command now later db {entry} {db'} e =
    let (f, hash) =
      Applied-recorded env m command now db (apply_movement-Applied env m command now db e) in
    apply_movement_recorded env' m command later db' f hash
