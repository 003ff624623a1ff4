-- ===== src/Inventory/Holds/Replay.antt =====
-- A hold is made once for each idempotency key: proofs about Holds.antt.
use tteeka.Prelude.{◌≡◌, some, arith}
use tteeka.Schema.{Db, Uuid, Date, Hold}
use tteeka.Store.{Env, ok}
use tteeka.Inventory.Queries.{find_hold_key}
use tteeka.Inventory.Holds.{CreateStockHoldCommand, create_stock_hold, resolve_hold_replay}
use tteeka.Inventory.Holds.Outcome.{
  Created, replayed, recovered, replayed_after_wait, allocated, create_stock_hold-Created,
}

create_stock_hold_recorded :
    (env : Env) (m : Uuid) (command : CreateStockHoldCommand) (db : Db) {hold : Hold}
    → find_hold_key m command.idempotency_key db ≡ some hold
    → hold.request_hash ≡ command.request_hash
    → create_stock_hold env m command db ≡ (ok hold, db)
unfolding create_stock_hold resolve_hold_replay
create_stock_hold_recorded env m command db {hold} f e = ground (arith, f, e)

Created-recorded :
    (env : Env) (m : Uuid) (command : CreateStockHoldCommand) (db : Db) {hold : Hold} {db' : Db}
    → Created env m command db hold db'
    → (find_hold_key m command.idempotency_key db' ≡ some hold)
      × (hold.request_hash ≡ command.request_hash)
Created-recorded env m command db {hold} {db'} (replayed f e same) = ground (arith, f, e, same)
Created-recorded env m command db {hold} {db'} (recovered f e same) = ground (arith, f, e, same)
Created-recorded env m command db {hold} {db'} (replayed_after_wait f e shelf others) = (f, e)
Created-recorded env m command db {hold} {db'} (allocated db₁ shelf others w read) =
    (read, w.matches.0.hash)

-- Once the store has returned a hold, the same command given to it again, with any time, on the
-- tables that it left and whatever is committed during its waits, returns that hold and changes
-- nothing.
pub create_stock_hold_again :
    (env env' : Env) (m : Uuid) (command : CreateStockHoldCommand) (later : Date) (db : Db)
    {hold : Hold} {db' : Db}
    → create_stock_hold env m command db ≡ (ok hold, db')
    → create_stock_hold env' m (record command { now = later }) db' ≡ (ok hold, db')
create_stock_hold_again env env' m command later db {hold} {db'} e =
    let (f, hash) =
      Created-recorded env m command db (create_stock_hold-Created env m command db e) in
    create_stock_hold_recorded env' m (record command { now = later }) db' f hash
