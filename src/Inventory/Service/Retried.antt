-- ===== src/Inventory/Service/Retried.antt =====
-- A hold that is asked for again: proofs about Service.antt.
use tteeka.Prelude.{◌≡◌, leb, if◌then◌else◌, inl, inr, Bool-cases, arith}
use tteeka.Schema.{Db, Uuid, Key, Date, Hold}
use tteeka.Store.{Env, ok, err, hold_expiry_not_in_future, Outcome-cases}
use tteeka.Inventory.Holds.{create_stock_hold}
use tteeka.Inventory.Holds.Replay.{create_stock_hold_again}
use tteeka.Inventory.View.{HoldView, map_hold}
use tteeka.Inventory.Service.{CreateStockHoldInput, HoldHash, command_of, create_hold_request}

create_hold_request-ok :
    (env : Env) (hash_of : HoldHash) (m v : Uuid) (input : CreateStockHoldInput) (key : Key)
    (now : Date) (db : Db) {hold : Hold} {view : HoldView} {db' : Db}
    → create_hold_request env hash_of m v input key now db ≡ (ok (hold, view), db')
    → create_stock_hold env m (command_of hash_of v input key now) db ≡ (ok hold, db')
unfolding create_hold_request
create_hold_request-ok env hash_of m v input key now db {hold} {view} {db'} e =
    elim (Bool-cases (leb input.expires_at now)) [
      | inl late ↦ absurd (ground (arith, late, e))
      | inr early ↦
          elim (Outcome-cases (create_stock_hold env m (command_of hash_of v input key now) db)) [
            | inr (x, db₁, refused) ↦ absurd (ground (arith, early, refused, e))
            | inl (made, db₁, done) ↦ ground (arith, early, done, e)
          ]
    ]

-- Once a request for a hold has returned it, the same request sent again on the tables that the
-- first left, whatever is committed during its waits, changes nothing. It returns the same hold, as
-- it is shown at that time, as long as the expiry that it asks for lies in the future, and from then
-- on it is refused for its expiry.
pub create_hold_request_again :
    (env env' : Env) (hash_of : HoldHash) (m v : Uuid) (input : CreateStockHoldInput) (key : Key)
    (now later : Date) (db : Db) {hold : Hold} {view : HoldView} {db' : Db}
    → create_hold_request env hash_of m v input key now db ≡ (ok (hold, view), db')
    → create_hold_request env' hash_of m v input key later db' ≡ (
      (if leb input.expires_at later
          then err hold_expiry_not_in_future
          else ok (hold, map_hold hold later)),
      db',
    )
unfolding create_hold_request
create_hold_request_again env env' hash_of m v input key now later db {hold} {view} {db'} e =
    let again =
      create_stock_hold_again env env' m (command_of hash_of v input key now) later db
        (create_hold_request-ok env hash_of m v input key now db e) in
    elim (Bool-cases (leb input.expires_at later)) [
      | inl late ↦ ground (arith, late)
      | inr early ↦ ground (arith, early, again)
    ]
