-- ===== src/Inventory/Stock.antt =====
-- What apps/api/src/inventory promises of the stock: a variant is never held for more than what
-- is on the shelf, so its sellable quantity (`availableQuantity - heldQuantity`) is never negative.
use tteeka.Prelude.{◌≤◌, ◌≡◌, some, arith}
use tteeka.Schema.{Db, Uuid, Date, Balance}
use tteeka.Inventory.Queries.{held, physical, find_balance}

abbrev pub IsStocked : Date → Db → Type 0
IsStocked now db = (m v : Uuid) → held m v now db ≤ physical m v db

pub held-holds :
    (m v : Uuid) (now : Date) (db db' : Db)
    → db'.holds ≡ db.holds
    → held m v now db' ≡ held m v now db
unfolding held
held-holds m v now db db' e = ground arith

pub physical-balances :
    (m v : Uuid) (db db' : Db) → db'.balances ≡ db.balances → physical m v db' ≡ physical m v db
unfolding physical find_balance
physical-balances m v db db' e = ground arith

pub physical-find_balance :
    (m v : Uuid) (db : Db) (b : Balance)
    → find_balance m v db ≡ some b
    → physical m v db ≡ b.quantity
unfolding physical
physical-find_balance m v db b e = ground arith
