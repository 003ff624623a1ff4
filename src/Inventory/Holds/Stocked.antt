-- ===== src/Inventory/Holds/Stocked.antt =====
-- Creating a hold keeps the stock: proofs about Holds.antt.
use tteeka.Prelude.{◌≤◌, sym, subst, arith, inl, inr, [], ◌∷◌, List}
use tteeka.Prelude.Table.{sum_of, sum_of_mono}
use tteeka.Schema.{Db, Uuid, Date, Hold}
use tteeka.Store.{Env, Outcome-cases}
use tteeka.Inventory.Stock.{IsStocked, held-holds}
use tteeka.Inventory.Allocation.{StockHoldAllocation}
use tteeka.Inventory.Allocation.Maps.{requested, requests}
use tteeka.Inventory.Allocation.Sellable.{Allocated, live_requests}
use tteeka.Inventory.Holds.{CreateStockHoldCommand, allocation_of, create_stock_hold}
use tteeka.Inventory.Holds.Outcome.{
  Created, replayed, recovered, replayed_after_wait, allocated, create_stock_hold-Created,
  create_stock_hold_err,
}

live_requests-le :
    (v : Uuid) (now : Date) (allocations : List StockHoldAllocation)
    → sum_of (live_requests v now) allocations ≤ requested v allocations
live_requests-le v now allocations =
    sum_of_mono (live_requests v now) (requests v) allocations (λ a. ground arith)

-- An allocation that returns leaves the stock above what is held.
pub Allocated-IsStocked :
    (m : Uuid) (allocations : List StockHoldAllocation) (now : Date) (db : Db) {hs : List Hold}
    {db' : Db}
    → Allocated m allocations now db hs db'
    → IsStocked now db
    → IsStocked now db'
Allocated-IsStocked m allocations now db {hs} {db'} a h m' v = ground (
  arith,
  a.same_physical m' v,
  a.holds_more m' v,
  a.fits v,
  live_requests-le v now allocations,
  h m' v,
)

module _ (env : Env) (m : Uuid) (command : CreateStockHoldCommand) (db : Db) where
  Created-IsStocked :
      {hold : Hold} {db' : Db}
      → Created env m command db hold db'
      → IsStocked command.now db
      → IsStocked command.now (env.waited db)
      → IsStocked command.now db'
  Created-IsStocked {hold} {db'} (replayed f e same) h k =
      subst (IsStocked command.now) (sym same) h
  Created-IsStocked {hold} {db'} (recovered f e same) h k =
      subst (IsStocked command.now) (sym same) k
  Created-IsStocked {hold} {db'} (replayed_after_wait f e shelf others) h k = λ m' v. ground (
    arith,
    shelf m' v,
    k m' v,
    held-holds m' v command.now (env.waited db) db' (ground (arith, others)),
  )
  Created-IsStocked {hold} {db'} (allocated db₁ shelf others w read) h k =
      Allocated-IsStocked m (allocation_of command ∷ []) command.now db₁ w (λ m' v. ground (
        arith,
        shelf m' v,
        k m' v,
        held-holds m' v command.now (env.waited db) db₁ (ground (arith, others)),
      ))

  -- Whatever hold is asked for, if the stock covers the live holds before the call and after the
  -- wait for the lock, whatever other requests have committed then, it does at the end, whether
  -- the hold is created, replayed or refused.
  pub create_stock_hold-IsStocked :
      IsStocked command.now db
      → IsStocked command.now (env.waited db)
      → IsStocked command.now (create_stock_hold env m command db).1
  create_stock_hold-IsStocked h k = elim (Outcome-cases (create_stock_hold env m command db)) [
    | inl (hold, db', e) ↦
        rw e (Created-IsStocked (create_stock_hold-Created env m command db e) h k)
    | inr (x, db', e) ↦ elim (create_stock_hold_err env m command db e) [
      | inl same ↦ rw (e, same) h
      | inr same ↦ rw (e, same) k
    ]
  ]
