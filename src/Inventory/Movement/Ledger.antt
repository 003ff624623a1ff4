-- ===== src/Inventory/Movement/Ledger.antt =====
-- The ledger accounts for the balances: proofs about Movement.antt.
use tteeka.Prelude.{
  ℕ, ◌+◌, ◌≡◌, sym, subst, ◌==◌, ◌&&◌, if◌then◌else◌, arith, Option, String, inl, inr, is_some, [],
  ◌∷◌,
}
use tteeka.Prelude.Table.{sum_of, sum_of-append}
use tteeka.Schema.{Db, Uuid, Key, Hash, Date, MovementType, LedgerEntry}
use tteeka.Store.{Env, Outcome-cases}
use tteeka.Inventory.Queries.{physical, ensure_balance}
use tteeka.Inventory.Allocation.Locks.{physical-ensure_balance, ensure_balance-others}
use tteeka.Inventory.Movement.{
  ApplyMovementCommand, movement_command, next_quantity, apply_movement,
}
use tteeka.Inventory.Movement.Effect.{Moved}
use tteeka.Inventory.Movement.Stocked.{
  Applied, replayed, replayed_after_wait, recovered, written, apply_movement-Applied,
  apply_movement_err,
}

-- What an entry of the ledger brings to the shelf of a variant, and what it takes away.
pub entering : Uuid → Uuid → LedgerEntry → ℕ
entering m v e =
    if e.merchant_id == m && e.variant_id == v && is_some e.to_state then e.quantity else 0

pub leaving : Uuid → Uuid → LedgerEntry → ℕ
leaving m v e =
    if e.merchant_id == m && e.variant_id == v && is_some e.from_state then e.quantity else 0

-- For each variant, what came in is what went out and what is on the shelf.
pub record IsReconciled (db : Db) : Type 0 where
  pub accounts :
      (m v : Uuid)
      → sum_of (entering m v) db.ledger ≡ sum_of (leaving m v) db.ledger + physical m v db

IsReconciled-ensure_balance :
    (env : Env) (m v : Uuid) (db : Db) → IsReconciled db → IsReconciled (ensure_balance env m v db)
IsReconciled-ensure_balance env m v db h = record {
  accounts = λ m' v'. ground (
    arith,
    ensure_balance-others env m v db,
    physical-ensure_balance env m v db m' v',
    h.accounts m' v',
  );
}

module _ (env : Env) (m v : Uuid) (t : MovementType) (quantity : ℕ) (note : Option String)
    (key : Key) (hash : Hash) (now : Date) (db : Db) where
  abbrev command_of : ApplyMovementCommand
  command_of = movement_command v t quantity note key hash

  Moved-IsReconciled :
      (db₀ : Db) {entry : LedgerEntry} {db' : Db}
      → Moved env m command_of now db₀ entry db'
      → IsReconciled db₀
      → IsReconciled db'
  unfolding movement_command next_quantity entering leaving sum_of
  Moved-IsReconciled db₀ {entry} {db'} w h = record {
    accounts = λ m' v'. ground (
      arith,
      w.moved m' v',
      w.computed,
      w.appended,
      w.written,
      h.accounts m' v',
      sum_of-append (entering m' v') db₀.ledger (entry ∷ []),
      sum_of-append (leaving m' v') db₀.ledger (entry ∷ []),
    );
  }

  Applied-IsReconciled :
      {entry : LedgerEntry} {db' : Db}
      → Applied env m command_of now db entry db'
      → IsReconciled db
      → IsReconciled (env.waited db)
      → IsReconciled db'
  Applied-IsReconciled (replayed f e same) h k = subst IsReconciled (sym same) h
  Applied-IsReconciled (recovered f e same) h k = subst IsReconciled (sym same) k
  Applied-IsReconciled (replayed_after_wait f e same) h k =
      subst IsReconciled (sym same) (IsReconciled-ensure_balance env m _ (env.waited db) k)
  Applied-IsReconciled (written w) h k =
      Moved-IsReconciled _ w (IsReconciled-ensure_balance env m _ (env.waited db) k)

  -- Whatever movement is asked for, if the ledger accounts for every balance before and after the
  -- wait for the lock, it does at the end, whether the movement is written, replayed or refused.
  pub apply_movement-IsReconciled :
      IsReconciled db
      → IsReconciled (env.waited db)
      → IsReconciled (apply_movement env m command_of now db).1
  apply_movement-IsReconciled h k = elim (Outcome-cases (apply_movement env m command_of now db)) [
    | inl (entry, db', e) ↦
        rw e (Applied-IsReconciled (apply_movement-Applied env m command_of now db e) h k)
    | inr (x, db', e) ↦ elim (apply_movement_err env m command_of now db e) [
      | inl same ↦ rw (e, same) h
      | inr same ↦ rw (e, same) k
    ]
  ]
