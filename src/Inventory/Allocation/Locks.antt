-- ===== src/Inventory/Allocation/Locks.antt =====
-- What stock-hold-allocation.ts reads from the balances that it locks.
use tteeka.Prelude.{
  ℕ, ◌≡◌, refl, some, List, [], ◌∷◌, contains, Option-cases, inl, inr, if◌then◌else◌, arith,
}
use tteeka.Prelude.Assoc.{get, put, get-put}
use tteeka.Prelude.Table.{find, find-append_none, find-append_some}
use tteeka.Schema.{Db, Uuid, Balance}
use tteeka.Store.{Env, ok}
use tteeka.Inventory.Queries.{physical, ensure_balance, find_balance, is_balance}
use tteeka.Inventory.Allocation.{lock_order, lock_each, lock_available_balances}
use tteeka.Inventory.Stock.{physical-find_balance}

abbrev empty_balance : Env → Uuid → Uuid → Db → Balance
empty_balance env m v db = record {
  merchant_id = m;
  variant_id = v;
  quantity = 0;
  updated_at = env.db_now db;
}

module _ (env : Env) (m v : Uuid) (db : Db) where
  pub physical-ensure_balance :
      (m' v' : Uuid) → physical m' v' (ensure_balance env m v db) ≡ physical m' v' db
  unfolding physical find_balance ensure_balance find
  physical-ensure_balance m' v' = elim (Option-cases (find (is_balance m' v') db.balances)) [
    | inl e ↦
        ground
          (arith, find-append_none (is_balance m' v') db.balances (empty_balance env m v db ∷ []) e)
    | inr (b, e) ↦
        ground
          (arith, find-append_some (is_balance m' v') db.balances (empty_balance env m v db ∷ []) e)
  ]

  pub ensure_balance-others :
      ensure_balance env m v db ≡ record db { balances = (ensure_balance env m v db).balances }
  unfolding ensure_balance
  ensure_balance-others = ground arith

  pub find_balance-ensure_balance :
      (b : Balance) × (find_balance m v (ensure_balance env m v db) ≡ some b)
  unfolding ensure_balance find_balance find is_balance
  find_balance-ensure_balance = elim (Option-cases (find (is_balance m v) db.balances)) [
    | inl e ↦ (
      empty_balance env m v db,
      ground
          (arith, find-append_none (is_balance m v) db.balances (empty_balance env m v db ∷ []) e),
    )
    | inr (b, e) ↦ (b, ground arith)
  ]

-- How a call of `lock_each` ends: the map that it returns and the tables that it leaves.
pub record Locked (env : Env) (m : Uuid) (ids : List Uuid) (map' : List (Uuid × ℕ)) (db : Db)
    : Type 0 where
  pub found : List (Uuid × ℕ)
  pub after : Db
  pub returns : lock_each env m ids map' db ≡ (ok found, after)
  pub finds :
      (v : Uuid) → get v found ≡ (if contains v ids then some (physical m v db) else get v map')
  pub same_physical : (m' v : Uuid) → physical m' v after ≡ physical m' v db
  pub others : after ≡ record db { balances = after.balances }

pub lock_each-Locked :
    (env : Env) (m : Uuid) (ids : List Uuid) (map' : List (Uuid × ℕ)) (db : Db)
    → Locked env m ids map' db
unfolding lock_each
lock_each-Locked env m [] map' db = record {
  found = map';
  after = db;
  returns = refl;
  finds = λ v. refl;
  same_physical = λ m' v. refl;
  others = refl;
}
lock_each-Locked env m (x ∷ ids) map' db =
    let db₁ = ensure_balance env m x db in
    let (b, e) = find_balance-ensure_balance env m x db in
    let rest = lock_each-Locked env m ids (put x b.quantity map') db₁ in
    record {
      found = rest.found;
      after = rest.after;
      returns = ground (arith, e, rest.returns);
      finds = λ v. ground (
        arith,
        rest.finds v,
        get-put v x b.quantity map',
        physical-find_balance m x db₁ b e,
        physical-ensure_balance env m x db m x,
        physical-ensure_balance env m x db m v,
      );
      same_physical =
          λ m' v. ground (arith, rest.same_physical m' v, physical-ensure_balance env m x db m' v);
      others = ground (arith, rest.others, ensure_balance-others env m x db);
    }

-- Locking the balances makes missing rows and changes no quantity.
pub lock_available_balances_lem :
    (env : Env) (m : Uuid) (ids : List Uuid) (db : Db)
    → (found : List (Uuid × ℕ)) × (after : Db) × (lock_available_balances env m ids db
        ≡ (ok found, after))
      × ((m' v : Uuid) → physical m' v after ≡ physical m' v db)
      × (after ≡ record db { balances = after.balances })
unfolding lock_available_balances
lock_available_balances_lem env m ids db =
    let locked = lock_each-Locked env m (lock_order ids) [] db in
    (locked.found, locked.after, locked.returns, locked.same_physical, locked.others)
