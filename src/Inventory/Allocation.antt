-- ===== src/Inventory/Allocation.antt =====
-- apps/api/src/inventory/stock-hold-allocation.ts: the rows of the balances are locked, the
-- requests are compared with what can still be sold, and the holds are created.
pub mod Order
pub mod Maps
pub mod Locks
pub mod Created
pub mod Sellable
use tteeka.Prelude.{
  ℕ, ◌+◌, Bool, Option, none, some, List, [], ◌∷◌, ◌++◌, map, ltb, leb, ◌==◌, is_some, or_default,
  any, contains, if◌then◌else◌,
}
use tteeka.Prelude.Assoc.{get, put}
use tteeka.Schema.{Db, Uuid, Key, Hash, Date, Hold, HoldStatus}
use tteeka.Store.{
  Env, Store, pure, raise, gets, modify, or_raise, raise_if, unique_violation, idempotency_key,
  balance_missing, insufficient_sellable_inventory, ◌>>=◌, ◌>>◌,
}
use tteeka.Inventory.Queries.{find_balance, ensure_balance, held, is_live_hold_of, find_hold_key}

pub record StockHoldAllocation : Type 0 where
  pub variant_id : Uuid
  pub order_item_id : Option Uuid
  pub quantity : ℕ
  pub expires_at : Date
  pub idempotency_key : Key
  pub request_hash : Hash

-- `[...new Set(ids)]`; the order is lost in the sort that follows.
unfoldable pub distinct : List ℕ → List ℕ
distinct [] = []
distinct (x ∷ xs) = let rest = distinct xs in if contains x rest then rest else x ∷ rest

unfoldable pub insert_sorted : ℕ → List ℕ → List ℕ
insert_sorted a [] = a ∷ []
insert_sorted a (x ∷ xs) = let rest = insert_sorted a xs in if leb a x then a ∷ x ∷ xs else x ∷ rest

-- `.sort((left, right) => left.localeCompare(right))`
unfoldable pub sort : List ℕ → List ℕ
unfolding insert_sorted
sort [] = []
sort (x ∷ xs) = insert_sorted x (sort xs)

unfoldable pub lock_order : List ℕ → List ℕ
unfolding distinct sort
lock_order ids = sort (distinct ids)

-- The loop of lockAvailableInventoryBalancesInTransaction.
unfoldable pub lock_each : Env → Uuid → List Uuid → List (Uuid × ℕ) → Store (List (Uuid × ℕ))
unfolding put
lock_each env m [] physical_by_variant = pure physical_by_variant
lock_each env m (v ∷ vs) physical_by_variant = do
  modify (ensure_balance env m v)
  balance ← gets (find_balance m v)
  row ← or_raise balance balance_missing
  lock_each env m vs (put v row.quantity physical_by_variant)

unfoldable pub lock_available_balances : Env → Uuid → List Uuid → Store (List (Uuid × ℕ))
unfolding lock_each
lock_available_balances env m ids = lock_each env m (lock_order ids) []

-- `groupBy({ by: ['variantId'], … })`: a group for each variant that has a row.
unfoldable pub held_by_variant : Uuid → Date → List Uuid → Db → List (Uuid × ℕ)
held_by_variant m now [] db = []
held_by_variant m now (v ∷ vs) db =
    let rest = held_by_variant m now vs db in
    if any (is_live_hold_of m v now) db.holds then (v, held m v now db) ∷ rest else rest

-- The loop that adds up what is requested of each variant.
unfoldable pub requested_by_variant : List StockHoldAllocation → List (Uuid × ℕ) → List (Uuid × ℕ)
requested_by_variant [] requested = requested
requested_by_variant (a ∷ rest) requested =
    requested_by_variant rest
      (put a.variant_id (or_default (get a.variant_id requested) 0 + a.quantity) requested)

-- `requested > physical - held` over BigInt, whose difference may be negative.
unfoldable pub exceeds_sellable : List (Uuid × ℕ) → List (Uuid × ℕ) → List (Uuid × ℕ) → Uuid → Bool
exceeds_sellable physical_by_variant held_by requested v =
    ltb (or_default (get v physical_by_variant) 0)
      (or_default (get v requested) 0 + or_default (get v held_by) 0)

abbrev pub new_hold : Env → Uuid → StockHoldAllocation → Db → Hold
new_hold env m a db = record {
  id = env.fresh_id db;
  merchant_id = m;
  variant_id = a.variant_id;
  order_item_id = a.order_item_id;
  quantity = a.quantity;
  status = HoldStatus.active;
  expires_at = a.expires_at;
  released_at = none;
  expired_at = none;
  idempotency_key = a.idempotency_key;
  request_hash = a.request_hash;
  created_at = env.db_now db;
}

-- `transaction.stockHold.create`, which the unique (merchant, key) may refuse
unfoldable pub create_hold : Env → Uuid → StockHoldAllocation → Store Hold
create_hold env m a db =
    (if is_some (find_hold_key m a.idempotency_key db)
        then raise (unique_violation idempotency_key)
        else do
          let hold = new_hold env m a db
          modify (λ t. record t { holds = t.holds ++ hold ∷ [] })
          pure hold)
      db

unfoldable pub create_holds : Env → Uuid → List StockHoldAllocation → Store (List Hold)
create_holds env m [] = pure []
create_holds env m (a ∷ rest) = do
  hold ← create_hold env m a
  created ← create_holds env m rest
  pure (hold ∷ created)

-- allocateStockHoldsInTransaction
unfoldable pub allocate_stock_holds :
    Env → Uuid → List StockHoldAllocation → Date → Store (List Hold)
unfolding exceeds_sellable
allocate_stock_holds env m allocations now = do
  let ids = lock_order (map (λ (a : StockHoldAllocation). a.variant_id) allocations)
  physical_by_variant ← lock_available_balances env m ids
  held_by ← gets (held_by_variant m now ids)
  let requested = requested_by_variant allocations []
  raise_if (any (exceeds_sellable physical_by_variant held_by requested) ids)
      insufficient_sellable_inventory
  create_holds env m allocations
