-- ===== src/Inventory/Allocation/Maps.antt =====
-- What the maps of stock-hold-allocation.ts hold for each variant.
use tteeka.Prelude.{
  ℕ, ◌+◌, ◌≡◌, refl, false, List, [], ◌∷◌, map, ◌==◌, or_default, any, contains, if◌then◌else◌,
  arith,
}
use tteeka.Prelude.Assoc.{get, put, get-put}
use tteeka.Prelude.Table.{sum_of, sum_of_none}
use tteeka.Schema.{Db, Uuid, Date}
use tteeka.Inventory.Queries.{held, live_quantity, is_live_hold_of}
use tteeka.Inventory.Allocation.{StockHoldAllocation, requested_by_variant, held_by_variant}

-- The quantity that one allocation requests of a variant.
abbrev pub requests : Uuid → StockHoldAllocation → ℕ
requests v a = if v == a.variant_id then a.quantity else 0

abbrev pub requested : Uuid → List StockHoldAllocation → ℕ
requested v allocations = sum_of (requests v) allocations

pub get-requested_by_variant :
    (v : Uuid) (allocations : List StockHoldAllocation) (m : List (Uuid × ℕ))
    → or_default (get v (requested_by_variant allocations m)) 0
      ≡ or_default (get v m) 0 + requested v allocations
unfolding requested_by_variant sum_of
get-requested_by_variant v [] m = omega arith
get-requested_by_variant v (a ∷ rest) m = ground (
  arith,
  get-requested_by_variant v rest
      (put a.variant_id (or_default (get a.variant_id m) 0 + a.quantity) m),
  get-put v a.variant_id (or_default (get a.variant_id m) 0 + a.quantity) m,
)

-- A variant that no allocation names is requested 0 times.
pub requested_of_other :
    (v : Uuid) (allocations : List StockHoldAllocation)
    → contains v (map (λ (a : StockHoldAllocation). a.variant_id) allocations) ≡ false
    → requested v allocations ≡ 0
unfolding sum_of
requested_of_other v [] h = refl
requested_of_other v (a ∷ rest) h = ground (arith, requested_of_other v rest)

no_live_held :
    (m v : Uuid) (now : Date) (db : Db)
    → any (is_live_hold_of m v now) db.holds ≡ false
    → held m v now db ≡ 0
unfolding held
no_live_held m v now db h =
    sum_of_none (live_quantity m v now) (is_live_hold_of m v now) db.holds
      (λ a e. unfold live_quantity in ground arith) h

pub get-held_by_variant :
    (m v : Uuid) (now : Date) (ids : List Uuid) (db : Db)
    → or_default (get v (held_by_variant m now ids db)) 0
      ≡ (if contains v ids then held m v now db else 0)
unfolding held_by_variant get
get-held_by_variant m v now [] db = refl
get-held_by_variant m v now (x ∷ ids) db =
    ground
      (arith, no_live_held m v now db, no_live_held m x now db, get-held_by_variant m v now ids db)
