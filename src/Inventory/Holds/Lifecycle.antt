-- ===== src/Inventory/Holds/Lifecycle.antt =====
-- What becomes of a hold: proofs about `releaseStockHold` and `updateStockHoldExpiry` of Holds.antt.
use tteeka.Prelude.{◌+◌, ◌<◌, ◌≡◌, refl, true, false, some, arith, Option-cases, inl, inr}
use tteeka.Prelude.Table.{find, sum_of-update_first, find_holds, find-update_first}
use tteeka.Schema.{Db, Uuid, Date, Hold}
use tteeka.Store.{ok}
use tteeka.Inventory.Queries.{held, physical, live_quantity, is_active}
use tteeka.Inventory.Stock.{IsStocked, physical-balances}
use tteeka.Inventory.Holds.{
  release_stock_hold, update_stock_hold_expiry, is_hold, expire, release, update_hold,
}

-- After a call on a hold that the variant has and no order manages, the hold is no longer active,
-- and a second call at any time gives the same hold and changes nothing.
pub release_stock_hold_final :
    (m v id : Uuid) (now later : Date) (db : Db) {h : Hold} {db' : Db}
    → release_stock_hold m v id now db ≡ (ok (some h), db')
    → (is_active h.status ≡ false) × (release_stock_hold m v id later db' ≡ (ok (some h), db'))
unfolding release_stock_hold is_hold
release_stock_hold_final m v id now later db {h} {db'} e =
    elim (Option-cases (find (is_hold m v id) db.holds)) [
      | inl missing ↦ absurd (ground (arith, missing, e))
      | inr (hold, f) ↦ ground (
        arith,
        f,
        e,
        find_holds (is_hold m v id) db.holds f,
        find-update_first (is_hold m v id) expire db.holds {a = hold},
        find-update_first (is_hold m v id) (release now) db.holds {a = hold},
      )
    ]

module _ (m v id : Uuid) (f : Hold → Hold) (db : Db) {hold : Hold}
    (found : find (is_hold m v id) db.holds ≡ some hold) where
  held-update_hold :
      (m' v' : Uuid) (t : Date)
      → held m' v' t (update_hold m v id f db) + live_quantity m' v' t hold
        ≡ held m' v' t db + live_quantity m' v' t (f hold)
  unfolding held update_hold
  held-update_hold m' v' t =
      sum_of-update_first (live_quantity m' v' t) (is_hold m v id) f db.holds found

  physical-update_hold :
      (m' v' : Uuid) → physical m' v' (update_hold m v id f db) ≡ physical m' v' db
  unfolding update_hold
  physical-update_hold m' v' = physical-balances m' v' db _ refl

-- Releasing a hold makes no stock look held: at any moment the stock still covers the live holds,
-- whichever branch is taken.
pub release_stock_hold-IsStocked :
    (m v id : Uuid) (now t : Date) (db : Db)
    → IsStocked t db
    → IsStocked t (release_stock_hold m v id now db).1
unfolding release_stock_hold live_quantity
release_stock_hold-IsStocked m v id now t db h m' v' =
    elim (Option-cases (find (is_hold m v id) db.holds)) [
      | inl missing ↦ ground (arith, missing, h m' v')
      | inr (hold, f) ↦ ground (
        arith,
        f,
        h m' v',
        held-update_hold m v id expire db f m' v' t,
        held-update_hold m v id (release now) db f m' v' t,
        physical-update_hold m v id expire db f m' v',
        physical-update_hold m v id (release now) db f m' v',
      )
    ]

-- A new expiry in the future moves the end of an active hold and nothing else: what is held of
-- every variant at the time of the call stays as it was.
pub update_stock_hold_expiry-held :
    (m v id : Uuid) (expires_at now : Date) (db : Db) {h : Hold} {db' : Db}
    → now < expires_at
    → update_stock_hold_expiry m v id expires_at now db ≡ (ok (some h), db')
    → (h.expires_at ≡ expires_at)
      × (is_active h.status ≡ true)
      × ((m' v' : Uuid) → held m' v' now db' ≡ held m' v' now db)
unfolding update_stock_hold_expiry live_quantity
update_stock_hold_expiry-held m v id expires_at now db {h} {db'} later e =
    let move = λ (k : Hold). record k { expires_at = expires_at } in
    elim (Option-cases (find (is_hold m v id) db.holds)) [
      | inl missing ↦ absurd (ground (arith, missing, e))
      | inr (hold, f) ↦ (
        ground (arith, f, e),
        ground (arith, f, e),
        λ m' v'. ground (arith, f, e, held-update_hold m v id move db f m' v' now),
      )
    ]
