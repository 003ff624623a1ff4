-- ===== src/Order/Saved.antt =====
-- What is found of an order once it is saved: lemmas on `save_order` of Lifecycle.antt.
use tteeka.Prelude.{◌≡◌, refl, ◌∙◌, true, false, some, ◌==◌, ◌&&◌, ==_iff, arith}
use tteeka.Prelude.Table.{update_first, find_holds, find-update_first, find-update_first_other}
use tteeka.Schema.{Db, Uuid, Order}
use tteeka.Order.Lifecycle.{find_order, is_order}

-- The order stays the one that its merchant and its identifier name.
pub record KeepsKey (f : Order → Order) : Type 0 where
  pub merchant_id : (o : Order) → (f o).merchant_id ≡ o.merchant_id
  pub id : (o : Order) → (f o).id ≡ o.id

is_order-kept :
    (f : Order → Order) (m id : Uuid) (o : Order)
    → KeepsKey f
    → is_order m id (f o) ≡ is_order m id o
unfolding is_order
is_order-kept f m id o k = rw (k.merchant_id o, k.id o) refl

is_order-other :
    (m id m' id' : Uuid) (o : Order)
    → (m' == m && id' == id) ≡ false
    → is_order m id o ≡ true
    → is_order m' id' o ≡ false
unfolding is_order
is_order-other m id m' id' o other e = ground (
  arith,
  other,
  e,
  ==_iff m' m,
  ==_iff id' id,
  ==_iff o.merchant_id m',
  ==_iff o.merchant_id m,
  ==_iff o.id id',
  ==_iff o.id id,
)

module _ (f : Order → Order) (m id : Uuid) (db db' : Db) (k : KeepsKey f)
    (saved : db'.orders ≡ update_first (is_order m id) f db.orders) where
  pub find_order-saved :
      {o : Order} → find_order m id db ≡ some o → find_order m id db' ≡ some (f o)
  unfolding find_order
  find_order-saved {o} e = rw saved (
      find-update_first (is_order m id) f db.orders
        (is_order-kept f m id o k ∙ find_holds (is_order m id) db.orders e) e)

  pub find_order-other :
      (m' id' : Uuid)
      → (m' == m && id' == id) ≡ false
      → find_order m' id' db' ≡ find_order m' id' db
  unfolding find_order
  find_order-other m' id' other = rw saved (
      find-update_first_other (is_order m' id') (is_order m id) f db.orders (λ a e.
        let no = is_order-other m id m' id' a other e in (no, is_order-kept f m' id' a k ∙ no)))
