-- ===== src/Order/Stocked.antt =====
-- A confirmation holds the stock of its items: proofs about `confirm` of Lifecycle.antt.
use tteeka.Prelude.{
  inl, inr, ltb, ◌⊎◌, Bool-cases, ℕ, ◌+◌, ◌≤◌, ◌<◌, ◌≡◌, refl, sym, subst, ◌∙◌, some, List, [], ◌∷◌,
  ◌==◌, if◌then◌else◌, arith,
}
use tteeka.Prelude.Table.{sum_of}
use tteeka.Schema.{Db, Uuid, Date, Order, OrderItem, OrderStatus}
use tteeka.Store.{Env, ok}
use tteeka.Inventory.Queries.{held, physical}
use tteeka.Inventory.Stock.{IsStocked, held-holds, physical-balances}
use tteeka.Inventory.Holds.Stocked.{Allocated-IsStocked}
use tteeka.Inventory.Allocation.Maps.{requested}
use tteeka.Inventory.Allocation.Sellable.{live_requests}
use tteeka.Order.Lifecycle.{
  Tokens, ConfirmOrderCommand, confirm, find_order, items_of, save_order, allocations_of,
  confirmed_order,
}
use tteeka.Order.Confirmed.{Confirmation, ConfirmedDraft, repeated, drafted, confirm-Confirmation}

module _ (tokens : Tokens) (m id : Uuid) (command : ConfirmOrderCommand) (current : Order) (db : Db)
    {o : Order} {db' : Db} (w : ConfirmedDraft tokens m id command current db o db') where
  held-confirmed : (m' v : Uuid) (t : Date) → held m' v t db' ≡ held m' v t w.middle
  unfolding save_order
  held-confirmed m' v t = held-holds m' v t w.middle db' (ground (arith, w.saved))

  physical-confirmed : (m' v : Uuid) → physical m' v db' ≡ physical m' v w.middle
  unfolding save_order
  physical-confirmed m' v = physical-balances m' v w.middle db' (ground (arith, w.saved))

Confirmation-IsStocked :
    (tokens : Tokens) (m id : Uuid) (command : ConfirmOrderCommand) (current : Order) (db : Db)
    {o : Order} {db' : Db}
    → Confirmation tokens m id command current db o db'
    → IsStocked command.now db
    → IsStocked command.now db'
Confirmation-IsStocked tokens m id command current db (repeated s same kept unchanged) h =
    subst (IsStocked command.now) (sym unchanged) h
Confirmation-IsStocked tokens m id command current db (drafted s w) h = λ m' v. omega (
  arith,
  held-confirmed tokens m id command current db w m' v command.now,
  physical-confirmed tokens m id command current db w m' v,
  Allocated-IsStocked m _ command.now db w.allocated h m' v,
)

-- A confirmation that returns an order keeps the stock above what is held.
pub confirm-IsStocked :
    (env : Env) (tokens : Tokens) (m id : Uuid) (command : ConfirmOrderCommand) (db : Db)
    {o : Order} {db' : Db}
    → confirm env tokens m id command db ≡ (ok (some o), db')
    → IsStocked command.now db
    → IsStocked command.now db'
confirm-IsStocked env tokens m id command db e h =
    let (current, f, free, c) = confirm-Confirmation env tokens m id command db e in
    Confirmation-IsStocked tokens m id command current db c h

-- What the items of an order ask of a variant.
unfoldable pub ordered : Uuid → List OrderItem → ℕ
ordered v [] = 0
ordered v (i ∷ items) = (if v == i.variant_id then i.quantity else 0) + ordered v items

pub requested-ordered :
    (tokens : Tokens) (command : ConfirmOrderCommand) (v : Uuid) (items : List OrderItem)
    → requested v (allocations_of tokens command items) ≡ ordered v items
unfolding ordered sum_of
requested-ordered tokens command v [] = refl
requested-ordered tokens command v (i ∷ items) =
    ground (arith, requested-ordered tokens command v items)

live-ordered :
    (tokens : Tokens) (command : ConfirmOrderCommand) (v : Uuid) (items : List OrderItem)
    → command.now < command.expires_at_date
    → sum_of (live_requests v command.now) (allocations_of tokens command items) ≡ ordered v items
unfolding ordered sum_of
live-ordered tokens command v [] h = refl
live-ordered tokens command v (i ∷ items) h = ground (arith, live-ordered tokens command v items h)

-- A draft that is confirmed with an expiry in the future is CONFIRMED, and of each variant exactly
-- what its items ask for is held in addition, for its merchant and no other; if it
-- asks for any of a variant, all that is then held of that variant was on the shelf.
pub confirm_reserves :
    (env : Env) (tokens : Tokens) (m id : Uuid) (command : ConfirmOrderCommand) (db : Db)
    {current o : Order} {db' : Db}
    → confirm env tokens m id command db ≡ (ok (some o), db')
    → find_order m id db ≡ some current
    → current.status ≡ OrderStatus.draft
    → command.now < command.expires_at_date
    → (o.status ≡ OrderStatus.confirmed)
      × ((m' v : Uuid)
          → held m' v command.now db'
            ≡ held m' v command.now db + (if m' == m then ordered v (items_of m id db) else 0))
      × ((v : Uuid)
          → (ordered v (items_of m id db) ≡ 0)
            ⊎ (held m v command.now db + ordered v (items_of m id db) ≤ physical m v db))
unfolding confirmed_order
confirm_reserves env tokens m id command db {current} {o} {db'} e f draft later =
    let (found, f', free, c) = confirm-Confirmation env tokens m id command db e in
    reserved found (ground (arith, f', f)) c
  where
    reserved :
        (found : Order)
        → found ≡ current
        → Confirmation tokens m id command found db o db'
        → (o.status ≡ OrderStatus.confirmed)
          × ((m' v : Uuid)
              → held m' v command.now db'
                ≡ held m' v command.now db + (if m' == m then ordered v (items_of m id db) else 0))
          × ((v : Uuid)
              → (ordered v (items_of m id db) ≡ 0)
                ⊎ (held m v command.now db + ordered v (items_of m id db) ≤ physical m v db))
    reserved found same (repeated s kept o' unchanged) = absurd (ground (arith, s, same, draft))
    reserved found same (drafted s w) =
        let within : (v : Uuid)
            → 0 < ordered v (items_of m id db)
            → held m v command.now db + ordered v (items_of m id db) ≤ physical m v db =
          λ v pos.
            let asked = requested-ordered tokens command v (items_of m id db) in
            omega (arith, asked, w.allocated.fits v (omega (arith, asked, pos))) in
        (
          ground (arith, w.order),
          λ m' v.
              held-confirmed tokens m id command found db w m' v command.now
              ∙ w.allocated.holds_more m' v
              ∙ rw (live-ordered tokens command v (items_of m id db) later),
          λ v. elim (Bool-cases (ltb 0 (ordered v (items_of m id db)))) [
            | inl pos ↦ inr (within v (ground (arith, pos)))
            | inr zero ↦ inl (ground (arith, zero))
          ],
        )
