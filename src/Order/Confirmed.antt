-- ===== src/Order/Confirmed.antt =====
-- How a confirmation ends: proofs about `confirm` of Lifecycle.antt.
use tteeka.Prelude.{
  ◌≡◌, ◌≢◌, refl, true, false, some, List, [], inl, inr, Option-cases, Bool-cases, arith,
}
use tteeka.Prelude.Table.{
  find, update_first, find-update_first, find_holds, find-update_first_owner,
}
use tteeka.Schema.{Db, Uuid, Key, Date, Order, OrderItem, OrderStatus, Hold}
use tteeka.Store.{Env, ok, Outcome-cases}
use tteeka.Inventory.Allocation.{allocate_stock_holds}
use tteeka.Inventory.Allocation.Sellable.{Allocated, allocate_stock_holds-Allocated}
use tteeka.Order.Lifecycle.{
  Tokens, ConfirmOrderCommand, confirm, confirm_locked, confirm_by_status, confirm_draft,
  confirmed_order, allocations_of, items_of, find_order, is_order, save_order, is_empty,
  is_same_confirmation, has_confirmation_key, is_owned_by_other,
}

-- What confirming a draft has done: a hold is made for each of its items, and the order carries
-- the confirmation.
pub record ConfirmedDraft (tokens : Tokens) (m id : Uuid) (command : ConfirmOrderCommand)
    (current : Order) (db : Db) (o : Order) (db' : Db) : Type 0 where
  pub items : items_of m id db ≢ []
  pub holds : List Hold
  pub middle : Db
  pub allocated :
      Allocated m (allocations_of tokens command (items_of m id db)) command.now db holds middle
  pub order : o ≡ confirmed_order command current
  pub saved : db' ≡ save_order m id (confirmed_order command) middle

not_empty : (items : List OrderItem) → is_empty items ≡ false → items ≢ []
not_empty items h e = ground (arith, h, e)

confirm_draft-ConfirmedDraft :
    (env : Env) (tokens : Tokens) (m id : Uuid) (command : ConfirmOrderCommand) (current : Order)
    (db : Db) {o : Order} {db' : Db}
    → confirm_draft env tokens m id command current db ≡ (ok (some o), db')
    → ConfirmedDraft tokens m id command current db o db'
unfolding confirm_draft
confirm_draft-ConfirmedDraft env tokens m id command current db {o} {db'} e =
    let items = items_of m id db in
    elim (Bool-cases (is_empty items)) [
      | inl none_left ↦ absurd (ground (arith, none_left, e))
      | inr some_left ↦
          elim (Outcome-cases
            (allocate_stock_holds env m (allocations_of tokens command items) command.now db)) [
              | inr (x, db₁, refused) ↦ absurd (ground (arith, some_left, refused, e))
              | inl (hs, db₁, done) ↦ record {
                items = not_empty items some_left;
                holds = hs;
                middle = db₁;
                allocated =
                    allocate_stock_holds-Allocated env m (allocations_of tokens command items)
                      command.now db done;
                order = ground (arith, some_left, done, e);
                saved = ground (arith, some_left, done, e);
              }
            ]
    ]

-- The ways in which a confirmation returns an order.
pub data Confirmation (tokens : Tokens) (m id : Uuid) (command : ConfirmOrderCommand)
    (current : Order) (db : Db) (o : Order) (db' : Db) : Type 0 where
  repeated :
      current.status ≡ OrderStatus.confirmed
      → is_same_confirmation command current ≡ true
      → o ≡ current
      → db' ≡ db
      → Confirmation tokens m id command current db o db'
  drafted :
      current.status ≡ OrderStatus.draft
      → ConfirmedDraft tokens m id command current db o db'
      → Confirmation tokens m id command current db o db'

confirm_by_status-Confirmation :
    (env : Env) (tokens : Tokens) (m id : Uuid) (command : ConfirmOrderCommand) (current : Order)
    (status : OrderStatus) (db : Db) {o : Order} {db' : Db}
    → current.status ≡ status
    → confirm_by_status env tokens m id command current status db ≡ (ok (some o), db')
    → Confirmation tokens m id command current db o db'
unfolding confirm_by_status
confirm_by_status-Confirmation env tokens m id command current OrderStatus.draft db s e =
    drafted s (confirm_draft-ConfirmedDraft env tokens m id command current db e)
confirm_by_status-Confirmation env tokens m id command current OrderStatus.confirmed db {o} {db'} s
      e =
    repeated s (ground (arith, e)) (ground (arith, e)) (ground (arith, e))
confirm_by_status-Confirmation env tokens m id command current _ db {o} {db'} s e =
    absurd (ground (arith, e))

confirm_locked-Confirmation :
    (env : Env) (tokens : Tokens) (m id : Uuid) (command : ConfirmOrderCommand) (db : Db)
    {o : Order} {db' : Db}
    → confirm_locked env tokens m id command db ≡ (ok (some o), db')
    → (current : Order) × (find_order m id db ≡ some current)
      × (is_owned_by_other id (find (has_confirmation_key m command.idempotency_key) db.orders)
          ≡ false)
      × Confirmation tokens m id command current db o db'
unfolding confirm_locked
confirm_locked-Confirmation env tokens m id command db {o} {db'} e =
    elim (Option-cases (find_order m id db)) [
      | inl missing ↦ absurd (ground (arith, missing, e))
      | inr (current, f) ↦
          elim (Bool-cases (
            is_owned_by_other id
              (find (has_confirmation_key m command.idempotency_key) db.orders))) [
                | inl taken ↦ absurd (ground (arith, f, taken, e))
                | inr free ↦ (
                  current,
                  f,
                  free,
                  confirm_by_status-Confirmation env tokens m id command current current.status db
                      refl (ground (arith, f, free, e)),
                )
              ]
    ]

pub confirm-Confirmation :
    (env : Env) (tokens : Tokens) (m id : Uuid) (command : ConfirmOrderCommand) (db : Db)
    {o : Order} {db' : Db}
    → confirm env tokens m id command db ≡ (ok (some o), db')
    → (current : Order) × (find_order m id db ≡ some current)
      × (is_owned_by_other id (find (has_confirmation_key m command.idempotency_key) db.orders)
          ≡ false)
      × Confirmation tokens m id command current db o db'
unfolding confirm
confirm-Confirmation env tokens m id command db {o} {db'} e =
    elim (Outcome-cases (confirm_locked env tokens m id command db)) [
      | inl (r, db₁, done) ↦
          confirm_locked-Confirmation env tokens m id command db {o = o} {db' = db'}
            (ground (arith, done, e))
      | inr (x, db₁, refused) ↦ absurd (ground (arith, refused, e))
    ]

owner_is_order :
    (m id : Uuid) (k : Key) (orders : List Order)
    → is_owned_by_other id (find (has_confirmation_key m k) orders) ≡ false
    → (b : Order) → find (has_confirmation_key m k) orders ≡ some b
    → is_order m id b ≡ true
unfolding is_order has_confirmation_key
owner_is_order m id k orders free b e =
    ground (arith, free, e, find_holds (has_confirmation_key m k) orders e)

-- What a later request with the same key and content reads of a confirmed order.
confirm_recorded :
    (env : Env) (tokens : Tokens) (m id : Uuid) (command : ConfirmOrderCommand) (db : Db)
    {o : Order}
    → find_order m id db ≡ some o
    → o.status ≡ OrderStatus.confirmed
    → is_same_confirmation command o ≡ true
    → is_owned_by_other id (find (has_confirmation_key m command.idempotency_key) db.orders) ≡ false
    → confirm env tokens m id command db ≡ (ok (some o), db)
unfolding confirm confirm_locked
confirm_recorded env tokens m id command db {o} f s same free = ground (arith, f, s, same, free)

ConfirmedDraft-recorded :
    (tokens : Tokens) (m id : Uuid) (command : ConfirmOrderCommand) (current : Order) (db : Db)
    {o : Order} {db' : Db}
    → find_order m id db ≡ some current
    → is_owned_by_other id (find (has_confirmation_key m command.idempotency_key) db.orders) ≡ false
    → ConfirmedDraft tokens m id command current db o db'
    → (find_order m id db' ≡ some o)
      × (o.status ≡ OrderStatus.confirmed)
      × (is_same_confirmation command o ≡ true)
      × (is_owned_by_other id (find (has_confirmation_key m command.idempotency_key) db'.orders)
          ≡ false)
unfolding find_order save_order confirmed_order
ConfirmedDraft-recorded tokens m id command current db {o} {db'} f free w =
    let orders : db'.orders ≡ update_first (is_order m id) (confirmed_order command) db.orders =
      ground (arith, w.saved, w.allocated.others) in
    let mine : is_order m id (confirmed_order command current) ≡ true =
      unfold is_order in find_holds (is_order m id) db.orders f in
    let keyed : has_confirmation_key m command.idempotency_key (confirmed_order command current)
        ≡ true =
      unfold has_confirmation_key is_order in
      ground (arith, find_holds (is_order m id) db.orders f) in
    let same = w.order in
    (
      rw (orders, same)
          (find-update_first (is_order m id) (confirmed_order command) db.orders mine f),
      ground (arith, same),
      ground (arith, same),
      rw
          (
            orders,
            find-update_first_owner (has_confirmation_key m command.idempotency_key) (is_order m id)
                (confirmed_order command) db.orders
                (owner_is_order m id command.idempotency_key db.orders free) f keyed,
          )
          (unfold is_order in ground (arith, mine)),
    )

-- Once an order has been confirmed under a key, the same command given to the store again, with any
-- time, on the tables that the first left, returns the same order and changes nothing.
pub confirm_again :
    (env env' : Env) (tokens tokens' : Tokens) (m id : Uuid) (command : ConfirmOrderCommand)
    (later : Date) (db : Db) {o : Order} {db' : Db}
    → confirm env tokens m id command db ≡ (ok (some o), db')
    → confirm env' tokens' m id (record command { now = later }) db' ≡ (ok (some o), db')
confirm_again env env' tokens tokens' m id command later db {o} {db'} e =
    let (current, f, free, c) = confirm-Confirmation env tokens m id command db e in
    let (found, s, same, owned) = recorded current f free c in
    confirm_recorded env' tokens' m id (record command { now = later }) db' found s same owned
  where
    recorded :
        (current : Order)
        → find_order m id db ≡ some current
        → is_owned_by_other id (find (has_confirmation_key m command.idempotency_key) db.orders)
          ≡ false
        → Confirmation tokens m id command current db o db'
        → (find_order m id db' ≡ some o)
          × (o.status ≡ OrderStatus.confirmed)
          × (is_same_confirmation command o ≡ true)
          × (is_owned_by_other id (find (has_confirmation_key m command.idempotency_key) db'.orders)
              ≡ false)
    recorded current f free (repeated s same kept unchanged) =
        rw (kept, unchanged) (f, s, same, free)
    recorded current f free (drafted s w) =
        ConfirmedDraft-recorded tokens m id command current db f free w
