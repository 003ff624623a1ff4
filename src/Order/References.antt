-- ===== src/Order/References.antt =====
-- Orders refer to what their customer has: proofs about Drafts.antt.
use tteeka.Prelude.{
  Option, refl, ap, sym, ◌∙◌, not, ◌&&◌, if◌then◌else◌, ◌≡◌, ◌⊎◌, inl, inr, none, some, [], ◌∷◌,
  or_default, ◌==◌, false, Option-cases, Bool-cases, same_option, ==_iff, ◌++◌, arith,
}
use tteeka.Prelude.Table.{find, update_first, find-append_none, find_holds}
use tteeka.Schema.{Db, Uuid, Customer, Location, Order, OrderStatus}
use tteeka.Store.{Env, ok, Outcome-cases, is_unique_violation}
use tteeka.Order.Lifecycle.{find_order, is_order, save_order}
use tteeka.Order.Saved.{KeepsKey, find_order-saved, find_order-other}
use tteeka.Order.Drafts.{
  CreateOrderCommand, OrderPatchInput, create, is_order_key, find_order_key, find_active_customer,
  location_of, new_order, patch, snapshot_of, is_active_location, patched_order, target_location_id,
  is_customer_changed, patch_draft,
}

-- A request whose key is known answers with the order that has the key.
create_replays :
    (env : Env) (m : Uuid) (command : CreateOrderCommand) (db : Db) (o : Order)
    → find_order_key m command.idempotency_key db ≡ some o
    → o.request_hash ≡ command.request_hash
    → create env m command db ≡ (ok o, db)
unfolding create
create_replays env m command db o f same =
    ground (arith, f, same, ==_iff o.request_hash command.request_hash)

-- An order that is inserted is found by its key.
inserted-find_order_key :
    (env : Env) (m : Uuid) (command : CreateOrderCommand) (customer : Customer)
    (location : Option Location) (db : Db)
    → find_order_key m command.idempotency_key db ≡ none
    → let o = new_order env m command customer location db in
      find_order_key m command.idempotency_key (record db { orders = db.orders ++ o ∷ [] }) ≡ some o
unfolding find_order_key is_order_key find
inserted-find_order_key env m command customer location db new =
    find-append_none (is_order_key m command.idempotency_key) db.orders
      (new_order env m command customer location db ∷ []) new
    ∙ ground (arith, ==_iff m m, ==_iff command.idempotency_key command.idempotency_key)

-- What a creation answers is found by its key in the tables that it leaves.
create-find_order_key :
    (env : Env) (m : Uuid) (command : CreateOrderCommand) (db : Db) {o : Order} {db' : Db}
    → create env m command db ≡ (ok o, db')
    → (find_order_key m command.idempotency_key db' ≡ some o)
      × (o.request_hash ≡ command.request_hash)
unfolding create is_unique_violation
create-find_order_key env m command db {o} {db'} e =
    elim (Option-cases (find_order_key m command.idempotency_key db)) [
      | inr (old, f) ↦ ground (arith, f, e, ==_iff old.request_hash command.request_hash)
      | inl new ↦ elim (Option-cases (find_active_customer m command.customer_id db)) [
        | inl missing ↦ absurd (ground (arith, new, missing, e))
        | inr (customer, c) ↦
            let location = location_of m customer.id command.delivery_location_id db in
            elim (Option-cases (find_order_key m command.idempotency_key (env.waited db))) [
              | inr (other, g) ↦
                  ground (arith, new, c, g, e, ==_iff other.request_hash command.request_hash)
              | inl still_new ↦
                  let made = new_order env m command customer location (env.waited db) in
                  let after : Db = record (env.waited db) {
                    orders = (env.waited db).orders ++ made ∷ [];
                  } in
                  let same : made ≡ o = ground (arith, new, c, still_new, e) in
                  let same_db : after ≡ db' = ground (arith, new, c, still_new, e) in
                  rw (← same, ← same_db)
                    (
                      inserted-find_order_key env m command customer location (env.waited db)
                          still_new,
                      refl,
                    )
            ]
      ]
    ]

-- Once a creation has returned an order, the same request sent again on the tables that it left,
-- whatever is committed during its waits, returns that order and changes nothing.
pub create_order_again :
    (env env' : Env) (m : Uuid) (command : CreateOrderCommand) (db : Db) {o : Order} {db' : Db}
    → create env m command db ≡ (ok o, db')
    → create env' m command db' ≡ (ok o, db')
create_order_again env env' m command db {o} {db'} e =
    let (found, same) = create-find_order_key env m command db e in
    create_replays env' m command db' o found same

-- Where the order's copy of a location comes from: it has none, or it copies an active location
-- of the merchant that belongs to the order's own customer.
pub data Refers (m : Uuid) (db : Db) (o : Order) : Type 0 where
  to_none : o.delivery ≡ snapshot_of none → Refers m db o
  to_location :
      (l : Location)
      → find (is_active_location m o.customer_id l.id) db.locations ≡ some l
      → o.delivery ≡ snapshot_of (some l)
      → Refers m db o

location_of-Refers :
    (m : Uuid) (db : Db) (o : Order) (id : Option Uuid)
    → o.delivery ≡ snapshot_of (location_of m o.customer_id id db)
    → Refers m db o
unfolding location_of is_active_location
location_of-Refers m db o none e = to_none e
location_of-Refers m db o (some id) e =
    elim (Option-cases (find (is_active_location m o.customer_id id) db.locations)) [
      | inl missing ↦ to_none (ground (arith, missing, e))
      | inr (l, f) ↦
          to_location l
            (ground (arith, f, find_holds (is_active_location m o.customer_id id) db.locations f))
            (ground (arith, f, e))
    ]

patched_order-kept :
    (customer_id : Uuid) (c : Option Customer) (l : Option Location) (o : Order)
    → let o' = patched_order customer_id c l o in
      (o'.status ≡ o.status)
      × (o'.customer_id ≡ customer_id)
      × (o'.delivery ≡ snapshot_of l)
      × (o'.subtotal ≡ o.subtotal)
      × (o'.currency ≡ o.currency)
unfolding patched_order
patched_order-kept customer_id none l o = (refl, refl, refl, refl, refl)
patched_order-kept customer_id (some c) l o = (refl, refl, refl, refl, refl)

-- Whom a patch looks up: the new customer, if there is one.
abbrev customer_for : Uuid → OrderPatchInput → Order → Db → Option Customer
customer_for m input current db =
    if is_customer_changed input current
    then find_active_customer m (or_default input.customer_id current.customer_id) db
    else none

abbrev location_for : Uuid → OrderPatchInput → Order → Db → Option Location
location_for m input current db =
    location_of m (or_default input.customer_id current.customer_id)
      (target_location_id input current) db

-- What a patch makes of an order.
abbrev patched : Uuid → OrderPatchInput → Order → Db → Order → Order
patched m input current db =
    patched_order (or_default input.customer_id current.customer_id)
      (customer_for m input current db) (location_for m input current db)

patched_order-KeepsKey :
    (customer_id : Uuid) (c : Option Customer) (l : Option Location)
    → KeepsKey (patched_order customer_id c l)
unfolding patched_order
patched_order-KeepsKey customer_id none l = record { merchant_id = λ o. refl; id = λ o. refl }
patched_order-KeepsKey customer_id (some c) l = record { merchant_id = λ o. refl; id = λ o. refl }

patch_draft-cases :
    (m id : Uuid) (input : OrderPatchInput) (current : Order) (db : Db) {o : Order} {db' : Db}
    → patch_draft m id input current db ≡ (ok (some o), db')
    → ((o ≡ current) × (db' ≡ db))
      ⊎ ((o ≡ patched m input current db current)
          × (db'.orders ≡ update_first (is_order m id) (patched m input current db) db.orders))
unfolding patch_draft save_order
patch_draft-cases m id input current db {o} {db'} e =
    elim (Bool-cases (
      not (is_customer_changed input current)
      && same_option (target_location_id input current) current.delivery.location_id)) [
        | inl same ↦ inl (ground (arith, same, e))
        | inr changed ↦ inr (ground (arith, changed, e), ground (arith, changed, e))
      ]

patch-draft :
    (m id : Uuid) (input : OrderPatchInput) (db : Db) {o : Order} {db' : Db}
    → patch m id input db ≡ (ok (some o), db')
    → (current : Order) × (find_order m id db ≡ some current)
      × (current.status ≡ OrderStatus.draft)
      × (patch_draft m id input current db ≡ (ok (some o), db'))
unfolding patch
patch-draft m id input db {o} {db'} e = elim (Option-cases (find_order m id db)) [
  | inl missing ↦ absurd (ground (arith, missing, e))
  | inr (current, f) ↦ elim (Outcome-cases (patch_draft m id input current db)) [
    | inl (r, db₁, done) ↦ (current, f, ground (arith, f, e), ground (arith, f, done, e))
    | inr (x, db₁, refused) ↦ absurd (ground (arith, f, refused, e))
  ]
]

-- A patch that returns an order found a draft; the tables then have the returned order, and every
-- other order as before. It keeps its state, its subtotal and its currency. Either nothing changes,
-- or the order has then no location, or one that is active, of the merchant, and of the customer
-- that the order has after the patch.
pub patch-Refers :
    (m id : Uuid) (input : OrderPatchInput) (db : Db) {o : Order} {db' : Db}
    → patch m id input db ≡ (ok (some o), db')
    → (find_order m id db' ≡ some o)
      × ((m' id' : Uuid)
          → (m' == m && id' == id) ≡ false
          → find_order m' id' db' ≡ find_order m' id' db)
      × ((current : Order) × (find_order m id db ≡ some current)
          × (o.status ≡ OrderStatus.draft)
          × (o.subtotal ≡ current.subtotal)
          × (o.currency ≡ current.currency)
          × (((o ≡ current) × (db' ≡ db)) ⊎ Refers m db o))
patch-Refers m id input db {o} {db'} e =
    let (current, f, draft, run) = patch-draft m id input db e in
    elim (patch_draft-cases m id input current db run) [
      | inl (same, left) ↦ (
        rw (left, same) f,
        λ m' id' other. rw left refl,
        (
          current,
          f,
          ground (arith, same, draft),
          ground (arith, same),
          ground (arith, same),
          inl (same, left),
        ),
      )
      | inr (made, orders) ↦
          let customer_id = or_default input.customer_id current.customer_id in
          let customer = customer_for m input current db in
          let location = location_for m input current db in
          let keeps = patched_order-KeepsKey customer_id customer location in
          let kept = patched_order-kept customer_id customer location current in
          (
            find_order-saved (patched m input current db) m id db db' keeps orders f
                ∙ ap some (sym made),
            find_order-other (patched m input current db) m id db db' keeps orders,
            (
              current,
              f,
              ap (λ (x : Order). x.status) made ∙ kept.0 ∙ draft,
              ap (λ (x : Order). x.subtotal) made ∙ kept.3,
              ap (λ (x : Order). x.currency) made ∙ kept.4,
              inr (
                  location_of-Refers m db o (target_location_id input current) (
                    ap (λ (x : Order). x.delivery) made
                    ∙ kept.2
                    ∙ ap (λ c. snapshot_of (location_of m c (target_location_id input current) db))
                        (sym (ap (λ (x : Order). x.customer_id) made ∙ kept.1)))),
            ),
          )
    ]
