-- ===== src/Order/Cancelled.antt =====
-- Cancelling gives back the stock: proofs about `transition` of Lifecycle.antt.
use tteeka.Prelude.{
  ℕ, ◌≤◌, ◌≡◌, refl, sym, ap, subst, ◌∙◌, true, false, not, Bool, some, List, [], ◌∷◌, ◌&&◌, ◌⊎◌,
  ◌==◌, inl, inr, any, Option-cases, Bool-cases, if◌then◌else◌, arith,
}
use tteeka.Prelude.Table.{update_where, update_first, sum_of}
use tteeka.Schema.{Db, Uuid, Date, Order, OrderItem, OrderStatus, Hold}
use tteeka.Store.{ok, Outcome-cases}
use tteeka.Inventory.Queries.{held, physical, live_quantity, is_active}
use tteeka.Inventory.Stock.{physical-balances}
use tteeka.Order.Lifecycle.{
  OrderTarget, target_status, transition, closed_order, end_holds, end_hold, is_hold_of_order,
  find_order, save_order, is_at, is_draft, cancels_confirmed, close_order, is_order,
}
use tteeka.Order.Saved.{KeepsKey, find_order-saved, find_order-other}

-- The moves of an order that the API makes.
pub data Step : OrderStatus → OrderStatus → Type 0 where
  confirmed : Step OrderStatus.draft OrderStatus.confirmed
  abandoned : Step OrderStatus.draft OrderStatus.abandoned
  cancelled : Step OrderStatus.draft OrderStatus.cancelled
  cancelled_later : Step OrderStatus.confirmed OrderStatus.cancelled

Step-closing :
    (target : OrderTarget) (s : OrderStatus)
    → (not (is_draft s) && not (cancels_confirmed target s)) ≡ false
    → Step s (target_status target)
Step-closing OrderTarget.abandoned OrderStatus.draft h = abandoned
Step-closing OrderTarget.cancelled OrderStatus.draft h = cancelled
Step-closing OrderTarget.cancelled OrderStatus.confirmed h = cancelled_later
Step-closing _ _ h = absurd (ground (arith, h))

is_at-eq :
    (target : OrderTarget) (s : OrderStatus) → is_at target s ≡ true → s ≡ target_status target
is_at-eq OrderTarget.abandoned s h = ground (arith, h)
is_at-eq OrderTarget.cancelled s h = ground (arith, h)

status-closed_order :
    (target : OrderTarget) (now : Date) (o : Order)
    → (closed_order target now o).status ≡ target_status target
unfolding closed_order
status-closed_order OrderTarget.abandoned now o = refl
status-closed_order OrderTarget.cancelled now o = refl

closed_order-KeepsKey : (target : OrderTarget) (now : Date) → KeepsKey (closed_order target now)
unfolding closed_order
closed_order-KeepsKey OrderTarget.abandoned now = record { merchant_id = λ o. refl; id = λ o. refl }
closed_order-KeepsKey OrderTarget.cancelled now = record { merchant_id = λ o. refl; id = λ o. refl }

-- What is written where the guard allows the target.
close_order-saved :
    (m id : Uuid) (target : OrderTarget) (now : Date) (current : Order) (db : Db) {o : Order}
    {db' : Db}
    → is_at target current.status ≡ false
    → (not (is_draft current.status) && not (cancels_confirmed target current.status)) ≡ false
    → close_order m id target now current db ≡ (ok (some o), db')
    → (o ≡ closed_order target now current)
      × (db'.orders ≡ update_first (is_order m id) (closed_order target now) db.orders)
unfolding close_order save_order end_holds
close_order-saved m id target now current db {o} {db'} away allowed e =
    elim (Bool-cases (cancels_confirmed target current.status)) [
      | inl ends ↦ (ground (arith, away, allowed, ends, e), ground (arith, away, allowed, ends, e))
      | inr keeps ↦
          (ground (arith, away, allowed, keeps, e), ground (arith, away, allowed, keeps, e))
    ]

-- A transition that returns an order found it, and the tables then have the returned order at the
-- target, and every other order as before: it was at the target and nothing changes, or its state
-- makes an allowed step.
pub order_transition-Step :
    (m id : Uuid) (target : OrderTarget) (now : Date) (db : Db) {o : Order} {db' : Db}
    → transition m id target now db ≡ (ok (some o), db')
    → (o.status ≡ target_status target)
      × (find_order m id db' ≡ some o)
      × ((m' id' : Uuid)
          → (m' == m && id' == id) ≡ false
          → find_order m' id' db' ≡ find_order m' id' db)
      × ((current : Order) × (find_order m id db ≡ some current)
          × (((o ≡ current) × (db' ≡ db)) ⊎ Step current.status o.status))
unfolding transition
order_transition-Step m id target now db {o} {db'} e = elim (Option-cases (find_order m id db)) [
  | inl missing ↦ absurd (ground (arith, missing, e))
  | inr (current, f) ↦ elim (Bool-cases (is_at target current.status)) [
    | inl there ↦
        let same : o ≡ current = ground (arith, f, there, e) in
        let left : db' ≡ db = ground (arith, f, there, e) in
        (
          ap (λ (x : Order). x.status) same ∙ is_at-eq target current.status there,
          rw (left, same) f,
          λ m' id' other. rw left refl,
          (current, f, inl (same, left)),
        )
    | inr away ↦
        elim (Bool-cases
          (not (is_draft current.status) && not (cancels_confirmed target current.status))) [
            | inl refused ↦ absurd (ground (arith, f, away, refused, e))
            | inr allowed ↦
                let (saved, orders) =
                  close_order-saved m id target now current db {o = o} {db' = db'} away allowed
                    (closes current f) in
                let keeps = closed_order-KeepsKey target now in
                let arrived =
                  ap (λ (x : Order). x.status) saved ∙ status-closed_order target now current in
                (
                  arrived,
                  find_order-saved (closed_order target now) m id db db' keeps orders f
                      ∙ ap some (sym saved),
                  find_order-other (closed_order target now) m id db db' keeps orders,
                  (
                    current,
                    f,
                    inr (
                        subst (Step current.status) (sym arrived)
                          (Step-closing target current.status allowed)),
                  ),
                )
          ]
  ]
]
  where
    closes :
        (current : Order)
        → find_order m id db ≡ some current
        → close_order m id target now current db ≡ (ok (some o), db')
    closes current f = elim (Outcome-cases (close_order m id target now current db)) [
      | inl (r, db₁, done) ↦ ground (arith, f, done, e)
      | inr (x, db₁, refused) ↦ absurd (ground (arith, f, refused, e))
    ]

end_hold-inactive : (now : Date) (h : Hold) → is_active (end_hold now h).status ≡ false
unfolding end_hold
end_hold-inactive now h = ground arith

end_hold-order :
    (m id : Uuid) (items : List OrderItem) (now : Date) (h : Hold)
    → is_hold_of_order m id items (end_hold now h) ≡ is_hold_of_order m id items h
unfolding end_hold is_hold_of_order
end_hold-order m id items now h = ground arith

module _ (m id : Uuid) (items : List OrderItem) where
  -- A hold of the order that is still active.
  abbrev pub is_active_of_order : Hold → Bool
  is_active_of_order h = is_hold_of_order m id items h && is_active h.status

  -- What a hold counts for if the order's holds count for nothing.
  abbrev pub live_quantity_of_others : Uuid → Uuid → Date → Hold → ℕ
  live_quantity_of_others m' v t h =
      if is_hold_of_order m id items h then 0 else live_quantity m' v t h

module _ (m id : Uuid) (items : List OrderItem) (now : Date) where
  none_active :
      (hs : List Hold)
      → any
          (is_active_of_order m id items)
          (update_where (is_hold_of_order m id items) (end_hold now) hs)
        ≡ false
  unfolding update_where
  none_active [] = refl
  none_active (h ∷ hs) =
      ground (arith, none_active hs, end_hold-inactive now h, end_hold-order m id items now h)

  inactive_quantity :
      (m' v : Uuid) (t : Date) (h : Hold) → is_active h.status ≡ false → live_quantity m' v t h ≡ 0
  unfolding live_quantity
  inactive_quantity m' v t h e = ground (arith, e)

  sum_after_ending :
      (m' v : Uuid) (t : Date) (hs : List Hold)
      → sum_of (live_quantity m' v t) (update_where (is_hold_of_order m id items) (end_hold now) hs)
        ≡ sum_of (live_quantity_of_others m id items m' v t) hs
  unfolding update_where sum_of
  sum_after_ending m' v t [] = refl
  sum_after_ending m' v t (h ∷ hs) = ground (
    arith,
    sum_after_ending m' v t hs,
    inactive_quantity m' v t (end_hold now h) (end_hold-inactive now h),
  )

  others-le :
      (m' v : Uuid) (t : Date) (hs : List Hold)
      → sum_of (live_quantity_of_others m id items m' v t) hs ≤ sum_of (live_quantity m' v t) hs
  unfolding sum_of
  others-le m' v t [] = omega arith
  others-le m' v t (h ∷ hs) = ground (arith, others-le m' v t hs)

-- What is held once the order's holds have ended, whatever is written to the order.
held-cancelled :
    (m id : Uuid) (now : Date) (db : Db) (m' v : Uuid) (t : Date)
    → held m' v t (save_order m id (closed_order OrderTarget.cancelled now) (end_holds m id now db))
      ≡ sum_of (live_quantity_of_others m id db.items m' v t) db.holds
unfolding save_order held end_holds
held-cancelled m id now db m' v t = sum_after_ending m id db.items now m' v t db.holds

held-others :
    (m id m' v : Uuid) (t : Date) (db : Db)
    → sum_of (live_quantity_of_others m id db.items m' v t) db.holds ≤ held m' v t db
unfolding held
held-others m id m' v t db = others-le m id db.items t m' v t db.holds

-- Cancelling a confirmed order always succeeds and ends all of its holds: none is active after it,
-- and of every variant, at every time, what is held is what the holds of others hold; nothing
-- more is held than before, and the shelf is not touched.
pub cancel_confirmed_frees :
    (m id : Uuid) (now : Date) (db : Db) {current : Order}
    → find_order m id db ≡ some current
    → current.status ≡ OrderStatus.confirmed
    → let (r, db') = transition m id OrderTarget.cancelled now db in
      (r ≡ ok (some (closed_order OrderTarget.cancelled now current)))
      × (any (is_active_of_order m id db.items) db'.holds ≡ false)
      × ((m' v : Uuid) (t : Date)
          → held m' v t db' ≡ sum_of (live_quantity_of_others m id db.items m' v t) db.holds)
      × ((m' v : Uuid) (t : Date)
          → (held m' v t db' ≤ held m' v t db) × (physical m' v db' ≡ physical m' v db))
cancel_confirmed_frees m id now db {current} f s =
    let db' : Db =
      save_order m id (closed_order OrderTarget.cancelled now) (end_holds m id now db) in
    let result : transition m id OrderTarget.cancelled now db
        ≡ (ok (some (closed_order OrderTarget.cancelled now current)), db') =
      unfold transition in ground (arith, f, s) in
    let freed = held-cancelled m id now db in
    rw result (
      refl,
      unfold save_order end_holds in none_active m id db.items now db.holds,
      freed,
      λ m' v t. (
        omega (arith, freed m' v t, held-others m id m' v t db),
        physical-balances m' v db db' (unfold save_order end_holds in refl),
      ),
    )
