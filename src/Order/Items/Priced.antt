-- ===== src/Order/Items/Priced.antt =====
-- A replacement leaves an order that is priced right: proofs about `replace_items` of Items.antt.
use tteeka.Prelude.{
  map, ℕ, ◌*◌, ◌≤◌, ◌≡◌, refl, sym, subst, ◌∙◌, true, false, some, List, [], ◌∷◌, ◌==◌, ◌⊎◌,
  contains, All, arith, Option-cases, Bool-cases, inl, inr, ==_iff,
}
use tteeka.Prelude.Table.{sum_of, find-update_first, find_holds}
use tteeka.Schema.{Db, Uuid, Order, OrderItem, OrderStatus, max_bigint}
use tteeka.Store.{Env, ok, Outcome-cases}
use tteeka.Order.Lifecycle.{is_order, find_order, save_order}
use tteeka.Order.Desired.{OrderItemInput, accepts_items, DesiredItem, current_items, ids_of}
use tteeka.Order.Items.{delete_others, write_items, write_desired, repriced_order, replace_items}
use tteeka.Order.Items.Rows.{
  row_weight, item_weight, IsDistinct, delete_others-rows, delete_others-items,
}
use tteeka.Order.Items.Written.{
  Weight, weight_of, new_weight, Known, asked, asked_none, write_items-asked, All-Known_moved,
}
use tteeka.Order.Items.Unchanged.{sum_over_ids, is_unchanged-asked}
use tteeka.Order.Items.Desired.{
  requested, desired_items-Made, has_no_duplicate-IsDistinct, subtotal_from-sum, All-Made-Known,
}
use tteeka.Order.Items.Outcome.{Outcome, replace_items-Outcome}

-- An order has one row at most for each variant (the unique key), each line total is the quantity
-- times the unit price (the CHECK constraint), and the subtotal of the order is the sum of its line
-- totals and fits a BIGINT.
pub record IsPriced (m id : Uuid) (db : Db) : Type 0 where
  pub once : (v : Uuid) → sum_of (row_weight m id (λ i. 1) v) db.items ≤ 1
  pub lines :
      (v : Uuid)
      → sum_of (row_weight m id (λ i. i.line_total) v) db.items
        ≡ sum_of (row_weight m id (λ i. i.quantity * i.unit_selling_price) v) db.items
  pub total :
      (o : Order)
      → find_order m id db ≡ some o
      → (o.subtotal ≡ sum_of (item_weight m id (λ i. i.line_total)) db.items)
        × (o.subtotal ≤ max_bigint)

-- What is there once the desired items are written.
pub record Rewritten (m id : Uuid) (ds : List DesiredItem) (subtotal : ℕ) (o : Order)
    (items : List OrderItem) (db' : Db) : Type 0 where
  pub rows :
      (w : Weight) (v : Uuid) → sum_of (row_weight m id (weight_of w) v) db'.items ≡ asked w v ds
  pub all_items :
      (w : Weight) → sum_of (item_weight m id (weight_of w)) db'.items ≡ sum_of (new_weight w) ds
  pub saved : find_order m id db' ≡ some o
  pub amount : o.subtotal ≡ subtotal
  pub read : items ≡ current_items m id db'

repriced_order-kept :
    (m id : Uuid) (ds : List DesiredItem) (subtotal : ℕ) (o : Order)
    → (is_order m id (repriced_order ds subtotal o) ≡ is_order m id o)
      × ((repriced_order ds subtotal o).subtotal ≡ subtotal)
unfolding repriced_order is_order
repriced_order-kept m id ds subtotal o = (refl, refl)

find_order-save_order :
    (m id : Uuid) (ds : List DesiredItem) (subtotal : ℕ) (order : Order) (db : Db)
    → find_order m id db ≡ some order
    → find_order m id (save_order m id (repriced_order ds subtotal) db)
      ≡ some (repriced_order ds subtotal order)
unfolding find_order save_order
find_order-save_order m id ds subtotal order db f =
    find-update_first (is_order m id) (repriced_order ds subtotal) db.orders
      ((repriced_order-kept m id ds subtotal order).0 ∙ find_holds (is_order m id) db.orders f) f

module _ (env : Env) (m id : Uuid) (order : Order) (ds : List DesiredItem) (subtotal : ℕ) (db : Db)
    (found : find_order m id db ≡ some order) (distinct : IsDistinct (ids_of ds))
    (known : All (Known m id db) ds) where
  written-Rewritten :
      (db₂ : Db)
      → write_items env m id ds (delete_others m id (ids_of ds) db) ≡ (ok tt, db₂)
      → let db' = save_order m id (repriced_order ds subtotal) db₂ in
        Rewritten m id ds subtotal (repriced_order ds subtotal order) (current_items m id db') db'
  written-Rewritten db₂ done =
      let db₁ = delete_others m id (ids_of ds) db in
      let known₁ =
        All-Known_moved m id db db₁ ds
          (λ w v there. delete_others-rows m id (weight_of w) v (ids_of ds) db ∙ rw there) known in
      let after = write_items-asked env m id ds db₁ {db' = db₂} distinct known₁ done in
      let same_items : (save_order m id (repriced_order ds subtotal) db₂).items ≡ db₂.items =
        unfold save_order in refl in
      let same_orders : find_order m id db₂ ≡ find_order m id db =
        unfold find_order delete_others in ground (arith, after.2) in
      record {
        rows = λ w v. rw same_items (
            ground (
              arith,
              after.0 w v,
              delete_others-rows m id (weight_of w) v (ids_of ds) db,
              asked_none w v ds,
            ));
        all_items = λ w. rw same_items (
            omega (
              arith,
              after.1 w,
              delete_others-items m id (weight_of w) (ids_of ds) db distinct,
              sum_over_ids m id w db ds known,
            ));
        saved = find_order-save_order m id ds subtotal order db₂ (same_orders ∙ found);
        amount = (repriced_order-kept m id ds subtotal order).1;
        read = refl;
      }

  write_desired-Rewritten :
      {o : Order} {items : List OrderItem} {db' : Db}
      → write_desired env m id order ds subtotal db ≡ (ok (some (o, items)), db')
      → Rewritten m id ds subtotal o items db'
  unfolding write_desired
  write_desired-Rewritten {o} {items} {db'} e =
      elim (Outcome-cases (write_items env m id ds (delete_others m id (ids_of ds) db))) [
        | inr (x, db₂, refused) ↦ absurd (ground (arith, refused, e))
        | inl (u, db₂, done) ↦
            let db'' = save_order m id (repriced_order ds subtotal) db₂ in
            let same_order : repriced_order ds subtotal order ≡ o = ground (arith, done, e) in
            let same_items : current_items m id db'' ≡ items = ground (arith, done, e) in
            let same_db : db'' ≡ db' = ground (arith, done, e) in
            rw (← same_order, ← same_items, ← same_db) (written-Rewritten db₂ done)
      ]

asked_once :
    (v : Uuid) (ds : List DesiredItem) → IsDistinct (ids_of ds) → asked (λ q u t. 1) v ds ≤ 1
unfolding asked sum_of
asked_once v [] h = omega arith
asked_once v (d ∷ ds) h =
    ground (arith, asked_once v ds h.1, asked_none (λ q u t. 1) v ds, h.0, ==_iff v d.variant_id)

asked_lines :
    (m id : Uuid) (db : Db) (v : Uuid) (ds : List DesiredItem)
    → All (Known m id db) ds
    → asked (λ q u t. t) v ds ≡ asked (λ q u t. q * u) v ds
unfolding asked sum_of
asked_lines m id db v [] k = refl
asked_lines m id db v (d ∷ ds) k = ground (arith, asked_lines m id db v ds k.1, k.0.line)

-- A variant that the order has and keeps is asked for at the price that it has.
kept_price :
    (m id : Uuid) (db : Db) (v : Uuid) (ds : List DesiredItem)
    → IsDistinct (ids_of ds)
    → All (Known m id db) ds
    → (sum_of (row_weight m id (λ i. 1) v) db.items ≡ 0)
      ⊎ (contains v (ids_of ds) ≡ false)
      ⊎ (asked (λ q u t. u) v ds ≡ sum_of (row_weight m id (λ i. i.unit_selling_price) v) db.items)
unfolding asked sum_of
kept_price m id db v [] h k = inr (inl refl)
kept_price m id db v (d ∷ ds) h k = elim (Bool-cases (v == d.variant_id)) [
  | inr other ↦ ground (arith, other, kept_price m id db v ds h.1 k.1)
  | inl this ↦ elim (Option-cases d.existing) [
    | inl new ↦ inl (ground (arith, this, ==_iff v d.variant_id, new, k.0.rows (λ q u t. 1)))
    | inr (e, ex) ↦ inr (
        inr (
          ground (
            arith,
            this,
            ==_iff v d.variant_id,
            ex,
            k.0.rows (λ q u t. u),
            k.0.price e ex,
            h.0,
            asked_none (λ q u t. u) v ds,
          )))
  ]
]

accepts_items-IsDistinct :
    (input : List OrderItemInput)
    → accepts_items input ≡ true
    → IsDistinct (map (λ (i : OrderItemInput). i.variant_id) input)
unfolding accepts_items
accepts_items-IsDistinct input h = has_no_duplicate-IsDistinct input [] (ground (arith, h))

module _ (env : Env) (m id : Uuid) (input : List OrderItemInput) (db : Db) {o : Order}
    {items : List OrderItem} {db' : Db} (out : Outcome env m id input db o items db')
    (accepted : accepts_items input ≡ true) (priced : IsPriced m id db) where
  desired-IsDistinct : IsDistinct (ids_of out.desired)
  desired-IsDistinct =
      subst IsDistinct
        (sym (desired_items-Made (current_items m id db) out.variants input db out.computed).1)
        (accepts_items-IsDistinct input accepted)

  desired-Known : All (Known m id db) out.desired
  desired-Known =
      All-Made-Known m id db out.variants priced.once priced.lines out.desired
        (desired_items-Made (current_items m id db) out.variants input db out.computed).0

  asked-requested : (v : Uuid) → asked (λ q u t. q) v out.desired ≡ requested v input
  asked-requested =
      (desired_items-Made (current_items m id db) out.variants input db out.computed).2

  rewritten :
      write_desired env m id out.order out.desired out.subtotal db ≡ (ok (some (o, items)), db')
      → Rewritten m id out.desired out.subtotal o items db'
  rewritten =
      write_desired-Rewritten env m id out.order out.desired out.subtotal db out.found
        desired-IsDistinct desired-Known

  Rewritten-IsPriced : Rewritten m id out.desired out.subtotal o items db' → IsPriced m id db'
  Rewritten-IsPriced r = record {
    once = λ v. omega (arith, r.rows (λ q u t. 1) v, asked_once v out.desired desired-IsDistinct);
    lines = λ v.
        r.rows (λ q u t. t) v
        ∙ asked_lines m id db v out.desired desired-Known
        ∙ sym (r.rows (λ q u t. q * u) v);
    total = λ o' f.
        let same : o' ≡ o = ground (arith, f, r.saved) in
        let summed = subtotal_from-sum 0 out.desired out.added_up (omega arith) in
        rw same (omega (arith, r.amount, summed, r.all_items (λ q u t. t)));
  }

  Outcome-IsPriced : IsPriced m id db'
  Outcome-IsPriced = elim out.ending [
    | inl (unchanged, same_order, same_items, same) ↦ subst (IsPriced m id) (sym same) priced
    | inr written ↦ Rewritten-IsPriced (rewritten written)
  ]

  -- What the order asks of a variant in the end, and at which price.
  Outcome-requested :
      (v : Uuid)
      → (sum_of (row_weight m id (λ i. i.quantity) v) db'.items ≡ requested v input)
        × ((sum_of (row_weight m id (λ i. 1) v) db.items ≡ 0)
            ⊎ (requested v input ≡ 0)
            ⊎ (sum_of (row_weight m id (λ i. i.unit_selling_price) v) db'.items
                ≡ sum_of (row_weight m id (λ i. i.unit_selling_price) v) db.items))
  Outcome-requested v = elim out.ending [
    | inl (unchanged, same_order, same_items, same) ↦ rw same (
      is_unchanged-asked m id db v out.desired unchanged desired-IsDistinct desired-Known
          ∙ asked-requested v,
      inr (inr refl),
    )
    | inr written ↦
        let r = rewritten written in
        (
          r.rows (λ q u t. q) v ∙ asked-requested v,
          elim (kept_price m id db v out.desired desired-IsDistinct desired-Known) [
            | inl new ↦ inl new
            | inr (inl gone) ↦
                inr (inl (sym (asked-requested v) ∙ asked_none (λ q u t. q) v out.desired gone))
            | inr (inr kept) ↦ inr (inr (r.rows (λ q u t. u) v ∙ kept))
          ],
        )
  ]

-- A replacement that returns, of items that the request schema accepts, keeps an order priced
-- right: one row for each variant, line totals that are quantity times unit price, and a subtotal
-- that is their sum and fits a BIGINT.
pub replace_items-IsPriced :
    (env : Env) (m id : Uuid) (input : List OrderItemInput) (db : Db) {o : Order}
    {items : List OrderItem} {db' : Db}
    → replace_items env m id input db ≡ (ok (some (o, items)), db')
    → accepts_items input ≡ true
    → IsPriced m id db
    → IsPriced m id db'
replace_items-IsPriced env m id input db e accepted priced =
    Outcome-IsPriced env m id input db (replace_items-Outcome env m id input db e) accepted priced

-- After a replacement that returns, of items that the request schema accepts in an order that was
-- priced right, the order was a draft and has of each variant exactly the quantity that was asked
-- for, also where the code found nothing to change; and a variant that it had and still has keeps
-- its unit price.
pub replace_items-requested :
    (env : Env) (m id : Uuid) (input : List OrderItemInput) (db : Db) {o : Order}
    {items : List OrderItem} {db' : Db}
    → replace_items env m id input db ≡ (ok (some (o, items)), db')
    → accepts_items input ≡ true
    → IsPriced m id db
    → ((order : Order) × (find_order m id db ≡ some order) × (order.status ≡ OrderStatus.draft))
      × ((v : Uuid)
          → (sum_of (row_weight m id (λ i. i.quantity) v) db'.items ≡ requested v input)
            × ((sum_of (row_weight m id (λ i. 1) v) db.items ≡ 0)
                ⊎ (requested v input ≡ 0)
                ⊎ (sum_of (row_weight m id (λ i. i.unit_selling_price) v) db'.items
                    ≡ sum_of (row_weight m id (λ i. i.unit_selling_price) v) db.items)))
replace_items-requested env m id input db e accepted priced =
    let out = replace_items-Outcome env m id input db e in
    ((out.order, out.found, out.draft), Outcome-requested env m id input db out accepted priced)
