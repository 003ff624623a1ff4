-- ===== src/Order/Items/Outcome.antt =====
-- How `replace_items` of Items.antt returns, step by step.
use tteeka.Prelude.{
  ℕ, ◌≡◌, true, not, some, List, length, any, ◌==◌, ◌||◌, ltb, map, ◌⊎◌, inl, inr, Option-cases,
  Bool-cases, ap, ◌∙◌, arith,
}
use tteeka.Schema.{Db, Uuid, Variant, Order, OrderItem, OrderStatus}
use tteeka.Store.{Env, ok, Outcome-cases}
use tteeka.Inventory.Allocation.{distinct}
use tteeka.Order.Lifecycle.{find_order, is_draft}
use tteeka.Order.Items.Desired.{desired_items-Made}
use tteeka.Order.Desired.{
  OrderItemInput, DesiredItem, current_items, new_ids, variants_of, is_ineligible, desired_items,
  subtotal_from, is_unchanged,
}
use tteeka.Order.Items.{write_desired, replace_desired, replace_draft, replace_items}

-- The order was a draft; the desired items and their subtotal were computed; and either they are
-- what the order has, and nothing changes, or they were written.
pub record Outcome (env : Env) (m id : Uuid) (input : List OrderItemInput) (db : Db) (o : Order)
    (items : List OrderItem) (db' : Db) : Type 0 where
  pub order : Order
  pub found : find_order m id db ≡ some order
  pub draft : order.status ≡ OrderStatus.draft
  pub variants : List Variant
  pub desired : List DesiredItem
  pub computed : desired_items (current_items m id db) variants input db ≡ (ok desired, db)
  pub subtotal : ℕ
  pub added_up : subtotal_from 0 desired ≡ some subtotal
  pub ending :
      ((is_unchanged desired (current_items m id db) ≡ true)
        × (o ≡ order)
        × (items ≡ current_items m id db)
        × (db' ≡ db))
      ⊎ (write_desired env m id order desired subtotal db ≡ (ok (some (o, items)), db'))

module _ (env : Env) (m id : Uuid) (input : List OrderItemInput) (db : Db) {o : Order}
    {items : List OrderItem} {db' : Db} where
  replace_draft-Outcome :
      (order : Order)
      → find_order m id db ≡ some order
      → order.status ≡ OrderStatus.draft
      → replace_draft env m id input order db ≡ (ok (some (o, items)), db')
      → Outcome env m id input db o items db'
  unfolding replace_draft replace_desired
  replace_draft-Outcome order f draft e =
      let current = current_items m id db in
      let added = new_ids current input in
      let variants = variants_of m added db in
      elim (Bool-cases (not (length variants == length added) || any is_ineligible variants)) [
        | inl bad ↦ absurd (ground (arith, bad, e))
        | inr good ↦ elim (Outcome-cases (desired_items current variants input db)) [
          | inr (x, db₁, refused) ↦ absurd (ground (arith, good, refused, e))
          | inl (ds, db₁, computed) ↦
              let same : db₁ ≡ db =
                (desired_items-Made current variants input db {ds = ds} {db' = db₁} computed).3 in
              elim (Bool-cases
                (ltb 1 (length (distinct (map (λ (d : DesiredItem). d.currency) ds))))) [
                  | inl mixed ↦ absurd (ground (arith, good, computed, mixed, e))
                  | inr one ↦ elim (Option-cases (subtotal_from 0 ds)) [
                    | inl over ↦ absurd (ground (arith, good, computed, one, over, e))
                    | inr (subtotal, added_up) ↦ record {
                      order = order;
                      found = f;
                      draft = draft;
                      variants = variants;
                      desired = ds;
                      computed = computed ∙ ap (λ t. (ok ds, t)) same;
                      subtotal = subtotal;
                      added_up = added_up;
                      ending = elim (Bool-cases (is_unchanged ds current)) [
                        | inl unchanged ↦ inl (
                          unchanged,
                          ground (arith, good, computed, one, added_up, unchanged, e),
                          ground (arith, good, computed, one, added_up, unchanged, e),
                          ground (arith, good, computed, one, added_up, unchanged, e, same),
                        )
                        | inr changed ↦
                            inr (ground (arith, good, computed, one, added_up, changed, e, same))
                      ];
                    }
                  ]
                ]
        ]
      ]

  pub replace_items-Outcome :
      replace_items env m id input db ≡ (ok (some (o, items)), db')
      → Outcome env m id input db o items db'
  unfolding replace_items
  replace_items-Outcome e = elim (Option-cases (find_order m id db)) [
    | inl missing ↦ absurd (ground (arith, missing, e))
    | inr (order, f) ↦ elim (Bool-cases (is_draft order.status)) [
      | inr other ↦ absurd (ground (arith, f, other, e))
      | inl draft ↦ elim (Outcome-cases (replace_draft env m id input order db)) [
        | inr (x, db₁, refused) ↦ absurd (ground (arith, f, draft, refused, e))
        | inl (r, db₁, done) ↦
            replace_draft-Outcome order f (ground (arith, draft))
              (ground (arith, f, draft, done, e))
      ]
    ]
  ]
