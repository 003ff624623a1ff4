-- ===== src/Order/Items/Written.antt =====
-- What the loop of Items.antt writes: afterwards the order's row of each desired variant is the one
-- desired, and the others are as they were.
use tteeka.Prelude.{
  ℕ, ◌+◌, ◌*◌, ◌≡◌, refl, true, false, none, some, List, [], ◌∷◌, ◌==◌, contains, All,
  if◌then◌else◌, arith, subst, ◌∙◌, Option-cases, Bool-cases, inl, inr, ==_iff,
}
use tteeka.Prelude.Table.{update_where, sum_of, sum_of-append}
use tteeka.Schema.{Db, Uuid, OrderItem, Variant}
use tteeka.Store.{Env, ok, Outcome-cases}
use tteeka.Order.Lifecycle.{is_item_of}
use tteeka.Order.Desired.{DesiredItem, ids_of}
use tteeka.Order.Items.{is_row, update_item, new_item, create_item, write_item, write_items}
use tteeka.Order.Items.Rows.{row_weight, item_weight, IsDistinct}

-- A weight of a row that only looks at its quantity, its price and its line total.
abbrev pub Weight : Type 0
Weight = ℕ → ℕ → ℕ → ℕ

abbrev pub weight_of : Weight → OrderItem → ℕ
weight_of w i = w i.quantity i.unit_selling_price i.line_total

-- Of the row that a desired item had before, and of the one that it asks for.
abbrev pub old_weight : Weight → DesiredItem → ℕ
old_weight w d = elim d.existing [ none ↦ 0 | some e ↦ weight_of w e ]

abbrev pub new_weight : Weight → DesiredItem → ℕ
new_weight w d = w d.quantity d.unit_selling_price d.line_total

-- What a desired item tells of the order's rows of its variant.
pub record Known (m o : Uuid) (db : Db) (d : DesiredItem) : Type 0 where
  pub rows :
      (w : Weight) → sum_of (row_weight m o (weight_of w) d.variant_id) db.items ≡ old_weight w d
  pub line : d.line_total ≡ d.quantity * d.unit_selling_price
  pub price : (e : OrderItem) → d.existing ≡ some e → e.unit_selling_price ≡ d.unit_selling_price
  pub old_line :
      (e : OrderItem) → d.existing ≡ some e → e.line_total ≡ e.quantity * e.unit_selling_price
  pub named : (x : Variant) → d.existing ≡ none → d.variant ≡ some x → x.id ≡ d.variant_id

module _ (m o : Uuid) (d : DesiredItem) where
  -- The weight of a row once its quantity and its line total are those of the desired item.
  abbrev updated : Weight → Weight
  updated w q u t = w d.quantity u d.line_total

  update_rows :
      (w : Weight) (v : Uuid) (xs : List OrderItem)
      → sum_of (row_weight m o (weight_of w) v) (
          update_where
            (is_row m o d.variant_id)
            (λ (i : OrderItem). record i { quantity = d.quantity; line_total = d.line_total })
            xs)
        ≡ (if v == d.variant_id
            then sum_of (row_weight m o (weight_of (updated w)) v) xs
            else sum_of (row_weight m o (weight_of w) v) xs)
  unfolding update_where sum_of row_weight is_row is_item_of
  update_rows w v [] = ground arith
  update_rows w v (x ∷ xs) = ground (arith, update_rows w v xs)

  update_all :
      (w : Weight) (xs : List OrderItem)
      → sum_of (item_weight m o (weight_of w)) (
            update_where
              (is_row m o d.variant_id)
              (λ (i : OrderItem). record i { quantity = d.quantity; line_total = d.line_total })
              xs)
          + sum_of (row_weight m o (weight_of w) d.variant_id) xs
        ≡ sum_of (item_weight m o (weight_of w)) xs
          + sum_of (row_weight m o (weight_of (updated w)) d.variant_id) xs
  unfolding update_where sum_of row_weight item_weight is_row is_item_of
  update_all w [] = refl
  update_all w (x ∷ xs) = ground (arith, update_all w xs)

  -- The effect of the body on the sums.
  pub record Written (db db' : Db) : Type 0 where
    pub rows :
        (w : Weight) (v : Uuid)
        → sum_of (row_weight m o (weight_of w) v) db'.items ≡ (
            if v == d.variant_id
            then new_weight w d
            else sum_of (row_weight m o (weight_of w) v) db.items)
    pub all_items :
        (w : Weight)
        → sum_of (item_weight m o (weight_of w)) db'.items + old_weight w d
          ≡ sum_of (item_weight m o (weight_of w)) db.items + new_weight w d
    pub others : db' ≡ record db { items = db'.items }

  same-Written :
      (db : Db) (e : OrderItem)
      → Known m o db d
      → d.existing ≡ some e
      → e.quantity ≡ d.quantity
      → Written db db
  same-Written db e k ex q =
      let same : (w : Weight) → weight_of w e ≡ new_weight w d =
        λ w. cc (k.price e ex, k.old_line e ex, k.line, q) in
      record {
        rows = λ w v. ground (arith, ==_iff v d.variant_id, k.rows w, ex, same w);
        all_items = λ w. ground (arith, ex, same w);
        others = refl;
      }

  update_item-Written :
      (db : Db) (e : OrderItem)
      → Known m o db d
      → d.existing ≡ some e
      → Written db (update_item m o d db)
  unfolding update_item
  update_item-Written db e k ex =
      let now : (w : Weight)
          → sum_of (row_weight m o (weight_of (updated w)) d.variant_id) db.items ≡ new_weight w d =
        λ w. ground (arith, k.rows (updated w), ex, k.price e ex) in
      record {
        rows = λ w v. elim (Bool-cases (v == d.variant_id)) [
          | inl this ↦ update_rows w v db.items ∙ ground (arith, this, ==_iff v d.variant_id, now w)
          | inr other ↦ update_rows w v db.items ∙ rw other
        ];
        all_items = λ w. ground (arith, update_all w db.items, now w, k.rows w, ex);
        others = refl;
      }

  create_item-Written :
      (env : Env) (x : Variant) (db : Db) {db' : Db}
      → Known m o db d
      → d.existing ≡ none
      → x.id ≡ d.variant_id
      → create_item env m o d x db ≡ (ok tt, db')
      → Written db db'
  unfolding create_item row_weight item_weight sum_of is_row is_item_of
  create_item-Written env x db {db'} k ex named e =
      let made = new_item env m o d x db in
      record {
        rows = λ w v. ground (
          arith,
          e,
          ex,
          named,
          k.rows w,
          ==_iff v d.variant_id,
          sum_of-append (row_weight m o (weight_of w) v) db.items (made ∷ []),
        );
        all_items = λ w.
            ground
              (arith, e, ex, sum_of-append (item_weight m o (weight_of w)) db.items (made ∷ []));
        others = ground (arith, e);
      }

  pub write_item-Written :
      (env : Env) (db : Db) {db' : Db}
      → Known m o db d
      → write_item env m o d db ≡ (ok tt, db')
      → Written db db'
  unfolding write_item
  write_item-Written env db {db'} k e = elim (Option-cases d.existing) [
    | inr (old, ex) ↦ elim (Bool-cases (old.quantity == d.quantity)) [
      | inl same ↦
          subst (Written db) (ground (arith, ex, same, e))
            (same-Written db old k ex ((==_iff old.quantity d.quantity).0 same))
      | inr changed ↦
          subst (Written db) (ground (arith, ex, changed, e)) (update_item-Written db old k ex)
    ]
    | inl new ↦ elim (Option-cases d.variant) [
      | inl missing ↦ absurd (ground (arith, new, missing, e))
      | inr (x, found) ↦
          create_item-Written env x db k new (k.named x new found) (ground (arith, new, found, e))
    ]
  ]

module _ (m o : Uuid) where
  Known-moved :
      (db db₁ : Db) (d : DesiredItem)
      → ((w : Weight)
          → sum_of (row_weight m o (weight_of w) d.variant_id) db₁.items
            ≡ sum_of (row_weight m o (weight_of w) d.variant_id) db.items)
      → Known m o db d
      → Known m o db₁ d
  Known-moved db db₁ d same k = record {
    rows = λ w. same w ∙ k.rows w;
    line = k.line;
    price = k.price;
    old_line = k.old_line;
    named = k.named;
  }

  pub All-Known_moved :
      (db db₁ : Db) (ds : List DesiredItem)
      → ((w : Weight) (v : Uuid)
          → contains v (ids_of ds) ≡ true
          → sum_of (row_weight m o (weight_of w) v) db₁.items
            ≡ sum_of (row_weight m o (weight_of w) v) db.items)
      → All (Known m o db) ds
      → All (Known m o db₁) ds
  All-Known_moved db db₁ [] same k = tt
  All-Known_moved db db₁ (d ∷ ds) same k = (
    Known-moved db db₁ d (λ w. same w d.variant_id (ground arith)) k.0,
    All-Known_moved db db₁ ds (λ w v there. same w v (ground (arith, there))) k.1,
  )

-- What the desired items ask of a variant.
unfoldable pub asked : Weight → Uuid → List DesiredItem → ℕ
asked w v ds = sum_of (λ (d : DesiredItem). if v == d.variant_id then new_weight w d else 0) ds

pub asked_none :
    (w : Weight) (v : Uuid) (ds : List DesiredItem)
    → contains v (ids_of ds) ≡ false
    → asked w v ds ≡ 0
unfolding asked sum_of
asked_none w v [] h = refl
asked_none w v (d ∷ ds) h = ground (arith, asked_none w v ds)

pub write_items-asked :
    (env : Env) (m o : Uuid) (ds : List DesiredItem) (db : Db) {db' : Db}
    → IsDistinct (ids_of ds)
    → All (Known m o db) ds
    → write_items env m o ds db ≡ (ok tt, db')
    → ((w : Weight) (v : Uuid)
        → sum_of (row_weight m o (weight_of w) v) db'.items ≡ (
            if contains v (ids_of ds)
            then asked w v ds
            else sum_of (row_weight m o (weight_of w) v) db.items))
      × ((w : Weight)
          → sum_of (item_weight m o (weight_of w)) db'.items + sum_of (old_weight w) ds
            ≡ sum_of (item_weight m o (weight_of w)) db.items + sum_of (new_weight w) ds)
      × (db' ≡ record db { items = db'.items })
unfolding write_items asked sum_of
write_items-asked env m o [] db {db'} h k e =
    (λ w v. ground (arith, e), λ w. ground (arith, e), ground (arith, e))
write_items-asked env m o (d ∷ ds) db {db'} h k e = elim (Outcome-cases (write_item env m o d db)) [
  | inr (x, db₁, refused) ↦ absurd (ground (arith, refused, e))
  | inl (u, db₁, done) ↦
      let first = write_item-Written m o d env db k.0 done in
      let known =
        All-Known_moved m o db db₁ ds
          (λ w v there. ground (arith, first.rows w v, ==_iff v d.variant_id, there, h.0)) k.1 in
      let rest = write_items-asked env m o ds db₁ {db' = db'} h.1 known (ground (arith, done, e)) in
      (
        λ w v.
            ground
              (arith, rest.0 w v, first.rows w v, ==_iff v d.variant_id, h.0, asked_none w v ds),
        λ w. omega (arith, rest.1 w, first.all_items w),
        ground (arith, rest.2, first.others),
      )
]
