-- ===== src/Order/Items/Rows.antt =====
-- Sums over the rows of an order: how the reads and the writes of Items.antt see them.
use tteeka.Prelude.{
  ℕ, ◌+◌, ◌≤◌, ◌≡◌, refl, Bool, false, none, some, List, [], ◌∷◌, ◌==◌, ◌&&◌, contains, length,
  if◌then◌else◌, arith, sym, ◌∙◌, Option-cases, Bool-cases, inl, inr, ==_iff,
}
use tteeka.Prelude.Table.{filter, sum_of}
use tteeka.Schema.{Db, Uuid, OrderItem}
use tteeka.Order.Lifecycle.{is_item_of}
use tteeka.Order.Desired.{insert_created, sort_created, current_items, by_variant}
use tteeka.Order.Items.{is_row, delete_others}

sum_of_ext :
    (v w : OrderItem → ℕ) (xs : List OrderItem)
    → ((i : OrderItem) → v i ≡ w i)
    → sum_of v xs ≡ sum_of w xs
unfolding sum_of
sum_of_ext v w [] h = refl
sum_of_ext v w (x ∷ xs) h = omega (arith, h x, sum_of_ext v w xs h)

sum_of_add :
    (v w : OrderItem → ℕ) (xs : List OrderItem)
    → sum_of (λ i. v i + w i) xs ≡ sum_of v xs + sum_of w xs
unfolding sum_of
sum_of_add v w [] = refl
sum_of_add v w (x ∷ xs) = omega (arith, sum_of_add v w xs)

sum_of_zero : (xs : List OrderItem) → sum_of (λ i. 0) xs ≡ 0
unfolding sum_of
sum_of_zero [] = refl
sum_of_zero (x ∷ xs) = omega (arith, sum_of_zero xs)

sum_of-insert_created :
    (g : OrderItem → ℕ) (i : OrderItem) (xs : List OrderItem)
    → sum_of g (insert_created i xs) ≡ g i + sum_of g xs
unfolding sum_of insert_created
sum_of-insert_created g i [] = refl
sum_of-insert_created g i (x ∷ xs) = ground (arith, sum_of-insert_created g i xs)

sum_of-sort_created :
    (g : OrderItem → ℕ) (xs : List OrderItem) → sum_of g (sort_created xs) ≡ sum_of g xs
unfolding sum_of sort_created
sum_of-sort_created g [] = refl
sum_of-sort_created g (x ∷ xs) =
    omega (arith, sum_of-insert_created g x (sort_created xs), sum_of-sort_created g xs)

sum_of-filter :
    (p : OrderItem → Bool) (g : OrderItem → ℕ) (xs : List OrderItem)
    → sum_of g (filter p xs) ≡ sum_of (λ i. if p i then g i else 0) xs
unfolding sum_of filter
sum_of-filter p g [] = refl
sum_of-filter p g (x ∷ xs) = ground (arith, sum_of-filter p g xs)

sum_of_ones : (xs : List OrderItem) → sum_of (λ i. 1) xs ≡ length xs
unfolding sum_of
sum_of_ones [] = refl
sum_of_ones (x ∷ xs) = omega (arith, sum_of_ones xs)

sum_of-filter_le :
    (p : OrderItem → Bool) (g : OrderItem → ℕ) (xs : List OrderItem)
    → sum_of g (filter p xs) ≤ sum_of g xs
unfolding sum_of filter
sum_of-filter_le p g [] = omega arith
sum_of-filter_le p g (x ∷ xs) = ground (arith, sum_of-filter_le p g xs)

-- The weight of a row with a given variant.
abbrev pick : Uuid → (OrderItem → ℕ) → OrderItem → ℕ
pick v g i = if i.variant_id == v then g i else 0

by_variant-none :
    (v : Uuid) (g : OrderItem → ℕ) (xs : List OrderItem)
    → by_variant v xs ≡ none
    → sum_of (pick v g) xs ≡ 0
unfolding by_variant sum_of
by_variant-none v g [] e = refl
by_variant-none v g (x ∷ xs) e = elim (Option-cases (by_variant v xs)) [
  | inl n ↦ ground (arith, n, e, by_variant-none v g xs)
  | inr (y, s) ↦ ground (arith, s, e)
]

by_variant-some :
    (v : Uuid) (g : OrderItem → ℕ) (xs : List OrderItem) {e : OrderItem}
    → by_variant v xs ≡ some e
    → sum_of (pick v (λ i. 1)) xs ≤ 1
    → (sum_of (pick v g) xs ≡ g e) × (1 ≤ sum_of (pick v (λ i. 1)) xs)
unfolding by_variant sum_of
by_variant-some v g [] s h = ground (arith, s)
by_variant-some v g (x ∷ xs) {e} s h = elim (Option-cases (by_variant v xs)) [
  | inl n ↦ ground (arith, n, s, by_variant-none v g xs n)
  | inr (y, t) ↦ ground (arith, t, s, by_variant-some v g xs {e = y})
]

-- No identifier stands twice.
abbrev pub IsDistinct : List Uuid → Type 0
IsDistinct [] = Unit
IsDistinct (x ∷ xs) = (contains x xs ≡ false) × IsDistinct xs

module _ (m o : Uuid) where
  -- The weight of the order's row of a variant, and of any row of the order.
  unfoldable pub row_weight : (OrderItem → ℕ) → Uuid → OrderItem → ℕ
  unfolding is_row
  row_weight g v i = if is_row m o v i then g i else 0

  unfoldable pub item_weight : (OrderItem → ℕ) → OrderItem → ℕ
  item_weight g i = if is_item_of m o i then g i else 0

  current_items-sum :
      (g : OrderItem → ℕ) (v : Uuid) (db : Db)
      → sum_of (pick v g) (current_items m o db) ≡ sum_of (row_weight g v) db.items
  unfolding current_items row_weight
  current_items-sum g v db =
      sum_of-sort_created (pick v g) (filter (is_item_of m o) db.items)
      ∙ sum_of-filter (is_item_of m o) (pick v g) db.items
      ∙ sum_of_ext (λ i. if is_item_of m o i then pick v g i else 0) (row_weight g v) db.items
          (λ i. ground arith)

  -- What the reads find of a variant that one row at most of the order has.
  pub by_variant_rows :
      (g : OrderItem → ℕ) (v : Uuid) (db : Db)
      → sum_of (row_weight (λ i. 1) v) db.items ≤ 1
      → sum_of (row_weight g v) db.items
        ≡ elim (by_variant v (current_items m o db)) [ none ↦ 0 | some e ↦ g e ]
  by_variant_rows g v db one = elim (Option-cases (by_variant v (current_items m o db))) [
    | inl n ↦
        ground (arith, n, current_items-sum g v db, by_variant-none v g (current_items m o db) n)
    | inr (e, s) ↦ ground (
      arith,
      s,
      current_items-sum g v db,
      current_items-sum (λ i. 1) v db,
      one,
      by_variant-some v g (current_items m o db) {e = e} s,
    )
  ]

  pub delete_others-rows :
      (g : OrderItem → ℕ) (v : Uuid) (ids : List Uuid) (db : Db)
      → sum_of (row_weight g v) (delete_others m o ids db).items
        ≡ (if contains v ids then sum_of (row_weight g v) db.items else 0)
  unfolding delete_others row_weight
  delete_others-rows g v ids db = elim (Bool-cases (contains v ids)) [
    | inl there ↦
        sum_of-filter _ (row_weight g v) db.items
        ∙ sum_of_ext _ (row_weight g v) db.items (λ i. ground (arith, there, ==_iff i.variant_id v))
        ∙ rw there
    | inr gone ↦
        sum_of-filter _ (row_weight g v) db.items
        ∙ sum_of_ext _ (λ i. 0) db.items (λ i. ground (arith, gone, ==_iff i.variant_id v))
        ∙ sum_of_zero db.items
        ∙ rw gone
  ]

  sum_by_variant :
      (g : OrderItem → ℕ) (ids : List Uuid) (xs : List OrderItem)
      → IsDistinct ids
      → sum_of (λ i. if is_item_of m o i && contains i.variant_id ids then g i else 0) xs
        ≡ sum_of (λ v. sum_of (row_weight g v) xs) ids
  unfolding row_weight sum_of
  sum_by_variant g [] xs h = sum_of_ext _ (λ i. 0) xs (λ i. ground arith) ∙ sum_of_zero xs ∙ refl
  sum_by_variant g (v ∷ ids) xs h =
      sum_of_ext _
        (λ i. row_weight g v i + (if is_item_of m o i && contains i.variant_id ids then g i else 0))
        xs (λ i. ground (arith, ==_iff i.variant_id v))
      ∙ sum_of_add (row_weight g v)
          (λ i. if is_item_of m o i && contains i.variant_id ids then g i else 0) xs
      ∙ omega (arith, sum_by_variant g ids xs h.1)

  pub delete_others-items :
      (g : OrderItem → ℕ) (ids : List Uuid) (db : Db)
      → IsDistinct ids
      → sum_of (item_weight g) (delete_others m o ids db).items
        ≡ sum_of (λ v. sum_of (row_weight g v) db.items) ids
  unfolding delete_others item_weight
  delete_others-items g ids db h =
      sum_of-filter _ (item_weight g) db.items
      ∙ sum_of_ext _ (λ i. if is_item_of m o i && contains i.variant_id ids then g i else 0)
          db.items (λ i. ground arith)
      ∙ sum_by_variant g ids db.items h

  pub length-current_items :
      (db : Db) → length (current_items m o db) ≡ sum_of (item_weight (λ i. 1)) db.items
  unfolding current_items item_weight
  length-current_items db =
      sym (sum_of_ones (current_items m o db))
      ∙ (unfold current_items in
          (sum_of-sort_created (λ i. 1) (filter (is_item_of m o) db.items)
            ∙ sum_of-filter (is_item_of m o) (λ i. 1) db.items))

  -- An order has as many rows at least as some of its variants have together.
  pub delete_others_le :
      (ids : List Uuid) (db : Db)
      → sum_of (item_weight (λ i. 1)) (delete_others m o ids db).items
        ≤ sum_of (item_weight (λ i. 1)) db.items
  unfolding delete_others
  delete_others_le ids db = sum_of-filter_le _ (item_weight (λ i. 1)) db.items

  pub no_row :
      (g : OrderItem → ℕ) (v : Uuid) (xs : List OrderItem)
      → sum_of (row_weight (λ i. 1) v) xs ≡ 0
      → sum_of (row_weight g v) xs ≡ 0
  unfolding sum_of row_weight
  no_row g v [] e = refl
  no_row g v (x ∷ xs) e = ground (arith, no_row g v xs)
