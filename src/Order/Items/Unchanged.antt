-- ===== src/Order/Items/Unchanged.antt =====
-- The shortcut of `replaceItems` is right: what it takes for unchanged is what is asked for.
use tteeka.Prelude.{
  ◌+◌, ◌≡◌, refl, sym, ◌∙◌, true, false, List, [], ◌∷◌, ◌==◌, contains, All, length, all, arith,
  Option-cases, Bool-cases, inl, inr, ==_iff,
}
use tteeka.Prelude.Table.{sum_of}
use tteeka.Schema.{Db, Uuid}
use tteeka.Order.Desired.{DesiredItem, current_items, ids_of, is_unchanged, is_kept}
use tteeka.Order.Items.{delete_others}
use tteeka.Order.Items.Rows.{
  row_weight, item_weight, IsDistinct, delete_others-items, delete_others_le, length-current_items,
  no_row,
}
use tteeka.Order.Items.Written.{Weight, weight_of, old_weight, Known, asked, asked_none}

pub sum_over_ids :
    (m id : Uuid) (w : Weight) (db : Db) (ds : List DesiredItem)
    → All (Known m id db) ds
    → sum_of (λ v. sum_of (row_weight m id (weight_of w) v) db.items) (ids_of ds)
      ≡ sum_of (old_weight w) ds
unfolding sum_of
sum_over_ids m id w db [] k = refl
sum_over_ids m id w db (d ∷ ds) k = omega (arith, k.0.rows w, sum_over_ids m id w db ds k.1)

module _ (m id : Uuid) (db : Db) where
  kept_weight :
      (d : DesiredItem)
      → is_kept d ≡ true
      → Known m id db d
      → (old_weight (λ q u t. 1) d ≡ 1)
        × (sum_of (row_weight m id (weight_of (λ q u t. q)) d.variant_id) db.items ≡ d.quantity)
  kept_weight d h k = elim (Option-cases d.existing) [
    | inl new ↦ absurd (ground (arith, new, h))
    | inr (e, ex) ↦ (
      ground (arith, ex),
      ground (arith, ex, h, k.rows (λ q u t. q), ==_iff e.quantity d.quantity),
    )
  ]

  kept_count :
      (ds : List DesiredItem)
      → all is_kept ds ≡ true
      → All (Known m id db) ds
      → sum_of (old_weight (λ q u t. 1)) ds ≡ length ds
  unfolding sum_of
  kept_count [] h k = refl
  kept_count (d ∷ ds) h k =
      omega (arith, kept_weight d (ground (arith, h)) k.0, kept_count ds (ground (arith, h)) k.1)

  kept_rows :
      (v : Uuid) (ds : List DesiredItem)
      → all is_kept ds ≡ true
      → IsDistinct (ids_of ds)
      → All (Known m id db) ds
      → contains v (ids_of ds) ≡ true
      → sum_of (row_weight m id (weight_of (λ q u t. q)) v) db.items ≡ asked (λ q u t. q) v ds
  unfolding asked sum_of
  kept_rows v [] h i k there = absurd (ground (arith, there))
  kept_rows v (d ∷ ds) h i k there = elim (Bool-cases (v == d.variant_id)) [
    | inl this ↦ ground (
      arith,
      this,
      ==_iff v d.variant_id,
      i.0,
      kept_weight d (ground (arith, h)) k.0,
      asked_none (λ q u t. q) v ds,
    )
    | inr other ↦
        ground
          (arith, other, kept_rows v ds (ground (arith, h)) i.1 k.1 (ground (arith, other, there)))
  ]

  rows_with :
      (v : Uuid) (ids : List Uuid)
      → contains v ids ≡ false
      → IsDistinct ids
      → sum_of (item_weight m id (λ r. 1)) (delete_others m id (v ∷ ids) db).items
        ≡ sum_of (row_weight m id (λ r. 1) v) db.items
          + sum_of (λ v'. sum_of (row_weight m id (λ r. 1) v') db.items) ids
  unfolding sum_of
  rows_with v ids gone i = delete_others-items m id (λ r. 1) (v ∷ ids) db (gone, i)

  pub is_unchanged-asked :
      (v : Uuid) (ds : List DesiredItem)
      → is_unchanged ds (current_items m id db) ≡ true
      → IsDistinct (ids_of ds)
      → All (Known m id db) ds
      → sum_of (row_weight m id (weight_of (λ q u t. q)) v) db.items ≡ asked (λ q u t. q) v ds
  unfolding is_unchanged
  is_unchanged-asked v ds h i k =
      let kept : all is_kept ds ≡ true = ground (arith, h) in
      let counted : length ds ≡ length (current_items m id db) =
        ground (arith, h, ==_iff (length ds) (length (current_items m id db))) in
      elim (Bool-cases (contains v (ids_of ds))) [
        | inl there ↦ kept_rows v ds kept i k there
        | inr gone ↦
            let empty : sum_of (row_weight m id (λ r. 1) v) db.items ≡ 0 = omega (
              arith,
              rows_with v (ids_of ds) gone i,
              delete_others_le m id (v ∷ ids_of ds) db,
              length-current_items m id db,
              counted,
              sum_over_ids m id (λ q u t. 1) db ds k,
              kept_count ds kept k,
            ) in
            no_row m id (λ r. r.quantity) v db.items empty ∙ sym (asked_none (λ q u t. q) v ds gone)
      ]
