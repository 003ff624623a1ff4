-- ===== src/Order/Items/Desired.antt =====
-- What the computation of `desired` in Items.antt gives.
use tteeka.Prelude.{
  ℕ, ◌+◌, ◌*◌, ◌≤◌, ◌≡◌, refl, true, false, some, List, [], ◌∷◌, map, ltb, ◌==◌, contains, All,
  if◌then◌else◌, arith, Option-cases, Bool-cases, inl, inr, ==_iff,
}
use tteeka.Prelude.Table.{sum_of}
use tteeka.Schema.{Db, Uuid, OrderItem, Variant, max_bigint}
use tteeka.Store.{ok, Outcome-cases}
use tteeka.Order.Desired.{
  OrderItemInput, has_no_duplicate, by_variant, by_id, DesiredItem, price_of, currency_of,
  desired_item, priced_item, desired_items, subtotal_from, ids_of, current_items,
}
use tteeka.Order.Items.Rows.{row_weight, IsDistinct, by_variant_rows}
use tteeka.Order.Items.Written.{Weight, weight_of, old_weight, new_weight, Known, asked}

-- What a desired item has to do with the rows and the variants that were read.
pub record Made (current : List OrderItem) (variants : List Variant) (d : DesiredItem)
    : Type 0 where
  pub existing : d.existing ≡ by_variant d.variant_id current
  pub variant : d.variant ≡ by_id d.variant_id variants
  pub line : d.line_total ≡ d.quantity * d.unit_selling_price
  pub price : (e : OrderItem) → d.existing ≡ some e → e.unit_selling_price ≡ d.unit_selling_price

-- What an input asks of a variant.
unfoldable pub requested : Uuid → List OrderItemInput → ℕ
requested v [] = 0
requested v (i ∷ is) = (if v == i.variant_id then i.quantity else 0) + requested v is

priced_item-Made :
    (current : List OrderItem) (variants : List Variant) (i : OrderItemInput) (db : Db)
    {d : DesiredItem} {db' : Db}
    → let existing = by_variant i.variant_id current in
      let variant = by_id i.variant_id variants in
      priced_item i existing variant (price_of existing variant) (currency_of existing variant) db
        ≡ (ok d, db')
      → Made current variants d
        × (d.variant_id ≡ i.variant_id)
        × (d.quantity ≡ i.quantity)
        × (db' ≡ db)
unfolding priced_item desired_item
priced_item-Made current variants i db {d} {db'} e =
    let existing = by_variant i.variant_id current in
    let variant = by_id i.variant_id variants in
    elim (Option-cases (price_of existing variant)) [
      | inl no_price ↦ absurd (ground (arith, no_price, e))
      | inr (unit, p) ↦ elim (Option-cases (currency_of existing variant)) [
        | inl no_currency ↦ absurd (ground (arith, p, no_currency, e))
        | inr (currency, c) ↦ (
          record {
            existing = ground (arith, p, c, e);
            variant = ground (arith, p, c, e);
            line = ground (arith, p, c, e);
            price = λ old ex. ground (arith, p, c, e, ex);
          },
          ground (arith, p, c, e),
          ground (arith, p, c, e),
          ground (arith, p, c, e),
        )
      ]
    ]

pub desired_items-Made :
    (current : List OrderItem) (variants : List Variant) (is : List OrderItemInput) (db : Db)
    {ds : List DesiredItem} {db' : Db}
    → desired_items current variants is db ≡ (ok ds, db')
    → All (Made current variants) ds
      × (ids_of ds ≡ map (λ (i : OrderItemInput). i.variant_id) is)
      × ((v : Uuid) → asked (λ q u t. q) v ds ≡ requested v is)
      × (db' ≡ db)
unfolding desired_items asked requested sum_of
desired_items-Made current variants [] db {ds} {db'} e =
    let none_made : ds ≡ [] = ground (arith, e) in
    rw none_made (tt, refl, λ v. refl, ground (arith, e))
desired_items-Made current variants (i ∷ is) db {ds} {db'} e =
    let existing = by_variant i.variant_id current in
    let variant = by_id i.variant_id variants in
    elim (Outcome-cases (
      priced_item i existing variant (price_of existing variant) (currency_of existing variant)
        db)) [
          | inr (x, db₁, refused) ↦ absurd (ground (arith, refused, e))
          | inl (d, db₁, made) ↦
              let first = priced_item-Made current variants i db {d = d} {db' = db₁} made in
              elim (Outcome-cases (desired_items current variants is db₁)) [
                | inr (x, db₂, refused) ↦ absurd (ground (arith, made, refused, e))
                | inl (ds₁, db₂, more) ↦
                    let rest =
                      desired_items-Made current variants is db₁ {ds = ds₁} {db' = db₂} more in
                    let whole : ds ≡ d ∷ ds₁ = ground (arith, made, more, e) in
                    rw whole (
                      (first.0, rest.0),
                      ground (arith, first.1, rest.1),
                      λ v. ground (arith, first.1, first.2, rest.2 v),
                      ground (arith, made, more, e, first.3, rest.3),
                    )
              ]
        ]

not_seen :
    (a : Uuid) (is : List OrderItemInput) (seen : List Uuid)
    → has_no_duplicate is seen ≡ true
    → contains a seen ≡ true
    → contains a (map (λ (i : OrderItemInput). i.variant_id) is) ≡ false
unfolding has_no_duplicate
not_seen a [] seen h k = refl
not_seen a (i ∷ is) seen h k =
    ground (arith, ==_iff a i.variant_id, not_seen a is (i.variant_id ∷ seen))

pub has_no_duplicate-IsDistinct :
    (is : List OrderItemInput) (seen : List Uuid)
    → has_no_duplicate is seen ≡ true
    → IsDistinct (map (λ (i : OrderItemInput). i.variant_id) is)
unfolding has_no_duplicate
has_no_duplicate-IsDistinct [] seen h = tt
has_no_duplicate-IsDistinct (i ∷ is) seen h = (
  not_seen i.variant_id is (i.variant_id ∷ seen) (ground (arith, h))
      (ground (arith, ==_iff i.variant_id i.variant_id)),
  has_no_duplicate-IsDistinct is (i.variant_id ∷ seen) (ground (arith, h)),
)

id-by_id : (v : Uuid) (xs : List Variant) {x : Variant} → by_id v xs ≡ some x → x.id ≡ v
unfolding by_id
id-by_id v [] e = ground (arith, e)
id-by_id v (y ∷ xs) {x} e = elim (Option-cases (by_id v xs)) [
  | inl n ↦ ground (arith, n, e, ==_iff y.id v)
  | inr (z, s) ↦ ground (arith, s, e, id-by_id v xs {x = z} s)
]

pub subtotal_from-sum :
    (s : ℕ) (ds : List DesiredItem) {t : ℕ}
    → subtotal_from s ds ≡ some t
    → s ≤ max_bigint
    → (t ≡ s + sum_of (new_weight (λ q u t. t)) ds) × (t ≤ max_bigint)
unfolding subtotal_from sum_of
subtotal_from-sum s [] e h = ground (arith, e)
subtotal_from-sum s (d ∷ ds) {t} e h = elim (Bool-cases (ltb max_bigint (s + d.line_total))) [
  | inl over ↦ absurd (ground (arith, over, e))
  | inr fits ↦
      let rest =
        subtotal_from-sum (s + d.line_total) ds {t = t} (ground (arith, fits, e))
          (ground (arith, fits)) in
      omega (arith, rest)
]

module _ (m o : Uuid) (db : Db) (variants : List Variant)
    (once : (v : Uuid) → sum_of (row_weight m o (λ i. 1) v) db.items ≤ 1)
    (lines : (v : Uuid)
      → sum_of (row_weight m o (weight_of (λ q u t. t)) v) db.items
        ≡ sum_of (row_weight m o (weight_of (λ q u t. q * u)) v) db.items) where
  Made-Known : (d : DesiredItem) → Made (current_items m o db) variants d → Known m o db d
  Made-Known d k =
      let seen : (w : Weight)
          → sum_of (row_weight m o (weight_of w) d.variant_id) db.items ≡ old_weight w d =
        λ w. ground (
          arith,
          by_variant_rows m o (weight_of w) d.variant_id db (once d.variant_id),
          k.existing,
        ) in
      record {
        rows = seen;
        line = k.line;
        price = k.price;
        old_line = λ e ex.
            ground (arith, seen (λ q u t. t), seen (λ q u t. q * u), lines d.variant_id, ex);
        named =
            λ x ex found. id-by_id d.variant_id variants {x = x} (ground (arith, k.variant, found));
      }

  pub All-Made-Known :
      (ds : List DesiredItem)
      → All (Made (current_items m o db) variants) ds
      → All (Known m o db) ds
  All-Made-Known [] k = tt
  All-Made-Known (d ∷ ds) k = (Made-Known d k.0, All-Made-Known ds k.1)
