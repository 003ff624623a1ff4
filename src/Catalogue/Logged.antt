-- ===== src/Catalogue/Logged.antt =====
-- The price history of a variant ends with its price: proofs about Catalogue.antt.
use tteeka.Prelude.{
  ℕ, ◌<◌, ◌⊎◌, ◌≡◌, refl, sym, ◌∙◌, inl, inr, Bool, true, false, Option, none, some, List, [], ◌∷◌,
  ◌++◌, ◌==◌, ◌&&◌, same_option, ==_iff, ==_refl, arith, Bool-cases, Option-cases, if◌then◌else◌,
}
use tteeka.Prelude.Table.{find, find_holds, find-update_first, find-update_first_other}
use tteeka.Schema.{Db, Uuid, Currency, Date, Variant, VariantPriceHistory, Merchant, max_bigint}
use tteeka.Store.{Result, ok, err, bigint_out_of_range}
use tteeka.Authorization.{is_merchant}
use tteeka.Catalogue.{
  SetVariantPriceInput, find_variant_of, is_variant_of, is_variant_id, is_same_price,
  priced_variant, new_price, save_price, set_variant_price, fits_bigint, is_cost, is_price_input,
}

abbrev pub is_price_of : Uuid → Uuid → VariantPriceHistory → Bool
is_price_of m v r = r.merchant_id == m && r.variant_id == v

-- The row of the variant that was written last.
unfoldable pub last_price : Uuid → Uuid → List VariantPriceHistory → Option VariantPriceHistory
last_price m v [] = none
last_price m v (r ∷ rs) = elim (last_price m v rs) [
  | some later ↦ some later
  | none ↦ if is_price_of m v r then some r else none
]

last_price-append :
    (m v : Uuid) (rs : List VariantPriceHistory) (r : VariantPriceHistory)
    → last_price m v (rs ++ r ∷ []) ≡ (if is_price_of m v r then some r else last_price m v rs)
unfolding last_price
last_price-append m v [] r = ground arith
last_price-append m v (x ∷ xs) r = ground (arith, last_price-append m v xs r)

-- The variant has the price of the row, or none where there is no row.
abbrev pub PricedAs : Option VariantPriceHistory → Variant → Type 0
PricedAs none x =
    (x.selling_price ≡ none)
    × (x.cost_price ≡ none)
    × (x.price_currency ≡ none)
    × (x.price_updated_at ≡ none)
PricedAs (some r) x =
    (x.selling_price ≡ some r.selling_price)
    × (x.cost_price ≡ r.cost_price)
    × (x.price_currency ≡ some r.currency)
    × (x.price_updated_at ≡ some r.created_at)

-- Every variant has the price that its history ends with.
abbrev pub IsLogged : Db → Type 0
IsLogged db =
    (m v : Uuid) (x : Variant)
    → find (is_variant_id m v) db.variants ≡ some x
    → PricedAs (last_price m v db.catalogue.prices) x

same_option_eq : (a b : Option ℕ) → same_option a b ≡ true → a ≡ b
same_option_eq none none h = refl
same_option_eq none (some b) h = absurd (ground (arith, h))
same_option_eq (some a) none h = absurd (ground (arith, h))
same_option_eq (some a) (some b) h = ground (arith, h, ==_iff a b)

-- A variant that has the price asked for, in the merchant's currency.
pub record IsPricedIn (m id : Uuid) (input : SetVariantPriceInput) (db db' : Db) (x : Variant)
    : Type 0 where
  seller : Merchant
  has_seller : find (is_merchant m) db.access.merchants ≡ some seller
  selling_price : x.selling_price ≡ some input.selling_price
  cost_price : x.cost_price ≡ input.cost_price
  currency : x.price_currency ≡ some seller.currency
  found : find (is_variant_id m id) db'.variants ≡ some x

-- A price that a BIGINT column does not take.
abbrev pub IsTooLarge : SetVariantPriceInput → Type 0
IsTooLarge input =
    (max_bigint < input.selling_price)
    ⊎ ((cost : ℕ) × (input.cost_price ≡ some cost) × (max_bigint < cost))

too_large :
    (input : SetVariantPriceInput)
    → (fits_bigint input.selling_price && is_cost input.cost_price) ≡ false
    → IsTooLarge input × (is_price_input input ≡ false)
unfolding is_price_input
too_large input e = elim (Bool-cases (fits_bigint input.selling_price)) [
  | inr above ↦ (inl (ground (arith, above)), ground (arith, e))
  | inl fits ↦ elim (Option-cases input.cost_price) [
    | inl free ↦ absurd (ground (arith, fits, free, e))
    | inr (cost, c) ↦ (inr (cost, c, ground (arith, fits, c, e)), ground (arith, fits, c, e))
  ]
]

-- A call answers with a priced variant, or with none and no change; it throws, and changes nothing,
-- only for a price that its column does not take, which the request schema does not accept.
unfoldable pub IsAnswered :
    Uuid → Uuid → SetVariantPriceInput → Db → Result (Option Variant) × Db → Type 0
IsAnswered m id input db (ok none, db') = db' ≡ db
IsAnswered m id input db (ok (some x), db') = IsPricedIn m id input db db' x
IsAnswered m id input db (err e, db') =
    (e ≡ bigint_out_of_range) × IsTooLarge input × (is_price_input input ≡ false) × (db' ≡ db)

module _ (m id : Uuid) (input : SetVariantPriceInput) (currency : Currency) (now : Date) (db : Db)
    (x : Variant) (f : find (is_variant_id m id) db.variants ≡ some x) where
  saved_found :
      find (is_variant_id m id) (save_price m id input currency now db).variants
      ≡ some (priced_variant input currency now x)
  unfolding save_price
  saved_found =
      find-update_first (is_variant_id m id) (priced_variant input currency now) db.variants
        (unfold is_variant_id priced_variant in find_holds (is_variant_id m id) db.variants f) f

  own_price :
      (y : Variant)
      → find (is_variant_id m id) (save_price m id input currency now db).variants ≡ some y
      → PricedAs (last_price m id (save_price m id input currency now db).catalogue.prices) y
  unfolding save_price priced_variant
  own_price y g =
      let same : priced_variant input currency now x ≡ y = ground (arith, saved_found, g) in
      let last : last_price m id (save_price m id input currency now db).catalogue.prices
          ≡ some (new_price m id input currency now) =
        last_price-append m id db.catalogue.prices (new_price m id input currency now)
        ∙ ground (arith, ==_refl m, ==_refl id) in
      rw (last, ← same) (refl, refl, refl, refl)

  other_variant :
      (m' v : Uuid)
      → (m' == m && v == id) ≡ false
      → (a : Variant) → is_variant_id m id a ≡ true
      → (is_variant_id m' v a ≡ false)
        × (is_variant_id m' v (priced_variant input currency now a) ≡ false)
  unfolding is_variant_id priced_variant
  other_variant m' v other a e =
      let no : is_variant_id m' v a ≡ false = ground (
        arith,
        other,
        e,
        ==_iff m' m,
        ==_iff v id,
        ==_iff a.merchant_id m',
        ==_iff a.merchant_id m,
        ==_iff a.id v,
        ==_iff a.id id,
      ) in
      (no, no)

  other_price :
      (m' v : Uuid)
      → (m' == m && v == id) ≡ false
      → (find (is_variant_id m' v) (save_price m id input currency now db).variants
          ≡ find (is_variant_id m' v) db.variants)
        × (last_price m' v (save_price m id input currency now db).catalogue.prices
            ≡ last_price m' v db.catalogue.prices)
  unfolding save_price
  other_price m' v other = (
    find-update_first_other (is_variant_id m' v) (is_variant_id m id)
        (priced_variant input currency now) db.variants (λ a e. other_variant m' v other a e),
    last_price-append m' v db.catalogue.prices (new_price m id input currency now)
        ∙ ground (arith, other, ==_iff m' m, ==_iff m m', ==_iff v id, ==_iff id v),
  )

  same_price :
      (m' v : Uuid) (y : Variant)
      → m' ≡ m
      → v ≡ id
      → find (is_variant_id m' v) (save_price m id input currency now db).variants ≡ some y
      → PricedAs (last_price m' v (save_price m id input currency now db).catalogue.prices) y
  same_price m' v y same_m same_v = rw (same_m, same_v) (own_price y)

  save_price-IsLogged : IsLogged db → IsLogged (save_price m id input currency now db)
  save_price-IsLogged logged m' v y g = elim (Bool-cases (m' == m && v == id)) [
    | inl own ↦
        same_price m' v y ((==_iff m' m).0 (ground (arith, own)))
          ((==_iff v id).0 (ground (arith, own))) g
    | inr other ↦ rw (other_price m' v other).1 (logged m' v y (sym (other_price m' v other).0 ∙ g))
  ]

-- A call that leaves and answers so.
abbrev pub Settles : Uuid → Uuid → SetVariantPriceInput → Db → Result (Option Variant) × Db → Type 0
Settles m id input db r = IsLogged r.1 × IsAnswered m id input db r

settled :
    (m id : Uuid) (input : SetVariantPriceInput) (db : Db) (r s : Result (Option Variant) × Db)
    → r ≡ s
    → Settles m id input db s
    → Settles m id input db r
settled m id input db r s e k = rw e k

module _ (m id : Uuid) (input : SetVariantPriceInput) (now : Date) (db : Db) (x : Variant)
    (s : Merchant) (f : find (is_variant_id m id) db.variants ≡ some x)
    (has_seller : find (is_merchant m) db.access.merchants ≡ some s) where
  answered_same : is_same_price input s.currency x ≡ true → IsPricedIn m id input db db x
  answered_same same = record {
    seller = s;
    has_seller = has_seller;
    selling_price =
        same_option_eq x.selling_price (some input.selling_price) (ground (arith, same));
    cost_price = same_option_eq x.cost_price input.cost_price (ground (arith, same));
    currency = same_option_eq x.price_currency (some s.currency) (ground (arith, same));
    found = f;
  }

  answered_changed :
      IsPricedIn m id input db
        (save_price m id input s.currency now db)
        (priced_variant input s.currency now x)
  unfolding priced_variant
  answered_changed = record {
    seller = s;
    has_seller = has_seller;
    selling_price = refl;
    cost_price = refl;
    currency = refl;
    found = saved_found m id input s.currency now db x f;
  }

-- Where the history of every variant ends with the price that the variant has, it still does after
-- a call of `setVariantPrice`. The call changes nothing and answers with none; or the variant now
-- has the prices asked for, in the currency of its merchant, and is the answer; or, only for an
-- input that the request schema does not accept, the database refuses a price that is too large for
-- it, and nothing changes.
pub set_variant_price-IsLogged :
    (m product_id id : Uuid) (input : SetVariantPriceInput) (now : Date) (db : Db)
    → IsLogged db
    → Settles m id input db (set_variant_price m product_id id input now db)
unfolding set_variant_price find_variant_of IsAnswered
set_variant_price-IsLogged m product_id id input now db logged =
    let run = set_variant_price m product_id id input now db in
    elim (Option-cases (find (is_variant_of m product_id id) db.variants)) [
      | inl unlocked ↦
          settled m id input db run (ok none, db) (ground (arith, unlocked)) (logged, refl)
      | inr (y, locked) ↦ elim (Option-cases (find (is_variant_id m id) db.variants)) [
        | inl absent ↦
            settled m id input db run (ok none, db) (ground (arith, locked, absent)) (logged, refl)
        | inr (x, f) ↦ elim (Option-cases (find (is_merchant m) db.access.merchants)) [
          | inl nobody ↦
              settled m id input db run (ok none, db) (ground (arith, locked, f, nobody))
                (logged, refl)
          | inr (s, has_seller) ↦ elim (Bool-cases (is_same_price input s.currency x)) [
            | inl same ↦
                settled m id input db run (ok (some x), db)
                  (ground (arith, locked, f, has_seller, same))
                  (logged, answered_same m id input now db x s f has_seller same)
            | inr changed ↦
                elim (Bool-cases (fits_bigint input.selling_price && is_cost input.cost_price)) [
                  | inr large ↦
                      let (above, refused) = too_large input large in
                      settled m id input db run (err bigint_out_of_range, db)
                        (ground (arith, locked, f, has_seller, changed, large))
                        (logged, (refl, above, refused, refl))
                  | inl fits ↦
                      settled m id input db run
                        (
                          ok (some (priced_variant input s.currency now x)),
                          save_price m id input s.currency now db,
                        )
                        (ground (arith, locked, f, has_seller, changed, fits))
                        (
                          save_price-IsLogged m id input s.currency now db x f logged,
                          answered_changed m id input now db x s f has_seller,
                        )
                ]
          ]
        ]
      ]
    ]
