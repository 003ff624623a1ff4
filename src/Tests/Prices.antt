-- ===== src/Tests/Prices.antt =====
-- The first price of a variant.
use tteeka.Prelude.{◌≡◌, refl, some, none, [], ◌∷◌, inl, inr, Bool-cases, arith}
use tteeka.Prelude.Table.{find}
use tteeka.Schema.{Db, Variant, MerchantStatus}
use tteeka.Catalogue.{SetVariantPriceInput, set_variant_price, is_variant_id}
use tteeka.Catalogue.Logged.{IsLogged, IsAnswered, last_price, set_variant_price-IsLogged}
use tteeka.Tests.{shop, variant, no_access}

abbrev unpriced : Variant
unpriced = record (variant 10) { selling_price = none; price_currency = none }

abbrev shop_unpriced : Db
shop_unpriced = record shop {
  variants = unpriced ∷ [];
  access = record no_access {
    merchants =
        record {
          id = 1;
          display_name = "Kampala Styles";
          status = MerchantStatus.active;
          currency = 800;
        }
        ∷ [];
  };
}

abbrev price : SetVariantPriceInput
price = record { selling_price = 30000; cost_price = some 21000 }

unpriced-IsLogged : IsLogged shop_unpriced
unfolding last_price find is_variant_id
unpriced-IsLogged m v x f =
    let same : unpriced ≡ x = elim (Bool-cases (is_variant_id m v unpriced)) [
      | inl own ↦ ground (arith, own, f)
      | inr other ↦ absurd (ground (arith, other, f))
    ] in
    rw (← same) (refl, refl, refl, refl)

set_variant_price-IsLogged_example :
    let run = set_variant_price 1 9 10 price 2000 shop_unpriced in
    IsLogged run.1 × IsAnswered 1 10 price shop_unpriced run
set_variant_price-IsLogged_example =
    set_variant_price-IsLogged 1 9 10 price 2000 shop_unpriced unpriced-IsLogged
