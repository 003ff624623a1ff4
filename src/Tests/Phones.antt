-- ===== src/Tests/Phones.antt =====
-- The number 0770 000000.
use tteeka.Prelude.{◌≡◌, ◌++◌, refl, true, some, [], ◌∷◌}
use tteeka.Prelude.Table.{filter}
use tteeka.Prelude.Texts.{is_space}
use tteeka.Phone.{
  Units, is_separator, is_national, units_trim_start, units_trim_end, compact, starts_with,
  slice_from, plus_code, national_number, international, normalize_uganda_phone,
}
use tteeka.Phone.Spelling.{Spells, normalize_uganda_phone_again}

abbrev national : Units
national = 55 ∷ 55 ∷ 48 ∷ 48 ∷ 48 ∷ 48 ∷ 48 ∷ 48 ∷ 48 ∷ []

abbrev spelled : Units
spelled = 48 ∷ 55 ∷ 55 ∷ 48 ∷ 32 ∷ 48 ∷ 48 ∷ 48 ∷ 48 ∷ 48 ∷ 48 ∷ []

normalize_run : normalize_uganda_phone spelled ≡ some (plus_code ++ national)
unfolding normalize_uganda_phone compact units_trim_start units_trim_end is_separator is_space
    national_number starts_with slice_from international is_national filter
normalize_run = refl

normalize_uganda_phone_again_example :
    (n : Units) × (is_national n ≡ true)
    × Spells n (compact spelled)
    × (plus_code ++ national ≡ plus_code ++ n)
    × (normalize_uganda_phone (plus_code ++ national) ≡ some (plus_code ++ national))
    × ((other : Units)
        → Spells n (compact other)
        → normalize_uganda_phone other ≡ some (plus_code ++ national))
normalize_uganda_phone_again_example =
    normalize_uganda_phone_again spelled (plus_code ++ national) normalize_run
