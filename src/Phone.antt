-- ===== src/Phone.antt =====
-- Telephone numbers of Uganda: apps/api/src/common/uganda-phone.ts. A text is the list of its UTF-16
-- units.
pub mod Spelling
use tteeka.Prelude.{
  ℕ, zero, suc, Bool, true, false, not, Option, none, some, List, [], ◌∷◌, ◌++◌, leb, ◌==◌, ◌&&◌,
  ◌||◌, length, all, if◌then◌else◌,
}
use tteeka.Prelude.Table.{filter}
use tteeka.Prelude.Texts.{is_space}

abbrev pub Units : Type 0
Units = List ℕ

-- `PRESENTATION_SEPARATORS`: white space, parentheses and the dash
unfoldable pub is_separator : ℕ → Bool
unfolding is_space
is_separator c = is_space c || c == 40 || c == 41 || c == 45

abbrev pub is_digit : ℕ → Bool
is_digit c = leb 48 c && leb c 57

-- `UGANDAN_NATIONAL_NUMBER`: a 7 and eight digits
unfoldable pub is_national : Units → Bool
is_national [] = false
is_national (c ∷ cs) = c == 55 && length cs == 8 && all is_digit cs

-- `trim`
unfoldable pub units_trim_start : Units → Units
units_trim_start [] = []
units_trim_start (c ∷ cs) = let rest = units_trim_start cs in if is_space c then rest else c ∷ cs

unfoldable pub units_trim_end : Units → Units
units_trim_end [] = []
units_trim_end (c ∷ cs) =
    let rest = units_trim_end cs in if is_space c && length rest == 0 then [] else c ∷ rest

-- `compact`
unfoldable pub compact : Units → Units
unfolding units_trim_start units_trim_end is_separator
compact value = filter (λ c. not (is_separator c)) (units_trim_end (units_trim_start value))

-- `startsWith`
unfoldable pub starts_with : Units → Units → Bool
starts_with [] s = true
starts_with (c ∷ cs) [] = false
starts_with (c ∷ cs) (d ∷ ds) = c == d && starts_with cs ds

-- `slice(n)`
unfoldable pub slice_from : ℕ → Units → Units
slice_from zero s = s
slice_from (suc n) [] = []
slice_from (suc n) (c ∷ cs) = slice_from n cs

-- `+256`, `256`, `0` and `7`
abbrev pub plus_code : Units
plus_code = 43 ∷ 50 ∷ 53 ∷ 54 ∷ []

abbrev pub bare_code : Units
bare_code = 50 ∷ 53 ∷ 54 ∷ []

abbrev pub trunk_prefix : Units
trunk_prefix = 48 ∷ []

abbrev pub first_digit : Units
first_digit = 55 ∷ []

-- `nationalNumber`; none is where the function returns null early.
unfoldable pub national_number : Units → Option Units
unfolding starts_with slice_from
national_number s =
    if starts_with plus_code s
    then some (slice_from 4 s)
    else if starts_with bare_code s
    then some (slice_from 3 s)
    else if starts_with trunk_prefix s
    then some (slice_from 1 s)
    else if starts_with first_digit s
    then some s
    else none

unfoldable pub international : Units → Option Units
unfolding is_national
international n = if is_national n then some (plus_code ++ n) else none

abbrev pub normalize_compact : Option Units → Option Units
normalize_compact none = none
normalize_compact (some n) = international n

unfoldable pub normalize_uganda_phone : Units → Option Units
unfolding compact national_number international
normalize_uganda_phone value = normalize_compact (national_number (compact value))
