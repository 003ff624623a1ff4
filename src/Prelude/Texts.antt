-- ===== src/Prelude/Texts.antt =====
-- The methods of JavaScript's strings that the services use. A character of a text stands for a
-- UTF-16 unit.
use Prim.Native.Nat.{ℕ, zero, suc, ◌≤◌}
use Prim.Native.Char.{code}
use Prim.Native.String.{String}
use mathlib.Core.Path.{◌≡◌}
use mathlib.Core.Logic.{◌↔◌}
use mathlib.Core.Bool.{Bool, true, false, ◌&&◌, ◌||◌}
use native.Mathlib.Omega.{arith}
use tteeka.Prelude.Tests.{ltb, leb, ◌==◌, if◌then◌else◌}
use text.Mathlib.Text as Text
use text.Mathlib.TextEquality.{eq_iff}

-- `===` on texts
abbrev pub str_eq : String → String → Bool
str_eq s t = Text.◌==◌ s t

pub str_eq_iff : (s t : String) → (str_eq s t ≡ true) ↔ (s ≡ t)
str_eq_iff s t = eq_iff s t

-- White space and line terminators, which `trim` removes and `\s` matches.
unfoldable pub is_space : ℕ → Bool
is_space c =
    (leb 9 c && leb c 13)
    || c == 32
    || c == 160
    || c == 5760
    || (leb 8192 c && leb c 8202)
    || c == 8232
    || c == 8233
    || c == 8239
    || c == 8287
    || c == 12288
    || c == 65279

abbrev pub is_blank : String → Bool
is_blank String.[] = true
is_blank (String.◌∷◌ c s) = false

unfoldable pub trim_start : String → String
trim_start String.[] = String.[]
trim_start (String.◌∷◌ c s) =
    let rest = trim_start s in if is_space (code c) then rest else String.◌∷◌ c s

unfoldable pub trim_end : String → String
trim_end String.[] = String.[]
trim_end (String.◌∷◌ c s) =
    let rest = trim_end s in
    if is_blank rest && is_space (code c) then String.[] else String.◌∷◌ c rest

unfoldable pub trim : String → String
unfolding trim_start trim_end is_space
trim s = trim_end (trim_start s)

-- `slice(0, max)`
unfoldable pub slice : ℕ → String → String
slice zero s = String.[]
slice (suc n) String.[] = String.[]
slice (suc n) (String.◌∷◌ c s) = String.◌∷◌ c (slice n s)

-- `length`
unfoldable pub text_length : String → ℕ
text_length String.[] = 0
text_length (String.◌∷◌ c s) = suc (text_length s)

pub length-slice_le : (n : ℕ) (s : String) → text_length (slice n s) ≤ n
unfolding text_length slice
length-slice_le zero s = omega arith
length-slice_le (suc n) String.[] = omega arith
length-slice_le (suc n) (String.◌∷◌ c s) = omega (arith, length-slice_le n s)

-- `<` on texts, unit by unit
unfoldable pub text_lt : String → String → Bool
text_lt String.[] String.[] = false
text_lt String.[] (String.◌∷◌ d t) = true
text_lt (String.◌∷◌ c s) String.[] = false
text_lt (String.◌∷◌ c s) (String.◌∷◌ d t) =
    ltb (code c) (code d) || (code c == code d && text_lt s t)

unfoldable pub all_units : (ℕ → Bool) → String → Bool
all_units p String.[] = true
all_units p (String.◌∷◌ c s) = p (code c) && all_units p s
