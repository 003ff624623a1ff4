-- ===== src/Phone/Spelling.antt =====
-- Which texts are numbers, and that a number is its own normal form: proofs about Phone.antt.
use tteeka.Prelude.{
  ℕ, ◌≡◌, refl, ap, ◌∙◌, ◌↔◌, ◌⊎◌, inl, inr, true, false, not, some, [], ◌∷◌, ◌++◌, length, all,
  arith, Bool-cases, Option-cases, ==_iff,
}
use tteeka.Prelude.Table.{filter}
use tteeka.Prelude.Texts.{is_space}
use tteeka.Phone.{
  Units, is_separator, is_digit, is_national, units_trim_start, units_trim_end, compact,
  starts_with, slice_from, plus_code, bare_code, trunk_prefix, first_digit, national_number,
  international, normalize_uganda_phone,
}

-- The text s is the national number n as it stands, or after a 0, 256 or +256.
abbrev pub Spells : Units → Units → Type 0
Spells n s = (s ≡ plus_code ++ n) ⊎ (s ≡ bare_code ++ n) ⊎ (s ≡ trunk_prefix ++ n) ⊎ (s ≡ n)

starts_with-eq : (p s : Units) → starts_with p s ≡ true → s ≡ p ++ slice_from (length p) s
unfolding starts_with slice_from
starts_with-eq [] s h = refl
starts_with-eq (c ∷ cs) [] h = absurd (ground (arith, h))
starts_with-eq (c ∷ cs) (d ∷ ds) h =
    let same : c ≡ d = (==_iff c d).0 (ground (arith, h)) in
    let rest : ds ≡ cs ++ slice_from (length cs) ds = starts_with-eq cs ds (ground (arith, h)) in
    rw same (ap (λ t. d ∷ t) rest)

national_number-Spells : (s n : Units) → national_number s ≡ some n → Spells n s
unfolding national_number
national_number-Spells s n e = elim (Bool-cases (starts_with plus_code s)) [
  | inl h ↦ inl (starts_with-eq plus_code s h ∙ ap (λ t. plus_code ++ t) ((ground (arith, h, e))))
  | inr h₁ ↦ elim (Bool-cases (starts_with bare_code s)) [
    | inl h ↦
        inr (
          inl
            (starts_with-eq bare_code s h ∙ ap (λ t. bare_code ++ t) ((ground (arith, h₁, h, e)))))
    | inr h₂ ↦ elim (Bool-cases (starts_with trunk_prefix s)) [
      | inl h ↦ inr (
          inr (
            inl (
              starts_with-eq trunk_prefix s h
              ∙ ap (λ t. trunk_prefix ++ t) ((ground (arith, h₁, h₂, h, e))))))
      | inr h₃ ↦ elim (Bool-cases (starts_with first_digit s)) [
        | inl h ↦ inr (inr (inr (ground (arith, h₁, h₂, h₃, h, e))))
        | inr h₄ ↦ absurd (ground (arith, h₁, h₂, h₃, h₄, e))
      ]
    ]
  ]
]

Spells-national_number :
    (s n : Units) → is_national n ≡ true → Spells n s → national_number s ≡ some n
unfolding national_number is_national starts_with slice_from
Spells-national_number s [] h w = absurd (ground (arith, h))
Spells-national_number s (d ∷ ds) h w =
    let seven : d ≡ 55 = (==_iff d 55).0 (ground (arith, h)) in
    elim w [
      | inl e ↦ rw e refl
      | inr (inl e) ↦ rw e refl
      | inr (inr (inl e)) ↦ rw e refl
      | inr (inr (inr e)) ↦ rw (e, seven) refl
    ]

-- A text without separators is what `compact` makes of it.
is_digit-kept : (c : ℕ) → is_digit c ≡ true → not (is_separator c) ≡ true
unfolding is_separator is_space
is_digit-kept c h = ground (arith, h)

all_kept : (s : Units) → all is_digit s ≡ true → all (λ c. not (is_separator c)) s ≡ true
all_kept [] h = refl
all_kept (c ∷ cs) h = ground (arith, h, is_digit-kept c, all_kept cs)

is_separator-not_space : (c : ℕ) → not (is_separator c) ≡ true → is_space c ≡ false
unfolding is_separator
is_separator-not_space c h = ground (arith, h)

trim_start_kept : (s : Units) → all (λ c. not (is_separator c)) s ≡ true → units_trim_start s ≡ s
unfolding units_trim_start
trim_start_kept [] h = refl
trim_start_kept (c ∷ cs) h =
    let no_space : is_space c ≡ false = is_separator-not_space c (ground (arith, h)) in
    rw no_space refl

trim_end_kept : (s : Units) → all (λ c. not (is_separator c)) s ≡ true → units_trim_end s ≡ s
unfolding units_trim_end
trim_end_kept [] h = refl
trim_end_kept (c ∷ cs) h =
    let no_space : is_space c ≡ false = is_separator-not_space c (ground (arith, h)) in
    let rest : units_trim_end cs ≡ cs = trim_end_kept cs (ground (arith, h)) in
    rw (no_space, rest) refl

filter_kept :
    (s : Units)
    → all (λ c. not (is_separator c)) s ≡ true
    → filter (λ c. not (is_separator c)) s ≡ s
unfolding filter
filter_kept [] h = refl
filter_kept (c ∷ cs) h = ground (arith, h, filter_kept cs)

compact_kept : (s : Units) → all (λ c. not (is_separator c)) s ≡ true → compact s ≡ s
unfolding compact
compact_kept s h = rw (trim_start_kept s h, trim_end_kept s h) (filter_kept s h)

compact-international : (n t : Units) → international n ≡ some t → compact t ≡ t
unfolding international is_separator is_space is_national
compact-international [] t e = absurd (ground (arith, e))
compact-international (c ∷ cs) t e =
    let kept : all (λ d. not (is_separator d)) cs ≡ true = all_kept cs (ground (arith, e)) in
    let seven : c ≡ 55 = (==_iff c 55).0 (ground (arith, e)) in
    let same : plus_code ++ c ∷ cs ≡ t = ground (arith, e) in
    rw (← same) (compact_kept (plus_code ++ c ∷ cs) (ground (arith, kept, seven)))

-- A text is normalized to t exactly when, without its separators, it is a national number as it
-- stands or after a 0, 256 or +256, a national number being a 7 and eight digits, and t is the
-- same number after +256.
normalize_uganda_phone-Spells :
    (value t : Units)
    → (normalize_uganda_phone value ≡ some t)
      ↔ ((n : Units) × (is_national n ≡ true) × Spells n (compact value) × (t ≡ plus_code ++ n))
unfolding normalize_uganda_phone international
normalize_uganda_phone-Spells value t = (
  λ e. elim (Option-cases (national_number (compact value))) [
    | inl nothing ↦ absurd (ground (arith, nothing, e))
    | inr (n, g) ↦
        (n, ground (arith, g, e), national_number-Spells (compact value) n g, ground (arith, g, e))
  ],
  λ (n, h, w, same). ground (arith, Spells-national_number (compact value) n h w, h, same),
)

-- What is normalized to t spells a national number n, a 7 and eight digits, once its separators
-- are taken out: n stands there alone or after a 0, 256 or +256. Then t is n after +256, it is
-- normalized to itself, and every other text that spells n is normalized to t as well.
pub normalize_uganda_phone_again :
    (value t : Units)
    → normalize_uganda_phone value ≡ some t
    → (n : Units) × (is_national n ≡ true)
      × Spells n (compact value)
      × (t ≡ plus_code ++ n)
      × (normalize_uganda_phone t ≡ some t)
      × ((other : Units) → Spells n (compact other) → normalize_uganda_phone other ≡ some t)
unfolding international
normalize_uganda_phone_again value t e =
    let (n, h, w, same) = (normalize_uganda_phone-Spells value t).0 e in
    let whole : compact t ≡ t = compact-international n t (ground (arith, h, same)) in
    (
      n,
      h,
      w,
      same,
      (normalize_uganda_phone-Spells t t).1 (n, h, inl (whole ∙ same), same),
      λ other spelled. (normalize_uganda_phone-Spells other t).1 (n, h, spelled, same),
    )
