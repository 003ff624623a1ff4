-- ===== src/Onboarding/Owner/Counted.antt =====
-- Where as many permissions are found as keys are asked for, every key has one.
use tteeka.Prelude.{
  ℕ, ◌+◌, ◌≤◌, ◌≡◌, refl, inl, inr, Bool, true, false, String, List, [], ◌∷◌, ◌&&◌, not, map,
  length, arith, Bool-cases, if◌then◌else◌,
}
use tteeka.Prelude.Table.{filter, sum_of}
use tteeka.Prelude.Texts.{str_eq, str_eq_iff}
use tteeka.Schema.{Permission}
use tteeka.Authorization.{has_key, is_active_permission}
use tteeka.AccessManagement.Roles.{assignable_permissions}
use tteeka.AccessManagement.Permitted.{is_active_key}

abbrev pub counted : String → Permission → ℕ
counted k p = if is_active_permission p.status && str_eq k p.key then 1 else 0

-- A key has one active permission at most, as the unique key of the table makes it.
abbrev pub IsUniqueKeyed : List Permission → Type 0
IsUniqueKeyed permissions = (k : String) → sum_of (counted k) permissions ≤ 1

abbrev over_keys : List Permission → List String → ℕ
over_keys permissions keys = sum_of (λ k. sum_of (counted k) permissions) keys

over_keys-cons :
    (p : Permission) (ps : List Permission) (keys : List String)
    → over_keys (p ∷ ps) keys ≡ sum_of (λ k. counted k p) keys + over_keys ps keys
unfolding sum_of
over_keys-cons p ps [] = refl
over_keys-cons p ps (k ∷ ks) = omega (arith, over_keys-cons p ps ks)

counted_key :
    (p : Permission) (keys : List String)
    → is_active_permission p.status ≡ true
    → has_key p.key keys ≡ true
    → 1 ≤ sum_of (λ k. counted k p) keys
unfolding has_key sum_of
counted_key p [] active h = absurd (ground (arith, h))
counted_key p (k ∷ ks) active h = elim (Bool-cases (str_eq p.key k)) [
  | inr other ↦ let rest = counted_key p ks active (ground (arith, other, h)) in omega (arith, rest)
  | inl same ↦
      let equal : p.key ≡ k = (str_eq_iff p.key k).0 same in
      let own : str_eq k p.key ≡ true = (str_eq_iff k p.key).1 (rw equal refl) in
      ground (arith, active, own)
]

found-le :
    (keys : List String) (ps : List Permission)
    → length (assignable_permissions keys ps) ≤ over_keys ps keys
unfolding assignable_permissions filter
found-le keys [] = omega arith
found-le keys (p ∷ ps) = elim (Bool-cases (has_key p.key keys && is_active_permission p.status)) [
  | inr left_out ↦ ground (arith, left_out, found-le keys ps, over_keys-cons p ps keys)
  | inl found ↦ ground (
    arith,
    found,
    found-le keys ps,
    over_keys-cons p ps keys,
    counted_key p keys (ground (arith, found)) (ground (arith, found)),
  )
]

over_keys-le :
    (ps : List Permission) (keys : List String) → IsUniqueKeyed ps → over_keys ps keys ≤ length keys
unfolding sum_of
over_keys-le ps [] unique = omega arith
over_keys-le ps (k ∷ ks) unique = omega (arith, unique k, over_keys-le ps ks unique)

missing-lt :
    (ps : List Permission) (k : String) (keys : List String)
    → IsUniqueKeyed ps
    → has_key k keys ≡ true
    → sum_of (counted k) ps ≡ 0
    → over_keys ps keys + 1 ≤ length keys
unfolding has_key sum_of
missing-lt ps k [] unique h none' = absurd (ground (arith, h))
missing-lt ps k (x ∷ xs) unique h none' = elim (Bool-cases (str_eq k x)) [
  | inl same ↦
      let equal : k ≡ x = (str_eq_iff k x).0 same in
      let zero_here : sum_of (counted x) ps ≡ 0 = rw (← equal) none' in
      omega (arith, zero_here, over_keys-le ps xs unique)
  | inr other ↦
      let rest = missing-lt ps k xs unique (ground (arith, other, h)) none' in
      omega (arith, rest, unique x)
]

no_active_key :
    (k : String) (ps : List Permission) → is_active_key k ps ≡ false → sum_of (counted k) ps ≡ 0
unfolding sum_of
no_active_key k [] h = refl
no_active_key k (p ∷ ps) h = ground (arith, h, no_active_key k ps)

pub every_key_active :
    (keys : List String) (ps : List Permission) (k : String)
    → IsUniqueKeyed ps
    → length (assignable_permissions keys ps) ≡ length keys
    → has_key k keys ≡ true
    → is_active_key k ps ≡ true
every_key_active keys ps k unique enough h = elim (Bool-cases (is_active_key k ps)) [
  | inl active ↦ active
  | inr missing ↦ absurd (
      omega (
        arith,
        found-le keys ps,
        missing-lt ps k keys unique h (no_active_key k ps missing),
        enough,
      ))
]

-- No two permissions have the same key.
unfoldable pub has_distinct_keys : List Permission → Bool
has_distinct_keys [] = true
has_distinct_keys (p ∷ ps) =
    not (has_key p.key (map (λ (x : Permission). x.key) ps)) && has_distinct_keys ps

counted_absent :
    (k : String) (ps : List Permission)
    → has_key k (map (λ (x : Permission). x.key) ps) ≡ false
    → sum_of (counted k) ps ≡ 0
unfolding has_key sum_of
counted_absent k [] h = refl
counted_absent k (p ∷ ps) h = ground (arith, h, counted_absent k ps)

pub has_distinct_keys-IsUniqueKeyed :
    (ps : List Permission) → has_distinct_keys ps ≡ true → IsUniqueKeyed ps
unfolding has_distinct_keys sum_of
has_distinct_keys-IsUniqueKeyed [] h k = omega arith
has_distinct_keys-IsUniqueKeyed (p ∷ ps) h k = elim (Bool-cases (str_eq k p.key)) [
  | inr other ↦ ground (arith, other, has_distinct_keys-IsUniqueKeyed ps (ground (arith, h)) k)
  | inl same ↦
      let equal : k ≡ p.key = (str_eq_iff k p.key).0 same in
      let absent : has_key k (map (λ (x : Permission). x.key) ps) ≡ false =
        rw equal (ground (arith, h)) in
      ground (arith, same, counted_absent k ps absent)
]
