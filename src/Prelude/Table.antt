-- ===== src/Prelude/Table.antt =====
-- A database table as the list of its rows in insertion order, with the queries that the stores
-- make: the first row that fits, a sum over the rows that fit, and an update of those that fit.
use Prim.Native.Nat.{ℕ, ◌+◌, ◌≤◌}
use mathlib.Core.Path.{◌≡◌, refl}
use mathlib.Core.Bool.{Bool, true, false}
use mathlib.Core.Option.{Option, none, some}
use mathlib.Core.List.{List, [], ◌∷◌, ◌++◌}
use native.Mathlib.Omega.{arith}
use mathlib.Core.Logic.{inl, inr}
use tteeka.Prelude.Tests.{if◌then◌else◌, Bool-cases}
use tteeka.Prelude.Lists.{any}

module _ {ℓ} {A : Type ℓ} where
  -- `findUnique` and `findFirst`
  unfoldable pub find : (A → Bool) → List A → Option A
  find p [] = none
  find p (x ∷ xs) = if p x then some x else find p xs

  -- `findMany`, `filter`
  unfoldable pub filter : (A → Bool) → List A → List A
  filter p [] = []
  filter p (x ∷ xs) = let rest = filter p xs in if p x then x ∷ rest else rest

  -- `updateMany`
  unfoldable pub update_where : (A → Bool) → (A → A) → List A → List A
  update_where p f [] = []
  update_where p f (x ∷ xs) = (if p x then f x else x) ∷ update_where p f xs

  -- `update` by a unique key, which one row at most has
  unfoldable pub update_first : (A → Bool) → (A → A) → List A → List A
  update_first p f [] = []
  update_first p f (x ∷ xs) = let rest = update_first p f xs in if p x then f x ∷ xs else x ∷ rest

  -- `aggregate({ _sum })` of a quantity that is 0 on the rows that do not fit
  unfoldable pub sum_of : (A → ℕ) → List A → ℕ
  sum_of w [] = 0
  sum_of w (x ∷ xs) = w x + sum_of w xs

  pub find-append_none :
      (p : A → Bool) (xs ys : List A) → find p xs ≡ none → find p (xs ++ ys) ≡ find p ys
  unfolding find
  find-append_none p [] ys h = refl
  find-append_none p (x ∷ xs) ys h = ground (arith, find-append_none p xs ys)

  pub find-append_some :
      (p : A → Bool) (xs ys : List A) {a : A} → find p xs ≡ some a → find p (xs ++ ys) ≡ some a
  unfolding find
  find-append_some p [] ys h = ground arith
  find-append_some p (x ∷ xs) ys {a} h = ground (arith, find-append_some p xs ys {a = a})

  pub find_holds : (p : A → Bool) (xs : List A) {a : A} → find p xs ≡ some a → p a ≡ true
  unfolding find
  find_holds p [] h = ground arith
  find_holds p (x ∷ xs) {a} h = ground (arith, find_holds p xs {a = a})

  -- An update that keeps the test alone is seen in what is found.
  pub find-update_where :
      (p : A → Bool) (f : A → A) (xs : List A) {a : A}
      → (p (f a) ≡ true)
      → find p xs ≡ some a
      → find p (update_where p f xs) ≡ some (f a)
  unfolding find update_where
  find-update_where p f [] k h = ground arith
  find-update_where p f (x ∷ xs) k h = ground (arith, find-update_where p f xs k)

  -- An update of other rows is not seen.
  pub find-update_where_other :
      (p q : A → Bool) (f : A → A) (xs : List A)
      → ((a : A) → q a ≡ true → (p a ≡ false) × (p (f a) ≡ false))
      → find p (update_where q f xs) ≡ find p xs
  unfolding find update_where
  find-update_where_other p q f [] k = refl
  find-update_where_other p q f (x ∷ xs) k = ground (arith, k x, find-update_where_other p q f xs k)

  pub sum_of-append : (w : A → ℕ) (xs ys : List A) → sum_of w (xs ++ ys) ≡ sum_of w xs + sum_of w ys
  unfolding sum_of
  sum_of-append w [] ys = omega arith
  sum_of-append w (x ∷ xs) ys = omega (arith, sum_of-append w xs ys)

  pub sum_of_mono : (v w : A → ℕ) (xs : List A) → ((a : A) → v a ≤ w a) → sum_of v xs ≤ sum_of w xs
  unfolding sum_of
  sum_of_mono v w [] k = omega arith
  sum_of_mono v w (x ∷ xs) k = omega (arith, k x, sum_of_mono v w xs k)

  pub sum_of-update_le :
      (w : A → ℕ) (p : A → Bool) (f : A → A) (xs : List A)
      → ((a : A) → p a ≡ true → w (f a) ≤ w a)
      → sum_of w (update_where p f xs) ≤ sum_of w xs
  unfolding sum_of update_where
  sum_of-update_le w p f [] k = omega arith
  sum_of-update_le w p f (x ∷ xs) k = ground (arith, k x, sum_of-update_le w p f xs k)

  pub sum_of-update_eq :
      (w : A → ℕ) (p : A → Bool) (f : A → A) (xs : List A)
      → ((a : A) → p a ≡ true → w (f a) ≡ w a)
      → sum_of w (update_where p f xs) ≡ sum_of w xs
  unfolding sum_of update_where
  sum_of-update_eq w p f [] k = omega arith
  sum_of-update_eq w p f (x ∷ xs) k = ground (arith, k x, sum_of-update_eq w p f xs k)

  -- Where no row fits the sum is 0.
  pub sum_of_none :
      (w : A → ℕ) (p : A → Bool) (xs : List A)
      → ((a : A) → p a ≡ false → w a ≡ 0)
      → any p xs ≡ false
      → sum_of w xs ≡ 0
  unfolding sum_of
  sum_of_none w p [] k h = refl
  sum_of_none w p (x ∷ xs) k h = ground (arith, k x, sum_of_none w p xs k)

  pub find-update_first :
      (p : A → Bool) (f : A → A) (xs : List A) {a : A}
      → p (f a) ≡ true
      → find p xs ≡ some a
      → find p (update_first p f xs) ≡ some (f a)
  unfolding find update_first
  find-update_first p f [] k h = ground arith
  find-update_first p f (x ∷ xs) {a} k h = ground (arith, find-update_first p f xs {a = a} k)

  -- Another search for rows does not see the change, if the changed row passes both or neither.
  pub find-update_first_other :
      (p q : A → Bool) (f : A → A) (xs : List A)
      → ((a : A) → q a ≡ true → (p a ≡ false) × (p (f a) ≡ false))
      → find p (update_first q f xs) ≡ find p xs
  unfolding find update_first
  find-update_first_other p q f [] k = refl
  find-update_first_other p q f (x ∷ xs) k = ground (arith, k x, find-update_first_other p q f xs k)

  -- A sum changes by what the row that is found changes.
  pub sum_of-update_first :
      (w : A → ℕ) (p : A → Bool) (f : A → A) (xs : List A) {a : A}
      → find p xs ≡ some a
      → sum_of w (update_first p f xs) + w a ≡ sum_of w xs + w (f a)
  unfolding find update_first sum_of
  sum_of-update_first w p f [] h = ground arith
  sum_of-update_first w p f (x ∷ xs) {a} h = ground (arith, sum_of-update_first w p f xs {a = a})

  pub sum_of_unfound :
      (w : A → ℕ) (p : A → Bool) (xs : List A)
      → ((a : A) → p a ≡ false → w a ≡ 0)
      → find p xs ≡ none
      → sum_of w xs ≡ 0
  unfolding sum_of find
  sum_of_unfound w p [] k h = refl
  sum_of_unfound w p (x ∷ xs) k h = ground (arith, k x, sum_of_unfound w p xs k)

  -- If the first row that passes `p`, where there is one, passes `q` too, and the first that passes
  -- `q` is changed so that it passes `p`, then it is the first that does.
  pub find-update_first_owner :
      (p q : A → Bool) (f : A → A) (xs : List A) {a : A}
      → ((b : A) → find p xs ≡ some b → q b ≡ true)
      → find q xs ≡ some a
      → p (f a) ≡ true
      → find p (update_first q f xs) ≡ some (f a)
  unfolding find update_first
  find-update_first_owner p q f [] k h t = ground arith
  find-update_first_owner p q f (x ∷ xs) {a} k h t = elim (Bool-cases (q x)) [
    | inl first ↦ ground (arith, first, h, t)
    | inr later ↦ elim (Bool-cases (p x)) [
      | inl owner ↦ absurd (ground (arith, later, owner, k x (rw owner)))
      | inr other ↦ ground (
        arith,
        later,
        other,
        find-update_first_owner p q f xs {a = a} (λ b e. k b (rw other e))
            (ground (arith, later, h)) t,
      )
    ]
  ]
