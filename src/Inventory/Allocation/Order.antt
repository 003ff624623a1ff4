-- ===== src/Inventory/Allocation/Order.antt =====
-- The order in which stock-hold-allocation.ts locks the balances.
use tteeka.Prelude.{ℕ, false, ◌∙◌, ◌<◌, ◌≡◌, refl, ◌||◌, List, [], ◌∷◌, ◌==◌, contains, All, arith}
use tteeka.Inventory.Allocation.{distinct, insert_sorted, sort, lock_order}

contains-distinct : (a : ℕ) (xs : List ℕ) → contains a (distinct xs) ≡ contains a xs
unfolding distinct
contains-distinct a [] = refl
contains-distinct a (x ∷ xs) = ground (arith, contains-distinct a xs, contains-distinct x xs)

contains-insert_sorted :
    (a b : ℕ) (xs : List ℕ) → contains a (insert_sorted b xs) ≡ (a == b || contains a xs)
unfolding insert_sorted
contains-insert_sorted a b [] = refl
contains-insert_sorted a b (x ∷ xs) = ground (arith, contains-insert_sorted a b xs)

contains-sort : (a : ℕ) (xs : List ℕ) → contains a (sort xs) ≡ contains a xs
unfolding sort
contains-sort a [] = refl
contains-sort a (x ∷ xs) = ground (arith, contains-insert_sorted a x (sort xs), contains-sort a xs)

-- What is locked is exactly what was asked for.
pub contains-lock_order : (a : ℕ) (xs : List ℕ) → contains a (lock_order xs) ≡ contains a xs
unfolding lock_order
contains-lock_order a xs = ground (arith, contains-sort a (distinct xs), contains-distinct a xs)

-- Strictly ascending: each element is below all that follow it.
abbrev pub IsAscending : List ℕ → Type 0
IsAscending [] = Unit
IsAscending (x ∷ xs) = All (λ y. x < y) xs × IsAscending xs

abbrev IsDistinct : List ℕ → Type 0
IsDistinct [] = Unit
IsDistinct (x ∷ xs) = (contains x xs ≡ false) × IsDistinct xs

distinct-IsDistinct : (xs : List ℕ) → IsDistinct (distinct xs)
unfolding distinct
distinct-IsDistinct [] = tt
distinct-IsDistinct (x ∷ xs) = ground (arith, distinct-IsDistinct xs)

All-lt_trans : (a b : ℕ) (xs : List ℕ) → a < b → All (λ y. b < y) xs → All (λ y. a < y) xs
All-lt_trans a b [] h k = tt
All-lt_trans a b (x ∷ xs) h k = (omega arith, All-lt_trans a b xs h k.1)

All-lt-insert_sorted :
    (b a : ℕ) (xs : List ℕ) → b < a → All (λ y. b < y) xs → All (λ y. b < y) (insert_sorted a xs)
unfolding insert_sorted
All-lt-insert_sorted b a [] h k = (h, tt)
All-lt-insert_sorted b a (x ∷ xs) h k = ground (arith, All-lt-insert_sorted b a xs h k.1)

insert_sorted-IsAscending :
    (a : ℕ) (xs : List ℕ)
    → contains a xs ≡ false
    → IsAscending xs
    → IsAscending (insert_sorted a xs)
unfolding insert_sorted
insert_sorted-IsAscending a [] h k = (tt, tt)
insert_sorted-IsAscending a (x ∷ xs) h k =
    ground (arith, insert_sorted-IsAscending a xs, All-lt-insert_sorted x a xs, All-lt_trans a x xs)

sort-IsAscending : (xs : List ℕ) → IsDistinct xs → IsAscending (sort xs)
unfolding sort
sort-IsAscending [] h = tt
sort-IsAscending (x ∷ xs) h =
    insert_sorted-IsAscending x (sort xs) (contains-sort x xs ∙ h.0) (sort-IsAscending xs h.1)

-- Whatever list of variants is asked for, the balances are locked one by one in strictly
-- ascending order, and a variant is locked exactly when it is asked for.
pub lock_order-IsAscending :
    (xs : List ℕ)
    → IsAscending (lock_order xs) × ((a : ℕ) → contains a (lock_order xs) ≡ contains a xs)
unfolding lock_order
lock_order-IsAscending xs =
    (sort-IsAscending (distinct xs) (distinct-IsDistinct xs), λ a. contains-lock_order a xs)
