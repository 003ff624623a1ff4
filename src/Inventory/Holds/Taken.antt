-- ===== src/Inventory/Holds/Taken.antt =====
-- The rows that a sweep takes are those of its batch: lemmas on `is_taken` of Holds.antt.
use tteeka.Prelude.{
  ℕ, ◌+◌, ◌≡◌, refl, sym, ◌∙◌, inl, inr, Bool, true, false, some, List, [], ◌∷◌, ◌==◌,
  if◌then◌else◌, any, length, contains, All, Bool-cases, ==_iff, ==_refl, arith,
}
use tteeka.Prelude.Table.{find, update_where, sum_of}
use tteeka.Schema.{Uuid, Hold}
use tteeka.Inventory.Holds.{expire, is_taken}
use tteeka.Inventory.Holds.Batch.{is_id, IsKeyed, ids_of, weight}

-- The identifier of the row finds the row.
abbrev pub Found : List Hold → Hold → Type 0
Found hs h = find (is_id h.id) hs ≡ some h

Found-behind :
    (h : Hold) (hs ks : List Hold)
    → any (is_id h.id) ks ≡ false
    → All (Found hs) ks
    → All (Found (h ∷ hs)) ks
unfolding find
Found-behind h hs [] other a = tt
Found-behind h hs (k ∷ ks) other a = (
  ground (arith, other, a.0, ==_iff h.id k.id, ==_iff k.id h.id),
  Found-behind h hs ks (ground (arith, other)) a.1,
)

pub All-Found : (hs : List Hold) → IsKeyed hs → All (Found hs) hs
unfolding find
All-Found [] k = tt
All-Found (h ∷ hs) k = (ground (arith, ==_refl h.id), Found-behind h hs hs k.0 (All-Found hs k.1))

contains-ids_of : (x : Uuid) (hs : List Hold) → contains x (ids_of hs) ≡ any (is_id x) hs
contains-ids_of x [] = refl
contains-ids_of x (h ∷ hs) = ground (arith, contains-ids_of x hs, ==_iff x h.id, ==_iff h.id x)

-- A row with the identifier of a row of the batch is that row.
pub taken-fits :
    (table : List Hold) (p : Hold → Bool) (h : Hold) (batch : List Hold)
    → All (λ b. Found table b × (p b ≡ true)) batch
    → Found table h
    → is_taken (ids_of batch) h ≡ true
    → p h ≡ true
taken-fits table p h [] a f c = absurd (ground (arith, c))
taken-fits table p h (b ∷ batch) a f c = elim (Bool-cases (h.id == b.id)) [
  | inr other ↦ taken-fits table p h batch a.1 f (ground (arith, other, c))
  | inl same ↦
      let same_id : h.id ≡ b.id = (==_iff h.id b.id).0 same in
      let row : some h ≡ some b = sym f ∙ (rw same_id refl) ∙ a.0.0 in ground (arith, row, a.0.1)
]

weight_of_id :
    (x : Uuid) (hs : List Hold) → any (is_id x) hs ≡ false → sum_of (weight (is_id x)) hs ≡ 0
unfolding sum_of
weight_of_id x [] e = refl
weight_of_id x (h ∷ hs) e = ground (arith, weight_of_id x hs)

weight_of_found :
    (x : Uuid) (hs : List Hold) {b : Hold}
    → IsKeyed hs
    → find (is_id x) hs ≡ some b
    → sum_of (weight (is_id x)) hs ≡ 1
unfolding sum_of find
weight_of_found x [] k f = absurd (ground (arith, f))
weight_of_found x (h ∷ hs) {b} k f = elim (Bool-cases (h.id == x)) [
  | inl here ↦
      let same : h.id ≡ x = (==_iff h.id x).0 here in
      let others = weight_of_id x hs (ground (arith, k.0, same)) in ground (arith, here, others)
  | inr later ↦ ground (arith, later, weight_of_found x hs {b = b} k.1 (ground (arith, later, f)))
]

sum_of_split :
    (u v w : Hold → ℕ) (hs : List Hold)
    → ((h : Hold) → u h ≡ v h + w h)
    → sum_of u hs ≡ sum_of v hs + sum_of w hs
unfolding sum_of
sum_of_split u v w [] k = omega arith
sum_of_split u v w (h ∷ hs) k = omega (arith, k h, sum_of_split u v w hs k)

none_taken : (hs : List Hold) → sum_of (weight (is_taken [])) hs ≡ 0
unfolding sum_of
none_taken [] = refl
none_taken (h ∷ hs) = omega (arith, none_taken hs)

-- As many rows are taken as the batch has.
pub count_taken :
    (table batch : List Hold)
    → IsKeyed table
    → IsKeyed batch
    → All (Found table) batch
    → sum_of (weight (is_taken (ids_of batch))) table ≡ length batch
count_taken table [] k kb a = none_taken table
count_taken table (b ∷ batch) k kb a =
    let first = weight_of_found b.id table k a.0 in
    let rest = count_taken table batch k kb.1 a.1 in
    let split =
      sum_of_split (weight (is_taken (ids_of (b ∷ batch)))) (weight (is_id b.id))
        (weight (is_taken (ids_of batch))) table
        (λ h. ground (
          arith,
          kb.0,
          contains-ids_of h.id batch,
          contains-ids_of b.id batch,
          ==_iff h.id b.id,
        )) in
    omega (arith, first, rest, split)

module _ (p q : Hold → Bool) (f : Hold → Hold) where
  -- Of the rows that fit those are left that were not changed.
  pub weight-update :
      ((h : Hold) → p (f h) ≡ false)
      → (hs : List Hold) → All (λ h. q h ≡ true → p h ≡ true) hs
      → sum_of (weight p) (update_where q f hs) + sum_of (weight q) hs ≡ sum_of (weight p) hs
  unfolding sum_of update_where
  weight-update ends [] a = omega arith
  weight-update ends (h ∷ hs) a = ground (arith, ends h, a.0, weight-update ends hs a.1)

  pub sum_of-update :
      (w : Hold → ℕ)
      → ((h : Hold) → p h ≡ true → w (f h) ≡ w h)
      → (hs : List Hold) → All (λ h. q h ≡ true → p h ≡ true) hs
      → sum_of w (update_where q f hs) ≡ sum_of w hs
  unfolding sum_of update_where
  sum_of-update w same [] a = refl
  sum_of-update w same (h ∷ hs) a = ground (arith, same h, a.0, sum_of-update w same hs a.1)

pub find-expired :
    (x : Uuid) (q : Hold → Bool) (hs : List Hold) {h : Hold}
    → find (is_id x) hs ≡ some h
    → find (is_id x) (update_where q expire hs) ≡ some (if q h then expire h else h)
unfolding find update_where
find-expired x q [] f = absurd (ground (arith, f))
find-expired x q (k ∷ hs) {h} f = elim (Bool-cases (k.id == x)) [
  | inl here ↦ ground (arith, here, f)
  | inr later ↦ ground (arith, later, find-expired x q hs {h = h} (ground (arith, later, f)))
]
