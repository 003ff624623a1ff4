-- ===== src/Inventory/Holds/Batch.antt =====
-- The rows of a sweep's batch: lemmas on `due_batch` of Holds.antt.
use tteeka.Prelude.{
  ℕ, zero, suc, ◌≤◌, ◌≡◌, refl, ◌⊎◌, inl, inr, Bool, true, false, List, [], ◌∷◌, ◌==◌, ◌||◌,
  if◌then◌else◌, any, length, map, All, Bool-cases, ==_iff, arith,
}
use tteeka.Prelude.Table.{filter, sum_of}
use tteeka.Schema.{Uuid, Hold}
use tteeka.Inventory.Holds.{comes_before, insert_due, sort_due, take}

abbrev pub is_id : Uuid → Hold → Bool
is_id x h = h.id == x

-- An identifier has one row at most, as the primary key makes it.
abbrev pub IsKeyed : List Hold → Type 0
IsKeyed [] = Unit
IsKeyed (h ∷ hs) = (any (is_id h.id) hs ≡ false) × IsKeyed hs

abbrev pub ids_of : List Hold → List Uuid
ids_of hs = map (λ (h : Hold). h.id) hs

-- 1 for a row that fits.
abbrev pub weight : (Hold → Bool) → Hold → ℕ
weight p h = if p h then 1 else 0

pub length-filter : (p : Hold → Bool) (hs : List Hold) → length (filter p hs) ≡ sum_of (weight p) hs
unfolding filter sum_of
length-filter p [] = refl
length-filter p (h ∷ hs) = ground (arith, length-filter p hs)

pub All-weaker :
    (P Q : Hold → Type 0) (hs : List Hold) → ((h : Hold) → P h → Q h) → All P hs → All Q hs
All-weaker P Q [] k h = tt
All-weaker P Q (x ∷ hs) k h = (k x h.0, All-weaker P Q hs k h.1)

pub All-filter :
    (P : Hold → Type 0) (p : Hold → Bool) (hs : List Hold)
    → All P hs
    → All (λ h. P h × (p h ≡ true)) (filter p hs)
unfolding filter
All-filter P p [] a = tt
All-filter P p (h ∷ hs) a = elim (Bool-cases (p h)) [
  | inl fits ↦ rw fits ((a.0, fits), All-filter P p hs a.1)
  | inr other ↦ rw other (All-filter P p hs a.1)
]

All-insert_due :
    (P : Hold → Type 0) (h : Hold) (ks : List Hold) → P h → All P ks → All P (insert_due h ks)
unfolding insert_due
All-insert_due P h [] p a = (p, tt)
All-insert_due P h (k ∷ ks) p a = elim (Bool-cases (comes_before h k)) [
  | inl first ↦ rw first (p, a)
  | inr later ↦ rw later (a.0, All-insert_due P h ks p a.1)
]

pub All-sort_due : (P : Hold → Type 0) (hs : List Hold) → All P hs → All P (sort_due hs)
unfolding sort_due
All-sort_due P [] a = tt
All-sort_due P (h ∷ hs) a = All-insert_due P h (sort_due hs) a.0 (All-sort_due P hs a.1)

pub All-take : (P : Hold → Type 0) (n : ℕ) (hs : List Hold) → All P hs → All P (take n hs)
unfolding take
All-take P zero hs a = tt
All-take P (suc n) [] a = tt
All-take P (suc n) (h ∷ hs) a = (a.0, All-take P n hs a.1)

any-filter : (p q : Hold → Bool) (hs : List Hold) → any p hs ≡ false → any p (filter q hs) ≡ false
unfolding filter
any-filter p q [] e = refl
any-filter p q (h ∷ hs) e = ground (arith, any-filter p q hs)

any-insert_due :
    (p : Hold → Bool) (h : Hold) (ks : List Hold) → any p (insert_due h ks) ≡ (p h || any p ks)
unfolding insert_due
any-insert_due p h [] = refl
any-insert_due p h (k ∷ ks) = elim (Bool-cases (comes_before h k)) [
  | inl first ↦ rw first refl
  | inr later ↦ rw later (ground (arith, any-insert_due p h ks))
]

any-sort_due : (p : Hold → Bool) (hs : List Hold) → any p (sort_due hs) ≡ any p hs
unfolding sort_due
any-sort_due p [] = refl
any-sort_due p (h ∷ hs) = ground (arith, any-insert_due p h (sort_due hs), any-sort_due p hs)

any-take : (p : Hold → Bool) (n : ℕ) (hs : List Hold) → any p hs ≡ false → any p (take n hs) ≡ false
unfolding take
any-take p zero hs e = refl
any-take p (suc n) [] e = refl
any-take p (suc n) (h ∷ hs) e = ground (arith, any-take p n hs)

pub IsKeyed-filter : (p : Hold → Bool) (hs : List Hold) → IsKeyed hs → IsKeyed (filter p hs)
unfolding filter
IsKeyed-filter p [] k = tt
IsKeyed-filter p (h ∷ hs) k = elim (Bool-cases (p h)) [
  | inl fits ↦ rw fits (any-filter (is_id h.id) p hs k.0, IsKeyed-filter p hs k.1)
  | inr other ↦ rw other (IsKeyed-filter p hs k.1)
]

IsKeyed-insert_due :
    (h : Hold) (ks : List Hold)
    → any (is_id h.id) ks ≡ false
    → IsKeyed ks
    → IsKeyed (insert_due h ks)
unfolding insert_due
IsKeyed-insert_due h [] new k = (refl, tt)
IsKeyed-insert_due h (x ∷ ks) new k = elim (Bool-cases (comes_before h x)) [
  | inl first ↦ rw first (new, k)
  | inr later ↦ rw later (
    ground (arith, any-insert_due (is_id x.id) h ks, new, k.0, ==_iff h.id x.id, ==_iff x.id h.id),
    IsKeyed-insert_due h ks (ground (arith, new)) k.1,
  )
]

pub IsKeyed-sort_due : (hs : List Hold) → IsKeyed hs → IsKeyed (sort_due hs)
unfolding sort_due
IsKeyed-sort_due [] k = tt
IsKeyed-sort_due (h ∷ hs) k =
    IsKeyed-insert_due h (sort_due hs) (ground (arith, any-sort_due (is_id h.id) hs, k.0))
      (IsKeyed-sort_due hs k.1)

pub IsKeyed-take : (n : ℕ) (hs : List Hold) → IsKeyed hs → IsKeyed (take n hs)
unfolding take
IsKeyed-take zero hs k = tt
IsKeyed-take (suc n) [] k = tt
IsKeyed-take (suc n) (h ∷ hs) k = (any-take (is_id h.id) n hs k.0, IsKeyed-take n hs k.1)

length-insert_due : (h : Hold) (ks : List Hold) → length (insert_due h ks) ≡ suc (length ks)
unfolding insert_due
length-insert_due h [] = refl
length-insert_due h (k ∷ ks) = elim (Bool-cases (comes_before h k)) [
  | inl first ↦ rw first refl
  | inr later ↦ rw later (ground (arith, length-insert_due h ks))
]

pub length-sort_due : (hs : List Hold) → length (sort_due hs) ≡ length hs
unfolding sort_due
length-sort_due [] = refl
length-sort_due (h ∷ hs) = ground (arith, length-insert_due h (sort_due hs), length-sort_due hs)

pub length-take :
    (n : ℕ) (hs : List Hold)
    → (length (take n hs) ≤ n) × ((length (take n hs) ≡ n) ⊎ (length (take n hs) ≡ length hs))
unfolding take
length-take zero hs = (omega arith, inl refl)
length-take (suc n) [] = (omega arith, inr refl)
length-take (suc n) (h ∷ hs) = (
  omega (arith, (length-take n hs).0),
  elim (length-take n hs).1 [ inl e ↦ inl (omega (arith, e)) | inr e ↦ inr (omega (arith, e)) ],
)
