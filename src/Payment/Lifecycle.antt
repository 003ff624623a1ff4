-- ===== src/Payment/Lifecycle.antt =====
-- The states of a payment, and the verified total: proofs about Transactions.antt.
use tteeka.Prelude.{
  ◌+◌, ◌≡◌, refl, sym, ap, subst, ◌∙◌, true, false, some, ◌==◌, ◌&&◌, ◌⊎◌, inl, inr, Option-cases,
  Bool-cases, ==_iff, if◌then◌else◌, arith,
}
use tteeka.Prelude.Table.{
  find, sum_of-update_first, find_holds, find-update_first, find-update_first_other,
}
use tteeka.Schema.{Db, Uuid, Date, Payment, PaymentMethod, PaymentStatus}
use tteeka.Store.{ok, err, payment_transition_not_allowed}
use tteeka.Payment.Transactions.{
  PaymentTransition, target_status, transition, is_payment, advance, verified_total,
  verified_amount, is_allowed, is_cash, is_verified, is_at, is_open, save_payment,
}

-- The moves that a merchant can make with a payment: only money that is not cash awaits a check,
-- and only an open payment is decided.
pub data Step (method : PaymentMethod) : PaymentStatus → PaymentStatus → Type 0 where
  await_check :
      is_cash method ≡ false → Step method PaymentStatus.reported PaymentStatus.verification_pending
  verify_reported : Step method PaymentStatus.reported PaymentStatus.verified
  verify_pending : Step method PaymentStatus.verification_pending PaymentStatus.verified
  reject_reported : Step method PaymentStatus.reported PaymentStatus.rejected
  reject_pending : Step method PaymentStatus.verification_pending PaymentStatus.rejected

Step-allowed :
    (target : PaymentTransition) (p : Payment) (status : PaymentStatus)
    → p.status ≡ status
    → is_allowed target p ≡ true
    → Step p.method status (target_status target)
unfolding is_allowed
Step-allowed PaymentTransition.verification_pending p PaymentStatus.reported e h =
    await_check (ground (arith, e, h))
Step-allowed PaymentTransition.verified p PaymentStatus.reported e h = verify_reported
Step-allowed PaymentTransition.verified p PaymentStatus.verification_pending e h = verify_pending
Step-allowed PaymentTransition.rejected p PaymentStatus.reported e h = reject_reported
Step-allowed PaymentTransition.rejected p PaymentStatus.verification_pending e h = reject_pending
Step-allowed _ p _ e h = absurd (ground (arith, e, h))

is_at-eq :
    (target : PaymentTransition) (s : PaymentStatus)
    → is_at target s ≡ true
    → s ≡ target_status target
is_at-eq PaymentTransition.verification_pending s h = ground arith
is_at-eq PaymentTransition.verified s h = ground arith
is_at-eq PaymentTransition.rejected s h = ground arith

status-advance :
    (target : PaymentTransition) (now : Date) (p : Payment)
    → (advance target now p).status ≡ target_status target
unfolding advance
status-advance PaymentTransition.verification_pending now p = refl
status-advance PaymentTransition.verified now p = refl
status-advance PaymentTransition.rejected now p = refl

is_payment-advance :
    (m order_id id : Uuid) (target : PaymentTransition) (now : Date) (p : Payment)
    → is_payment m order_id id (advance target now p) ≡ is_payment m order_id id p
unfolding is_payment advance
is_payment-advance m order_id id PaymentTransition.verification_pending now p = refl
is_payment-advance m order_id id PaymentTransition.verified now p = refl
is_payment-advance m order_id id PaymentTransition.rejected now p = refl

is_payment-other :
    (m order_id id m' o' id' : Uuid) (p : Payment)
    → (m' == m && o' == order_id && id' == id) ≡ false
    → is_payment m order_id id p ≡ true
    → is_payment m' o' id' p ≡ false
unfolding is_payment
is_payment-other m order_id id m' o' id' p other e = ground (
  arith,
  other,
  e,
  ==_iff m' m,
  ==_iff o' order_id,
  ==_iff id' id,
  ==_iff p.merchant_id m',
  ==_iff p.merchant_id m,
  ==_iff p.order_id o',
  ==_iff p.order_id order_id,
  ==_iff p.id id',
  ==_iff p.id id,
)

module _ (m order_id id : Uuid) (target : PaymentTransition) (now : Date) (db db' : Db)
    (saved : db' ≡ save_payment m order_id id (advance target now) db) where
  payment_saved :
      {p : Payment}
      → find (is_payment m order_id id) db.payments ≡ some p
      → find (is_payment m order_id id) db'.payments ≡ some (advance target now p)
  unfolding save_payment
  payment_saved {p} f = rw saved (
      find-update_first (is_payment m order_id id) (advance target now) db.payments
        (is_payment-advance m order_id id target now p
          ∙ find_holds (is_payment m order_id id) db.payments f)
        f)

  payment_other :
      (m' o' id' : Uuid)
      → (m' == m && o' == order_id && id' == id) ≡ false
      → find (is_payment m' o' id') db'.payments ≡ find (is_payment m' o' id') db.payments
  unfolding save_payment
  payment_other m' o' id' other = rw saved (
      find-update_first_other (is_payment m' o' id') (is_payment m order_id id) (advance target now)
        db.payments
        (λ a e.
          let no = is_payment-other m order_id id m' o' id' a other e in
          (no, is_payment-advance m' o' id' target now a ∙ no)))

-- A transition that returns a payment found it, and the tables then have the returned payment at
-- the target, and every other payment as before: either it was at the target and nothing changes,
-- or its state makes an allowed step to the target.
pub payment_transition-Step :
    (m order_id id : Uuid) (target : PaymentTransition) (now : Date) (db : Db) {p : Payment}
    {db' : Db}
    → transition m order_id id target now db ≡ (ok (some p), db')
    → (p.status ≡ target_status target)
      × (find (is_payment m order_id id) db'.payments ≡ some p)
      × ((m' o' id' : Uuid)
          → (m' == m && o' == order_id && id' == id) ≡ false
          → find (is_payment m' o' id') db'.payments ≡ find (is_payment m' o' id') db.payments)
      × ((current : Payment) × (find (is_payment m order_id id) db.payments ≡ some current)
          × (((p ≡ current) × (db' ≡ db)) ⊎ Step current.method current.status p.status))
unfolding transition
payment_transition-Step m order_id id target now db {p} {db'} e =
    elim (Option-cases (find (is_payment m order_id id) db.payments)) [
      | inl missing ↦ absurd (ground (arith, missing, e))
      | inr (current, f) ↦ elim (Bool-cases (is_at target current.status)) [
        | inl there ↦
            let same : p ≡ current = ground (arith, f, there, e) in
            let left : db' ≡ db = ground (arith, f, there, e) in
            (
              ap (λ (x : Payment). x.status) same ∙ is_at-eq target current.status there,
              rw (left, same) f,
              λ m' o' id' other. rw left refl,
              (current, f, inl (same, left)),
            )
        | inr away ↦ elim (Bool-cases (is_allowed target current)) [
          | inr refused ↦ absurd (ground (arith, f, away, refused, e))
          | inl allowed ↦
              let made : p ≡ advance target now current = ground (arith, f, away, allowed, e) in
              let saved : db' ≡ save_payment m order_id id (advance target now) db =
                ground (arith, f, away, allowed, e) in
              let arrived =
                ap (λ (x : Payment). x.status) made ∙ status-advance target now current in
              (
                arrived,
                payment_saved m order_id id target now db db' saved f ∙ ap some (sym made),
                payment_other m order_id id target now db db' saved,
                (
                  current,
                  f,
                  inr (
                      subst (Step current.method current.status) (sym arrived)
                        (Step-allowed target current current.status refl allowed)),
                ),
              )
        ]
      ]
    ]

-- Once a payment is verified or rejected by hand, no transition changes it any more: a call for
-- the state that it has returns it, a call for another is refused, and the tables stay.
pub transition_settled :
    (m order_id id : Uuid) (target : PaymentTransition) (now : Date) (db : Db) {p : Payment}
    → find (is_payment m order_id id) db.payments ≡ some p
    → (p.status ≡ PaymentStatus.verified) ⊎ (p.status ≡ PaymentStatus.rejected)
    → transition m order_id id target now db
      ≡ ((if is_at target p.status then ok (some p) else err payment_transition_not_allowed), db)
unfolding transition
transition_settled m order_id id PaymentTransition.verification_pending now db {p} f (inl s) =
    ground (arith, f, s)
transition_settled m order_id id PaymentTransition.verification_pending now db {p} f (inr s) =
    ground (arith, f, s)
transition_settled m order_id id PaymentTransition.verified now db {p} f (inl s) =
    ground (arith, f, s)
transition_settled m order_id id PaymentTransition.verified now db {p} f (inr s) =
    ground (arith, f, s)
transition_settled m order_id id PaymentTransition.rejected now db {p} f (inl s) =
    ground (arith, f, s)
transition_settled m order_id id PaymentTransition.rejected now db {p} f (inr s) =
    ground (arith, f, s)

-- Verifying an open payment raises the verified total of its order by its amount, and no other
-- order's; awaiting a check and rejecting change no total.
pub transition-verified_total :
    (m order_id id : Uuid) (target : PaymentTransition) (now : Date) (db : Db) {p : Payment}
    → find (is_payment m order_id id) db.payments ≡ some p
    → is_open p.status ≡ true
    → (m' o : Uuid)
    → verified_total m' o (transition m order_id id target now db).1
      ≡ verified_total m' o db
        + (if m' == m && o == order_id && is_verified (target_status target) then p.amount else 0)
unfolding transition verified_total is_payment
transition-verified_total m order_id id PaymentTransition.verification_pending now db {p} f open' m'
      o =
    ground (
      arith,
      find_holds (is_payment m order_id id) db.payments f,
      sum_of-update_first (verified_amount m' o) (is_payment m order_id id)
          (advance PaymentTransition.verification_pending now) db.payments f,
    )
transition-verified_total m order_id id PaymentTransition.verified now db {p} f open' m' o =
    ground (
      arith,
      find_holds (is_payment m order_id id) db.payments f,
      sum_of-update_first (verified_amount m' o) (is_payment m order_id id)
          (advance PaymentTransition.verified now) db.payments f,
    )
transition-verified_total m order_id id PaymentTransition.rejected now db {p} f open' m' o =
    ground (
      arith,
      find_holds (is_payment m order_id id) db.payments f,
      sum_of-update_first (verified_amount m' o) (is_payment m order_id id)
          (advance PaymentTransition.rejected now) db.payments f,
    )
