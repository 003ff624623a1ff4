-- ===== src/Payment/Summary.antt =====
-- apps/api/src/payments/payment-summary.ts and `PaymentService.summary` of payment.service.ts.
use tteeka.Prelude.{ℕ, ◌+◌, ◌-◌, ◌≤◌, ◌≡◌, ◌⊎◌, ◌↔◌, ltb, ◌==◌, if◌then◌else◌, arith}

pub data DerivedPaymentStatus : Type 0 where
  unpaid partially_paid paid overpaid : DerivedPaymentStatus

pub record PaymentSummary : Type 0 where
  pub status : DerivedPaymentStatus
  pub amount_due : ℕ
  pub overpaid_amount : ℕ

unfoldable pub derive_payment_summary : ℕ → ℕ → PaymentSummary
derive_payment_summary order_amount verified =
    if verified == 0
    then record { status = unpaid; amount_due = order_amount; overpaid_amount = 0 }
    else if ltb verified order_amount
    then record {
      status = partially_paid;
      amount_due = order_amount - verified;
      overpaid_amount = 0;
    }
    else if verified == order_amount
    then record { status = paid; amount_due = 0; overpaid_amount = 0 }
    else record { status = overpaid; amount_due = 0; overpaid_amount = verified - order_amount }

-- What is due and what was verified make up the order's amount and what was paid too much; never
-- are both due and overpaid amounts shown. The status is UNPAID exactly when nothing is verified,
-- PARTIALLY_PAID when something is and something is due, PAID when something is verified and
-- neither is left, OVERPAID exactly when too much was paid.
pub derive_payment_summary_balances :
    (order_amount verified : ℕ)
    → let s = derive_payment_summary order_amount verified in
      (s.amount_due + verified ≡ order_amount + s.overpaid_amount)
      × ((s.amount_due ≡ 0) ⊎ (s.overpaid_amount ≡ 0))
      × ((s.status ≡ unpaid) ↔ (verified ≡ 0))
      × ((s.status ≡ partially_paid) ↔ ((1 ≤ verified) × (1 ≤ s.amount_due)))
      × ((s.status ≡ paid) ↔ ((1 ≤ verified) × (s.amount_due ≡ 0) × (s.overpaid_amount ≡ 0)))
      × ((s.status ≡ overpaid) ↔ (1 ≤ s.overpaid_amount))
unfolding derive_payment_summary
derive_payment_summary_balances order_amount verified = ground arith
