-- ===== src/Tests/Payments.antt =====
-- A payment of the draft order by mobile money, reported and then verified by hand.
use tteeka.Prelude.{false, ◌==◌, ◌&&◌, ℕ, ◌+◌, ◌≡◌, ◌≤◌, ◌⊎◌, ◌↔◌, refl, some, none, [], ◌∷◌}
use tteeka.Prelude.Table.{find, update_first}
use tteeka.Schema.{Db, Uuid, Payment, PaymentMethod, PaymentStatus}
use tteeka.Store.{ok}
use tteeka.Payment.Transactions.{
  ReportPaymentCommand, is_order, find_order, is_payment_key, find_payment_key, is_payment,
  new_payment, create_payment, report_in_transaction, report, PaymentTransition, is_allowed,
  advance, save_payment, transition, verified_total,
}
use tteeka.Payment.Summary.{
  derive_payment_summary, unpaid, partially_paid, paid, overpaid, derive_payment_summary_balances,
}
use tteeka.Payment.Lifecycle.{Step, payment_transition-Step, transition-verified_total}
use tteeka.Payment.Replay.{report_once}
use tteeka.Tests.{env, shop}

abbrev command : ReportPaymentCommand
command = record {
  method = PaymentMethod.mtn_momo;
  amount_value = 50000;
  payer_phone = some "+256770000000";
  provider_reference = none;
  merchant_reference = none;
  note = none;
  now = 90;
  idempotency_key = 9;
  request_hash = 99;
}

abbrev reported : Payment
reported = new_payment env 1 70 command 800 shop

abbrev shop_reported : Db
shop_reported = record shop { payments = reported ∷ [] }

report_run : report env 1 70 command shop ≡ (ok (some reported), shop_reported)
unfolding report report_in_transaction create_payment find_order is_order find_payment_key
    is_payment_key find
report_run = refl

report_once_example :
    (report env 1 70 (record command { now = 95 }) shop_reported
      ≡ (ok (some reported), shop_reported))
    × ((m' o : Uuid) → verified_total m' o shop_reported ≡ verified_total m' o shop)
report_once_example = report_once env env 1 70 command 95 shop report_run

abbrev verified : Payment
verified = advance PaymentTransition.verified 120 reported

abbrev shop_verified : Db
shop_verified = record shop { payments = verified ∷ [] }

verify_run :
    transition 1 70 900 PaymentTransition.verified 120 shop_reported
    ≡ (ok (some verified), shop_verified)
unfolding transition is_allowed advance save_payment is_payment find update_first
verify_run = refl

payment_transition-Step_example :
    (verified.status ≡ PaymentStatus.verified)
    × (find (is_payment 1 70 900) shop_verified.payments ≡ some verified)
    × ((m' o' id' : Uuid)
        → (m' == 1 && o' == 70 && id' == 900) ≡ false
        → find (is_payment m' o' id') shop_verified.payments
          ≡ find (is_payment m' o' id') shop_reported.payments)
    × ((current : Payment) × (find (is_payment 1 70 900) shop_reported.payments ≡ some current)
        × (((verified ≡ current) × (shop_verified ≡ shop_reported))
            ⊎ Step current.method current.status verified.status))
payment_transition-Step_example =
    payment_transition-Step 1 70 900 PaymentTransition.verified 120 shop_reported verify_run

reported_found : find (is_payment 1 70 900) shop_reported.payments ≡ some reported
unfolding is_payment find
reported_found = refl

transition-verified_total_example :
    verified_total 1 70 (transition 1 70 900 PaymentTransition.verified 120 shop_reported).1
    ≡ verified_total 1 70 shop_reported + 50000
transition-verified_total_example =
    transition-verified_total 1 70 900 PaymentTransition.verified 120 shop_reported reported_found
      refl 1 70

derive_payment_summary_balances_example :
    let paid_so_far : ℕ = 50000 in
    let s = derive_payment_summary 120000 paid_so_far in
    (s.amount_due + paid_so_far ≡ 120000 + s.overpaid_amount)
    × ((s.amount_due ≡ 0) ⊎ (s.overpaid_amount ≡ 0))
    × ((s.status ≡ unpaid) ↔ (paid_so_far ≡ 0))
    × ((s.status ≡ partially_paid) ↔ ((1 ≤ paid_so_far) × (1 ≤ s.amount_due)))
    × ((s.status ≡ paid) ↔ ((1 ≤ paid_so_far) × (s.amount_due ≡ 0) × (s.overpaid_amount ≡ 0)))
    × ((s.status ≡ overpaid) ↔ (1 ≤ s.overpaid_amount))
derive_payment_summary_balances_example = derive_payment_summary_balances 120000 50000
