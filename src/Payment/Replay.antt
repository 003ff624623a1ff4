-- ===== src/Payment/Replay.antt =====
-- A payment is reported once for each idempotency key: proofs about Transactions.antt.
use tteeka.Prelude.{◌≡◌, some, [], ◌∷◌, inl, inr, Option-cases, arith}
use tteeka.Prelude.Table.{find, find-append_none, sum_of, sum_of-append}
use tteeka.Schema.{Db, Uuid, Date, Payment}
use tteeka.Store.{Env, ok, is_unique_violation}
use tteeka.Payment.Transactions.{
  ReportPaymentCommand, report, find_payment_key, is_payment_key, new_payment, find_order,
  verified_total, verified_amount,
}

-- A report that returns a payment changes no order's verified total; and the same report sent
-- again at any time, on the tables that it left, returns the same payment and changes nothing.
pub report_once :
    (env env' : Env) (m order_id : Uuid) (command : ReportPaymentCommand) (later : Date) (db : Db)
    {p : Payment} {db' : Db}
    → report env m order_id command db ≡ (ok (some p), db')
    → (report env' m order_id (record command { now = later }) db' ≡ (ok (some p), db'))
      × ((m' o : Uuid) → verified_total m' o db' ≡ verified_total m' o db)
unfolding report is_unique_violation find_payment_key is_payment_key find find_order verified_total
    sum_of
report_once env env' m order_id command later db {p} {db'} e =
    elim (Option-cases (find_order m order_id db)) [
      | inl missing ↦ absurd (ground (arith, missing, e))
      | inr (order, o) ↦ elim (Option-cases order.currency) [
        | inl no_currency ↦ absurd (ground (arith, o, no_currency, e))
        | inr (currency, c) ↦ elim (Option-cases (find_payment_key m command.idempotency_key db)) [
          | inr (old, f) ↦ (ground (arith, o, c, f, e), λ m' o'. ground (arith, o, c, f, e))
          | inl fresh ↦
              let made = new_payment env m order_id command currency db in
              (
                ground (
                  arith,
                  o,
                  c,
                  fresh,
                  e,
                  find-append_none (is_payment_key m command.idempotency_key) db.payments
                      (made ∷ []) fresh,
                ),
                λ m' o'. ground (
                  arith,
                  o,
                  c,
                  fresh,
                  e,
                  sum_of-append (verified_amount m' o') db.payments (made ∷ []),
                ),
              )
        ]
      ]
    ]
