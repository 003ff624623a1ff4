-- ===== src/Payment/Transactions.antt =====
-- apps/api/src/payments/prisma-payment.store.ts: reports of payments and their manual transitions.
use tteeka.Prelude.{
  ℕ, Bool, true, false, not, Option, none, some, String, [], ◌∷◌, ◌++◌, ◌==◌, ◌&&◌, is_some,
  if◌then◌else◌,
}
use tteeka.Prelude.Table.{find, update_first, sum_of}
use tteeka.Schema.{
  Db, Uuid, Key, Hash, Currency, Date, Order, OrderStatus, Payment, PaymentMethod, PaymentStatus,
  VerificationSource,
}
use tteeka.Store.{
  Env, Store, pure, raise, gets, modify, raise_if, or_raise, transaction, catch_unique,
  unique_violation, idempotency_key, payment_order_ineligible, payment_idempotency_conflict,
  payment_transition_not_allowed, ◌>>=◌, ◌>>◌,
}

pub record ReportPaymentCommand : Type 0 where
  pub method : PaymentMethod
  pub amount_value : ℕ
  pub payer_phone : Option String
  pub provider_reference : Option String
  pub merchant_reference : Option String
  pub note : Option String
  pub now : Date
  pub idempotency_key : Key
  pub request_hash : Hash

unfoldable pub is_order : Uuid → Uuid → Order → Bool
is_order m id o = o.merchant_id == m && o.id == id

unfoldable pub find_order : Uuid → Uuid → Db → Option Order
find_order m id db = find (is_order m id) db.orders

unfoldable pub is_payment_key : Uuid → Key → Payment → Bool
is_payment_key m k p = p.merchant_id == m && p.idempotency_key == k

unfoldable pub find_payment_key : Uuid → Key → Db → Option Payment
find_payment_key m k db = find (is_payment_key m k) db.payments

unfoldable pub is_payment : Uuid → Uuid → Uuid → Payment → Bool
is_payment m order_id id p = p.merchant_id == m && p.order_id == order_id && p.id == id

-- `['DRAFT', 'CONFIRMED'].includes(order.status)`
abbrev pub accepts_payments : OrderStatus → Bool
accepts_payments OrderStatus.draft = true
accepts_payments OrderStatus.confirmed = true
accepts_payments _ = false

-- `replay.orderId === orderId && replay.requestHash === command.requestHash`
abbrev pub is_same_report : Uuid → ReportPaymentCommand → Payment → Bool
is_same_report order_id command p = p.order_id == order_id && p.request_hash == command.request_hash

abbrev pub new_payment : Env → Uuid → Uuid → ReportPaymentCommand → Currency → Db → Payment
new_payment env m order_id command currency db = record {
  id = env.fresh_id db;
  merchant_id = m;
  order_id = order_id;
  method = command.method;
  status = PaymentStatus.reported;
  verification_source = none;
  amount = command.amount_value;
  currency = currency;
  payer_phone = command.payer_phone;
  provider_reference = command.provider_reference;
  merchant_reference = command.merchant_reference;
  note = command.note;
  reported_at = command.now;
  verification_pending_at = none;
  verified_at = none;
  rejected_at = none;
  idempotency_key = command.idempotency_key;
  request_hash = command.request_hash;
}

unfoldable pub create_payment : Env → Uuid → Uuid → ReportPaymentCommand → Currency → Store Payment
create_payment env m order_id command currency db =
    (if is_some (find_payment_key m command.idempotency_key db)
        then raise (unique_violation idempotency_key)
        else do
          let payment = new_payment env m order_id command currency db
          modify (λ t. record t { payments = t.payments ++ payment ∷ [] })
          pure payment)
      db

unfoldable pub report_in_transaction :
    Env → Uuid → Uuid → ReportPaymentCommand → Order → Store (Option Payment)
unfolding create_payment
report_in_transaction env m order_id command order = do
  raise_if (not (accepts_payments order.status)) payment_order_ineligible
  currency ← or_raise order.currency payment_order_ineligible
  replay ← gets (find_payment_key m command.idempotency_key)
  elim replay [
    | some payment ↦
        if is_same_report order_id command payment
        then pure (some payment)
        else raise payment_idempotency_conflict
    | none ↦ do payment ← create_payment env m order_id command currency; pure (some payment)
  ]

unfoldable pub replay_report : Uuid → Uuid → ReportPaymentCommand → Store (Option Payment)
replay_report m order_id command = do
  replay ← gets (find_payment_key m command.idempotency_key)
  elim replay [
    | some payment ↦
        if is_same_report order_id command payment
        then pure (some payment)
        else raise payment_idempotency_conflict
    | none ↦ raise payment_idempotency_conflict
  ]

unfoldable pub report : Env → Uuid → Uuid → ReportPaymentCommand → Store (Option Payment)
unfolding report_in_transaction replay_report
report env m order_id command =
    catch_unique
      (transaction do
        locked ← gets (find_order m order_id)
        elim locked [
          | none ↦ pure none
          | some order ↦ report_in_transaction env m order_id command order
        ])
      (replay_report m order_id command)

-- `PaymentTransition`
pub data PaymentTransition : Type 0 where
  verification_pending verified rejected : PaymentTransition

abbrev pub target_status : PaymentTransition → PaymentStatus
target_status PaymentTransition.verification_pending = PaymentStatus.verification_pending
target_status PaymentTransition.verified = PaymentStatus.verified
target_status PaymentTransition.rejected = PaymentStatus.rejected

-- `current.status === target`
abbrev pub is_at : PaymentTransition → PaymentStatus → Bool
is_at PaymentTransition.verification_pending PaymentStatus.verification_pending = true
is_at PaymentTransition.verified PaymentStatus.verified = true
is_at PaymentTransition.rejected PaymentStatus.rejected = true
is_at _ _ = false

abbrev pub is_reported : PaymentStatus → Bool
is_reported PaymentStatus.reported = true
is_reported _ = false

-- REPORTED or VERIFICATION_PENDING
abbrev pub is_open : PaymentStatus → Bool
is_open PaymentStatus.reported = true
is_open PaymentStatus.verification_pending = true
is_open _ = false

abbrev pub is_cash : PaymentMethod → Bool
is_cash PaymentMethod.cash = true
is_cash _ = false

-- The guard of each target.
unfoldable pub is_allowed : PaymentTransition → Payment → Bool
is_allowed PaymentTransition.verification_pending p = is_reported p.status && not (is_cash p.method)
is_allowed PaymentTransition.verified p = is_open p.status
is_allowed PaymentTransition.rejected p = is_open p.status

-- The `data` of each update.
unfoldable pub advance : PaymentTransition → Date → Payment → Payment
advance PaymentTransition.verification_pending now p = record p {
  status = PaymentStatus.verification_pending;
  verification_pending_at = some now;
}
advance PaymentTransition.verified now p = record p {
  status = PaymentStatus.verified;
  verification_source = some VerificationSource.manual;
  verified_at = some now;
}
advance PaymentTransition.rejected now p = record p {
  status = PaymentStatus.rejected;
  rejected_at = some now;
}

unfoldable pub save_payment : Uuid → Uuid → Uuid → (Payment → Payment) → Db → Db
save_payment m order_id id f db = record db {
  payments = update_first (is_payment m order_id id) f db.payments;
}

unfoldable pub transition : Uuid → Uuid → Uuid → PaymentTransition → Date → Store (Option Payment)
unfolding is_allowed advance save_payment
transition m order_id id target now = transaction do
  locked ← gets (λ db. find (is_payment m order_id id) db.payments)
  elim locked [
    | none ↦ pure none
    | some current ↦
        if is_at target current.status
        then pure (some current)
        else if not (is_allowed target current)
        then raise payment_transition_not_allowed
        else do
          modify (save_payment m order_id id (advance target now))
          pure (some (advance target now current))
  ]

-- `aggregate({ where: { status: 'VERIFIED' }, _sum: { amount: true } })`
abbrev pub is_verified : PaymentStatus → Bool
is_verified PaymentStatus.verified = true
is_verified _ = false

unfoldable pub verified_amount : Uuid → Uuid → Payment → ℕ
verified_amount m order_id p =
    if p.merchant_id == m && p.order_id == order_id && is_verified p.status then p.amount else 0

pub record PaymentSummaryRecord : Type 0 where
  pub currency : Option Currency
  pub order_amount : ℕ
  pub verified : ℕ

unfoldable pub verified_total : Uuid → Uuid → Db → ℕ
unfolding verified_amount
verified_total m order_id db = sum_of (verified_amount m order_id) db.payments

-- `PrismaPaymentStore.summary`
unfoldable pub summary : Uuid → Uuid → Store (Option PaymentSummaryRecord)
unfolding verified_total
summary m order_id = do
  order ← gets (find_order m order_id)
  total ← gets (verified_total m order_id)
  elim order [
    | none ↦ pure none
    | some o ↦
        pure (some (record { currency = o.currency; order_amount = o.subtotal; verified = total }))
  ]
