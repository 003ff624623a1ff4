-- ===== src/Payment/Verification/Evidence.antt =====
-- A completion pays an order only on matching evidence: proofs about Verification.antt.
use tteeka.Prelude.{
  ◌+◌, ◌≡◌, ◌⊎◌, inl, inr, refl, true, Option, none, some, String, ◌==◌, ◌&&◌, if◌then◌else◌,
  Option-cases, Bool-cases, ==_iff, ap, ◌∙◌, arith,
}
use tteeka.Prelude.Table.{find, find_holds, sum_of-update_first}
use tteeka.Prelude.Texts.{str_eq_iff}
use tteeka.Schema.{Db, Uuid, Date, Payment, PaymentProvider, VerificationAttempt}
use tteeka.Payment.Transactions.{is_payment, is_open, save_payment, verified_amount, verified_total}
use tteeka.Payment.Provider.{
  CompleteProviderVerificationCommand, ProviderVerificationInput, ProviderVerificationResult,
  ProviderVerifiedResult, ProviderEvidence, verified, not_verified, failed, same_provider, agrees,
  is_match, completion_from_result,
}
use tteeka.Payment.Verification.{
  is_verified_completion, is_attempt, is_pending, save_attempt, completed_attempt, verified_payment,
  complete,
}

-- The provider left the field out, or gave what was expected.
abbrev pub Agrees : Option String → String → Type 0
Agrees value expected = (value ≡ none) ⊎ (value ≡ some expected)

-- The answer says VERIFIED, for this provider, amount, currency, payer and reference.
pub record IsEvidence (input : ProviderVerificationInput) (result : ProviderVerificationResult)
    : Type 0 where
  pub evidence : ProviderEvidence
  pub answer : ProviderVerifiedResult
  pub outcome : result ≡ ProviderVerificationResult.verified evidence answer
  pub provider : answer.provider ≡ input.provider
  pub amount : answer.amount ≡ input.amount
  pub currency : answer.currency ≡ input.currency
  pub payer : Agrees answer.payer_phone input.payer_phone
  pub reference : Agrees answer.provider_reference input.provider_reference

same_provider-eq : (p q : PaymentProvider) → same_provider p q ≡ true → p ≡ q
same_provider-eq p q h = ground arith

agrees-Agrees : (value : Option String) (s : String) → agrees value s ≡ true → Agrees value s
agrees-Agrees none s h = inl refl
agrees-Agrees (some t) s h = inr (ap some ((str_eq_iff t s).0 h))

completion_from_result-IsEvidence :
    (input : ProviderVerificationInput) (result : ProviderVerificationResult) (now : Date)
    → is_verified_completion (completion_from_result input result now).status ≡ true
    → IsEvidence input result
unfolding completion_from_result
completion_from_result-IsEvidence input (failed e code message) now h = absurd (ground (arith, h))
completion_from_result-IsEvidence input (not_verified e) now h = absurd (ground (arith, h))
completion_from_result-IsEvidence input (verified e r) now h =
    let matched : is_match input r ≡ true = ground (arith, h) in
    let parts : (same_provider r.provider input.provider ≡ true)
        × ((r.amount == input.amount) ≡ true)
        × ((r.currency == input.currency) ≡ true)
        × (agrees r.payer_phone input.payer_phone ≡ true)
        × (agrees r.provider_reference input.provider_reference ≡ true) =
      unfold is_match in ground (arith, matched) in
    record {
      evidence = e;
      answer = r;
      outcome = refl;
      provider = same_provider-eq r.provider input.provider parts.0;
      amount = (==_iff r.amount input.amount).0 parts.1;
      currency = (==_iff r.currency input.currency).0 parts.2;
      payer = agrees-Agrees r.payer_phone input.payer_phone parts.3;
      reference = agrees-Agrees r.provider_reference input.provider_reference parts.4;
    }

-- What a verification adds to the verified total of an order.
paid_total :
    (m order_id id : Uuid) (now : Date) (db : Db) {p : Payment}
    → find (is_payment m order_id id) db.payments ≡ some p
    → is_open p.status ≡ true
    → (m' o : Uuid)
    → verified_total m' o (save_payment m order_id id (verified_payment now) db)
      ≡ verified_total m' o db + (if m' == m && o == order_id then p.amount else 0)
unfolding save_payment verified_total verified_amount verified_payment is_payment
paid_total m order_id id now db {p} f open' m' o = ground (
  arith,
  find_holds (is_payment m order_id id) db.payments f,
  sum_of-update_first (verified_amount m' o) (is_payment m order_id id) (verified_payment now)
      db.payments f,
)

total-save_attempt :
    (m p id m' o : Uuid) (f : VerificationAttempt → VerificationAttempt) (db : Db)
    → verified_total m' o (save_attempt m p id f db) ≡ verified_total m' o db
unfolding verified_total save_attempt
total-save_attempt m p id m' o f db = refl

-- The tables that a completion leaves.
data Left (m order_id payment_id id : Uuid) (c : CompleteProviderVerificationCommand) (db db' : Db)
    : Type 0 where
  untouched : db' ≡ db → Left m order_id payment_id id c db db'
  attempted :
      db' ≡ save_attempt m payment_id id (completed_attempt c) db
      → Left m order_id payment_id id c db db'
  paid :
      (p : Payment) (a : VerificationAttempt)
      → find (is_payment m order_id payment_id) db.payments ≡ some p
      → find (is_attempt m payment_id id) db.verifications ≡ some a
      → is_pending a.status ≡ true
      → is_verified_completion c.status ≡ true
      → is_open p.status ≡ true
      → db'
        ≡ save_payment m order_id payment_id
            (verified_payment c.now)
            (save_attempt m payment_id id (completed_attempt c) db)
      → Left m order_id payment_id id c db db'

complete-Left :
    (m order_id payment_id id : Uuid) (c : CompleteProviderVerificationCommand) (db : Db)
    → Left m order_id payment_id id c db (complete m order_id payment_id id c db).1
unfolding complete
complete-Left m order_id payment_id id c db =
    elim (Option-cases (find (is_payment m order_id payment_id) db.payments)) [
      | inl no_payment ↦ untouched (ground (arith, no_payment))
      | inr (p, f) ↦ elim (Option-cases (find (is_attempt m payment_id id) db.verifications)) [
        | inl no_attempt ↦ untouched (ground (arith, f, no_attempt))
        | inr (a, g) ↦ elim (Bool-cases (is_pending a.status)) [
          | inr over ↦ untouched (ground (arith, f, g, over))
          | inl pending ↦ elim (Bool-cases (is_verified_completion c.status && is_open p.status)) [
            | inl pays ↦
                paid p a f g pending (ground (arith, pays)) (ground (arith, pays))
                  (ground (arith, f, g, pending, pays))
            | inr unpaid ↦ attempted (ground (arith, f, g, pending, unpaid))
          ]
        ]
      ]
    ]

-- Completing an attempt with what the provider's answer is turned into changes no verified total,
-- unless the attempt was pending, the payment open, and the answer is evidence for the input; then
-- the order of the payment has its amount more, and no other order has.
pub complete-IsEvidence :
    (m order_id payment_id id : Uuid) (input : ProviderVerificationInput)
    (result : ProviderVerificationResult) (now : Date) (db : Db)
    → let db' =
        (complete m order_id payment_id id (completion_from_result input result now) db).1 in
      ((m' o : Uuid) → verified_total m' o db' ≡ verified_total m' o db)
      ⊎ (IsEvidence input result
          × ((a : VerificationAttempt) × (find (is_attempt m payment_id id) db.verifications
                ≡ some a)
              × (is_pending a.status ≡ true))
          × ((p : Payment) × (find (is_payment m order_id payment_id) db.payments ≡ some p)
              × (is_open p.status ≡ true)
              × ((m' o : Uuid)
                  → verified_total m' o db'
                    ≡ verified_total m' o db + (if m' == m && o == order_id then p.amount else 0))))
complete-IsEvidence m order_id payment_id id input result now db =
    let c = completion_from_result input result now in
    elim (complete-Left m order_id payment_id id c db) [
      | untouched same ↦ inl (λ m' o. ap (verified_total m' o) same)
      | attempted same ↦ inl (λ m' o.
          ap (verified_total m' o) same
          ∙ total-save_attempt m payment_id id m' o (completed_attempt c) db)
      | paid p a f g pending v open' same ↦ inr (
        completion_from_result-IsEvidence input result now v,
        (a, g, pending),
        (
          p,
          f,
          open',
          λ m' o.
              ap (verified_total m' o) same
              ∙ paid_total m order_id payment_id c.now
                  (save_attempt m payment_id id (completed_attempt c) db) {p = p}
                  (unfold save_attempt in f) open' m' o
              ∙ ap (λ t. t + (if m' == m && o == order_id then p.amount else 0))
                  (total-save_attempt m payment_id id m' o (completed_attempt c) db),
        ),
      )
    ]
