-- ===== src/Tests/Verifications.antt =====
-- A mobile money payment that its provider is asked to verify.
use tteeka.Prelude.{
  ◌+◌, ◌≡◌, ◌⊎◌, ◌==◌, ◌&&◌, if◌then◌else◌, refl, true, false, some, none, [], ◌∷◌,
}
use tteeka.Prelude.Table.{find, update_first}
use tteeka.Prelude.Texts.{trim, slice}
use tteeka.Schema.{
  Db, Uuid, Payment, PaymentMethod, PaymentStatus, PaymentProvider, VerificationAttempt,
}
use tteeka.Store.{ok}
use tteeka.Payment.Transactions.{is_payment, is_open, save_payment, verified_total}
use tteeka.Payment.Provider.{
  ProviderVerificationInput, ProviderVerificationResult, ProviderEvidence, ProviderVerifiedResult,
  CompleteProviderVerificationCommand, completion_from_result,
}
use tteeka.Payment.Verification.{
  RequestHash, BeginProviderVerificationCommand, BegunProviderVerification, provider_for_method,
  is_attempt_key, find_attempt_key, payment_input, new_attempt, insert_attempt, begin_locked,
  begin_in_transaction, begin, is_attempt, is_pending, completed_attempt, verified_payment,
  save_attempt, write_completion, complete,
}
use tteeka.Payment.Verification.Evidence.{IsEvidence, complete-IsEvidence}
use tteeka.Payment.Verification.Completed.{complete_once}
use tteeka.Payment.Service.{verify}
use tteeka.Payment.Service.Ended.{IsThere, HasEnded, verify_ends}
use tteeka.Tests.{env, shop}

abbrev hash_of : RequestHash
hash_of = λ i. i.amount

abbrev payment : Payment
payment = record {
  id = 90;
  merchant_id = 1;
  order_id = 70;
  method = PaymentMethod.mtn_momo;
  status = PaymentStatus.reported;
  verification_source = none;
  amount = 50000;
  currency = 800;
  payer_phone = some "+256770000000";
  provider_reference = some "MP260809";
  merchant_reference = none;
  note = none;
  reported_at = 90;
  verification_pending_at = none;
  verified_at = none;
  rejected_at = none;
  idempotency_key = 9;
  request_hash = 99;
}

abbrev shop_reported : Db
shop_reported = record shop { payments = payment ∷ [] }

abbrev command : BeginProviderVerificationCommand
command = record { idempotency_key = 15; now = 110 }

abbrev input : ProviderVerificationInput
input = record {
  provider = PaymentProvider.mtn_momo;
  payment_transaction_id = 90;
  provider_reference = "MP260809";
  payer_phone = "+256770000000";
  amount = 50000;
  currency = 800;
}

abbrev attempt : VerificationAttempt
attempt = new_attempt env 1 90 input command 50000 shop_reported

abbrev begun : BegunProviderVerification
begun = record { is_new = true; payment = payment; attempt = attempt; adapter_input = input }

abbrev shop_begun : Db
shop_begun = record shop_reported { verifications = attempt ∷ [] }

begin_run : begin env hash_of 1 70 90 command shop_reported ≡ (ok (some begun), shop_begun)
unfolding begin begin_in_transaction begin_locked payment_input provider_for_method insert_attempt
    find_attempt_key is_attempt_key is_payment find
begin_run = refl

abbrev evidence : ProviderEvidence
evidence = record {
  provider_transaction_id = some " 4711 ";
  provider_status_code = none;
  provider_status_text = none;
}

abbrev answer : ProviderVerifiedResult
answer = record {
  provider = PaymentProvider.mtn_momo;
  amount = 50000;
  currency = 800;
  payer_phone = none;
  provider_reference = some "MP260809";
}

abbrev result : ProviderVerificationResult
result = ProviderVerificationResult.verified evidence answer

abbrev completion : CompleteProviderVerificationCommand
completion = completion_from_result input result 120

complete_run : complete 1 70 90 900 completion shop_begun ≡ (
  ok (some (verified_payment 120 payment, completed_attempt completion attempt)),
  record shop_begun {
    payments = verified_payment 120 payment ∷ [];
    verifications = completed_attempt completion attempt ∷ [];
  },
)
unfolding complete write_completion save_attempt completed_attempt verified_payment save_payment
    completion_from_result is_attempt is_payment trim slice find update_first
complete_run = refl

complete_once_example :
    (is_pending (completed_attempt completion attempt).status ≡ false)
    × (complete 1 70 90 900 completion (record shop_begun {
      payments = verified_payment 120 payment ∷ [];
      verifications = completed_attempt completion attempt ∷ [];
    })
        ≡ (
          ok (some (verified_payment 120 payment, completed_attempt completion attempt)),
          record shop_begun {
            payments = verified_payment 120 payment ∷ [];
            verifications = completed_attempt completion attempt ∷ [];
          },
        ))
complete_once_example = complete_once 1 70 90 900 completion completion shop_begun complete_run

complete-IsEvidence_example :
    let db' = (complete 1 70 90 900 (completion_from_result input result 120) shop_begun).1 in
    ((m' o : Uuid) → verified_total m' o db' ≡ verified_total m' o shop_begun)
    ⊎ (IsEvidence input result
        × ((a : VerificationAttempt) × (find (is_attempt 1 90 900) shop_begun.verifications
              ≡ some a)
            × (is_pending a.status ≡ true))
        × ((p : Payment) × (find (is_payment 1 70 90) shop_begun.payments ≡ some p)
            × (is_open p.status ≡ true)
            × ((m' o : Uuid)
                → verified_total m' o db'
                  ≡ verified_total m' o shop_begun + (if m' == 1 && o == 70 then p.amount else 0))))
complete-IsEvidence_example = complete-IsEvidence 1 70 90 900 input result 120 shop_begun

there : IsThere 1 70 90 900 shop_begun
unfolding is_payment is_attempt find
there = record { payment = payment; attempt = attempt; has_payment = refl; has_attempt = refl }

verify_ends_example :
    HasEnded 1 90 900 (
      verify env hash_of (λ provider. some (λ asked. some result)) 1 70 90 15 110 120 shop_reported)
verify_ends_example =
    verify_ends env hash_of (λ provider. some (λ asked. some result)) 1 70 90 15 110 120
      shop_reported begin_run refl there there
