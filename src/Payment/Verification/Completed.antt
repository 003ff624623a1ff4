-- ===== src/Payment/Verification/Completed.antt =====
-- An attempt is completed once: proofs about Verification.antt.
use tteeka.Prelude.{◌≡◌, inl, inr, refl, false, some, ◌&&◌, Option-cases, Bool-cases, ◌∙◌, arith}
use tteeka.Prelude.Table.{find, find_holds, find-update_first}
use tteeka.Schema.{Db, Uuid, Payment, VerificationAttempt}
use tteeka.Store.{ok, Outcome-cases}
use tteeka.Payment.Transactions.{is_payment, is_open, save_payment}
use tteeka.Payment.Provider.{CompleteProviderVerificationCommand, CompletionStatus, attempt_status}
use tteeka.Payment.Verification.{
  is_attempt, is_pending, is_verified_completion, completed_attempt, verified_payment, save_attempt,
  write_completion, complete,
}

is_pending-attempt_status : (s : CompletionStatus) → is_pending (attempt_status s) ≡ false
is_pending-attempt_status CompletionStatus.verified = refl
is_pending-attempt_status CompletionStatus.not_verified = refl
is_pending-attempt_status CompletionStatus.failed = refl

completed_attempt-kept :
    (m p id : Uuid) (c : CompleteProviderVerificationCommand) (a : VerificationAttempt)
    → (is_attempt m p id (completed_attempt c a) ≡ is_attempt m p id a)
      × (is_pending (completed_attempt c a).status ≡ false)
unfolding is_attempt completed_attempt
completed_attempt-kept m p id c a = (refl, is_pending-attempt_status c.status)

verified_payment-kept :
    (m o id : Uuid) (c : CompleteProviderVerificationCommand) (p : Payment)
    → is_payment m o id (verified_payment c.now p) ≡ is_payment m o id p
unfolding is_payment verified_payment
verified_payment-kept m o id c p = refl

find_saved_attempt :
    (m p id : Uuid) (c : CompleteProviderVerificationCommand) (db : Db) (a : VerificationAttempt)
    → find (is_attempt m p id) db.verifications ≡ some a
    → find (is_attempt m p id) (save_attempt m p id (completed_attempt c) db).verifications
      ≡ some (completed_attempt c a)
unfolding save_attempt
find_saved_attempt m p id c db a g =
    find-update_first (is_attempt m p id) (completed_attempt c) db.verifications
      ((completed_attempt-kept m p id c a).0 ∙ find_holds (is_attempt m p id) db.verifications g) g

find_saved_payment :
    (m o id : Uuid) (c : CompleteProviderVerificationCommand) (db : Db) (p : Payment)
    → find (is_payment m o id) db.payments ≡ some p
    → find (is_payment m o id) (save_payment m o id (verified_payment c.now) db).payments
      ≡ some (verified_payment c.now p)
unfolding save_payment
find_saved_payment m o id c db p f =
    find-update_first (is_payment m o id) (verified_payment c.now) db.payments
      (verified_payment-kept m o id c p ∙ find_holds (is_payment m o id) db.payments f) f

-- Of an attempt that is over, a completion gives what is there and changes nothing.
complete_over :
    (m order_id payment_id id : Uuid) (c : CompleteProviderVerificationCommand) (db : Db)
    (p : Payment) (a : VerificationAttempt)
    → find (is_payment m order_id payment_id) db.payments ≡ some p
    → find (is_attempt m payment_id id) db.verifications ≡ some a
    → is_pending a.status ≡ false
    → complete m order_id payment_id id c db ≡ (ok (some (p, a)), db)
unfolding complete
complete_over m order_id payment_id id c db p a f g over = ground (arith, f, g, over)

-- What a completion returns is what is then there.
pub record Found (m order_id payment_id id : Uuid) (p : Payment) (a : VerificationAttempt) (db : Db)
    : Type 0 where
  pub payment : find (is_payment m order_id payment_id) db.payments ≡ some p
  pub attempt : find (is_attempt m payment_id id) db.verifications ≡ some a
  pub over : is_pending a.status ≡ false

write_completion-Found :
    (m order_id payment_id id : Uuid) (c : CompleteProviderVerificationCommand) (db : Db)
    (p₀ : Payment) (a₀ : VerificationAttempt) {p : Payment} {a : VerificationAttempt} {db' : Db}
    → find (is_payment m order_id payment_id) db.payments ≡ some p₀
    → find (is_attempt m payment_id id) db.verifications ≡ some a₀
    → write_completion m order_id payment_id id c p₀ a₀ db ≡ (ok (some (p, a)), db')
    → Found m order_id payment_id id p a db'
unfolding write_completion
write_completion-Found m order_id payment_id id c db p₀ a₀ {p} {a} {db'} f g e =
    let saved = save_attempt m payment_id id (completed_attempt c) db in
    let there = find_saved_attempt m payment_id id c db a₀ g in
    let over = (completed_attempt-kept m payment_id id c a₀).1 in
    let f' : find (is_payment m order_id payment_id) saved.payments ≡ some p₀ =
      unfold save_attempt in f in
    elim (Bool-cases (is_verified_completion c.status && is_open p₀.status)) [
      | inl pays ↦
          let same_p : p ≡ verified_payment c.now p₀ = ground (arith, pays, e) in
          let same_a : a ≡ completed_attempt c a₀ = ground (arith, pays, e) in
          let same_db : db' ≡ save_payment m order_id payment_id (verified_payment c.now) saved =
            ground (arith, pays, e) in
          rw (same_p, same_a, same_db)
            record {
              payment = find_saved_payment m order_id payment_id c saved p₀ f';
              attempt = unfold save_payment in there;
              over = over;
            }
      | inr unpaid ↦
          let same_p : p ≡ p₀ = ground (arith, unpaid, e) in
          let same_a : a ≡ completed_attempt c a₀ = ground (arith, unpaid, e) in
          let same_db : db' ≡ saved = ground (arith, unpaid, e) in
          rw (same_p, same_a, same_db) record { payment = f'; attempt = there; over = over }
    ]

pub complete-Found :
    (m order_id payment_id id : Uuid) (c : CompleteProviderVerificationCommand) (db : Db)
    {p : Payment} {a : VerificationAttempt} {db' : Db}
    → complete m order_id payment_id id c db ≡ (ok (some (p, a)), db')
    → Found m order_id payment_id id p a db'
unfolding complete
complete-Found m order_id payment_id id c db {p} {a} {db'} e =
    elim (Option-cases (find (is_payment m order_id payment_id) db.payments)) [
      | inl no_payment ↦ absurd (ground (arith, no_payment, e))
      | inr (p₀, f) ↦ elim (Option-cases (find (is_attempt m payment_id id) db.verifications)) [
        | inl no_attempt ↦ absurd (ground (arith, f, no_attempt, e))
        | inr (a₀, g) ↦ elim (Bool-cases (is_pending a₀.status)) [
          | inr over ↦ record {
            payment = ground (arith, f, g, over, e);
            attempt = ground (arith, f, g, over, e);
            over = ground (arith, f, g, over, e);
          }
          | inl pending ↦
              elim (Outcome-cases (write_completion m order_id payment_id id c p₀ a₀ db)) [
                | inr (x, db₁, refused) ↦ absurd (ground (arith, f, g, pending, refused, e))
                | inl (r, db₁, done) ↦
                    write_completion-Found m order_id payment_id id c db p₀ a₀ f g
                      (ground (arith, f, g, pending, done, e))
              ]
        ]
      ]
    ]

-- An attempt is completed once: after a completion that returns, another one, whatever it says,
-- returns the same payment and the same attempt and changes nothing; and the attempt is no longer
-- pending.
pub complete_once :
    (m order_id payment_id id : Uuid) (c other : CompleteProviderVerificationCommand) (db : Db)
    {p : Payment} {a : VerificationAttempt} {db' : Db}
    → complete m order_id payment_id id c db ≡ (ok (some (p, a)), db')
    → (is_pending a.status ≡ false)
      × (complete m order_id payment_id id other db' ≡ (ok (some (p, a)), db'))
complete_once m order_id payment_id id c other db {p} {a} {db'} e =
    let there = complete-Found m order_id payment_id id c db e in
    (
      there.over,
      complete_over m order_id payment_id id other db' p a there.payment there.attempt there.over,
    )
