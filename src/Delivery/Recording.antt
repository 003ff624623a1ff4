-- ===== src/Delivery/Recording.antt =====
-- The attempt that concludes a delivery: proofs about Attempts.antt.
use tteeka.Prelude.{
  ℕ, ◌+◌, ◌-◌, ◌<◌, ◌≡◌, ◌⊎◌, inl, inr, refl, ap, Bool, true, false, none, some, List, [], ◌∷◌,
  ◌++◌, ◌==◌, ◌&&◌, leb, any, Bool-cases, ==_refl, arith,
}
use tteeka.Prelude.Table.{find, find-update_first, find_holds, find-append_none}
use tteeka.Schema.{Db, Uuid, Key, Date, DeliveryJob, DeliveryAttempt, JobStatus, AttemptResult}
use tteeka.Store.{Env, ok, err, delivery_invalid_transition}
use tteeka.Delivery.Jobs.{find_job, is_job, save_job}
use tteeka.Delivery.Attempts.{
  RecordDeliveryAttemptCommand, write_attempt, record_locked, find_attempt_key, is_attempt_key,
  max_number, has_number, is_attempt_of, conclude, new_attempt, is_dispatched,
}

-- The number of a new attempt is above those of all earlier attempts at the job.
above_all :
    (m id : Uuid) (n : ℕ) (attempts : List DeliveryAttempt)
    → max_number m id attempts < n
    → any (has_number m id n) attempts ≡ false
unfolding max_number has_number
above_all m id n [] h = refl
above_all m id n (a ∷ rest) h = ground (arith, above_all m id n rest)

is_job-conclude :
    (m id : Uuid) (r : AttemptResult) (now : Date) (j : DeliveryJob)
    → is_job m id j ≡ true
    → is_job m id (conclude r now j) ≡ true
unfolding is_job conclude
is_job-conclude m id AttemptResult.delivered now j h = h
is_job-conclude m id AttemptResult.failed now j h = h

not_dispatched-conclude :
    (r : AttemptResult) (now : Date) (j : DeliveryJob)
    → is_dispatched (conclude r now j).status ≡ false
unfolding conclude
not_dispatched-conclude AttemptResult.delivered now j = refl
not_dispatched-conclude AttemptResult.failed now j = refl

find_job-save_job :
    (m id : Uuid) (r : AttemptResult) (now : Date) (db : Db) {job : DeliveryJob}
    → find_job m id db ≡ some job
    → find_job m id (save_job m id (conclude r now) db) ≡ some (conclude r now job)
unfolding find_job save_job
find_job-save_job m id r now db {job} f =
    find-update_first (is_job m id) (conclude r now) db.deliveries
      (is_job-conclude m id r now job (find_holds (is_job m id) db.deliveries f)) f

find_attempt_key-append :
    (m : Uuid) (k : Key) (db db' : Db) (a : DeliveryAttempt)
    → db'.attempts ≡ db.attempts ++ a ∷ []
    → (k == a.idempotency_key) ≡ false
    → find_attempt_key m k db ≡ none
    → find_attempt_key m k db' ≡ none
unfolding find_attempt_key is_attempt_key find
find_attempt_key-append m k db db' a e ne f =
    ground (arith, e, ne, find-append_none (is_attempt_key m k) db.attempts (a ∷ []) f)

-- A job that is not dispatched takes no attempt under a new key.
record_locked_refused :
    (env : Env) (m id : Uuid) (command : RecordDeliveryAttemptCommand) (now : Date) (db : Db)
    {job : DeliveryJob}
    → find_job m id db ≡ some job
    → is_dispatched job.status ≡ false
    → find_attempt_key m command.idempotency_key db ≡ none
    → record_locked env m id command now db ≡ (err delivery_invalid_transition, db)
unfolding record_locked
record_locked_refused env m id command now db {job} f s k = ground (arith, f, s, k)

record_locked_writes :
    (env : Env) (m id : Uuid) (command : RecordDeliveryAttemptCommand) (now : Date) (db : Db)
    {job : DeliveryJob}
    → find_job m id db ≡ some job
    → is_dispatched job.status ≡ true
    → find_attempt_key m command.idempotency_key db ≡ none
    → let attempt = new_attempt env m id command now db in
      record_locked env m id command now db ≡ (
        ok (some (conclude command.result now job, attempt)),
        record (save_job m id (conclude command.result now) db) {
          attempts = db.attempts ++ attempt ∷ [];
        },
      )
unfolding record_locked write_attempt save_job
record_locked_writes env m id command now db {job} f s k =
    ground (arith, f, s, k, above_all m id (max_number m id db.attempts + 1) db.attempts)

-- The highest number of the attempts at a job is 0, or one of them has it.
max_number-attained :
    (m id : Uuid) (attempts : List DeliveryAttempt)
    → (max_number m id attempts ≡ 0)
      ⊎ (any (has_number m id (max_number m id attempts)) attempts ≡ true)
unfolding max_number has_number
max_number-attained m id [] = inl refl
max_number-attained m id (a ∷ rest) =
    elim (Bool-cases (is_attempt_of m id a && leb (max_number m id rest) a.attempt_number)) [
      | inl higher ↦ inr (ground (arith, higher, ==_refl a.attempt_number))
      | inr lower ↦ elim (max_number-attained m id rest) [
        | inl none_yet ↦ inl (ground (arith, lower, none_yet))
        | inr found ↦ inr (ground (arith, lower, found))
      ]
    ]

-- An attempt of the job has this number or a higher one.
abbrev pub reaches : Uuid → Uuid → ℕ → DeliveryAttempt → Bool
reaches m id n a = is_attempt_of m id a && leb n a.attempt_number

above_every :
    (m id : Uuid) (n : ℕ) (attempts : List DeliveryAttempt)
    → max_number m id attempts < n
    → any (reaches m id n) attempts ≡ false
unfolding max_number
above_every m id n [] h = refl
above_every m id n (a ∷ rest) h = ground (arith, above_every m id n rest)

-- What an attempt does to the job that it concludes: it is delivered or failed at the time of the
-- attempt, and nothing else of it changes.
abbrev pub Concludes : AttemptResult → Date → DeliveryJob → DeliveryJob → Type 0
Concludes AttemptResult.delivered now job job' =
    job' ≡ record job { status = JobStatus.delivered; delivered_at = some now }
Concludes AttemptResult.failed now job job' =
    job' ≡ record job { status = JobStatus.failed; failed_at = some now }

conclude-Concludes :
    (r : AttemptResult) (now : Date) (j : DeliveryJob) → Concludes r now j (conclude r now j)
unfolding conclude
conclude-Concludes AttemptResult.delivered now j = refl
conclude-Concludes AttemptResult.failed now j = refl

-- An attempt that is recorded: its number is 1 or follows that of an earlier attempt at the job, and
-- no earlier attempt has it or a higher one; it has the result, the time and the key of the request;
-- it is the only row added; and the job is concluded by it, in the answer and in the tables.
pub record IsRecorded (m id : Uuid) (command : RecordDeliveryAttemptCommand) (now : Date) (db : Db)
    (job job' : DeliveryJob) (attempt : DeliveryAttempt) (db' : Db) : Type 0 where
  pub first_or_next :
      (attempt.attempt_number ≡ 1)
      ⊎ (any (has_number m id (attempt.attempt_number - 1)) db.attempts ≡ true)
  pub above : any (reaches m id attempt.attempt_number) db.attempts ≡ false
  pub of_job : (attempt.merchant_id ≡ m) × (attempt.delivery_job_id ≡ id)
  pub result : (attempt.result ≡ command.result) × (attempt.failure_reason ≡ command.failure_reason)
  pub key :
      (attempt.idempotency_key ≡ command.idempotency_key)
      × (attempt.request_hash ≡ command.request_hash)
  pub attempted_at : attempt.attempted_at ≡ now
  pub added : db'.attempts ≡ db.attempts ++ attempt ∷ []
  pub concluded : Concludes command.result now job job'
  pub found : find_job m id db' ≡ some job'

-- An attempt with a new key at a dispatched job is always accepted under the job's lock: its number
-- is 1 or follows that of an earlier attempt at the job, and no earlier attempt at it has that
-- number or a higher one; it is the only row added; the job is delivered or failed at the time of
-- the attempt, as its result says; and after it an attempt with another key, which is new as well,
-- is refused at any time and changes nothing.
pub record_locked_concludes :
    (env env' : Env) (m id : Uuid) (command other : RecordDeliveryAttemptCommand) (now later : Date)
    (db : Db) (job : DeliveryJob)
    → find_job m id db ≡ some job
    → job.status ≡ JobStatus.dispatched
    → find_attempt_key m command.idempotency_key db ≡ none
    → find_attempt_key m other.idempotency_key db ≡ none
    → (other.idempotency_key == command.idempotency_key) ≡ false
    → (job' : DeliveryJob) × (attempt : DeliveryAttempt) × (db' : Db) × (record_locked env m id
          command now db
        ≡ (ok (some (job', attempt)), db'))
      × IsRecorded m id command now db job job' attempt db'
      × (record_locked env' m id other later db' ≡ (err delivery_invalid_transition, db'))
record_locked_concludes env env' m id command other now later db job f s k k' ne =
    let attempt = new_attempt env m id command now db in
    let job' = conclude command.result now job in
    let saved = save_job m id (conclude command.result now) db in
    let db' : Db = record saved { attempts = db.attempts ++ attempt ∷ [] } in
    let highest = max_number m id db.attempts in
    let found : find_job m id db' ≡ some job' =
      unfold find_job in find_job-save_job m id command.result now db f in
    (
      job',
      attempt,
      db',
      record_locked_writes env m id command now db f (ap is_dispatched s) k,
      record {
        first_or_next = elim (max_number-attained m id db.attempts) [
          | inl none_yet ↦ inl (omega (arith, none_yet))
          | inr reached ↦
              let pred : highest + 1 - 1 ≡ highest = omega arith in inr (rw pred reached)
        ];
        above = above_every m id (highest + 1) db.attempts (omega arith);
        of_job = (refl, refl);
        result = (refl, refl);
        key = (refl, refl);
        attempted_at = refl;
        added = refl;
        concluded = conclude-Concludes command.result now job;
        found = found;
      },
      record_locked_refused env' m id other later db' found
          (not_dispatched-conclude command.result now job)
          (find_attempt_key-append m other.idempotency_key db db' attempt refl ne k'),
    )
