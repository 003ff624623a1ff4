-- ===== src/Delivery/Lifecycle.antt =====
-- The states of a delivery: proofs about `transition` of Jobs.antt and about Attempts.antt.
use tteeka.Prelude.{
  ◌≡◌, refl, sym, ap, ◌∙◌, true, some, ◌≢◌, inl, inr, Option-cases, Bool-cases, arith,
}
use tteeka.Schema.{Db, Uuid, Date, DeliveryJob, JobStatus}
use tteeka.Store.{Env, ok, Outcome-cases}
use tteeka.Delivery.Jobs.{
  JobTarget, target_status, same_status, is_allowed, advance, transition, transition_locked,
  find_job, save_job,
}

-- The moves of a delivery: it is readied, dispatched, and delivered or failed by its one attempt;
-- until it is dispatched it can be cancelled.
pub data Step : JobStatus → JobStatus → Type 0 where
  readied : Step JobStatus.pending JobStatus.ready
  sent : Step JobStatus.ready JobStatus.dispatched
  called_off : Step JobStatus.pending JobStatus.cancelled
  called_off_ready : Step JobStatus.ready JobStatus.cancelled
  handed_over : Step JobStatus.dispatched JobStatus.delivered
  gave_up : Step JobStatus.dispatched JobStatus.failed

-- No step leaves a delivery that was delivered, failed or cancelled.
Step-not_final :
    {s t : JobStatus}
    → Step s t
    → (s ≢ JobStatus.delivered) × (s ≢ JobStatus.failed) × (s ≢ JobStatus.cancelled)
Step-not_final readied = (λ e. cc, λ e. cc, λ e. cc)
Step-not_final sent = (λ e. cc, λ e. cc, λ e. cc)
Step-not_final called_off = (λ e. cc, λ e. cc, λ e. cc)
Step-not_final called_off_ready = (λ e. cc, λ e. cc, λ e. cc)
Step-not_final handed_over = (λ e. cc, λ e. cc, λ e. cc)
Step-not_final gave_up = (λ e. cc, λ e. cc, λ e. cc)

same_status-eq : (s t : JobStatus) → same_status s t ≡ true → s ≡ t
unfolding same_status
same_status-eq s t h = ground arith

Step-allowed :
    (target : JobTarget) (s : JobStatus)
    → is_allowed target s ≡ true
    → Step s (target_status target)
unfolding is_allowed
Step-allowed JobTarget.ready JobStatus.pending h = readied
Step-allowed JobTarget.dispatched JobStatus.ready h = sent
Step-allowed JobTarget.cancelled JobStatus.pending h = called_off
Step-allowed JobTarget.cancelled JobStatus.ready h = called_off_ready
Step-allowed _ _ h = absurd (ground arith)

status-advance :
    (target : JobTarget) (now : Date) (j : DeliveryJob)
    → (advance target now j).status ≡ target_status target
unfolding advance
status-advance JobTarget.ready now j = refl
status-advance JobTarget.dispatched now j = refl
status-advance JobTarget.cancelled now j = refl

-- What a transition that returns a job has done, on the tables that it found under its lock.
pub data Moved (m id : Uuid) (target : JobTarget) (observed : DeliveryJob) (db : Db)
    (job : DeliveryJob) (db' : Db) : Type 0 where
  stayed :
      find_job m id db ≡ some job
      → job.status ≡ target_status target
      → db' ≡ db
      → Moved m id target observed db job db'
  stepped :
      (current : DeliveryJob) (now : Date)
      → find_job m id db ≡ some current
      → current.status ≡ observed.status
      → Step current.status (target_status target)
      → job ≡ advance target now current
      → db' ≡ save_job m id (advance target now) db
      → Moved m id target observed db job db'

transition_locked-Moved :
    (m id : Uuid) (target : JobTarget) (now : Date) (observed : DeliveryJob) (db : Db)
    {job : DeliveryJob} {db' : Db}
    → transition_locked m id target now observed db ≡ (ok (some job), db')
    → Moved m id target observed db job db'
unfolding transition_locked
transition_locked-Moved m id target now observed db {job} {db'} e =
    elim (Option-cases (find_job m id db)) [
      | inl missing ↦ absurd (ground (arith, missing, e))
      | inr (current, f) ↦ elim (Bool-cases (same_status current.status (target_status target))) [
        | inl there ↦
            let same : job ≡ current = ground (arith, f, there, e) in
            stayed (f ∙ ap some (sym same))
              (ap (λ (j : DeliveryJob). j.status) same
                ∙ same_status-eq current.status (target_status target) there)
              (ground (arith, f, there, e))
        | inr away ↦ elim (Bool-cases (same_status current.status observed.status)) [
          | inr changed ↦ absurd (ground (arith, f, away, changed, e))
          | inl unchanged ↦ elim (Bool-cases (is_allowed target current.status)) [
            | inr refused ↦ absurd (ground (arith, f, away, unchanged, refused, e))
            | inl allowed ↦
                stepped current now f (same_status-eq current.status observed.status unchanged)
                  (Step-allowed target current.status allowed)
                  (ground (arith, f, away, unchanged, allowed, e))
                  (ground (arith, f, away, unchanged, allowed, e))
          ]
        ]
      ]
    ]

-- A transition that returns a job leaves it at the target. Either it was there already when its
-- row was locked, and nothing changes; or it was still in the state that was seen before the lock,
-- and it makes an allowed step from that state. So of two requests that saw the same state the
-- later one cannot move a job that the other has moved elsewhere.
pub transition-Moved :
    (env : Env) (m id : Uuid) (target : JobTarget) (now : Date) (db : Db) {job : DeliveryJob}
    {db' : Db}
    → transition env m id target now db ≡ (ok (some job), db')
    → (job.status ≡ target_status target)
      × ((observed : DeliveryJob) × (find_job m id db ≡ some observed)
          × Moved m id target observed (env.waited db) job db')
unfolding transition
transition-Moved env m id target now db {job} {db'} e = elim (Option-cases (find_job m id db)) [
  | inl missing ↦ absurd (ground (arith, missing, e))
  | inr (observed, f) ↦
      elim (Outcome-cases (transition_locked m id target now observed (env.waited db))) [
        | inr (x, db₁, refused) ↦ absurd (ground (arith, f, refused, e))
        | inl (r, db₁, done) ↦
            let moved =
              transition_locked-Moved m id target now observed (env.waited db) {job = job}
                {db' = db'} (ground (arith, f, done, e)) in
            (arrived moved, (observed, f, moved))
      ]
]
  where
    arrived :
        {observed : DeliveryJob}
        → Moved m id target observed (env.waited db) job db'
        → job.status ≡ target_status target
    arrived (stayed k there same) = there
    arrived (stepped current at k unchanged step saved kept) =
        ap (λ (j : DeliveryJob). j.status) saved ∙ status-advance target at current
