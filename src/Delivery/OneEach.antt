-- ===== src/Delivery/OneEach.antt =====
-- An order has one delivery at most: proofs about `create` of Jobs.antt.
use tteeka.Prelude.{ℕ, ◌≤◌, sym, subst, [], ◌∷◌, inl, inr, if◌then◌else◌, arith}
use tteeka.Prelude.Table.{sum_of, sum_of-append, sum_of_unfound}
use tteeka.Schema.{Db, Uuid, DeliveryJob}
use tteeka.Store.{Env, Outcome-cases}
use tteeka.Delivery.Jobs.{CreateDeliveryCommand, create, find_job_for, is_job_for}
use tteeka.Delivery.Creation.{Opened, Opening, replayed, opened, create-Opening, create_err}

job_for : Uuid → Uuid → DeliveryJob → ℕ
job_for m o j = if is_job_for m o j then 1 else 0

-- The number of deliveries of an order.
unfoldable pub jobs_of : Uuid → Uuid → Db → ℕ
unfolding job_for
jobs_of m o db = sum_of (job_for m o) db.deliveries

pub record HasOneJobEach (db : Db) : Type 0 where
  pub at_most : (m o : Uuid) → jobs_of m o db ≤ 1

Opened-HasOneJobEach :
    (m : Uuid) (command : CreateDeliveryCommand) (db : Db) {job : DeliveryJob} {db' : Db}
    → Opened m command db job db'
    → HasOneJobEach db
    → HasOneJobEach db'
unfolding jobs_of find_job_for is_job_for sum_of
Opened-HasOneJobEach m command db {job} {db'} w h = record {
  at_most = λ m' o. ground (
    arith,
    h.at_most m' o,
    w.appended,
    w.merchant,
    w.for_order,
    sum_of-append (job_for m' o) db.deliveries (job ∷ []),
    sum_of_unfound (job_for m command.order_id) (is_job_for m command.order_id) db.deliveries
        (λ a e. ground (arith, e)) w.no_other,
  );
}

-- Whatever delivery is asked for, if no order has two deliveries before the call and after the
-- wait for the lock, whatever other requests have committed then, none has at the end, whether
-- the call creates one, finds one or throws.
pub create-HasOneJobEach :
    (env : Env) (m : Uuid) (command : CreateDeliveryCommand) (db : Db)
    → HasOneJobEach db
    → HasOneJobEach (env.waited db)
    → HasOneJobEach (create env m command db).1
create-HasOneJobEach env m command db h k = elim (Outcome-cases (create env m command db)) [
  | inl (job, db', e) ↦ rw e (kept (create-Opening env m command db e))
  | inr (x, db', e) ↦ elim (create_err env m command db e) [
    | inl same ↦ rw (e, same) h
    | inr same ↦ rw (e, same) k
  ]
]
  where
    kept : {job : DeliveryJob} {db' : Db} → Opening env m command db job db' → HasOneJobEach db'
    kept (replayed f o hash (inl same)) = subst HasOneJobEach (sym same) h
    kept (replayed f o hash (inr same)) = subst HasOneJobEach (sym same) k
    kept (opened w) = Opened-HasOneJobEach m command (env.waited db) w k
