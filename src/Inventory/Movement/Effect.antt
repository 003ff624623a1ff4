-- ===== src/Inventory/Movement/Effect.antt =====
-- How a movement that returns has changed the tables: proofs about Movement.antt.
use tteeka.Prelude.{
  ℕ, ◌≤◌, ◌≡◌, ◌∙◌, true, false, none, some, ◌==◌, ◌&&◌, if◌then◌else◌, arith, Option-cases,
  Bool-cases, inl, inr, [], ◌∷◌, ◌++◌,
}
use tteeka.Prelude.Table.{find-update_where, find-update_where_other, find_holds}
use tteeka.Schema.{max_bigint, Db, Uuid, Date, Balance, LedgerEntry}
use tteeka.Store.{Env, ok, Outcome-cases}
use tteeka.Inventory.Queries.{find_movement_key, held, physical, find_balance, is_balance}
use tteeka.Inventory.Stock.{physical-balances, physical-find_balance}
use tteeka.Inventory.Movement.{
  new_entry, ApplyMovementCommand, update_balance, create_entry, write_movement, next_quantity,
  is_adjustment_out,
}

same_balance :
    (m v m' v' : Uuid) (b : Balance)
    → is_balance m v b ≡ true
    → (m' == m && v' == v) ≡ false
    → is_balance m' v' b ≡ false
unfolding is_balance
same_balance m v m' v' b h k = ground arith

-- The update sets the quantity of one balance and of no other.
pub physical-update_balance :
    (env : Env) (m v : Uuid) (next : ℕ) (db : Db) (row : Balance)
    → find_balance m v db ≡ some row
    → (m' v' : Uuid)
    → physical m' v' (update_balance env m v next db)
      ≡ (if m' == m && v' == v then next else physical m' v' db)
unfolding physical find_balance update_balance
physical-update_balance env m v next db row e m' v' =
    let write = λ (b : Balance). record b { quantity = next; updated_at = env.db_now db } in
    elim (Bool-cases (m' == m && v' == v)) [
      | inl same ↦ ground (
        arith,
        find-update_where (is_balance m v) write db.balances {a = row}
            (unfold is_balance in find_holds (is_balance m v) db.balances e) e,
      )
      | inr other ↦ ground (
        arith,
        find-update_where_other (is_balance m' v') (is_balance m v) write db.balances (λ b h. (
          same_balance m v m' v' b h other,
          same_balance m v m' v' (write b) (unfold is_balance in h) other,
        )),
      )
    ]

-- How a movement that is written has changed the tables.
pub record Moved (env : Env) (m : Uuid) (command : ApplyMovementCommand) (now : Date) (db : Db)
    (entry : LedgerEntry) (db' : Db) : Type 0 where
  pub next : ℕ
  pub computed : next_quantity command (physical m command.variant_id db) ≡ some next
  pub within : next ≤ max_bigint
  pub above_held :
      is_adjustment_out command.movement_type ≡ true → held m command.variant_id now db ≤ next
  pub written : entry ≡ new_entry env m command next db
  pub new_key : find_movement_key m command.idempotency_key db ≡ none
  pub appended : db'.ledger ≡ db.ledger ++ entry ∷ []
  pub moved :
      (m' v' : Uuid)
      → physical m' v' db'
        ≡ (if m' == m && v' == command.variant_id then next else physical m' v' db)
  pub others : db' ≡ record db { balances = db'.balances; ledger = db'.ledger }

find_balance-balances :
    (m v : Uuid) (db db' : Db)
    → db'.balances ≡ db.balances
    → find_balance m v db' ≡ find_balance m v db
unfolding find_balance
find_balance-balances m v db db' e = ground arith

create_entry-effect :
    (env : Env) (m : Uuid) (command : ApplyMovementCommand) (next : ℕ) (db : Db)
    {entry : LedgerEntry} {db' : Db}
    → create_entry env m command next db ≡ (ok entry, db')
    → (next ≤ max_bigint)
      × (entry ≡ new_entry env m command next db)
      × (find_movement_key m command.idempotency_key db ≡ none)
      × (db' ≡ record db { ledger = db.ledger ++ entry ∷ [] })
unfolding create_entry
create_entry-effect env m command next db {entry} {db'} e = ground arith

pub write_movement-Moved :
    (env : Env) (m : Uuid) (command : ApplyMovementCommand) (now : Date) (db : Db) (row : Balance)
    {entry : LedgerEntry} {db' : Db}
    → find_balance m command.variant_id db ≡ some row
    → write_movement env m command now row.quantity db ≡ (ok entry, db')
    → Moved env m command now db entry db'
unfolding write_movement
write_movement-Moved env m command now db row {entry} {db'} f e =
    elim (Option-cases (next_quantity command row.quantity)) [
      | inl negative ↦ ground (arith, negative)
      | inr (next, computed) ↦ elim (Outcome-cases (create_entry env m command next db)) [
        | inr (x, db₁, refused) ↦ ground (arith, computed, refused)
        | inl (entry', db₁, created) ↦
            let effect = create_entry-effect env m command next db created in
            let shelf = physical-find_balance m command.variant_id db row f in
            let final : db' ≡ update_balance env m command.variant_id next db₁ =
              ground (arith, computed, created) in
            let same : entry ≡ entry' = ground (arith, computed, created) in
            record {
              next = next;
              computed = ground (arith, shelf, computed);
              within = effect.0;
              above_held = λ out. ground (arith, computed, created, out);
              written = same ∙ effect.1;
              new_key = effect.2;
              appended = ground (arith, final, effect.3, same);
              moved = λ m' v'. ground (
                arith,
                final,
                physical-update_balance env m command.variant_id next db₁ row
                    (find_balance-balances m command.variant_id db db₁ (ground (arith, effect.3))
                      ∙ f)
                    m' v',
                physical-balances m' v' db db₁ (ground (arith, effect.3)),
              );
              others = ground (arith, final, effect.3);
            }
      ]
    ]
