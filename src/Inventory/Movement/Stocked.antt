-- ===== src/Inventory/Movement/Stocked.antt =====
-- Movements keep the stock: proofs about Movement.antt.
use tteeka.Prelude.{
  ℕ, ◌≡◌, sym, ap, subst, ◌∙◌, some, arith, ◌⊎◌, Option, String, Option-cases, inl, inr,
}
use tteeka.Schema.{Db, Uuid, Key, Hash, Date, MovementType, LedgerEntry}
use tteeka.Store.{Env, ok, err, Outcome-cases, StoreError, unique_violation, UniqueKey}
use tteeka.Inventory.Queries.{find_movement_key, find_variant, ensure_balance}
use tteeka.Inventory.Stock.{IsStocked, held-holds}
use tteeka.Inventory.Allocation.Locks.{
  physical-ensure_balance, ensure_balance-others, find_balance-ensure_balance,
}
use tteeka.Inventory.Movement.{
  ApplyMovementCommand, movement_command, next_quantity, locked_movement, resolve_replay,
  apply_movement, replay_movement,
}
use tteeka.Inventory.Movement.Effect.{Moved, write_movement-Moved}

-- The ways in which `apply_movement` returns: the entry was there before, another request made it
-- during the wait for the lock (which
-- the second lookup or the `catch` finds), or the movement is written now.
pub data Applied (env : Env) (m : Uuid) (command : ApplyMovementCommand) (now : Date) (db : Db)
    (entry : LedgerEntry) (db' : Db) : Type 0 where
  replayed :
      find_movement_key m command.idempotency_key db ≡ some entry
      → entry.request_hash ≡ command.request_hash
      → db' ≡ db
      → Applied env m command now db entry db'
  replayed_after_wait :
      find_movement_key m command.idempotency_key (env.waited db) ≡ some entry
      → entry.request_hash ≡ command.request_hash
      → db' ≡ ensure_balance env m command.variant_id (env.waited db)
      → Applied env m command now db entry db'
  recovered :
      find_movement_key m command.idempotency_key (env.waited db) ≡ some entry
      → entry.request_hash ≡ command.request_hash
      → db' ≡ env.waited db
      → Applied env m command now db entry db'
  written :
      Moved env m command now (ensure_balance env m command.variant_id (env.waited db)) entry db'
      → Applied env m command now db entry db'

resolve_replay-ok :
    (found : LedgerEntry) (command : ApplyMovementCommand) (db : Db) {entry : LedgerEntry}
    {db' : Db}
    → resolve_replay found command db ≡ (ok entry, db')
    → (entry ≡ found) × (found.request_hash ≡ command.request_hash) × (db' ≡ db)
unfolding resolve_replay
resolve_replay-ok found command db {entry} {db'} e = ground arith

find_movement_key-ensure_balance :
    (env : Env) (m v : Uuid) (k : Key) (db : Db)
    → find_movement_key m k (ensure_balance env m v db) ≡ find_movement_key m k db
unfolding find_movement_key
find_movement_key-ensure_balance env m v k db = ground (arith, ensure_balance-others env m v db)

locked_movement-Applied :
    (env : Env) (m : Uuid) (command : ApplyMovementCommand) (now : Date) (db : Db)
    {entry : LedgerEntry} {db' : Db}
    → locked_movement env m command now (env.waited db) ≡ (ok entry, db')
    → Applied env m command now db entry db'
unfolding locked_movement
locked_movement-Applied env m command now db {entry} {db'} e =
    let db₁ = ensure_balance env m command.variant_id (env.waited db) in
    let (row, f) = find_balance-ensure_balance env m command.variant_id (env.waited db) in
    elim (Option-cases (find_movement_key m command.idempotency_key db₁)) [
      | inr (found, k) ↦
          let (same, hash, kept) =
            resolve_replay-ok found command db₁ {entry = entry} {db' = db'}
              (ground (arith, f, k, e)) in
          replayed_after_wait
            (sym (
                find_movement_key-ensure_balance env m command.variant_id command.idempotency_key
                  (env.waited db))
              ∙ k
              ∙ ap some (sym same))
            (ground (arith, same, hash)) kept
      | inl k ↦ written (write_movement-Moved env m command now db₁ row f (ground (arith, f, k, e)))
    ]

replay_movement-ok :
    (m : Uuid) (command : ApplyMovementCommand) (x : StoreError) (db : Db) {entry : LedgerEntry}
    {db' : Db}
    → replay_movement m command x db ≡ (ok entry, db')
    → (find_movement_key m command.idempotency_key db ≡ some entry)
      × (entry.request_hash ≡ command.request_hash)
      × (db' ≡ db)
unfolding replay_movement
replay_movement-ok m command x db {entry} {db'} e = ground arith

pub apply_movement-Applied :
    (env : Env) (m : Uuid) (command : ApplyMovementCommand) (now : Date) (db : Db)
    {entry : LedgerEntry} {db' : Db}
    → apply_movement env m command now db ≡ (ok entry, db')
    → Applied env m command now db entry db'
unfolding apply_movement
apply_movement-Applied env m command now db {entry} {db'} e =
    elim (Option-cases (find_movement_key m command.idempotency_key db)) [
      | inr (found, k) ↦
          let (same, hash, kept) =
            resolve_replay-ok found command db {entry = entry} {db' = db'} (ground (arith, k, e)) in
          replayed (k ∙ ap some (sym same)) (ground (arith, same, hash)) kept
      | inl k ↦ elim (Option-cases (find_variant m command.variant_id db)) [
        | inl missing ↦ ground (arith, k, missing)
        | inr (variant, v) ↦
            elim (Outcome-cases (locked_movement env m command now (env.waited db))) [
              | inl (entry', db₁, done) ↦
                  locked_movement-Applied env m command now db {entry = entry} {db' = db'}
                    (ground (arith, k, v, done, e))
              | inr (x, db₁, refused) ↦
                  let (f, hash, kept) =
                    replay_movement-ok m command (unique_violation UniqueKey.idempotency_key)
                      (env.waited db) {entry = entry} {db' = db'}
                      (ground (arith, k, v, refused, e)) in
                  recovered f hash kept
            ]
      ]
    ]

-- A movement that throws leaves no write of its own.
pub apply_movement_err :
    (env : Env) (m : Uuid) (command : ApplyMovementCommand) (now : Date) (db : Db) {x : StoreError}
    {db' : Db}
    → apply_movement env m command now db ≡ (err x, db')
    → (db' ≡ db) ⊎ (db' ≡ env.waited db)
unfolding apply_movement
apply_movement_err env m command now db {x} {db'} e =
    elim (Option-cases (find_movement_key m command.idempotency_key db)) [
      | inr (found, k) ↦ inl (unfold resolve_replay in ground (arith, k, e))
      | inl k ↦ elim (Option-cases (find_variant m command.variant_id db)) [
        | inl missing ↦ inl (ground (arith, k, missing, e))
        | inr (variant, v) ↦
            elim (Outcome-cases (locked_movement env m command now (env.waited db))) [
              | inl (entry', db₁, done) ↦ absurd (ground (arith, k, v, done, e))
              | inr (y, db₁, refused) ↦ inr (ground (arith, k, v, refused, e))
            ]
      ]
    ]

IsStocked-ensure_balance :
    (env : Env) (m v : Uuid) (now : Date) (db : Db)
    → IsStocked now db
    → IsStocked now (ensure_balance env m v db)
IsStocked-ensure_balance env m v now db h m' v' = ground (
  arith,
  h m' v',
  held-holds m' v' now db (ensure_balance env m v db)
      (ground (arith, ensure_balance-others env m v db)),
  physical-ensure_balance env m v db m' v',
)

module _ (env : Env) (m v : Uuid) (t : MovementType) (quantity : ℕ) (note : Option String)
    (key : Key) (hash : Hash) (now : Date) (db : Db) where
  abbrev command_of : ApplyMovementCommand
  command_of = movement_command v t quantity note key hash

  Moved-IsStocked :
      (db₀ : Db) {entry : LedgerEntry} {db' : Db}
      → Moved env m command_of now db₀ entry db'
      → IsStocked now db₀
      → IsStocked now db'
  unfolding movement_command next_quantity
  Moved-IsStocked db₀ {entry} {db'} w h m' v' = ground (
    arith,
    w.moved m' v',
    w.computed,
    w.above_held,
    h m' v',
    h m v,
    held-holds m' v' now db₀ db' (ground (arith, w.others)),
  )

  Applied-IsStocked :
      {entry : LedgerEntry} {db' : Db}
      → Applied env m command_of now db entry db'
      → IsStocked now db
      → IsStocked now (env.waited db)
      → IsStocked now db'
  Applied-IsStocked (replayed f e same) h k = subst (IsStocked now) (sym same) h
  Applied-IsStocked (recovered f e same) h k = subst (IsStocked now) (sym same) k
  Applied-IsStocked (replayed_after_wait f e same) h k =
      subst (IsStocked now) (sym same) (IsStocked-ensure_balance env m _ now (env.waited db) k)
  Applied-IsStocked (written w) h k =
      Moved-IsStocked _ w (IsStocked-ensure_balance env m _ now (env.waited db) k)

  -- Whatever movement is asked for, if the stock covers the live holds before the call and after
  -- the wait for the lock, whatever other requests have committed then, it does at the end,
  -- whether the movement is written, replayed or refused: an outgoing adjustment never takes
  -- stock that is held.
  pub apply_movement-IsStocked :
      IsStocked now db
      → IsStocked now (env.waited db)
      → IsStocked now (apply_movement env m command_of now db).1
  apply_movement-IsStocked h k = elim (Outcome-cases (apply_movement env m command_of now db)) [
    | inl (entry, db', e) ↦
        rw e (Applied-IsStocked (apply_movement-Applied env m command_of now db e) h k)
    | inr (x, db', e) ↦ elim (apply_movement_err env m command_of now db e) [
      | inl same ↦ rw (e, same) h
      | inr same ↦ rw (e, same) k
    ]
  ]
