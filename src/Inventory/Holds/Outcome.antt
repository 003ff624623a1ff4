-- ===== src/Inventory/Holds/Outcome.antt =====
-- How a request for a hold ends: proofs about Holds.antt.
use tteeka.Prelude.{
  ◌≡◌, refl, sym, ap, ◌∙◌, some, arith, ◌⊎◌, Option-cases, inl, inr, [], ◌∷◌, List,
}
use mathlib.Core.Path.{subst₂}
use tteeka.Prelude.Table.{find, find-append_none}
use tteeka.Schema.{Db, Uuid, Date, Hold}
use tteeka.Store.{Env, ok, err, Outcome-cases, StoreError, unique_violation, UniqueKey}
use tteeka.Inventory.Queries.{is_hold_key, find_hold_key, find_variant, physical}
use tteeka.Inventory.Allocation.{StockHoldAllocation, allocate_stock_holds}
use tteeka.Inventory.Allocation.Locks.{lock_available_balances_lem}
use tteeka.Inventory.Allocation.Sellable.{Allocated, allocate_stock_holds-Allocated}
use tteeka.Inventory.Holds.{
  CreateStockHoldCommand, allocation_of, resolve_hold_replay, locked_hold, create_stock_hold,
  replay_hold,
}

-- The ways in which `create_stock_hold` returns: the hold was there before, another request made
-- it during the wait for the lock, or it is allocated now.
pub data Created (env : Env) (m : Uuid) (command : CreateStockHoldCommand) (db : Db) (hold : Hold)
    (db' : Db) : Type 0 where
  replayed :
      find_hold_key m command.idempotency_key db ≡ some hold
      → hold.request_hash ≡ command.request_hash
      → db' ≡ db
      → Created env m command db hold db'
  recovered :
      find_hold_key m command.idempotency_key (env.waited db) ≡ some hold
      → hold.request_hash ≡ command.request_hash
      → db' ≡ env.waited db
      → Created env m command db hold db'
  replayed_after_wait :
      find_hold_key m command.idempotency_key db' ≡ some hold
      → hold.request_hash ≡ command.request_hash
      → ((m' v : Uuid) → physical m' v db' ≡ physical m' v (env.waited db))
      → db' ≡ record (env.waited db) { balances = db'.balances }
      → Created env m command db hold db'
  allocated :
      (db₁ : Db)
      → ((m' v : Uuid) → physical m' v db₁ ≡ physical m' v (env.waited db))
      → db₁ ≡ record (env.waited db) { balances = db₁.balances }
      → Allocated m (allocation_of command ∷ []) command.now db₁ (hold ∷ []) db'
      → find_hold_key m command.idempotency_key db' ≡ some hold
      → Created env m command db hold db'

resolve_hold_replay-ok :
    (found : Hold) (command : CreateStockHoldCommand) (db : Db) {hold : Hold} {db' : Db}
    → resolve_hold_replay found command db ≡ (ok hold, db')
    → (hold ≡ found) × (found.request_hash ≡ command.request_hash) × (db' ≡ db)
unfolding resolve_hold_replay
resolve_hold_replay-ok found command db {hold} {db'} e = ground arith

-- The hold that one allocation makes is the one that is read back by its key.
single_hold :
    (m : Uuid) (a : StockHoldAllocation) (now : Date) (db : Db) (hs : List Hold) {db' : Db}
    → Allocated m (a ∷ []) now db hs db'
    → (h : Hold) × (hs ≡ h ∷ [])
      × (h.request_hash ≡ a.request_hash)
      × (find_hold_key m a.idempotency_key db' ≡ some h)
unfolding find_hold_key find is_hold_key
single_hold m a now db [] w = absurd w.matches
single_hold m a now db (h ∷ k ∷ hs) w = absurd (w.matches.1)
single_hold m a now db (h ∷ []) w =
    let made = w.matches.0 in
    (
      h,
      refl,
      made.hash,
      ground (
        arith,
        w.appended,
        made.merchant,
        made.key,
        find-append_none (is_hold_key m a.idempotency_key) db.holds (h ∷ []) w.fresh.0,
      ),
    )

locked_hold-Created :
    (env : Env) (m : Uuid) (command : CreateStockHoldCommand) (db : Db) {hold : Hold} {db' : Db}
    → locked_hold env m command (env.waited db) ≡ (ok hold, db')
    → Created env m command db hold db'
unfolding locked_hold
locked_hold-Created env m command db {hold} {db'} e =
    let (found, db₁, locked, shelf, others) =
      lock_available_balances_lem env m (command.variant_id ∷ []) (env.waited db) in
    elim (Option-cases (find_hold_key m command.idempotency_key db₁)) [
      | inr (replay, k) ↦
          let (same, hash, kept) =
            resolve_hold_replay-ok replay command db₁ {hold = hold} {db' = db'}
              (ground (arith, locked, k, e)) in
          replayed_after_wait (ground (arith, kept, k, same)) (ground (arith, same, hash))
            (λ m' v. ground (arith, kept, shelf m' v)) (ground (arith, kept, others))
      | inl k ↦
          elim (Outcome-cases
            (allocate_stock_holds env m (allocation_of command ∷ []) command.now db₁)) [
              | inr (x, db₂, refused) ↦ absurd (ground (arith, locked, k, refused, e))
              | inl (hs, db₂, done) ↦
                  let w =
                    allocate_stock_holds-Allocated env m (allocation_of command ∷ []) command.now
                      db₁ done in
                  let (h, single, hash, read) =
                    single_hold m (allocation_of command) command.now db₁ hs w in
                  let same : hold ≡ h = ground (arith, locked, k, done, read, e) in
                  let kept : db' ≡ db₂ = ground (arith, locked, k, done, read, e) in
                  allocated db₁ shelf others
                    (subst₂ (λ l t. Allocated m (allocation_of command ∷ []) command.now db₁ l t)
                      (single ∙ ap (λ x. x ∷ []) (sym same)) (sym kept) w)
                    (ground (arith, kept, read, same))
            ]
    ]

replay_hold-ok :
    (m : Uuid) (command : CreateStockHoldCommand) (x : StoreError) (db : Db) {hold : Hold}
    {db' : Db}
    → replay_hold m command x db ≡ (ok hold, db')
    → (find_hold_key m command.idempotency_key db ≡ some hold)
      × (hold.request_hash ≡ command.request_hash)
      × (db' ≡ db)
unfolding replay_hold
replay_hold-ok m command x db {hold} {db'} e = ground arith

pub create_stock_hold-Created :
    (env : Env) (m : Uuid) (command : CreateStockHoldCommand) (db : Db) {hold : Hold} {db' : Db}
    → create_stock_hold env m command db ≡ (ok hold, db')
    → Created env m command db hold db'
unfolding create_stock_hold
create_stock_hold-Created env m command db {hold} {db'} e =
    elim (Option-cases (find_hold_key m command.idempotency_key db)) [
      | inr (found, k) ↦
          let (same, hash, kept) =
            resolve_hold_replay-ok found command db {hold = hold} {db' = db'}
              (ground (arith, k, e)) in
          replayed (k ∙ ap some (sym same)) (ground (arith, same, hash)) kept
      | inl k ↦ elim (Option-cases (find_variant m command.variant_id db)) [
        | inl missing ↦ absurd (ground (arith, k, missing, e))
        | inr (variant, v) ↦ elim (Outcome-cases (locked_hold env m command (env.waited db))) [
          | inl (hold', db₁, done) ↦
              locked_hold-Created env m command db {hold = hold} {db' = db'}
                (ground (arith, k, v, done, e))
          | inr (x, db₁, refused) ↦
              let (f, hash, kept) =
                replay_hold-ok m command (unique_violation UniqueKey.idempotency_key)
                  (env.waited db) {hold = hold} {db' = db'} (ground (arith, k, v, refused, e)) in
              recovered f hash kept
        ]
      ]
    ]

-- A request that throws leaves no write of its own.
pub create_stock_hold_err :
    (env : Env) (m : Uuid) (command : CreateStockHoldCommand) (db : Db) {x : StoreError} {db' : Db}
    → create_stock_hold env m command db ≡ (err x, db')
    → (db' ≡ db) ⊎ (db' ≡ env.waited db)
unfolding create_stock_hold
create_stock_hold_err env m command db {x} {db'} e =
    elim (Option-cases (find_hold_key m command.idempotency_key db)) [
      | inr (found, k) ↦ inl (unfold resolve_hold_replay in ground (arith, k, e))
      | inl k ↦ elim (Option-cases (find_variant m command.variant_id db)) [
        | inl missing ↦ inl (ground (arith, k, missing, e))
        | inr (variant, v) ↦ elim (Outcome-cases (locked_hold env m command (env.waited db))) [
          | inl (hold', db₁, done) ↦ absurd (ground (arith, k, v, done, e))
          | inr (y, db₁, refused) ↦ inr (ground (arith, k, v, refused, e))
        ]
      ]
    ]
