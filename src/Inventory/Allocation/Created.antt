-- ===== src/Inventory/Allocation/Created.antt =====
-- The holds that stock-hold-allocation.ts creates: one for each allocation, under a new key.
use tteeka.Prelude.{◌≡◌, none, List, [], ◌∷◌, ◌++◌, All, Option-cases, inl, inr, arith}
use mathlib.Core.List.{append_assoc, append-nil}
use tteeka.Prelude.Table.{find, find-append_some}
use tteeka.Schema.{Db, Uuid, Hold, HoldStatus, Key}
use tteeka.Store.{Env, ok, Outcome-cases}
use tteeka.Inventory.Queries.{find_hold_key, is_hold_key}
use tteeka.Inventory.Allocation.{StockHoldAllocation, create_hold, create_holds}

-- A live hold that carries what the allocation asks for.
pub record MadeFor (m : Uuid) (a : StockHoldAllocation) (h : Hold) : Type 0 where
  pub merchant : h.merchant_id ≡ m
  pub variant : h.variant_id ≡ a.variant_id
  pub item : h.order_item_id ≡ a.order_item_id
  pub quantity : h.quantity ≡ a.quantity
  pub status : h.status ≡ HoldStatus.active
  pub expiry : h.expires_at ≡ a.expires_at
  pub key : h.idempotency_key ≡ a.idempotency_key
  pub hash : h.request_hash ≡ a.request_hash

abbrev pub Matches : Uuid → List StockHoldAllocation → List Hold → Type 0
Matches m [] [] = Unit
Matches m (a ∷ rest) (h ∷ hs) = MadeFor m a h × Matches m rest hs
Matches m _ _ = ⊥

module _ (env : Env) (m : Uuid) where
  create_hold-made :
      (a : StockHoldAllocation) (db : Db) {h : Hold} {db' : Db}
      → create_hold env m a db ≡ (ok h, db')
      → MadeFor m a h
        × (db'.holds ≡ db.holds ++ h ∷ [])
        × (find_hold_key m a.idempotency_key db ≡ none)
  unfolding create_hold
  create_hold-made a db {h} {db'} e = ground arith

  find_hold_key-before :
      (k : Key) (db db' : Db) (hs : List Hold)
      → db'.holds ≡ db.holds ++ hs
      → find_hold_key m k db' ≡ none
      → find_hold_key m k db ≡ none
  unfolding find_hold_key
  find_hold_key-before k db db' hs e f = elim (Option-cases (find (is_hold_key m k) db.holds)) [
    | inl absent ↦ absent
    | inr (h, present) ↦
        ground (arith, e, f, find-append_some (is_hold_key m k) db.holds hs present)
  ]

  All-before :
      (allocations : List StockHoldAllocation) (db db' : Db) (hs : List Hold)
      → db'.holds ≡ db.holds ++ hs
      → All (λ (a : StockHoldAllocation). find_hold_key m a.idempotency_key db' ≡ none) allocations
      → All (λ (a : StockHoldAllocation). find_hold_key m a.idempotency_key db ≡ none) allocations
  All-before [] db db' hs e h = tt
  All-before (a ∷ rest) db db' hs e h =
      (find_hold_key-before a.idempotency_key db db' hs e h.0, All-before rest db db' hs e h.1)

  pub create_holds-made :
      (allocations : List StockHoldAllocation) (db : Db) {hs : List Hold} {db' : Db}
      → create_holds env m allocations db ≡ (ok hs, db')
      → Matches m allocations hs
        × (db'.holds ≡ db.holds ++ hs)
        × All (λ (a : StockHoldAllocation). find_hold_key m a.idempotency_key db ≡ none) allocations
  unfolding create_holds
  create_holds-made [] db {hs} {db'} e =
      let same : hs ≡ [] = ground (arith, e) in
      rw same (tt, ground (arith, e, append-nil db.holds), tt)
  create_holds-made (a ∷ rest) db {hs} {db'} e = elim (Outcome-cases (create_hold env m a db)) [
    | inr (x, db₁, refused) ↦ absurd (ground (arith, refused, e))
    | inl (h, db₁, created) ↦ elim (Outcome-cases (create_holds env m rest db₁)) [
      | inr (x, db₂, refused) ↦ absurd (ground (arith, created, refused, e))
      | inl (hs', db₂, more) ↦
          let same : hs ≡ h ∷ hs' = ground (arith, created, more, e) in
          let (made, grown, fresh) = create_hold-made a db created in
          let (mades, growns, freshs) = create_holds-made rest db₁ more in
          rw same (
            (made, mades),
            ground (arith, created, more, e, grown, growns, append_assoc db.holds (h ∷ []) hs'),
            (fresh, All-before rest db db₁ (h ∷ []) grown freshs),
          )
    ]
  ]
