-- ===== src/Inventory/Allocation/Sellable.antt =====
-- An allocation of stock-hold-allocation.ts succeeds only within what can be sold.
use tteeka.Prelude.{
  ℕ, ◌+◌, ◌≤◌, ◌<◌, ◌≡◌, sym, ap, All, ◌∙◌, Bool, true, false, ==_iff, none, some, List, [], ◌∷◌,
  ◌++◌, map, ◌==◌, any, contains, Bool-cases, inl, inr, if◌then◌else◌, arith, ltb, ◌&&◌,
}
use tteeka.Prelude.Assoc.{get}
use tteeka.Prelude.Table.{sum_of, sum_of-append}
use tteeka.Schema.{Db, Uuid, Date, Hold}
use tteeka.Store.{Env, ok, err, insufficient_sellable_inventory, Outcome-cases}
use tteeka.Inventory.Queries.{find_hold_key, physical, held, live_quantity}
use tteeka.Inventory.Allocation.{
  StockHoldAllocation, lock_order, lock_available_balances, create_hold, create_holds,
  requested_by_variant, held_by_variant, exceeds_sellable, allocate_stock_holds,
}
use tteeka.Inventory.Allocation.Created.{Matches, create_holds-made}
use tteeka.Inventory.Stock.{held-holds, physical-balances}
use tteeka.Inventory.Allocation.Locks.{lock_each-Locked}
use tteeka.Inventory.Allocation.Order.{contains-lock_order}
use tteeka.Inventory.Allocation.Maps.{
  requested, get-requested_by_variant, requested_of_other, get-held_by_variant,
}

-- What the new holds add to the quantity that is held of a variant.
abbrev pub live_requests : Uuid → Date → StockHoldAllocation → ℕ
live_requests v now a = if v == a.variant_id && ltb now a.expires_at then a.quantity else 0

module _ (env : Env) (m m' v : Uuid) (now : Date) where
  create_hold-held :
      (a : StockHoldAllocation) (db : Db) {h : Hold} {db' : Db}
      → create_hold env m a db ≡ (ok h, db')
      → held m' v now db' ≡ held m' v now db + (if m' == m then live_requests v now a else 0)
  unfolding create_hold held live_quantity sum_of
  create_hold-held a db {h} {db'} e =
      ground (arith, sum_of-append (live_quantity m' v now) db.holds (h ∷ []))

  create_hold-others :
      (a : StockHoldAllocation) (db : Db) {h : Hold} {db' : Db}
      → create_hold env m a db ≡ (ok h, db')
      → db' ≡ record db { holds = db'.holds }
  unfolding create_hold
  create_hold-others a db {h} {db'} e = ground arith

  pub create_holds-held :
      (allocations : List StockHoldAllocation) (db : Db) {hs : List Hold} {db' : Db}
      → create_holds env m allocations db ≡ (ok hs, db')
      → (held m' v now db'
          ≡ held m' v now db + (if m' == m then sum_of (live_requests v now) allocations else 0))
        × (db' ≡ record db { holds = db'.holds })
  unfolding create_holds sum_of
  create_holds-held [] db {hs} {db'} e = ground arith
  create_holds-held (a ∷ rest) db {hs} {db'} e = elim (Outcome-cases (create_hold env m a db)) [
    | inr (x, db₁, refused) ↦ ground (arith, refused)
    | inl (h, db₁, created) ↦ elim (Outcome-cases (create_holds env m rest db₁)) [
      | inr (x, db₂, refused) ↦ ground (arith, created, refused)
      | inl (hs', db₂, more) ↦ ground (
        arith,
        created,
        more,
        create_hold-held a db created,
        create_hold-others a db created,
        create_holds-held rest db₁ more,
      )
    ]
  ]

any-false :
    (p : Uuid → Bool) (v : Uuid) (ids : List Uuid)
    → any p ids ≡ false
    → contains v ids ≡ true
    → p v ≡ false
any-false p v [] h k = cc
any-false p v (x ∷ ids) h k = elim (Bool-cases (v == x)) [
  | inl e ↦ rw ((==_iff v x).0 e) (ground arith)
  | inr e ↦ any-false p v ids (ground arith) (ground arith)
]

-- How an allocation that returns has changed the tables.
pub record Allocated (m : Uuid) (allocations : List StockHoldAllocation) (now : Date) (db : Db)
    (hs : List Hold) (db' : Db) : Type 0 where
  pub same_physical : (m' v : Uuid) → physical m' v db' ≡ physical m' v db
  pub fits :
      (v : Uuid)
      → 0 < requested v allocations
      → held m v now db + requested v allocations ≤ physical m v db
  pub holds_more :
      (m' v : Uuid)
      → held m' v now db'
        ≡ held m' v now db + (if m' == m then sum_of (live_requests v now) allocations else 0)
  pub matches : Matches m allocations hs
  pub appended : db'.holds ≡ db.holds ++ hs
  pub fresh :
      All (λ (a : StockHoldAllocation). find_hold_key m a.idempotency_key db ≡ none) allocations
  pub others : db' ≡ record db { balances = db'.balances; holds = db'.holds }

abbrev ids_of : List StockHoldAllocation → List Uuid
ids_of allocations = lock_order (map (λ (a : StockHoldAllocation). a.variant_id) allocations)

-- The test of the loop over the variants, read with what the maps hold.
exceeds_fits :
    (m v : Uuid) (now : Date) (allocations : List StockHoldAllocation) (db db₁ : Db)
    (found : List (Uuid × ℕ))
    → get v found ≡ some (physical m v db)
    → held m v now db₁ ≡ held m v now db
    → contains v (ids_of allocations) ≡ true
    → exceeds_sellable found
        (held_by_variant m now (ids_of allocations) db₁)
        (requested_by_variant allocations [])
        v
      ≡ false
    → held m v now db + requested v allocations ≤ physical m v db
unfolding exceeds_sellable get
exceeds_fits m v now allocations db db₁ found f same c e = ground (
  arith,
  get-requested_by_variant v allocations [],
  get-held_by_variant m v now (ids_of allocations) db₁,
)

fresh_before :
    (m : Uuid) (db db₁ : Db) (allocations : List StockHoldAllocation)
    → db₁.holds ≡ db.holds
    → All (λ (a : StockHoldAllocation). find_hold_key m a.idempotency_key db₁ ≡ none) allocations
    → All (λ (a : StockHoldAllocation). find_hold_key m a.idempotency_key db ≡ none) allocations
unfolding find_hold_key
fresh_before m db db₁ [] e h = tt
fresh_before m db db₁ (a ∷ rest) e h = (ground (arith, e, h.0), fresh_before m db db₁ rest e h.1)

-- The rest of an allocation, once the balances are locked and the test has passed.
Allocated-after_locks :
    (env : Env) (m : Uuid) (allocations : List StockHoldAllocation) (now : Date) (db db₁ : Db)
    (found : List (Uuid × ℕ))
    → ((v : Uuid) → contains v (ids_of allocations) ≡ true → get v found ≡ some (physical m v db))
    → ((m' v : Uuid) → physical m' v db₁ ≡ physical m' v db)
    → db₁ ≡ record db { balances = db₁.balances }
    → any
        (exceeds_sellable found
          (held_by_variant m now (ids_of allocations) db₁)
          (requested_by_variant allocations []))
        (ids_of allocations)
      ≡ false
    → {hs : List Hold} {db' : Db} → create_holds env m allocations db₁ ≡ (ok hs, db')
    → Allocated m allocations now db hs db'
Allocated-after_locks env m allocations now db db₁ found finds same_physical others passed {hs}
      {db'} created =
    let same = λ (m' v : Uuid). held-holds m' v now db db₁ (ground (arith, others)) in
    let made = create_holds-made env m allocations db₁ created in
    let after = λ (m' v : Uuid). create_holds-held env m m' v now allocations db₁ created in
    record {
      same_physical = λ m' v.
          ground (
            arith,
            physical-balances m' v db₁ db' (ground (arith, after m' v)),
            same_physical m' v,
          );
      fits = λ v pos. elim (Bool-cases (contains v (ids_of allocations))) [
        | inl c ↦
            exceeds_fits m v now allocations db db₁ found (finds v c) (same m v) c
              (any-false _ v (ids_of allocations) passed c)
        | inr c ↦
            absurd
              (omega (arith, requested_of_other v allocations (sym (contains-lock_order v _) ∙ c)))
      ];
      holds_more = λ m' v. ground (arith, after m' v, same m' v);
      matches = made.0;
      appended = ground (arith, made.1, others);
      fresh = fresh_before m db db₁ allocations (ap (λ (t : Db). t.holds) others) made.2;
      others = ground (arith, after m m, others);
    }

-- An allocation that returns found room for all that it requests of each variant, left the
-- balances' quantities alone, and added its own holds and nothing else.
pub allocate_stock_holds-Allocated :
    (env : Env) (m : Uuid) (allocations : List StockHoldAllocation) (now : Date) (db : Db)
    {hs : List Hold} {db' : Db}
    → allocate_stock_holds env m allocations now db ≡ (ok hs, db')
    → Allocated m allocations now db hs db'
unfolding allocate_stock_holds lock_available_balances
allocate_stock_holds-Allocated env m allocations now db {hs} {db'} e =
    let ids = ids_of allocations in
    let locked = lock_each-Locked env m (lock_order ids) [] db in
    let db₁ = locked.after in
    let test =
      any
        (exceeds_sellable locked.found (held_by_variant m now ids db₁)
          (requested_by_variant allocations []))
        ids in
    elim (Bool-cases test) [
      | inl refused ↦ ground (arith, locked.returns, refused)
      | inr passed ↦
          Allocated-after_locks env m allocations now db db₁ locked.found
            (λ v c. locked.finds v ∙ (ground (arith, contains-lock_order v ids, c)))
            locked.same_physical locked.others passed {hs = hs} {db' = db'}
            (ground (arith, locked.returns, passed))
    ]

-- An allocation that requests more of a variant than can be sold is refused, whatever it requests of
-- others.
pub allocate_stock_holds-refused :
    (env : Env) (m v : Uuid) (allocations : List StockHoldAllocation) (now : Date) (db : Db)
    → 0 < requested v allocations
    → physical m v db < held m v now db + requested v allocations
    → (db' : Db) × (allocate_stock_holds env m allocations now db
        ≡ (err insufficient_sellable_inventory, db'))
unfolding allocate_stock_holds lock_available_balances
allocate_stock_holds-refused env m v allocations now db asks exceeds =
    let ids = ids_of allocations in
    let locked = lock_each-Locked env m (lock_order ids) [] db in
    let db₁ = locked.after in
    let asked : contains v ids ≡ true = elim (Bool-cases (contains v ids)) [
      | inl c ↦ c
      | inr c ↦
          absurd
            (omega (arith, requested_of_other v allocations (sym (contains-lock_order v _) ∙ c)))
    ] in
    let test =
      any
        (exceeds_sellable locked.found (held_by_variant m now ids db₁)
          (requested_by_variant allocations []))
        ids in
    elim (Bool-cases test) [
      | inl refused ↦ (db₁, ground (arith, locked.returns, refused))
      | inr passed ↦
          let fits =
            exceeds_fits m v now allocations db db₁ locked.found
              (locked.finds v ∙ (ground (arith, contains-lock_order v ids, asked)))
              (held-holds m v now db db₁ (ground (arith, locked.others))) asked
              (any-false _ v ids passed asked) in
          absurd (omega (arith, fits))
    ]
