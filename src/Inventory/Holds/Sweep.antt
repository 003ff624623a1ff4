-- ===== src/Inventory/Holds/Sweep.antt =====
-- A sweep expires what is due and nothing else: proofs about `expireDueStockHolds` of Holds.antt.
use tteeka.Prelude.{
  ℕ, ◌+◌, ◌≤◌, ◌≡◌, refl, sym, ap, ◌∙◌, ◌⊎◌, inl, inr, Bool, true, false, some, List, length, All,
  Bool-cases, ltb, not, ◌&&◌, ==_iff, arith,
}
use mathlib.Core.Path.{fun_ext}
use tteeka.Prelude.Table.{find, filter, update_where, find_holds}
use tteeka.Schema.{Db, Uuid, Date, Hold, HoldStatus}
use tteeka.Store.{ok}
use tteeka.Inventory.Queries.{held, live_quantity, is_active}
use tteeka.Inventory.Holds.{expire_due_stock_holds, expire, is_due, is_taken, take, sort_due}
use tteeka.Inventory.Holds.Taken.{
  Found, All-Found, taken-fits, count_taken, weight-update, sum_of-update, find-expired,
}
use tteeka.Inventory.Holds.Batch.{
  is_id, IsKeyed, ids_of, length-filter, All-weaker, All-filter, All-sort_due, All-take,
  IsKeyed-filter, IsKeyed-sort_due, IsKeyed-take, length-sort_due, length-take,
}

-- An active row whose expiry is not later than the sweep, and that nobody has locked.
abbrev pub awaits : (Hold → Bool) → Date → Hold → Bool
awaits skipped now h = is_active h.status && not (ltb now h.expires_at) && not (skipped h)

is_due-awaits :
    (skipped : Hold → Bool) (now : Date) (h : Hold) → is_due skipped now h ≡ awaits skipped now h
unfolding is_due
is_due-awaits skipped now h = ground arith

-- The number of rows that await a sweep.
unfoldable pub number_due : (Hold → Bool) → Date → Db → ℕ
number_due skipped now db = length (filter (awaits skipped now) db.holds)

number_due-is_due :
    (skipped : Hold → Bool) (now : Date) (db : Db)
    → number_due skipped now db ≡ length (filter (is_due skipped now) db.holds)
unfolding number_due
number_due-is_due skipped now db =
    ap (λ (p : Hold → Bool). length (filter p db.holds)) (sym (fun_ext (is_due-awaits skipped now)))

-- What a sweep has done.
pub record IsSwept (skipped : Hold → Bool) (now : Date) (batch_size : ℕ) (db : Db) (count : ℕ)
    (db' : Db) : Type 0 where
  pub at_most : count ≤ batch_size
  pub counted : number_due skipped now db' + count ≡ number_due skipped now db
  pub all_or_full : (number_due skipped now db' ≡ 0) ⊎ (count ≡ batch_size)
  pub rows :
      (x : Uuid) (h : Hold)
      → find (is_id x) db.holds ≡ some h
      → (find (is_id x) db'.holds ≡ some h)
        ⊎ ((awaits skipped now h ≡ true)
            × (find (is_id x) db'.holds
                ≡ some (record h { status = HoldStatus.expired; expired_at = some h.expires_at })))
  pub same_held : (m v : Uuid) (t : Date) → now ≤ t → held m v t db' ≡ held m v t db
  pub others : db' ≡ record db { holds = db'.holds }

module _ (skipped : Hold → Bool) (now : Date) (batch_size : ℕ) (db : Db)
    (keyed : IsKeyed db.holds) where
  abbrev due : List Hold
  due = filter (is_due skipped now) db.holds

  abbrev batch : List Hold
  batch = take batch_size (sort_due due)

  batch-fits : All (λ b. Found db.holds b × (is_due skipped now b ≡ true)) batch
  batch-fits =
      let P = λ (b : Hold). Found db.holds b × (is_due skipped now b ≡ true) in
      All-take P batch_size (sort_due due) (
        All-sort_due P due
          (All-filter (Found db.holds) (is_due skipped now) db.holds (All-Found db.holds keyed)))

  batch-IsKeyed : IsKeyed batch
  batch-IsKeyed =
      IsKeyed-take batch_size (sort_due due)
        (IsKeyed-sort_due due (IsKeyed-filter (is_due skipped now) db.holds keyed))

  taken-due : All (λ h. is_taken (ids_of batch) h ≡ true → is_due skipped now h ≡ true) db.holds
  taken-due =
      All-weaker (Found db.holds)
        (λ h. is_taken (ids_of batch) h ≡ true → is_due skipped now h ≡ true) db.holds
        (λ h f c. taken-fits db.holds (is_due skipped now) h batch batch-fits f c)
        (All-Found db.holds keyed)

  -- The rows that are updated are those of the batch.
  length-taken : length (filter (is_taken (ids_of batch)) db.holds) ≡ length batch
  length-taken =
      length-filter (is_taken (ids_of batch)) db.holds
      ∙ count_taken db.holds batch keyed batch-IsKeyed (
          All-weaker (λ b. Found db.holds b × (is_due skipped now b ≡ true)) (Found db.holds) batch
            (λ h f. f.0) batch-fits)

  abbrev swept : Db
  swept = record db { holds = update_where (is_taken (ids_of batch)) expire db.holds }

  due-expire : (h : Hold) → is_due skipped now (expire h) ≡ false
  unfolding is_due
  due-expire h = refl

  number_due-swept : number_due skipped now swept + length batch ≡ number_due skipped now db
  number_due-swept = omega (
    arith,
    number_due-is_due skipped now db,
    number_due-is_due skipped now swept,
    length-filter (is_due skipped now) db.holds,
    length-filter (is_due skipped now) swept.holds,
    length-filter (is_taken (ids_of batch)) db.holds,
    length-taken,
    weight-update (is_due skipped now) (is_taken (ids_of batch)) expire due-expire db.holds
        taken-due,
  )

  all_or_full-swept : (number_due skipped now swept ≡ 0) ⊎ (length batch ≡ batch_size)
  all_or_full-swept = elim (length-take batch_size (sort_due due)).1 [
    | inl full ↦ inr full
    | inr all_taken ↦
        let every : length batch ≡ number_due skipped now db =
          all_taken ∙ length-sort_due due ∙ sym (number_due-is_due skipped now db) in
        inl (omega (arith, every, number_due-swept))
  ]

  rows-swept :
      (x : Uuid) (h : Hold)
      → find (is_id x) db.holds ≡ some h
      → (find (is_id x) swept.holds ≡ some h)
        ⊎ ((awaits skipped now h ≡ true) × (find (is_id x) swept.holds ≡ some (expire h)))
  rows-swept x h f =
      let own : h.id ≡ x = (==_iff h.id x).0 (find_holds (is_id x) db.holds f) in
      let found : Found db.holds h = ap (λ k. find (is_id k) db.holds) own ∙ f in
      let left = find-expired x (is_taken (ids_of batch)) db.holds f in
      elim (Bool-cases (is_taken (ids_of batch) h)) [
        | inr kept ↦ inl (ground (arith, left, kept))
        | inl taken ↦ inr (
          sym (is_due-awaits skipped now h)
              ∙ taken-fits db.holds (is_due skipped now) h batch batch-fits found taken,
          ground (arith, left, taken),
        )
      ]

  held-swept : (m v : Uuid) (t : Date) → now ≤ t → held m v t swept ≡ held m v t db
  unfolding held
  held-swept m v t later =
      sum_of-update (is_due skipped now) (is_taken (ids_of batch)) expire (live_quantity m v t)
        (λ h e. unfold live_quantity is_due in ground arith) db.holds taken-due

  -- Where an identifier has one row, a sweep reports as many holds as it expires, at most a batch of
  -- them, and leaves no due one unless the batch is full. Every row is as before, or it was due and
  -- is expired as of its own expiry; at the sweep's time and at every later one, no variant's held
  -- quantity changes; and no other table does.
  pub expire_due_stock_holds-IsSwept :
      (count : ℕ) × (db' : Db) × (expire_due_stock_holds skipped now batch_size db
        ≡ (ok count, db'))
      × IsSwept skipped now batch_size db count db'
  unfolding expire_due_stock_holds
  expire_due_stock_holds-IsSwept = (
    length batch,
    swept,
    rw (← length-taken) refl,
    record {
      at_most = (length-take batch_size (sort_due due)).0;
      counted = number_due-swept;
      all_or_full = all_or_full-swept;
      rows = rows-swept;
      same_held = held-swept;
      others = refl;
    },
  )
