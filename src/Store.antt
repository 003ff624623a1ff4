-- ===== src/Store.antt =====
-- How the stores (apps/api/src/*/prisma-*.store.ts) run against the database: a method takes the
-- committed tables and gives its result, or the error that it throws, with the tables that it
-- leaves committed. A `$transaction` is atomic: what throws inside it undoes its writes.
use tteeka.Prelude.{
  Bool, true, false, Option, none, some, if◌then◌else◌, ◌≡◌, refl, ◌⊎◌, inl, inr, Bool-cases, arith,
}
use tteeka.Schema.{Db, Uuid, Date}

-- The unique constraints that a `create` or an `update` can violate (Prisma's code P2002).
pub data UniqueKey : Type 0 where
  idempotency_key confirmation_key order_item_variant delivery_order attempt_number : UniqueKey
  membership_user membership_role role_name role_permission : UniqueKey
  user_phone session_token onboarding_key permission_key variant_sku variant_barcode
        customer_phone :
      UniqueKey

-- The error classes of the stores, and what the database itself refuses.
pub data StoreError : Type 0 where
  unique_violation : UniqueKey → StoreError
  record_not_found bigint_out_of_range range_error balance_missing : StoreError
  inventory_variant_not_found insufficient_available_stock : StoreError
  inventory_idempotency_conflict insufficient_sellable_inventory : StoreError
  inventory_reserved_by_holds stock_hold_idempotency_conflict : StoreError
  stock_hold_not_active order_managed_stock_hold : StoreError
  order_idempotency_conflict order_reference_unavailable order_not_editable : StoreError
  order_invalid_transition order_item_ineligible order_currency_mismatch : StoreError
  order_arithmetic_overflow order_confirmation_conflict order_empty : StoreError
  order_insufficient_sellable_inventory : StoreError
  payment_idempotency_conflict payment_order_ineligible payment_transition_not_allowed : StoreError
  verification_idempotency_conflict verification_not_applicable : StoreError
  provider_reference_required verification_state_conflict : StoreError
  delivery_idempotency_conflict delivery_already_exists delivery_order_unavailable : StoreError
  delivery_order_ineligible delivery_location_required delivery_invalid_transition : StoreError
  delivery_attempt_idempotency_conflict : StoreError
  membership_already_exists role_name_already_exists : StoreError
  unauthorized duplicate_phone onboarding_key_conflict existing_workspace : StoreError
  permission_catalog_unavailable onboarding_replay_unavailable : StoreError
  not_found verification_unavailable hold_expiry_not_in_future : StoreError
  sku_already_exists barcode_already_exists customer_phone_already_exists : StoreError

pub data Result {ℓ} (A : Type ℓ) : Type ℓ where
  ok : A → Result A
  err : StoreError → Result A

abbrev pub Store : Type 0 → Type 0
Store A = Db → Result A × Db

-- What PostgreSQL and the other requests supply: a new identifier (`uuidv7()`), the time of a
-- column's `now()` default, and the tables after what was committed while a lock was awaited.
pub record Env : Type 0 where
  pub fresh_id : Db → Uuid
  pub db_now : Db → Date
  pub waited : Db → Db

module _ {A : Type 0} where
  abbrev pub pure : A → Store A
  pure a db = (ok a, db)

  abbrev pub raise : StoreError → Store A
  raise e db = (err e, db)

  abbrev pub gets : (Db → A) → Store A
  gets f db = (ok (f db), db)

  -- `if (value === null) throw error`
  abbrev pub or_raise : Option A → StoreError → Store A
  or_raise none e = raise e
  or_raise (some a) e = pure a

  -- `client.$transaction(body)`
  abbrev pub transaction : Store A → Store A
  transaction m db = let (r, db') = m db in elim r [ ok a ↦ (ok a, db') | err e ↦ (err e, db) ]

infixl 5 ◌>>=◌ ◌>>◌
abbrev pub ◌>>=◌ : {A B : Type 0} → Store A → (A → Store B) → Store B
◌>>=◌ m f db = let (r, db') = m db in elim r [ ok a ↦ f a db' | err e ↦ (err e, db') ]

abbrev pub ◌>>◌ : {A B : Type 0} → Store A → Store B → Store B
m >> k = m >>= λ _. k

abbrev pub raise_if : Bool → StoreError → Store (Unit {0})
raise_if c e db = (if c then err e else ok tt, db)

abbrev pub modify : (Db → Db) → Store (Unit {0})
modify f db = (ok tt, f db)

-- `isUniqueViolation`: the error's code is P2002.
unfoldable pub is_unique_violation : StoreError → Bool
is_unique_violation (unique_violation k) = true
is_unique_violation _ = false

-- `isIdempotencyUniqueViolation`: moreover the constraint's name holds `idempotency`.
unfoldable pub is_idempotency_unique_violation : StoreError → Bool
is_idempotency_unique_violation (unique_violation idempotency_key) = true
is_idempotency_unique_violation (unique_violation confirmation_key) = true
is_idempotency_unique_violation _ = false

-- `try { … } catch (error) { if (!test(error)) throw error; … }`
abbrev pub catch_when :
    {A : Type 0} → (StoreError → Bool) → Store A → (StoreError → Store A) → Store A
catch_when test m handler db =
    let (r, db') = m db in
    elim r [ ok a ↦ (ok a, db') | err e ↦ if test e then handler e db' else (err e, db') ]

abbrev pub catch_unique : {A : Type 0} → Store A → Store A → Store A
catch_unique m handler = catch_when is_unique_violation m (λ _. handler)

abbrev pub catch_idempotency : {A : Type 0} → Store A → (StoreError → Store A) → Store A
catch_idempotency = catch_when is_idempotency_unique_violation

-- To split on how a call ends and keep the equation.
pub Outcome-cases :
    {A : Type 0} (r : Result A × Db)
    → ((a : A) × (db : Db) × (r ≡ (ok a, db))) ⊎ ((e : StoreError) × (db : Db) × (r ≡ (err e, db)))
Outcome-cases (ok a, db) = inl (a, db, refl)
Outcome-cases (err e, db) = inr (e, db, refl)

-- A guarded transaction that returns has returned, or its handler has from what it undid.
pub guarded-eq-ok :
    {A : Type 0} (test : StoreError → Bool) (m : Store A) (handler : StoreError → Store A) (db : Db)
    {a : A} {db' : Db}
    → catch_when test (transaction m) handler db ≡ (ok a, db')
    → (m db ≡ (ok a, db')) ⊎ ((x : StoreError) × (handler x db ≡ (ok a, db')))
guarded-eq-ok test m handler db {a} {db'} e = elim (Outcome-cases (m db)) [
  | inl (a', db₁, done) ↦ inl (ground (arith, done, e))
  | inr (x, db₁, refused) ↦ inr (
    x,
    elim (Bool-cases (test x)) [
      | inl caught ↦ ground (arith, refused, caught, e)
      | inr thrown ↦ absurd (ground (arith, refused, thrown, e))
    ],
  )
]

-- One that throws has written nothing, but for what its handler does.
pub guarded-eq-err :
    {A : Type 0} (test : StoreError → Bool) (m : Store A) (handler : StoreError → Store A) (db : Db)
    {x : StoreError} {db' : Db}
    → catch_when test (transaction m) handler db ≡ (err x, db')
    → (db' ≡ db) ⊎ ((y : StoreError) × (handler y db ≡ (err x, db')))
guarded-eq-err test m handler db {x} {db'} e = elim (Outcome-cases (m db)) [
  | inl (a', db₁, done) ↦ absurd (ground (arith, done, e))
  | inr (y, db₁, refused) ↦ elim (Bool-cases (test y)) [
    | inl caught ↦ inr (y, ground (arith, refused, caught, e))
    | inr thrown ↦ inl (ground (arith, refused, thrown, e))
  ]
]
