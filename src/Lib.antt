-- ===== src/Lib.antt =====
-- Verification library of the commerce API (apps/api): the stock that a merchant keeps and sells,
-- the orders that hold it, the payments against the orders, their deliveries, and who may do so.
--
-- Parts and files:
--   * Prelude (Tests, Lists, Table, Assoc, Texts): Boolean tests, tables as lists (find, filter,
--     update, sum), JavaScript's `Map` and its texts, with their lemmas.
--   * Schema: the rows of prisma/schema.prisma and the database `Db` as the record of its tables.
--   * Store: what a method of a Prisma store does. A method takes the committed tables to its
--     result, or the error that it throws, and to the tables that it leaves committed.
--   * Inventory: apps/api/src/inventory. Queries has the `where` clauses and sums, Allocation is
--     stock-hold-allocation.ts (`allocateStockHoldsInTransaction` is `allocate_stock_holds`),
--     Movement is `applyMovement`, Holds has `createStockHold`, `releaseStockHold`,
--     `updateStockHoldExpiry` and `expireDueStockHolds` of prisma-inventory.store.ts.
--     View is what `getInventory` and `mapHold` show; Service is `createHold` of
--     inventory.service.ts, which checks the expiry before it calls the store.
--   * Order: Drafts is `create` and `patch`, Desired and Items are `replaceItems` (what it computes,
--     and what it reads and writes), Lifecycle is `confirm` and `transition`, of
--     apps/api/src/orders/prisma-order.store.ts; the input of `replaceItems` is checked by
--     apps/api/src/orders/order-items.schema.ts. A confirmation allocates one hold for
--     each item, a cancellation ends them. Service is `confirm` of order.service.ts, which checks
--     the expiry before it calls the store.
--   * Payment: Transactions is `report`, `transition` and `summary` of
--     apps/api/src/payments/prisma-payment.store.ts, Summary is payment-summary.ts. Provider is
--     `completionFromResult` of provider-verification.service.ts, Verification is `begin` and
--     `complete` of prisma-provider-verification.store.ts, Service is `verify`, which calls them
--     before and after it asks a provider's adapter.
--   * Delivery: Jobs is `create` and `transition`, Attempts is `recordAttempt`, of
--     apps/api/src/deliveries/prisma-delivery.store.ts.
--   * Authorization: apps/api/src/authorization, from the tables (prisma-authorization.store.ts) to
--     the context (merchant-context.service.ts), its evaluation (permission-evaluator.ts) and the
--     answer of permission.guard.ts.
--   * AccessManagement: apps/api/src/access-management/prisma-access-management.store.ts; Roles has
--     its operations on roles and their permissions.
--   * Auth: login, authentication, logout and the guard of apps/api/src/auth (auth.service.ts,
--     prisma-auth.store.ts, session-auth.guard.ts), with the format of a token
--     (packages/security/src/session-token.ts).
--   * Onboarding: `register`, `createInitialWorkspace` and `workspaceStatus` of
--     apps/api/src/onboarding/onboarding.service.ts; Catalog is the permission catalogue of
--     apps/api/src/access-management, which permission-sync.ts writes.
--   * Catalogue: products, variants and prices, the operations on one row of
--     apps/api/src/catalogue/prisma-catalogue.store.ts; the input of a price is checked by
--     apps/api/src/catalogue/variant-price.schema.ts.
--   * Phone: apps/api/src/common/uganda-phone.ts.
--   * Tests: a small shop on which the theorems are run.
-- The children of these modules hold the proofs and are named for what they prove.
--
-- Concurrency: `$transaction` is atomic, and what throws in it undoes its writes. Where a method
-- reads before it locks a row, `env.waited` is what the other requests have committed once the
-- lock is granted; it is any function, so a theorem that uses it assumes only what its hypotheses
-- say of the tables after the wait. The other statements of a transaction are not interleaved
-- with those of another one, since they follow the lock of the rows they concern.
--
-- A method that looks a key up and then inserts a row sees no other key committed in between, but
-- where `env.waited` stands between the two. `updateRole` and `updateMembershipStatus` run two
-- statements outside a transaction, and nothing comes between them.
--
-- Parameters: identifiers and times that the database supplies (`Env`), the random keys and the
-- SHA-256 digests of holds (`Tokens`), the digests of requests (`RequestHash`,
-- `ConfirmationHash`, `HoldHash`), which rows SKIP LOCKED passes over, the database's collation
-- of names (`Collation`), the adapters of the payment providers (`Registry`), the functions of
-- packages/security and Node's cryptography with the lifetimes of the configuration (`Security`),
-- the digests of onboarding requests and the default currency of a merchant (`Requests`).
--
-- Numbers: quantities and amounts are natural numbers, as the request schemas and the CHECK
-- constraints make them; a difference that may be negative is compared as a sum. A movement whose
-- balance exceeds BIGINT is refused by the database, and so is such a price of a variant. All
-- loops run over lists, so no fuel is used.
--
-- Not modelled: the adapters of the payment providers; lists and pages; foreign keys, and CHECK
-- constraints other than BIGINT's range; equal identifiers for two rows; `updated_at` of orders,
-- holds, payments and deliveries; the HTTP layer, customers, a merchant's profile and settings, the
-- web application. A variant that breaks both of its unique keys is refused by the SKU's.
pub mod Prelude
pub mod Schema
pub mod Store
pub mod Inventory
pub mod Order
pub mod Payment
pub mod Delivery
pub mod Phone
pub mod Authorization
pub mod AccessManagement
pub mod Auth
pub mod Onboarding
pub mod Catalogue
pub mod Tests
