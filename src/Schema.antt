-- ===== src/Schema.antt =====
-- The rows that the stores read and write, after prisma/schema.prisma, and the database as the
-- record of its tables. Identifiers, idempotency keys, request hashes and currencies are only
-- compared, so they are numbers; dates are milliseconds. The columns `updated_at` of orders, holds,
-- payments and deliveries are left out, and so are the times of the tables of access control.
mod Types
mod Stock
mod Sales
mod Payments
mod Deliveries
mod Access
pub use Types.*
pub use Stock.*
pub use Sales.*
pub use Payments.*
pub use Deliveries.*
pub use Access.*
use tteeka.Prelude.{List}

pub record Db : Type 0 where
  pub variants : List Variant
  pub balances : List Balance
  pub ledger : List LedgerEntry
  pub holds : List Hold
  pub customers : List Customer
  pub locations : List Location
  pub orders : List Order
  pub items : List OrderItem
  pub payments : List Payment
  pub verifications : List VerificationAttempt
  pub deliveries : List DeliveryJob
  pub attempts : List DeliveryAttempt
  pub access : AccessTables
  pub catalogue : CatalogueTables
