-- ===== src/Store.antt =====
-- The database tables and their queries (internal/db).
pub mod Rows
pub mod Transaction
pub mod Create
pub mod Cancel
pub mod Accounts
pub mod RoundTrip
pub mod Complete
pub mod Expired
pub mod Lifecycle
mod Examples
