-- ===== src/Queries.antt =====
-- postgre-setup/go/internal/db/generated: the statements that the services send, one module for
-- each file of queries.
pub mod Accounts
pub mod Transactions
pub mod Entries
pub mod Users
pub mod Grants
pub mod Rows
pub mod Laws
pub mod Reconcile
