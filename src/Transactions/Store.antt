-- ===== src/Transactions/Store.antt =====
-- The SQL statements of transactions/db/query as sqlc runs them (transactions/db/sqlc), on the
-- tables and constraints of transactions/db/migrations.
pub mod Columns
pub mod Merchants
pub mod Customers
pub mod Deposits
pub mod Payouts
