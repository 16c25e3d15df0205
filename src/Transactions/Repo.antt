-- ===== src/Transactions/Repo.antt =====
-- transactions/db/repo: each method runs one query and wraps its error.
pub mod Customers
pub mod Merchants
pub mod Deposits
pub mod Payouts
